-- ===== src/Demux/Stamp.antt =====
-- What `decoder_read_ts_packet` writes over an audio packet, as a list.

use dvb_stream_v.Pts.Codec.{pts_bytes_layout, tcp_get_pts-pts_bytes}
use dvb_stream_v.Base.{
  ℕ, ◌%◌, ◌^◌, ◌≤◌, ◌≡◌, refl, ap, ◌∙◌, true, List, [], ◌∷◌, ◌++◌, arith, ◌==◌, eq→==, length, set,
  take, drop, All-append, All-drop, All-take,
}
use dvb_stream_v.Ts.{IsByte, IsBytes, byte_at, parse_header, TsPacket}
use dvb_stream_v.Pts.{advance, audio_offset, pts_bytes, get_audio_pts, tcp_get_pts}
use dvb_stream_v.Demux.{store_five, restamp, Demux}

-- The first six elements of a list.
abbrev First6 : List ℕ → Type 0
First6 xs =
    (a : ℕ) × (b : ℕ) × (c : ℕ) × (d : ℕ) × (e : ℕ) × (f : ℕ) × (rest : List ℕ) × (xs
      ≡ a ∷ b ∷ c ∷ d ∷ e ∷ f ∷ rest)

first6 : (xs : List ℕ) → 6 ≤ length xs → First6 xs
first6 (a ∷ b ∷ c ∷ d ∷ e ∷ f ∷ rest) h = (a, b, c, d, e, f, rest, refl)
first6 (a ∷ b ∷ c ∷ d ∷ e ∷ []) h = absurd (omega arith)
first6 (a ∷ b ∷ c ∷ d ∷ []) h = absurd (omega arith)
first6 (a ∷ b ∷ c ∷ []) h = absurd (omega arith)
first6 (a ∷ b ∷ []) h = absurd (omega arith)
first6 (a ∷ []) h = absurd (omega arith)
first6 [] h = absurd (omega arith)

-- What is written over an audio packet, as a list: nothing before byte 8, zeros at 8 and 9, nothing up
-- to byte 12, the five bytes of the stamp, and nothing behind them.
abbrev pub over_stamp : List ℕ → List ℕ → List ℕ
over_stamp stamp buf = take 8 buf ++ (0 ∷ 0 ∷ take 3 (drop 10 buf)) ++ (stamp ++ drop 18 buf)

store_lem :
    (a b c d e : ℕ) (buf : List ℕ)
    → 18 ≤ length buf
    → store_five (set (set buf 8 0) 9 0) 0x0d (a ∷ b ∷ c ∷ d ∷ e ∷ [])
      ≡ over_stamp (a ∷ b ∷ c ∷ d ∷ e ∷ []) buf
unfolding store_five
store_lem a b c d e buf h =
    let (a0, a1, a2, a3, a4, a5, xs, p) = first6 buf (omega arith) in
    let long : 12 ≤ length xs = omega (arith, ap length p) in
    let (b0, b1, b2, b3, b4, b5, ys, q) = first6 xs (omega arith) in
    let more : 6 ≤ length ys = omega (arith, ap length q) in
    let (c0, c1, c2, c3, c4, c5, zs, r) = first6 ys more in rw (p, q, r) refl

drop-over_stamp :
    (counter : ℕ) (buf : List ℕ)
    → 18 ≤ length buf
    → tcp_get_pts (drop 0x0d (over_stamp (pts_bytes counter) buf))
      ≡ tcp_get_pts (pts_bytes counter ++ drop 18 buf)
drop-over_stamp counter buf h =
    let (a0, a1, a2, a3, a4, a5, xs, p) = first6 buf (omega arith) in
    let long : 12 ≤ length xs = omega (arith, ap length p) in
    let (b0, b1, b2, b3, b4, b5, ys, q) = first6 xs (omega arith) in
    let more : 6 ≤ length ys = omega (arith, ap length q) in
    let (c0, c1, c2, c3, c4, c5, zs, r) = first6 ys more in rw (p, q, r) refl

-- What is written over the buffer, whatever is in it.
pub restamp_bytes :
    (p : TsPacket) (s : Demux)
    → p.pes_header.flag ≡ 1
    → 18 ≤ length s.buf
    → ((restamp p s).audio_counter ≡ advance audio_offset s.audio_counter)
      × (tcp_get_pts (drop 0x0d (restamp p s).buf) ≡ (restamp p s).audio_counter % 2 ^ 33)
      × ((restamp p s).buf ≡ over_stamp (pts_bytes (restamp p s).audio_counter) s.buf)
unfolding restamp get_audio_pts
restamp_bytes p s flag long =
    let counter = advance audio_offset s.audio_counter in
    let yes_flag : (p.pes_header.flag == 1) ≡ true = eq→== _ _ flag in
    let after : (restamp p s).buf ≡ over_stamp (pts_bytes counter) s.buf =
      rw (yes_flag, restamp) (rw (pts_bytes_layout counter) (store_lem _ _ _ _ _ s.buf long)) in
    let next : (restamp p s).audio_counter ≡ counter = rw (yes_flag, restamp) refl in
    (
      next,
      rw (after, next)
          (drop-over_stamp counter s.buf long ∙ tcp_get_pts-pts_bytes counter (drop 18 s.buf)),
      rw next after,
    )

-- What a change of bytes 8, 9 and 13 to 17 leaves as it was.
pub record Same (buf buf' : List ℕ) : Type 0 where
  pub header : parse_header buf' ≡ parse_header buf
  pub byte_1 : byte_at buf' 1 ≡ byte_at buf 1
  pub byte_3 : byte_at buf' 3 ≡ byte_at buf 3
  pub byte_4 : byte_at buf' 4 ≡ byte_at buf 4
  pub byte_5 : byte_at buf' 5 ≡ byte_at buf 5
  pub byte_6 : byte_at buf' 6 ≡ byte_at buf 6
  pub byte_7 : byte_at buf' 7 ≡ byte_at buf 7
  pub byte_11 : byte_at buf' 11 ≡ byte_at buf 11
  pub byte_12 : byte_at buf' 12 ≡ byte_at buf 12
  pub no_length : (byte_at buf' 8 ≡ 0) × (byte_at buf' 9 ≡ 0)

pub over_stamp-Same :
    (stamp buf : List ℕ) → 18 ≤ length buf → length stamp ≡ 5 → Same buf (over_stamp stamp buf)
unfolding parse_header
over_stamp-Same stamp buf h five =
    let (a0, a1, a2, a3, a4, a5, xs, p) = first6 buf (omega arith) in
    let long : 12 ≤ length xs = omega (arith, ap length p) in
    let (b0, b1, b2, b3, b4, b5, ys, q) = first6 xs (omega arith) in
    let more : 6 ≤ length ys = omega (arith, ap length q) in
    let (c0, c1, c2, c3, c4, c5, zs, r) = first6 ys more in
    rw (p, q, r)
      (record {
        header = refl;
        byte_1 = refl;
        byte_3 = refl;
        byte_4 = refl;
        byte_5 = refl;
        byte_6 = refl;
        byte_7 = refl;
        byte_11 = refl;
        byte_12 = refl;
        no_length = (refl, refl);
      })

pub over_stamp-IsBytes :
    (stamp buf : List ℕ) → IsBytes stamp → IsBytes buf → IsBytes (over_stamp stamp buf)
over_stamp-IsBytes stamp buf new old =
    let middle = take 3 (drop 10 buf) in
    All-append IsByte (take 8 buf ++ (0 ∷ 0 ∷ middle)) (stamp ++ drop 18 buf)
      (All-append IsByte (take 8 buf) (0 ∷ 0 ∷ middle) (All-take IsByte 8 buf old)
        (omega arith, (omega arith, All-take IsByte 3 (drop 10 buf) (All-drop IsByte 10 buf old))))
      (All-append IsByte stamp (drop 18 buf) new (All-drop IsByte 18 buf old))
