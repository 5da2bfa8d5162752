-- ===== src/Program/Reads.antt =====
-- What a round of `thread_input` does with a whole packet.
use mathlib.Core.Path.{subst}
use dvb_stream_v.Demux.Branches.{read-parsed, read-refused, read-overrun, on_packet-video}
use dvb_stream_v.Demux.Video.{take-drop-append, filled_lem, note_video_keeps}
use dvb_stream_v.Pts.{get_audio_pts}
use dvb_stream_v.Tcp.{gn_tcp_audio_put}
use dvb_stream_v.Base.{
  ℕ, zero, suc, ◌+◌, ◌-◌, ◌/◌, ◌%◌, ◌≤◌, ◌<◌, ◌≡◌, refl, sym, ap, ◌∙◌, inl, inr, true, false, ◌&&◌,
  ◌||◌, not, List, [], ◌∷◌, ◌++◌, arith, ltb, ◌==◌, if◌then◌else◌, ==→eq, Bool-cases, Option-cases,
  if_true, if_false, if_both, length, get_or, set, take, drop, drop-append,
}
use dvb_stream_v.Ts.{IsBytes, byte_at, parse_header, ts_packet_init, TsPacket}
use dvb_stream_v.Ts.Outcomes.{
  data_offset, bare, loaded, ts_packet_init-Outcome, on_error, on_no_payload, on_far_payload,
  on_payload,
}
use dvb_stream_v.Demux.{
  has_pts, store_five, restamp, put_audio, on_video, on_audio, on_packet, filled,
  decoder_read_ts_packet, Demux, Reading, ready, again, stuck, undefined,
}
use dvb_stream_v.Program.Input.{packet_bytes}

-- The video in a packet; `stale` is what the buffer holds behind the packet.
abbrev pub video_part : List ℕ → List ℕ → List ℕ
video_part stale bytes =
    if byte_at (bytes ++ stale) 3 / 16 % 2 == 1
    then drop (data_offset (bytes ++ stale)) bytes
    else []

drop-set : (n i v : ℕ) (xs : List ℕ) → i < n → drop n (set xs i v) ≡ drop n xs
drop-set zero i v xs h = absurd (omega arith)
drop-set (suc n) i v [] h = refl
drop-set (suc n) zero v (x ∷ xs) h = refl
drop-set (suc n) (suc i) v (x ∷ xs) h = drop-set n i v xs (omega arith)

-- A new time stamp is within the packet.
restamped_tail :
    (n : ℕ) (buf v : List ℕ)
    → 18 ≤ n
    → drop n (store_five (set (set buf 0x08 0) 0x09 0) 0x0d v) ≡ drop n buf
unfolding store_five
restamped_tail n buf v h =
    let b0 = set buf 0x08 0 in
    let b1 = set b0 0x09 0 in
    let b2 = set b1 0x0d (get_or v 0 0) in
    let b3 = set b2 0x0e (get_or v 1 0) in
    let b4 = set b3 0x0f (get_or v 2 0) in
    let b5 = set b4 0x10 (get_or v 3 0) in
    drop-set n 0x11 (get_or v 4 0) b5 (omega arith)
    ∙ drop-set n 0x10 (get_or v 3 0) b4 (omega arith)
    ∙ drop-set n 0x0f (get_or v 2 0) b3 (omega arith)
    ∙ drop-set n 0x0e (get_or v 1 0) b2 (omega arith)
    ∙ drop-set n 0x0d (get_or v 0 0) b1 (omega arith)
    ∙ drop-set n 0x09 0 b0 (omega arith)
    ∙ drop-set n 0x08 0 buf (omega arith)

restamp_tail : (n : ℕ) (p : TsPacket) (s : Demux) → 18 ≤ n → drop n (restamp p s).buf ≡ drop n s.buf
unfolding restamp
restamp_tail n p s h = elim (Bool-cases (p.pes_header.flag == 1)) [
  | inl e ↦ rw (e, restamp) (restamped_tail n s.buf (get_audio_pts s.audio_counter).1 h)
  | inr e ↦ rw (e, restamp) refl
]

-- A call that hands nothing to the decoder: it returns -1 and leaves the buffer from index `n` on as it
-- was, or does not return or is undefined.
pub data Passes (n : ℕ) (tail : List ℕ) (r : Reading) : Type 0 where
  passes : (d : Demux) → r ≡ again d → drop n d.buf ≡ tail → Passes n tail r
  sticks : r ≡ stuck → Passes n tail r
  breaks : r ≡ undefined → Passes n tail r

module _ (n : ℕ) (long : 18 ≤ n) where
  put_audio-Passes : (tail : List ℕ) (s : Demux) → drop n s.buf ≡ tail → Passes n tail (put_audio s)
  unfolding put_audio
  put_audio-Passes tail s h = elim (Option-cases (gn_tcp_audio_put s.buf s.tcp)) [
    | inl e ↦ rw (e, put_audio) (sticks refl)
    | inr (t, e) ↦ rw (e, put_audio) (passes (record s { tcp = t }) refl h)
  ]

  on_audio-Passes : (p : TsPacket) (s : Demux) → Passes n (drop n s.buf) (on_audio p s)
  unfolding on_audio
  on_audio-Passes p s =
      let P = Passes n (drop n s.buf) in
      let opened : Demux = record s { is_write_audio = true } in
      let dropped = passes s refl refl in
      if_both P (not s.is_have_video) dropped (
        if_both P s.is_write_audio
          (put_audio-Passes (drop n s.buf) (restamp p s) (restamp_tail n p s long))
          (if_both P (has_pts p && ltb s.video_pts (get_or p.pes_header.pts 2 0))
            (put_audio-Passes (drop n s.buf) (restamp p opened) (restamp_tail n p opened long))
            dropped))

  -- A packet on another PID than the video's.
  on_packet-Passes :
      (pid : ℕ) (p : TsPacket) (s : Demux)
      → (p.ts_header.pid == pid) ≡ false
      → Passes n (drop n s.buf) (on_packet pid p s)
  unfolding on_packet
  on_packet-Passes pid p s other =
      let P = Passes n (drop n s.buf) in
      let queued = put_audio-Passes (drop n s.buf) s refl in
      subst P (sym (if_false (p.ts_header.pid == pid) (on_video p s) _ other)) (
        if_both P (p.ts_header.pid == pid + 1) (on_audio-Passes p s) (
          if_both P (p.ts_header.pid + 1 == pid || p.ts_header.pid == 0) queued
            (passes s refl refl)))

-- What a round does: the packet is no video, or its video is ready, or the round does not come to an end.
-- What lies in the buffer behind the packet stays.
pub data Reads (pid : ℕ) (stale bytes : List ℕ) (r : Reading) : Type 0 where
  not_video :
      ((parse_header (bytes ++ stale)).pid == pid) ≡ false
      → Passes 188 stale r
      → Reads pid stale bytes r
  is_video :
      (d : Demux)
      → ((parse_header (bytes ++ stale)).pid == pid) ≡ true
      → r ≡ ready d
      → packet_bytes d ≡ video_part stale bytes
      → drop 188 d.buf ≡ stale
      → Reads pid stale bytes r
  ends_here : r ≡ undefined → Reads pid stale bytes r

module _ (pid : ℕ) (bytes stale : List ℕ) (whole : length bytes ≡ 188) where
  -- A packet that has been parsed goes its way by its PID.
  parsed-Reads :
      (p : TsPacket) (t : Demux)
      → t.buf ≡ bytes ++ stale
      → p.ts_header ≡ parse_header (bytes ++ stale)
      → take p.payload.size (drop p.payload.payload_offset (bytes ++ stale))
        ≡ video_part stale bytes
      → Reads pid stale bytes (on_packet pid p t)
  unfolding on_packet
  parsed-Reads p t filled_up header part =
      let behind : drop 188 t.buf ≡ stale =
        ap (drop 188) filled_up ∙ drop-append 188 bytes stale whole in
      let same_pid : (p.ts_header.pid == pid) ≡ ((parse_header (bytes ++ stale)).pid == pid) =
        ap (λ h. h.pid == pid) header in
      let (kept, _, _, _) = note_video_keeps p t in
      elim (Bool-cases (p.ts_header.pid == pid)) [
        | inl video ↦
            is_video _ (sym same_pid ∙ video) (on_packet-video pid p t (==→eq _ _ video))
              (ap (λ b. take p.payload.size (drop p.payload.payload_offset b)) (kept ∙ filled_up)
                ∙ part)
              (ap (drop 188) kept ∙ behind)
        | inr other ↦ not_video (sym same_pid ∙ other) (
            subst (λ tail. Passes 188 tail (on_packet pid p t)) behind
              (on_packet-Passes 188 (omega arith) pid p t other))
      ]

  pub read-Reads :
      (s : Demux)
      → drop 188 s.buf ≡ stale
      → IsBytes (bytes ++ stale)
      → Reads pid stale bytes (decoder_read_ts_packet pid bytes s)
  read-Reads s tail h =
      let t = filled bytes s in
      let filled_up : t.buf ≡ bytes ++ stale = filled_lem bytes s whole ∙ ap (◌++◌ bytes) tail in
      elim (ts_packet_init-Outcome (bytes ++ stale) h) [
        | on_error bad e ↦
            ends_here (read-refused pid bytes s (omega arith) (ap ts_packet_init filled_up ∙ e))
        | on_no_payload ok empty e ↦
            let none_there : (byte_at (bytes ++ stale) 3 / 16 % 2 == 1) ≡ false = rw empty refl in
            subst (Reads pid stale bytes)
              (sym (
                read-parsed pid bytes s (bare (bytes ++ stale)) (omega arith)
                  (ap ts_packet_init filled_up ∙ e)))
              (parsed-Reads (bare (bytes ++ stale)) t filled_up refl
                (sym (if_false _ (drop (data_offset (bytes ++ stale)) bytes) [] none_there)))
        | on_far_payload ok pay far e ↦
            ends_here (read-overrun pid bytes s (omega arith) (ap ts_packet_init filled_up ∙ e))
        | on_payload ok pay near e ↦
            let d = data_offset (bytes ++ stale) in
            let some_there : (byte_at (bytes ++ stale) 3 / 16 % 2 == 1) ≡ true = rw pay refl in
            subst (Reads pid stale bytes)
              (sym (
                read-parsed pid bytes s (loaded (bytes ++ stale)) (omega arith)
                  (ap ts_packet_init filled_up ∙ e)))
              (parsed-Reads (loaded (bytes ++ stale)) t filled_up refl (
                take-drop-append d (188 - d) bytes stale (omega arith)
                ∙ sym (if_true _ (drop d bytes) [] some_there)))
      ]
