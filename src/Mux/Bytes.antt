-- ===== src/Mux/Bytes.antt =====
-- The values of the cells that `h264_to_ts` sends.
use dvb_stream_v.Base.{
  ℕ, zero, suc, ◌+◌, ◌-◌, ◌%◌, ◌^◌, ◌≤◌, ◌<◌, ◌≡◌, refl, inl, inr, some, List, [], ◌∷◌, ◌++◌, arith,
  ltb, ◌==◌, if◌then◌else◌, Bool-cases, length, take, drop, replicate, All, All-append, All-drop,
  All-take,
}
use dvb_stream_v.Ts.{IsByte, IsBytes, byte_at}
use dvb_stream_v.Ts.Fields.{all_bytes_sound}
use dvb_stream_v.Pts.Codec.{stamp_layout}
use dvb_stream_v.Mux.{h264_to_ts, Statics, Emitted}
use dvb_stream_v.Mux.Round.{stuffing_bytes, packet_of}
use dvb_stream_v.Mux.Loop.{chunks, packets_of, packets_in}
use dvb_stream_v.Mux.Stream.{access_unit, stamp, unit_bytes, sent_lem}

replicate-IsBytes : (n v : ℕ) → IsByte v → IsBytes (replicate n v)
replicate-IsBytes zero v h = tt
replicate-IsBytes (suc n) v h = (h, replicate-IsBytes n v h)

stuffing_bytes-IsBytes : (k : ℕ) → k ≤ 184 → IsBytes (stuffing_bytes k)
stuffing_bytes-IsBytes zero h = tt
stuffing_bytes-IsBytes (suc zero) h = (omega arith, tt)
stuffing_bytes-IsBytes (suc (suc k)) h =
    (omega arith, (omega arith, replicate-IsBytes k 0xff (omega arith)))

pub packet_of-IsBytes :
    (pid start counter : ℕ) (chunk : List ℕ)
    → pid < 2 ^ 13
    → start < 2
    → counter < 16
    → IsBytes chunk
    → IsBytes (packet_of pid start counter chunk)
packet_of-IsBytes pid start counter chunk fits s c bytes =
    let control : (if ltb (length chunk) 184 then 3 else 1) < 4 = ground arith in
    let after =
      All-append IsByte (stuffing_bytes (184 - length chunk)) chunk
        (stuffing_bytes-IsBytes (184 - length chunk) (omega arith)) bytes in
    (omega arith, (omega arith, (omega arith, (omega arith, after))))

packets_of-IsBytes :
    (fuel pid start count : ℕ) (xs : List ℕ)
    → pid < 2 ^ 13
    → start < 2
    → IsBytes xs
    → All IsBytes (packets_of pid start count (chunks fuel xs))
unfolding packets_of chunks
packets_of-IsBytes zero pid start count xs fits s h = tt
packets_of-IsBytes (suc fuel) pid start count [] fits s h = tt
packets_of-IsBytes (suc fuel) pid start count (x ∷ xs) fits s h = (
  packet_of-IsBytes pid start ((count + 1) % 16) (take 184 (x ∷ xs)) fits s (omega arith)
      (All-take IsByte 184 (x ∷ xs) h),
  packets_of-IsBytes fuel pid 0 ((count + 1) % 16) (drop 184 (x ∷ xs)) fits (omega arith)
      (All-drop IsByte 184 (x ∷ xs) h),
)

pub stamp_layout-IsBytes : (pts : ℕ) → IsBytes (stamp_layout pts)
stamp_layout-IsBytes pts =
    (omega arith, (omega arith, (omega arith, (omega arith, (omega arith, tt)))))

pub access_unit-IsBytes :
    (pts : ℕ) (packet header : List ℕ)
    → IsBytes packet
    → IsBytes header
    → IsBytes (access_unit pts packet header)
access_unit-IsBytes pts packet header plain sps =
    let unit = (if byte_at packet 4 == 0x25 then header else []) ++ packet in
    let in_front : IsBytes (if byte_at packet 4 == 0x25 then header else []) =
      elim (Bool-cases (byte_at packet 4 == 0x25)) [ inl e ↦ rw e sps | inr e ↦ rw e tt ] in
    let all : IsBytes unit = All-append IsByte _ packet in_front plain in
    let front = 0 ∷ 0 ∷ 1 ∷ 0xe0 ∷ 0 ∷ 0 ∷ 0x80 ∷ 0x80 ∷ 5 ∷ [] in
    let delimiter = 0 ∷ 0 ∷ 0 ∷ 1 ∷ 9 ∷ 0xf0 ∷ [] in
    let behind = All-append IsByte delimiter unit (all_bytes_sound delimiter refl) all in
    All-append IsByte front (stamp_layout pts ++ (delimiter ++ unit)) (all_bytes_sound front refl)
      (All-append IsByte (stamp_layout pts) (delimiter ++ unit) (stamp_layout-IsBytes pts) behind)

-- For a PID of 13 bits, and an access unit of at least five bytes that with the stream header has fewer
-- than 2^30: if the unit and the stream header consist of bytes, so does every packet that a call sends,
-- whatever the bytes behind the buffer are.
pub h264_to_ts-IsBytes :
    (stray pid : ℕ) (s : Statics) (packet header : List ℕ)
    → pid < 2 ^ 13
    → 5 ≤ length packet
    → length header + length packet < 2 ^ 30
    → IsBytes packet
    → IsBytes header
    → (es : List Emitted) (s' : Statics) → h264_to_ts stray pid s packet header ≡ some (es, s')
    → All IsBytes (packets_in es)
h264_to_ts-IsBytes stray pid s packet header fits whole small plain sps es s' result =
    let sent = sent_lem stray pid s packet header fits whole small es s' result in
    let unit = unit_bytes stray pid s packet header in
    rw sent.train (
      packets_of-IsBytes (length unit + 1) pid 1 s.count unit fits (omega arith)
        (access_unit-IsBytes (stamp stray pid s packet header) packet header plain sps))
