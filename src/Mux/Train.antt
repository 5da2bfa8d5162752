-- ===== src/Mux/Train.antt =====
-- The headers of the packets that `h264_to_ts` sends, as the parser reads them.
use dvb_stream_v.Base.{
  ℕ, zero, suc, ◌+◌, ◌*◌, ◌/◌, ◌%◌, ◌^◌, ◌<◌, ◌≡◌, refl, List, [], ◌∷◌, arith, ltb, if◌then◌else◌,
  length, take, drop, length-take, length-drop,
}
use dvb_stream_v.Ts.{ts_packet_size, ts_sync_byte, byte_at, parse_header}
use dvb_stream_v.Ts.Fields.{Layout-bytes, Layout}
use dvb_stream_v.Mux.Round.{packet_of}
use dvb_stream_v.Mux.Loop.{chunks, packets_of, length-packet_of}

-- The headers of a train of packets: 188 bytes, sync byte, no error, the PID, the start bit in the
-- first packet only, and a counter that goes on by one from packet to packet, modulo 16.
abbrev pub Train : ℕ → ℕ → ℕ → List (List ℕ) → Type 0
Train pid start count [] = Unit
Train pid start count (p ∷ ps) =
    (length p ≡ ts_packet_size)
    × (byte_at p 0 ≡ ts_sync_byte)
    × ((parse_header p).transport_error_indicator ≡ 0)
    × ((parse_header p).pid ≡ pid)
    × ((parse_header p).payload_unit_start_indicator ≡ start)
    × ((parse_header p).continuity_counter ≡ (count + 1) % 16)
    × Train pid 0 ((count + 1) % 16) ps

-- The four bytes of a header are bytes, and say what the fields are.
pub packet_of-fields :
    (pid start counter : ℕ) (chunk : List ℕ)
    → pid < 2 ^ 13
    → start < 2
    → counter < 16
    → Layout
        (start * 64 + pid / 256)
        (pid % 256)
        ((if ltb (length chunk) 184 then 3 else 1) * 16 + counter)
        (parse_header (packet_of pid start counter chunk))
packet_of-fields pid start counter chunk fits s c =
    let control : (if ltb (length chunk) 184 then 3 else 1) < 4 = ground arith in
    Layout-bytes (packet_of pid start counter chunk) (omega arith) (omega arith) (omega arith)

pub Train_lem :
    (fuel pid start count : ℕ) (xs : List ℕ)
    → pid < 2 ^ 13
    → start < 2
    → Train pid start count (packets_of pid start count (chunks fuel xs))
unfolding packets_of chunks
Train_lem zero pid start count xs fits s = tt
Train_lem (suc fuel) pid start count [] fits s = tt
Train_lem (suc fuel) pid start count (x ∷ xs) fits s =
    let chunk = take 184 (x ∷ xs) in
    let counter = (count + 1) % 16 in
    let control : (if ltb (length chunk) 184 then 3 else 1) < 4 = ground arith in
    let f = packet_of-fields pid start counter chunk fits s (omega arith) in
    (
      length-packet_of pid start counter chunk (omega (arith, length-take 184 (x ∷ xs))),
      refl,
      omega (arith, f.error_bit),
      omega (arith, f.pid_bits),
      omega (arith, f.start_bit),
      omega (arith, f.counter_bits),
      Train_lem fuel pid 0 counter (drop 184 (x ∷ xs)) fits (omega arith),
    )

-- One packet for every 184 bytes begun.
pub length-packets_of :
    (fuel pid start count : ℕ) (xs : List ℕ)
    → length xs < fuel
    → length (packets_of pid start count (chunks fuel xs)) ≡ (length xs + 183) / 184
unfolding packets_of chunks
length-packets_of zero pid start count xs h = absurd (omega arith)
length-packets_of (suc fuel) pid start count [] h = refl
length-packets_of (suc fuel) pid start count (x ∷ xs) h =
    let ih =
      length-packets_of fuel pid 0 ((count + 1) % 16) (drop 184 (x ∷ xs))
        (omega (arith, length-drop 184 (x ∷ xs))) in
    omega (arith, ih, length-drop 184 (x ∷ xs))
