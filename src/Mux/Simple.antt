-- ===== src/Mux/Simple.antt =====
-- `h264_to_ts` of simple/conver_format.c, which has its own step of the time stamps and its own PID.
use dvb_stream_v.Base.{
  ℕ, ◌+◌, ◌/◌, ◌%◌, ◌^◌, ◌≤◌, ◌<◌, ◌≡◌, refl, sym, ap, ◌∙◌, some, List, arith, length, replicate,
}
use dvb_stream_v.Pts.{advance, simple_offset, simple_get_pts}
use dvb_stream_v.Ts.{ts_packet_size}
use dvb_stream_v.Mux.{packets, send_pes, simple_h264_to_ts, Statics, Emitted, Rounds}
use dvb_stream_v.Mux.Loop.{chunks, count_after, packets_in, packets_lem}
use dvb_stream_v.Mux.Payload.{payloads, payloads_lem}
use dvb_stream_v.Mux.Train.{Train, Train_lem, length-packets_of}
use dvb_stream_v.Mux.Stream.{access_unit, assemble_lem, length-access_unit, count_after_lem}

module _ (stray : ℕ) (s : Statics) (packet header : List ℕ) where
  abbrev stamp : ℕ
  stamp = advance simple_offset s.pts

  abbrev unit_bytes : List ℕ
  unit_bytes = access_unit stamp packet header

  abbrev rounds : ℕ
  rounds = length unit_bytes + 1

  abbrev from_start : Rounds
  from_start = record { rounds = 0; p = 0; cells = replicate ts_packet_size 0; count = s.count }

  result_lem :
      (es : List Emitted) (count : ℕ)
      → 5 ≤ length packet
      → packets stray 4001 unit_bytes rounds from_start ≡ some (es, count)
      → simple_h264_to_ts stray s packet header ≡ some (es, record { count = count; pts = stamp })
  unfolding simple_h264_to_ts simple_get_pts send_pes
  result_lem es count whole e =
      rw (assemble_lem stray stamp packet header whole, simple_h264_to_ts) (rw e refl)

  -- For an access unit of at least five bytes that with the stream header has fewer than 2^30, and a
  -- continuity counter below 16, `h264_to_ts`
  -- of simple/ returns. Its packets have PID 4001, the sync byte, no error bit, the start bit in the first
  -- alone and counters that go on from the previous call; their payloads make up the PES packet of the
  -- unit with the next time stamp, which is the one before advanced by 3000 in `float` (`advance`); and there
  -- is one packet for every 184 bytes begun.
  pub simple_h264_to_ts_lem :
      5 ≤ length packet
      → length header + length packet < 2 ^ 30
      → s.count < 16
      → (es : List Emitted) × (s' : Statics) × (simple_h264_to_ts stray s packet header
          ≡ some (es, s'))
        × Train 4001 1 s.count (packets_in es)
        × (payloads (packets_in es) ≡ access_unit (advance simple_offset s.pts) packet header)
        × (length (packets_in es) ≡ (length unit_bytes + 183) / 184)
        × (s'.pts ≡ advance simple_offset s.pts)
        × (s'.count ≡ (s.count + length (packets_in es)) % 16)
  simple_h264_to_ts_lem whole small counter =
      let short : length unit_bytes < 2 ^ 31 =
        (let l = length-access_unit stamp packet header in ground arith) in
      let (es, e, sends) =
        packets_lem stray 4001 unit_bytes rounds from_start short (omega arith) refl (omega arith)
          (omega arith) in
      let fuel : length unit_bytes < rounds = omega arith in
      (
        es,
        record { count = count_after s.count (chunks rounds unit_bytes); pts = stamp },
        result_lem es _ whole e,
        rw sends.sent (Train_lem rounds 4001 1 s.count unit_bytes (omega arith) (omega arith)),
        ap payloads sends.sent ∙ payloads_lem rounds 4001 1 s.count unit_bytes fuel,
        ap length sends.sent ∙ length-packets_of rounds 4001 1 s.count unit_bytes fuel,
        refl,
        count_after_lem 4001 1 s.count (chunks rounds unit_bytes) counter
            ∙ ap (λ k. (s.count + k) % 16) (ap length (sym sends.sent)),
      )
