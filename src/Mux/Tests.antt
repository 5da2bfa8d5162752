-- ===== src/Mux/Tests.antt =====
-- A call of `h264_to_ts` on a small IDR access unit, and one on a unit of two packets.

use dvb_stream_v.Ts.{parse_header, ts_packet_init, TsHeader, TsPacket, parsed}
use dvb_stream_v.Mux.Header.{parse_header-put_ts_header, IsHeader}
use dvb_stream_v.Pts.{advance, video_offset, simple_offset, pts_bytes, get_pts, tcp_get_pts}
use dvb_stream_v.Base.{
  ℕ, ◌+◌, ◌/◌, ◌%◌, ◌^◌, ◌≡◌, refl, some, List, [], ◌∷◌, ◌++◌, arith, length, take, drop, replicate,
  All,
}
use dvb_stream_v.Mux.{
  put_ts_header, initial_header, store, store_all, stuff, round_header, round, packets, h264_to_ts,
  simple_h264_to_ts, Statics, Emitted,
}
use dvb_stream_v.Mux.Payload.{payloads}
use dvb_stream_v.Mux.Reread.{ts_packet_init-h264_to_ts}
use dvb_stream_v.Ts.Fields.{all_bytes_sound}
use dvb_stream_v.Mux.Simple.{simple_h264_to_ts_lem}
use dvb_stream_v.Mux.{
  put_ts_header, initial_header, store, store_all, stuff, round_header, round, packets, h264_to_ts,
  simple_h264_to_ts, Statics, Emitted,
}
use dvb_stream_v.Mux.Loop.{SpillsOne, packets_in}
use dvb_stream_v.Pts.{advance, video_offset, simple_offset, pts_bytes, get_pts, tcp_get_pts}
use dvb_stream_v.Base.{
  ℕ, ◌+◌, ◌/◌, ◌%◌, ◌^◌, ◌≡◌, refl, some, List, [], ◌∷◌, ◌++◌, arith, length, take, drop, replicate,
  All,
}
use dvb_stream_v.Mux.Train.{Train}
use dvb_stream_v.Mux.Loop.{SpillsOne, packets_in}
use dvb_stream_v.Mux.Stream.{
  access_unit, h264_to_ts_returns, payloads-h264_to_ts, Train-h264_to_ts, h264_to_ts_overruns,
}

abbrev start : Statics
start = record { count = 0; pts = 0 }

abbrev after : Statics
after = record { count = 1; pts = 3003 }

-- An IDR slice, and the stream header that goes before it.
abbrev slice : List ℕ
slice = 0 ∷ 0 ∷ 0 ∷ 1 ∷ 0x25 ∷ 1 ∷ 2 ∷ []

abbrev sps : List ℕ
sps = 0 ∷ 0 ∷ 0 ∷ 1 ∷ 0x27 ∷ []

-- Its only packet: an adaptation field of 151 bytes fills it up.
abbrev only_packet : List ℕ
only_packet =
    (0x47 ∷ 0x41 ∷ 0x01 ∷ 0x31 ∷ 151 ∷ 0 ∷ []) ++ (replicate 150 0xff ++ access_unit 3003 slice sps)

abbrev emitted : List Emitted
emitted = record { packet = only_packet; spilled = (188, 7) ∷ [] } ∷ []

only_call : h264_to_ts 7 257 start slice sps ≡ some (emitted, after)
unfolding h264_to_ts packets round stuff store store_all put_ts_header round_header get_pts
    pts_bytes
only_call = refl

-- A header that starts a payload, with the counter about to wrap.
abbrev first_header : TsHeader
first_header = record (initial_header 257) { payload_unit_start_indicator = 1 }

first_header-IsHeader : IsHeader first_header
first_header-IsHeader = record {
  error_fits = omega arith;
  start_fits = omega arith;
  priority_fits = omega arith;
  pid_fits = omega arith;
  scrambling_fits = omega arith;
  adaptation_fits = omega arith;
}

parse_header-put_ts_header_example :
    parse_header ((put_ts_header 15 first_header).1 ++ [])
    ≡ record first_header { sync_byte = 0; continuity_counter = 0 }
parse_header-put_ts_header_example =
    parse_header-put_ts_header 15 first_header [] first_header-IsHeader

h264_to_ts_returns_example :
    (es : List Emitted) × (s' : Statics) × (h264_to_ts 7 257 start slice sps ≡ some (es, s'))
h264_to_ts_returns_example =
    h264_to_ts_returns 7 257 start slice sps (omega arith) (omega arith) (omega arith)

payloads-h264_to_ts_example : payloads (only_packet ∷ []) ≡ access_unit 3003 slice sps
unfolding advance
payloads-h264_to_ts_example =
    payloads-h264_to_ts 7 257 start slice sps (omega arith) (omega arith) (omega arith) emitted
      after only_call

Train-h264_to_ts_example : Train 257 1 0 (only_packet ∷ [])
Train-h264_to_ts_example =
    Train-h264_to_ts 7 257 start slice sps (omega arith) (omega arith) (omega arith) emitted after
      only_call

h264_to_ts_overruns_example : All SpillsOne emitted
h264_to_ts_overruns_example =
    h264_to_ts_overruns 7 257 start slice sps (omega arith) (omega arith) (omega arith) emitted
      after only_call

simple_h264_to_ts_lem_example :
    (es : List Emitted) × (s' : Statics) × (simple_h264_to_ts 7 start slice sps ≡ some (es, s'))
    × Train 4001 1 0 (packets_in es)
    × (payloads (packets_in es) ≡ access_unit (advance simple_offset 0) slice sps)
    × (length (packets_in es)
        ≡ (length (access_unit (advance simple_offset 0) slice sps) + 183) / 184)
    × (s'.pts ≡ advance simple_offset 0)
    × (s'.count ≡ (0 + length (packets_in es)) % 16)
simple_h264_to_ts_lem_example =
    simple_h264_to_ts_lem 7 start slice sps (omega arith) (omega arith) (omega arith)

ts_packet_init-h264_to_ts_example :
    (p : List ℕ) × (ps : List (List ℕ)) × (q : TsPacket) × (packets_in emitted ≡ p ∷ ps)
    × (ts_packet_init p ≡ parsed q)
    × (q.ts_header.pid ≡ 257)
    × (q.ts_header.payload_unit_start_indicator ≡ 1)
    × (q.pes_header.stream_id ≡ 0xe0)
    × (tcp_get_pts q.pes_header.pts ≡ advance video_offset 0 % 2 ^ 33)
    × (take q.payload.size q.payload.bytes
        ≡ take 170 (drop 14 (access_unit (advance video_offset 0) slice sps)))
ts_packet_init-h264_to_ts_example =
    ts_packet_init-h264_to_ts 7 257 start slice sps (omega arith) (omega arith) (omega arith)
      (all_bytes_sound slice refl) (all_bytes_sound sps refl) emitted after only_call
