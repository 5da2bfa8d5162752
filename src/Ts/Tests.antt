-- ===== src/Ts/Tests.antt =====
-- Runs of the parser of mycode/ts_packet.c on concrete packets.
use dvb_stream_v.Base.{ℕ, ◌≡◌, refl, List, [], ◌∷◌, ◌++◌, arith, replicate}
use dvb_stream_v.Ts.{IsBytes, parse_header, ts_packet_init, Parsed, parsed, overrun}
use dvb_stream_v.Ts.Fields.{parse_header-Layout, all_bytes_sound, Layout}
use dvb_stream_v.Ts.Outcomes.{ts_packet_init-Outcome, long_adaptation_overruns, Outcome}

-- The first packet of a video PES on PID 257, with a time stamp and no adaptation field.
abbrev video_packet : List ℕ
video_packet =
    (0x47 ∷ 0x41 ∷ 0x01 ∷ 0x17 ∷ 0 ∷ 0 ∷ 1 ∷ 0xe0 ∷ 0 ∷ 0 ∷ 0x80 ∷ 0x80 ∷ 5 ∷ 0x21 ∷ 0 ∷ 1 ∷ 0 ∷ 1
      ∷ [])
    ++ replicate 170 0xab

video_packet-IsBytes : IsBytes video_packet
video_packet-IsBytes = all_bytes_sound video_packet refl

-- A packet with a payload behind an adaptation field of 200 bytes.
abbrev bad_packet : List ℕ
bad_packet = (0x47 ∷ 0x01 ∷ 0x01 ∷ 0x37 ∷ 200 ∷ []) ++ replicate 183 0xff

bad_packet-IsBytes : IsBytes bad_packet
bad_packet-IsBytes = all_bytes_sound bad_packet refl

abbrev offset_of : Parsed → ℕ × ℕ
offset_of (parsed p) = (p.payload.payload_offset, p.payload.size)
offset_of other = (0, 0)

video_packet_offset : offset_of (ts_packet_init video_packet) ≡ (18, 170)
unfolding ts_packet_init
video_packet_offset = refl

parse_header-Layout_example : Layout 0x41 0x01 0x17 (parse_header video_packet)
parse_header-Layout_example = parse_header-Layout video_packet video_packet-IsBytes

ts_packet_init-Outcome_example : Outcome video_packet (ts_packet_init video_packet)
ts_packet_init-Outcome_example = ts_packet_init-Outcome video_packet video_packet-IsBytes

long_adaptation_overruns_example : ts_packet_init bad_packet ≡ overrun
long_adaptation_overruns_example =
    long_adaptation_overruns bad_packet bad_packet-IsBytes (omega arith) refl refl (omega arith)
