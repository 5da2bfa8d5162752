-- ===== src/Demux/Audio.antt =====
-- The audio of `decoder_read_ts_packet` after the time stamp is written over, as the parser reads it.

use dvb_stream_v.Base.{ℕ, ◌≡◌, List}
use dvb_stream_v.Ts.{ts_packet_init, TsPacket, parsed}
use dvb_stream_v.Demux.{Demux}

-- What the parser makes of the buffer after the change.
record Restamped (p q : TsPacket) (buf' : List ℕ) : Type 0 where
  accepted : ts_packet_init buf' ≡ parsed q
  same_header : q.ts_header ≡ p.ts_header
  same_stream : q.pes_header.stream_id ≡ p.pes_header.stream_id
  same_flags : q.pes_header.flag_pts ≡ p.pes_header.flag_pts
  length_zero : q.pes_header.packet_length ≡ 0
  same_offset : q.payload.payload_offset ≡ p.payload.payload_offset
