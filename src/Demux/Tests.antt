-- ===== src/Demux/Tests.antt =====
-- Reads of concrete packets.

use mathlib.Core.Logic.{◌↔◌}
use dvb_stream_v.Base.{
  ℕ, ◌≤◌, ◌<◌, ◌≡◌, refl, ◌⊎◌, Bool, true, false, Option, none, some, List, [], ◌∷◌, ◌++◌, arith,
  replicate, All,
}
use dvb_stream_v.Ts.{
  IsBytes, is_continuous_zero, parse_header, flag_adapt, flag_payload, parse_adaptation, parse_pes,
  find_pes, payload_size, copy_payload, payload_start, parse_payload, adaptation_of, ts_packet_init,
  TsPacket, parsed,
}
use dvb_stream_v.Ts.Fields.{all_bytes, all_bytes_sound}
use dvb_stream_v.Ts.Outcomes.{data_offset, HasError, HasPayload, loaded, near_payload}
use dvb_stream_v.Pts.{advance, get_audio_pts}
use dvb_stream_v.Ring.{update, is_full, push}
use dvb_stream_v.Tcp.{fresh, gn_tcp_audio_put}
use dvb_stream_v.Demux.{
  has_pts, store_five, restamp, put_audio, note_video, on_video, on_audio, on_packet, filled,
  decoder_read_ts_packet, Demux, undefined,
}
use dvb_stream_v.Demux.Video.{decoder_read_ts_packet-undefined}
use dvb_stream_v.Ts.Outcomes.{data_offset, HasError, HasPayload, loaded, near_payload}
use dvb_stream_v.Ts.{
  IsBytes, is_continuous_zero, parse_header, flag_adapt, flag_payload, parse_adaptation, parse_pes,
  find_pes, payload_size, copy_payload, payload_start, parse_payload, adaptation_of, ts_packet_init,
  TsPacket, parsed,
}
use dvb_stream_v.Demux.Shut.{after_reading, IsTable}
use dvb_stream_v.Demux.Before.{IsGated, read_all-before_video}
use dvb_stream_v.Demux.Gate.{read_all, put_all}

abbrev start : Demux
start = record {
  is_have_video = false;
  is_write_audio = false;
  video_pts = 0;
  audio_counter = 0;
  buf = replicate 188 0 ++ replicate 20 0;
  packet_count = 0;
  packet_pos = 0;
  packet_length = 0;
  tcp = fresh;
}

-- The first packet of a video PES on PID 257.
abbrev video : List ℕ
video =
    (0x47 ∷ 0x41 ∷ 0x01 ∷ 0x17 ∷ 0 ∷ 0 ∷ 1 ∷ 0xe0 ∷ 0 ∷ 0 ∷ 0x80 ∷ 0x80 ∷ 5 ∷ 0x21 ∷ 0 ∷ 1 ∷ 0 ∷ 1
      ∷ [])
    ++ replicate 170 0xab

-- A packet on PID 0, and the first packet of an audio PES on PID 258 with a later time stamp.
abbrev table : List ℕ
table = (0x47 ∷ 0x40 ∷ 0x00 ∷ 0x10 ∷ []) ++ replicate 184 0xff

abbrev audio : List ℕ
audio =
    (0x47 ∷ 0x41 ∷ 0x02 ∷ 0x17 ∷ 0 ∷ 0 ∷ 1 ∷ 0xc0 ∷ 1 ∷ 9 ∷ 0x80 ∷ 0x80 ∷ 5 ∷ 0x21 ∷ 0 ∷ 3 ∷ 0 ∷ 1
      ∷ [])
    ++ replicate 170 0xcd

-- A packet with its error bit set.
abbrev broken : List ℕ
broken = (0x47 ∷ 0x81 ∷ 0x01 ∷ 0x10 ∷ []) ++ replicate 184 0xff

buf-IsBytes :
    (bytes : List ℕ) → all_bytes (filled bytes start).buf ≡ true → IsBytes (filled bytes start).buf
buf-IsBytes bytes h = all_bytes_sound (filled bytes start).buf h

video-IsBytes : IsBytes (filled video start).buf
unfolding filled
video-IsBytes = buf-IsBytes video refl

broken-IsBytes : IsBytes (filled broken start).buf
unfolding filled
broken-IsBytes = buf-IsBytes broken refl

video_offset_lem : data_offset (filled video start).buf ≡ 18
unfolding filled parse_header flag_adapt flag_payload parse_adaptation parse_pes find_pes
    payload_start adaptation_of is_continuous_zero
video_offset_lem = refl

near : data_offset (filled video start).buf ≤ 188
near = omega (arith, video_offset_lem)

decoder_read_ts_packet-undefined_example : (decoder_read_ts_packet 257 broken start ≡ undefined) ↔ (
    HasError (filled broken start).buf
    ⊎ (HasPayload (filled broken start).buf × (188 < data_offset (filled broken start).buf)))
decoder_read_ts_packet-undefined_example =
    decoder_read_ts_packet-undefined 257 broken start (omega arith) broken-IsBytes

-- What the parser makes of the audio packet.
abbrev packet_of_audio : TsPacket
packet_of_audio = loaded (audio ++ replicate 20 0)

abbrev on_air : Demux
on_air = record start { buf = audio ++ replicate 20 0 }

-- Audio, a table and video, in this order: the gate is still shut.
abbrev reads : List (List ℕ)
reads = audio ∷ table ∷ video ∷ []

-- The table alone is queued.
abbrev end : Demux
end = record start {
  is_have_video = true;
  video_pts = 1;
  buf = video ++ replicate 20 0;
  packet_count = 1;
  packet_pos = 18;
  packet_length = 170;
  tcp = record fresh {
    audio = record { slots = update fresh.audio.slots 0 table; head = 0; tail = 1 };
  };
}

reads-end : read_all 257 reads start ≡ some end
unfolding read_all after_reading decoder_read_ts_packet filled on_packet on_video note_video
    on_audio has_pts restamp store_five get_audio_pts put_audio gn_tcp_audio_put fresh
    ts_packet_init parse_header flag_adapt flag_payload parse_adaptation parse_pes find_pes
    payload_size copy_payload payload_start parse_payload adaptation_of is_continuous_zero is_full
    push
reads-end = refl

abbrev gate_of : Option Demux → Bool × Bool
gate_of none = (false, false)
gate_of (some s) = (s.is_have_video, s.is_write_audio)

gate_opens : gate_of (read_all 257 (video ∷ audio ∷ []) start) ≡ (true, true)
unfolding read_all after_reading decoder_read_ts_packet filled on_packet on_video note_video
    on_audio has_pts restamp store_five get_audio_pts advance put_audio gn_tcp_audio_put fresh
    ts_packet_init parse_header flag_adapt flag_payload parse_adaptation parse_pes find_pes
    payload_size copy_payload payload_start parse_payload adaptation_of is_continuous_zero is_full
    push
gate_opens = refl

-- Audio and a table, before any video.
abbrev early : Demux
early = record start {
  buf = table ++ replicate 20 0;
  tcp = record fresh {
    audio = record { slots = update fresh.audio.slots 0 table; head = 0; tail = 1 };
  };
}

early-reads : read_all 257 (audio ∷ table ∷ []) start ≡ some early
unfolding read_all after_reading decoder_read_ts_packet filled on_packet on_video note_video
    on_audio has_pts restamp store_five get_audio_pts put_audio gn_tcp_audio_put fresh
    ts_packet_init parse_header flag_adapt flag_payload parse_adaptation parse_pes find_pes
    payload_size copy_payload payload_start parse_payload adaptation_of is_continuous_zero is_full
    push
early-reads = refl

start-IsGated : IsGated start
start-IsGated = λ w. absurd (cc)

read_all-before_video_example :
    (qs : List (List ℕ)) × All (IsTable 257) qs × (put_all qs fresh ≡ some early.tcp)
read_all-before_video_example =
    read_all-before_video 257 (audio ∷ table ∷ []) start early start-IsGated early-reads refl
