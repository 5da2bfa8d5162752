-- ===== src/Output/Tests.antt =====
-- An access unit on its way to the client.

use dvb_stream_v.Base.{◌≡◌, some, [], ◌++◌, arith, replicate}
use dvb_stream_v.Ring.Contents.{contents}
use dvb_stream_v.Tcp.{tcp_buffer_nums, fresh, Tcp, video_channel, audio_channel}
use dvb_stream_v.Output.{rtp_sender}
use dvb_stream_v.Output.Sender.{rtp_sender-delivers}
use dvb_stream_v.Tcp.Queues.{taken_of}
use dvb_stream_v.Tcp.{tcp_buffer_nums, fresh, Tcp, video_channel, audio_channel}

abbrev loaded : Tcp
loaded = record fresh {
  video = record { slots = λ _. replicate 188 0; head = 9999; tail = 1 };
  audio = record { slots = λ _. replicate 188 1; head = 4; tail = 5 };
}

rtp_sender-delivers_example :
    (t : Tcp) × (rtp_sender 2 loaded ≡ some t)
    × (contents tcp_buffer_nums t.video ≡ [])
    × (contents tcp_buffer_nums t.audio ≡ [])
    × (taken_of video_channel t.taken ≡ [] ++ contents tcp_buffer_nums loaded.video)
    × (taken_of audio_channel t.taken ≡ [] ++ contents tcp_buffer_nums loaded.audio)
unfolding fresh
rtp_sender-delivers_example =
    rtp_sender-delivers 2 loaded (record { head_in = omega arith; tail_in = omega arith })
      (record { head_in = omega arith; tail_in = omega arith }) (omega arith, (omega arith, tt))
      (omega arith, tt) (omega arith) (omega arith)
