-- ===== src/Tcp/Tests.antt =====
-- Runs of the queues of mycode/gn_tcp.c.

use dvb_stream_v.Pts.{tcp_get_pts}
use dvb_stream_v.Base.{
  ℕ, ◌%◌, ◌^◌, ◌≡◌, refl, none, some, List, [], ◌∷◌, ◌++◌, arith, take, replicate, All,
}
use dvb_stream_v.Ring.{is_empty, push, pop}
use dvb_stream_v.Ring.Contents.{contents}
use dvb_stream_v.Mux.Round.{packet_of}
use dvb_stream_v.Mux.Stream.{access_unit}
use dvb_stream_v.Tcp.{
  tcp_buffer_nums, fresh, gn_tcp_get_video_pts, gn_tcp_put, gn_tcp_audio_put, gn_tcp_send,
  gn_tcp_audio_send, Tcp, video_channel, audio_channel, sent,
}
use dvb_stream_v.Tcp.Queues.{
  step, run, puts, taken_of, IsWhole, Call, put_video, put_audio, send_video, send_audio,
}
use dvb_stream_v.Tcp.Delivery.{fifo}
use dvb_stream_v.Tcp.Stamps.{video_pts-gn_tcp_send}

abbrev calls : List Call
calls =
    put_video (1 ∷ [])
    ∷ put_audio (2 ∷ [])
    ∷ put_video (3 ∷ [])
    ∷ send_video (some 188)
    ∷ send_audio (some 188)
    ∷ send_audio none
    ∷ []

abbrev end : Tcp
unfolding fresh push pop
end = record fresh {
  video =
      pop tcp_buffer_nums
        (push tcp_buffer_nums (push tcp_buffer_nums fresh.video (1 ∷ [])) (3 ∷ []));
  audio = pop tcp_buffer_nums (push tcp_buffer_nums fresh.audio (2 ∷ []));
  taken = (video_channel, 1 ∷ []) ∷ (audio_channel, 2 ∷ []) ∷ [];
}

run-calls : run fresh calls ≡ some end
unfolding run step gn_tcp_put gn_tcp_audio_put gn_tcp_send gn_tcp_audio_send fresh
run-calls = refl

calls-IsWhole : All IsWhole calls
calls-IsWhole = (tt, (tt, (tt, (omega arith, (omega arith, (tt, tt))))))

fifo_example :
    (taken_of video_channel end.taken ++ contents tcp_buffer_nums end.video
      ≡ puts video_channel calls)
    × (taken_of audio_channel end.taken ++ contents tcp_buffer_nums end.audio
        ≡ puts audio_channel calls)
fifo_example = fifo calls calls-IsWhole run-calls

-- A queue that is full.
abbrev full : Tcp
full = record fresh { video = record { slots = λ _. []; head = 0; tail = 9999 } }

-- A queue whose only packet begins an access unit.
abbrev data_bytes : List ℕ
data_bytes = replicate 200 1

abbrev waiting : Tcp
waiting = record fresh {
  video = record {
    slots = λ _. packet_of 257 1 3 (take 184 (access_unit 3003 data_bytes []));
    head = 0;
    tail = 1;
  };
}

abbrev gone : Tcp
gone = record waiting {
  video = pop tcp_buffer_nums waiting.video;
  video_pts = 3003;
  taken = (video_channel, packet_of 257 1 3 (take 184 (access_unit 3003 data_bytes []))) ∷ [];
}

waiting_goes : gn_tcp_send (some 188) waiting ≡ sent 188 gone
unfolding gn_tcp_send tcp_get_pts fresh
waiting_goes = refl

video_pts-gn_tcp_send_example : gn_tcp_get_video_pts gone ≡ 3003 % 2 ^ 33
unfolding is_empty
video_pts-gn_tcp_send_example =
    video_pts-gn_tcp_send 188 257 3 3003 data_bytes [] waiting gone (omega arith) refl refl
      waiting_goes
