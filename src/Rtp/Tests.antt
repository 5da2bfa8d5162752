-- ===== src/Rtp/Tests.antt =====
-- Runs of the queues of mycode/gn_rtp.c.
use dvb_stream_v.Base.{
  ℕ, ◌+◌, ◌%◌, ◌^◌, ◌≡◌, refl, true, false, some, List, [], ◌∷◌, ◌++◌, arith, length, replicate,
}
use dvb_stream_v.Ring.{update, is_empty, is_full, push, pop}
use dvb_stream_v.Rtp.{
  init_slot, init_slots, zero_slots, gn_rtp_connect_init, gn_rtp_put, gn_rtp_audio_put, with_seq,
  gn_rtp_send, gn_rtp_audio_send, Rtp,
}
use dvb_stream_v.Rtp.Datagrams.{datagram, IsReady}
use dvb_stream_v.Rtp.Calls.{step, run, Call, put_video, put_audio, send_video, send_audio}
use dvb_stream_v.Rtp.Sequence.{Numbered, run-Numbered}
use dvb_stream_v.Rtp.Start.{ready_lem, gn_rtp_connect_init-IsReady, Connected}

-- The state after `gn_rtp_connect_init` with the two random numbers 65535 and 7.
abbrev begin : Rtp
begin = record {
  video = record { slots = init_slots 7 zero_slots; head = 0; tail = 0 };
  audio = record { slots = init_slots 7 zero_slots; head = 0; tail = 0 };
  rtpseq = 65535;
  ssrc = 7;
  handed = [];
}

begins : gn_rtp_connect_init false false false 65535 7 ≡ some begin
unfolding gn_rtp_connect_init
begins = refl

gn_rtp_connect_init-IsReady_example :
    Connected true true false 65535 7 (gn_rtp_connect_init true true false 65535 7)
gn_rtp_connect_init-IsReady_example = gn_rtp_connect_init-IsReady true true false 65535 7

abbrev bytes : List ℕ
bytes = replicate 188 9

abbrev calls : List Call
calls = put_video bytes ∷ put_audio bytes ∷ send_audio ∷ send_video ∷ send_video ∷ []

abbrev end : Rtp
end = record {
  video = record {
    slots = update (update begin.video.slots 0 (datagram 0 7 bytes)) 0 (datagram 0 7 bytes);
    head = 1;
    tail = 1;
  };
  audio = record {
    slots = update (update begin.audio.slots 0 (datagram 0 7 bytes)) 0 (datagram 65535 7 bytes);
    head = 1;
    tail = 1;
  };
  rtpseq = 1;
  ssrc = 7;
  handed = datagram 65535 7 bytes ∷ datagram 0 7 bytes ∷ [];
}

begin-IsReady : IsReady begin
begin-IsReady = (ready_lem 65535 7 begin begins).0

run-calls : run begin calls ≡ some end
unfolding run step gn_rtp_put gn_rtp_audio_put gn_rtp_send gn_rtp_audio_send with_seq init_slots
    init_slot is_empty is_full push pop
run-calls = refl

run-Numbered_example :
    (ds : List (List ℕ)) × (end.handed ≡ begin.handed ++ ds)
    × Numbered 7 65535 ds
    × (1 ≡ (65535 + length ds) % 2 ^ 16)
run-Numbered_example =
    run-Numbered calls begin begin-IsReady (omega arith, (omega arith, (tt, (tt, (tt, tt)))))
      run-calls
