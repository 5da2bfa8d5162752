-- ===== src/Program/Start.antt =====
-- When the `main` functions get to the point at which the threads run.
use dvb_stream_v.Decoder.{initial_decoder, DecoderData}
use dvb_stream_v.Decoder.Life.{AllSucceed}
use dvb_stream_v.Base.{◌≡◌, true, List, [], ◌∷◌}
use dvb_stream_v.Program.Main.{
  with_files, Thread, Startup, Start, input, output, encoder, rtp, waits_for_key, null_decoder,
}

-- The calls that have to succeed.
pub record GoesWell (s : Startup) : Type 0 where
  pub rtp_runs : s.rtp_up ≡ true
  pub device_open : s.device_ret ≡ 0
  pub buffer_set : s.set_buffer_ret ≡ 0
  pub channel_open : s.channel_ret ≡ 0
  pub decoder_made : AllSucceed s.decoder_ok
  pub socket_made : s.socket_ok ≡ true
  pub bound : s.bind_ok ≡ true
  pub listens : s.listen_ok ≡ true
  pub accepted : s.accept_ok ≡ true
  pub input_runs : s.create_ret input ≡ 0
  pub output_runs : s.create_ret output ≡ 0
  pub encoder_runs : s.create_ret encoder ≡ 0
  pub sender_runs : s.create_ret rtp ≡ 0

abbrev pub all_threads : List Thread
all_threads = input ∷ output ∷ encoder ∷ rtp ∷ []

-- What stands before the decoder's set-up.
abbrev pub IsTuned : Startup → Type 0
IsTuned s = (s.rtp_up ≡ true) × (s.device_ret ≡ 0) × (s.set_buffer_ret ≡ 0) × (s.channel_ret ≡ 0)

abbrev pub ready_decoder : Startup → DecoderData
ready_decoder s = with_files s.demux_fd s.output_open initial_decoder

-- What `main` has come to if it gets as far as the decoder's files.
abbrev ComesFar : Start → Type 0
ComesFar (waits_for_key d started) = Unit
ComesFar null_decoder = Unit
ComesFar other = ⊥
