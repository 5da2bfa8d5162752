-- ===== src/Program/Main.antt =====
-- The `main` functions of mycode/main.c and simple/main.c: what has to succeed before the threads start. The
-- channel list and the user's channel number are taken to be there. Whether a file opens is not tested by the
-- code, and mycode/'s argument is not checked either.
use dvb_stream_v.Cfg.{minus_one}
use dvb_stream_v.Decoder.{
  decoder_data_init, decoder_set_input, decoder_set_output, InitCall, DecoderData,
}
use dvb_stream_v.Tcp.{gn_tcp_init, gn_tcp_listener}
use dvb_stream_v.Base.{ℕ, Bool, not, none, some, List, [], ◌∷◌, ◌++◌, ◌==◌, if◌then◌else◌}

pub data Thread : Type 0 where
  input output encoder rtp : Thread

-- What the calls of mycode/'s `main` come to: whether `gn_rtp_connect_init` returns, the results of
-- `dvb_open_device`, `ioctl` and `dvb_open_chennel`, which calls of the decoder's and of the listener's set-up
-- succeed, the device's file, whether the output file opens, and the results of `pthread_create`.
pub record Startup : Type 0 where
  pub rtp_up : Bool
  pub device_ret : ℕ
  pub set_buffer_ret : ℕ
  pub channel_ret : ℕ
  pub decoder_ok : InitCall → Bool
  pub demux_fd : ℕ
  pub output_open : Bool
  pub socket_ok : Bool
  pub bind_ok : Bool
  pub listen_ok : Bool
  pub accept_ok : Bool
  pub create_ret : Thread → ℕ

-- How `main` goes: it waits for the user's key with the decoder set up and the threads started, and then
-- returns 1; it returns a result early, with the threads that have been started; a function ends the process;
-- or `device` or `decoder`, which start as NULL, is dereferenced while it still is NULL.
pub data Start : Type 0 where
  waits_for_key : DecoderData → List Thread → Start
  returns : ℕ → List Thread → Start
  ends_process : Start
  null_device null_decoder : Start

-- `ret = pthread_create(...); if (ret) ... return 1;`, for each of the threads.
unfoldable pub create_threads : DecoderData → (Thread → ℕ) → List Thread → List Thread → Start
create_threads d create_ret started [] = waits_for_key d started
create_threads d create_ret started (t ∷ ts) =
    let rest = create_threads d create_ret (started ++ t ∷ []) ts in
    if create_ret t == 0 then rest else returns 1 started

-- The listener of mycode/'s `main`, and the threads.
unfoldable pub listen_and_create : DecoderData → Startup → Start
unfolding gn_tcp_init gn_tcp_listener
listen_and_create d s = elim (gn_tcp_init s.socket_ok s.bind_ok) [
  | none ↦ ends_process
  | some t ↦ elim (gn_tcp_listener s.listen_ok s.accept_ok t) [
    | none ↦ ends_process
    | some t' ↦ create_threads d s.create_ret [] (input ∷ output ∷ encoder ∷ rtp ∷ [])
  ]
]

-- `decoder_set_input` and `decoder_set_output` of the two programs' `main`.
abbrev pub with_files : ℕ → Bool → DecoderData → DecoderData
with_files fp_input output_open d = decoder_set_output output_open (decoder_set_input fp_input d)

-- `main` of mycode/. The test behind `dvb_open_device` is of `ret`, which is still MPP_OK.
unfoldable pub main : Startup → Start
unfolding listen_and_create
main s =
    if not s.rtp_up
    then ends_process
    else if not (s.device_ret == 0)
    then null_device
    else if not (s.set_buffer_ret == 0)
    then returns 1 []
    else if not (s.channel_ret == 0)
    then returns 1 []
    else if (decoder_data_init s.decoder_ok).0 == 0
    then returns minus_one []
    else elim (decoder_data_init s.decoder_ok).1 [
      | none ↦ null_decoder
      | some d ↦ listen_and_create (with_files s.demux_fd s.output_open d) s
    ]

-- `main` of simple/, given which calls of the decoder's set-up succeed, the input file, whether the output
-- file opens, and the results of `pthread_create`.
unfoldable pub simple_main : (InitCall → Bool) → ℕ → Bool → (Thread → ℕ) → Start
unfolding create_threads
simple_main decoder_ok fp_input output_open create_ret =
    if (decoder_data_init decoder_ok).0 == 0
    then returns minus_one []
    else elim (decoder_data_init decoder_ok).1 [
      | none ↦ null_decoder
      | some d ↦
          create_threads (with_files fp_input output_open d) create_ret []
            (input ∷ output ∷ encoder ∷ [])
    ]
