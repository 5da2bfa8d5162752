-- ===== src/Encoder.antt =====
-- mycode/mpi_encoder.c: the encoder's settings, its life, and a frame's way through it. simple/ has the same
-- file with another bit rate. The calls of the MPP library enter as their results, and what the settings
-- hand to the library is kept in a list.
pub mod Config
pub mod Setup
mod Tests
use dvb_stream_v.Cfg.{minus_one}
use dvb_stream_v.FrameInit.{frame_copy, MppFrame}
use dvb_stream_v.Base.{
  ℕ, ◌+◌, Bool, true, not, Option, none, some, List, [], ◌∷◌, ◌++◌, ◌==◌, if◌then◌else◌, set, u32,
}
use dvb_stream_v.Encoder.Config.{
  mpp_ok, mpp_err_malloc, mpp_err_null_ptr, coding_avc, sized, prep_settings, rc_settings,
  codec_settings, Control, InitCall, EncoderData, set_prep_cfg, set_rc_cfg, set_codec_cfg,
  set_sei_cfg, create, init, prep_cfg, rc_cfg, codec_cfg, sei_cfg,
}

-- The calls of `mpi->control`, each after the one before has succeeded.
unfoldable pub configure : (InitCall → ℕ) → EncoderData → ℕ × List Control
unfolding prep_settings rc_settings codec_settings
configure ret p =
    if not (ret prep_cfg == mpp_ok)
    then (ret prep_cfg, set_prep_cfg (prep_settings p) ∷ [])
    else if not (ret rc_cfg == mpp_ok)
    then (ret rc_cfg, set_prep_cfg (prep_settings p) ∷ set_rc_cfg (rc_settings p) ∷ [])
    else if not (ret codec_cfg == mpp_ok)
    then (
      ret codec_cfg,
      set_prep_cfg (prep_settings p)
          ∷ set_rc_cfg (rc_settings p)
          ∷ set_codec_cfg (codec_settings p)
          ∷ [],
    )
    else (
      ret sei_cfg,
      set_prep_cfg (prep_settings p)
          ∷ set_rc_cfg (rc_settings p)
          ∷ set_codec_cfg (codec_settings p)
          ∷ set_sei_cfg p.sei_mode
          ∷ [],
    )

-- `encoder_data_init`, given whether `mpp_calloc` succeeds and what the calls return: its result, `*data` if
-- it is set, and the calls of `mpi->control`. `bps` is 2000000, and 1000000 in simple/.
unfoldable pub encoder_data_init :
    ℕ → Bool → (InitCall → ℕ) → MppFrame → ℕ → ℕ × Option EncoderData × List Control
unfolding sized configure
encoder_data_init bps allocated ret frame fps =
    let p = sized frame in
    let created = record p { has_ctx = true } in
    let set = record created { fps = fps; gop = 30; bps = bps } in
    if not allocated
    then (mpp_err_malloc, none, [])
    else if not (ret create == mpp_ok)
    then (ret create, some p, [])
    else if not (ret init == mpp_ok)
    then (ret init, some created, [])
    else (let (result, calls) = configure ret set in (result, some set, calls))

-- `encoder_data_deinit`, for `*data`: its result, `*data`, and what it releases, in order.
pub data Released : Type 0 where
  input_file output_file the_struct : Released

unfoldable pub encoder_data_deinit : Option (Option EncoderData) → ℕ × List Released
encoder_data_deinit none = (mpp_err_null_ptr, [])
encoder_data_deinit (some none) = (mpp_ok, [])
encoder_data_deinit (some (some p)) = (
  mpp_ok,
  (if p.has_input then input_file ∷ [] else [])
      ++ ((if p.has_output then output_file ∷ [] else []) ++ the_struct ∷ []),
)

-- `encoder_write_packet`: its result, and what is behind the file's content.
unfoldable pub encoder_write_packet : Bool → Option (List ℕ) → ℕ × List ℕ
encoder_write_packet has_file none = (minus_one, [])
encoder_write_packet has_file (some bytes) = if has_file then (1, bytes) else (minus_one, [])

-- `encoder_get_header`, given what `mpi->control` returns and stores.
unfoldable pub encoder_get_header : ℕ → Option (List ℕ) → EncoderData → ℕ × EncoderData
encoder_get_header ret extra_info p =
    if p.type == coding_avc then (ret, record p { packet_header = extra_info }) else (mpp_ok, p)

-- A packet that the encoder hands over.
pub record Encoded : Type 0 where
  pub bytes : List ℕ
  pub eos : ℕ

-- The loop of `encode_get_packet`, given what its calls store into `data->packet`, `none` for NULL. The
-- result is `none` if none of the calls stores a packet.
unfoldable pub get_packet : List (Option Encoded) → Option Encoded
get_packet [] = none
get_packet (none ∷ more) = get_packet more
get_packet (some packet ∷ more) = some packet

-- `encoder_run`, given what `mpp_frame_init` returns: the frame that the encoder is given, the struct, and
-- what the callback makes of the packet. `none`: it does not return.
unfoldable pub encoder_run {ℓ} :
    {S : Type ℓ}
    → (List ℕ → S → Option S)
    → ℕ
    → List (Option Encoded)
    → MppFrame
    → EncoderData
    → S
    → Option (Option MppFrame × EncoderData × S)
unfolding get_packet
encoder_run func_ptr init_ret gets frame p s = elim (get_packet gets) [
  | none ↦ none
  | some packet ↦ elim (func_ptr packet.bytes s) [
    | none ↦ none
    | some s' ↦ some (
      (frame_copy init_ret frame).1,
      record p { frame_count = u32 (p.frame_count + 1); pkt_eos = packet.eos },
      s',
    )
  ]
]
