-- ===== src/Encoder/Setup.antt =====
-- What `encoder_data_init` comes to.
use mathlib.Core.Logic.{◌↔◌}
use dvb_stream_v.FrameInit.{MppFrame}
use dvb_stream_v.Base.{
  ℕ, ◌*◌, ◌/◌, ◌^◌, ◌≤◌, ◌<◌, ◌≡◌, refl, ap, ◌≢◌, inl, inr, Bool, true, Option, none, some, List,
  [], ◌∷◌, arith, Bool-cases,
}
use dvb_stream_v.Encoder.Config.{
  mpp_ok, sized, prep_settings, rc_settings, codec_settings, PrepCfg, RcCfg, CodecCfg, Control,
  InitCall, EncoderData, set_prep_cfg, set_rc_cfg, set_codec_cfg, set_sei_cfg, create, init,
  prep_cfg, rc_cfg, codec_cfg, sei_cfg,
}
use dvb_stream_v.Encoder.{configure, encoder_data_init}

-- All the calls of `encoder_data_init` succeed.
pub record AllSucceed (ret : InitCall → ℕ) : Type 0 where
  pub create_ok : ret create ≡ mpp_ok
  pub init_ok : ret init ≡ mpp_ok
  pub prep_ok : ret prep_cfg ≡ mpp_ok
  pub rc_ok : ret rc_cfg ≡ mpp_ok
  pub codec_ok : ret codec_cfg ≡ mpp_ok
  pub sei_ok : ret sei_cfg ≡ mpp_ok

module _ (bps : ℕ) (allocated : Bool) (ret : InitCall → ℕ) (f : MppFrame) (fps : ℕ) where
  -- What a call returns, `*data` if it is set, and the settings that it hands over.
  abbrev pub initialised : ℕ × Option EncoderData × List Control
  initialised = encoder_data_init bps allocated ret f fps

  all_succeed : initialised.0 ≡ mpp_ok → (allocated ≡ true) × AllSucceed ret
  unfolding encoder_data_init configure
  all_succeed e = ground arith

  -- The struct as a successful call leaves it.
  abbrev set_up : EncoderData
  set_up = record (sized f) { has_ctx = true; fps = fps; gop = 30; bps = bps }

  settings_lem :
      allocated ≡ true
      → AllSucceed ret
      → initialised ≡ (
        mpp_ok,
        some set_up,
        set_prep_cfg (prep_settings set_up)
            ∷ set_rc_cfg (rc_settings set_up)
            ∷ set_codec_cfg (codec_settings set_up)
            ∷ set_sei_cfg 2
            ∷ [],
      )
  unfolding encoder_data_init
  settings_lem has_memory ok =
      rw (has_memory, ok.create_ok, ok.init_ok, ok.prep_ok, ok.rc_ok, ok.codec_ok, ok.sei_ok) refl

  data_set : (allocated ≡ true) → initialised.1 ≢ none
  unfolding encoder_data_init
  data_set h e = ground arith

  allocated_lem : initialised.1 ≢ none → allocated ≡ true
  unfolding encoder_data_init
  allocated_lem e = elim (Bool-cases allocated) [ inl h ↦ h | inr h ↦ absurd (e (rw h refl)) ]

  -- `encoder_data_init` returns MPP_OK exactly if the struct has been allocated and all six calls of the
  -- library succeed; and whether they do or not, `*data` is set exactly if the struct has been allocated.
  pub encoder_data_init-eq-ok :
      ((initialised.0 ≡ mpp_ok) ↔ ((allocated ≡ true) × AllSucceed ret))
      × ((initialised.1 ≢ none) ↔ (allocated ≡ true))
  unfolding encoder_data_init
  encoder_data_init-eq-ok = (
    (all_succeed, λ (has_memory, ok). ap (λ r. r.0) (settings_lem has_memory ok)),
    (allocated_lem, data_set),
  )

  -- For an `int` `bps` whose product with 17 is one: if all calls succeed, the encoder is set up with the
  -- frame's size and format, with the strides that the struct keeps, with a high profile of level 4.0, and
  -- with a constant bit rate whose bounds are the sixteenths next to `bps`; the intervals between whole
  -- pictures are the 30 frames of `gop`, and the frame rate is `fps`.
  pub encoder_data_init_settings :
      bps * 17 < 2 ^ 31
      → allocated ≡ true
      → AllSucceed ret
      → (p : EncoderData) × (prep : PrepCfg) × (rc : RcCfg) × (codec : CodecCfg) × (initialised ≡ (
        mpp_ok,
        some p,
        set_prep_cfg prep ∷ set_rc_cfg rc ∷ set_codec_cfg codec ∷ set_sei_cfg 2 ∷ [],
      ))
        × ((prep.width ≡ f.width) × (prep.height ≡ f.height) × (prep.format ≡ f.fmt))
        × ((prep.hor_stride ≡ p.hor_stride) × (prep.ver_stride ≡ p.ver_stride))
        × ((codec.profile ≡ 100) × (codec.level ≡ 40))
        × ((rc.bps_target ≡ bps) × (rc.bps_min ≡ bps * 15 / 16) × (rc.bps_max ≡ bps * 17 / 16))
        × ((rc.bps_min ≤ rc.bps_target) × (rc.bps_target ≤ rc.bps_max))
        × ((rc.gop ≡ 30) × (rc.fps_in_num ≡ fps) × (rc.fps_out_num ≡ fps))
  unfolding encoder_data_init
  encoder_data_init_settings small has_memory ok = (
    set_up,
    prep_settings set_up,
    rc_settings set_up,
    codec_settings set_up,
    settings_lem has_memory ok,
    (refl, refl, refl),
    (refl, refl),
    (refl, refl),
    (refl, omega arith, omega arith),
    (omega arith, omega arith),
    (refl, refl, refl),
  )
