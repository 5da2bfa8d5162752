-- ===== src/Encoder/Tests.antt =====
-- The encoder's settings for the program's frames.
use dvb_stream_v.Base.{ℕ, ◌≡◌, refl, true, some, [], ◌∷◌, length}
use dvb_stream_v.FrameInit.{yuv_size, MppFrame}
use dvb_stream_v.Encoder.Config.{
  mpp_ok, sized, InitCall, create, init, prep_cfg, rc_cfg, codec_cfg, sei_cfg,
}
use dvb_stream_v.Encoder.{
  encoder_data_init, encoder_data_deinit, encoder_write_packet, encoder_get_header, output_file,
  the_struct,
}
use dvb_stream_v.Encoder.Setup.{initialised, AllSucceed}

abbrev hd_frame : MppFrame
hd_frame = record {
  width = 1280;
  height = 720;
  hor_stride = 1280;
  ver_stride = 720;
  fmt = 0;
  eos = 0;
  buffer = some 1;
}

abbrev all_ok : InitCall → ℕ
all_ok call = mpp_ok

abbrev bad_rate : InitCall → ℕ
bad_rate rc_cfg = 0xffffffff
bad_rate create = mpp_ok
bad_rate init = mpp_ok
bad_rate prep_cfg = mpp_ok
bad_rate codec_cfg = mpp_ok
bad_rate sei_cfg = mpp_ok

all_ok-AllSucceed : AllSucceed all_ok
all_ok-AllSucceed = record {
  create_ok = refl;
  init_ok = refl;
  prep_ok = refl;
  rc_ok = refl;
  codec_ok = refl;
  sei_ok = refl;
}

-- A failed call stops the settings, and leaves the struct set.
rate_refused :
    ((initialised 2000000 true bad_rate hd_frame 30).0 ≡ 0xffffffff)
    × (length (initialised 2000000 true bad_rate hd_frame 30).2 ≡ 2)
unfolding encoder_data_init
rate_refused = (refl, refl)

sizes :
    ((sized hd_frame).frame_size ≡ 1382400)
    × ((sized (record hd_frame { fmt = 8 })).hor_stride ≡ 2560)
    × ((sized (record hd_frame { fmt = 8 })).frame_size ≡ 1843200)
unfolding sized yuv_size
sizes = (refl, refl, refl)

closes_files :
    encoder_data_deinit
      (some (some (record (sized hd_frame) { has_output = true; has_ctx = true })))
    ≡ (mpp_ok, output_file ∷ the_struct ∷ [])
unfolding encoder_data_deinit sized
closes_files = refl

writes_header : encoder_write_packet true (some (1 ∷ 2 ∷ [])) ≡ (1, 1 ∷ 2 ∷ [])
unfolding encoder_write_packet
writes_header = refl

gets_header :
    (encoder_get_header mpp_ok (some (1 ∷ [])) (sized hd_frame)).1.packet_header ≡ some (1 ∷ [])
unfolding encoder_get_header sized
gets_header = refl
