-- ===== src/FrameInit/Tests.antt =====
-- Frames of the two programs' sizes.
use dvb_stream_v.Cfg.{minus_one}
use dvb_stream_v.Base.{ℕ, ◌≡◌, refl, Option, none, some, ◌==◌, if◌then◌else◌}
use dvb_stream_v.FrameInit.{frame_copy, frame_init, MppFrame}

abbrev source_frame : MppFrame
source_frame = record {
  width = 1920;
  height = 1080;
  hor_stride = 1920;
  ver_stride = 1088;
  fmt = 0;
  eos = 0;
  buffer = some 3;
}

abbrev only_size : ℕ → ℕ → Option ℕ
only_size size asked = if asked == size then some 9 else none

no_buffer : (frame_init 0 (only_size 0) source_frame 640 360).0 ≡ minus_one
unfolding frame_init
no_buffer = refl

copy_shares : (frame_copy 0 source_frame).1 ≡ some source_frame
unfolding frame_copy
copy_shares = refl
