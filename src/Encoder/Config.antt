-- ===== src/Encoder/Config.antt =====
-- mycode/mpi_encoder.h and the settings of `encoder_data_init`: what is put into the structs of the library.
use dvb_stream_v.FrameInit.{yuv_size, MppFrame}
use dvb_stream_v.Base.{ℕ, ◌*◌, ◌/◌, Bool, false, Option, none, List, leb, if◌then◌else◌, u32}

-- `MPP_OK`, `MPP_ERR_MALLOC` and `MPP_ERR_NULL_PTR`
abbrev pub mpp_ok : ℕ
mpp_ok = 0

abbrev pub mpp_err_malloc : ℕ
mpp_err_malloc = 0xfffffffc

abbrev pub mpp_err_null_ptr : ℕ
mpp_err_null_ptr = 0xfffffffd

-- `MPP_FMT_YUV420SP_VU`, `MPP_FMT_YUV422_UYVY`, `MPP_VIDEO_CodingAVC` and `MPP_ENC_SEI_MODE_ONE_FRAME`
abbrev pub fmt_yuv420sp_vu : ℕ
fmt_yuv420sp_vu = 5

abbrev pub fmt_yuv422_uyvy : ℕ
fmt_yuv422_uyvy = 9

abbrev pub coding_avc : ℕ
coding_avc = 7

abbrev pub sei_mode_one_frame : ℕ
sei_mode_one_frame = 2

-- The fields of `MppEncPrepCfg`, `MppEncRcCfg` and of `MppEncCodecCfg` that are set.
pub record PrepCfg : Type 0 where
  pub change : ℕ
  pub width : ℕ
  pub height : ℕ
  pub hor_stride : ℕ
  pub ver_stride : ℕ
  pub format : ℕ
  pub rotation : ℕ

pub record RcCfg : Type 0 where
  pub change : ℕ
  pub rc_mode : ℕ
  pub quality : ℕ
  pub bps_target : ℕ
  pub bps_max : ℕ
  pub bps_min : ℕ
  pub fps_in_flex : ℕ
  pub fps_in_num : ℕ
  pub fps_in_denorm : ℕ
  pub fps_out_flex : ℕ
  pub fps_out_num : ℕ
  pub fps_out_denorm : ℕ
  pub gop : ℕ
  pub skip_cnt : ℕ

pub record CodecCfg : Type 0 where
  pub coding : ℕ
  pub change : ℕ
  pub profile : ℕ
  pub level : ℕ
  pub entropy_coding_mode : ℕ
  pub cabac_init_idc : ℕ
  pub transform8x8_mode : ℕ

-- What `mpi->control` is called with.
pub data Control : Type 0 where
  set_prep_cfg : PrepCfg → Control
  set_rc_cfg : RcCfg → Control
  set_codec_cfg : CodecCfg → Control
  set_sei_cfg : ℕ → Control

-- The calls of `encoder_data_init` that give an `MPP_RET`, in order.
pub data InitCall : Type 0 where
  create init prep_cfg rc_cfg codec_cfg sei_cfg : InitCall

-- `EncoderData`; pointers by whether they are set, packets by their bytes. The three settings are in the
-- list of the calls.
pub record EncoderData : Type 0 where
  pub width : ℕ
  pub height : ℕ
  pub hor_stride : ℕ
  pub ver_stride : ℕ
  pub packet_header : Option (List ℕ)
  pub pkt_eos : ℕ
  pub frame_count : ℕ
  pub stream_size : ℕ
  pub has_input : Bool
  pub has_output : Bool
  pub gop : ℕ
  pub fps : ℕ
  pub bps : ℕ
  pub fmt : ℕ
  pub type : ℕ
  pub sei_mode : ℕ
  pub has_ctx : Bool
  pub frame_size : ℕ
  pub packet_size : ℕ

-- The rows that the encoder counts with: packed formats double the stride.
unfoldable pub stride_of : MppFrame → ℕ
stride_of f =
    if leb f.fmt fmt_yuv420sp_vu
    then f.hor_stride
    else if leb f.fmt fmt_yuv422_uyvy
    then u32 (f.hor_stride * 2)
    else f.hor_stride

unfoldable pub size_of : MppFrame → ℕ
unfolding stride_of
size_of f =
    if leb f.fmt fmt_yuv420sp_vu
    then yuv_size f.hor_stride f.ver_stride
    else if leb f.fmt fmt_yuv422_uyvy
    then u32 (stride_of f * f.ver_stride)
    else u32 (f.hor_stride * f.ver_stride * 4)

-- The struct at `*data = p;`.
unfoldable pub sized : MppFrame → EncoderData
unfolding stride_of size_of
sized f = record {
  width = f.width;
  height = f.height;
  hor_stride = stride_of f;
  ver_stride = f.ver_stride;
  packet_header = none;
  pkt_eos = 0;
  frame_count = 0;
  stream_size = 0;
  has_input = false;
  has_output = false;
  gop = 0;
  fps = 0;
  bps = 0;
  fmt = f.fmt;
  type = coding_avc;
  sei_mode = sei_mode_one_frame;
  has_ctx = false;
  frame_size = size_of f;
  packet_size = u32 (f.width * f.height);
}

unfoldable pub prep_settings : EncoderData → PrepCfg
prep_settings p = record {
  change = 21;
  width = p.width;
  height = p.height;
  hor_stride = p.hor_stride;
  ver_stride = p.ver_stride;
  format = p.fmt;
  rotation = 0;
}

-- The branch of a constant bit rate; the bit rates are products of `int`s.
unfoldable pub rc_settings : EncoderData → RcCfg
rc_settings p = record {
  change = 0xffffffff;
  rc_mode = 1;
  quality = 2;
  bps_target = p.bps;
  bps_max = u32 (p.bps * 17) / 16;
  bps_min = u32 (p.bps * 15) / 16;
  fps_in_flex = 0;
  fps_in_num = p.fps;
  fps_in_denorm = 0;
  fps_out_flex = 0;
  fps_out_num = p.fps;
  fps_out_denorm = 0;
  gop = p.gop;
  skip_cnt = 0;
}

-- The case `MPP_VIDEO_CodingAVC`; `type` is no other.
unfoldable pub codec_settings : EncoderData → CodecCfg
codec_settings p = record {
  coding = p.type;
  change = 22;
  profile = 100;
  level = 40;
  entropy_coding_mode = 1;
  cabac_init_idc = 0;
  transform8x8_mode = 1;
}
