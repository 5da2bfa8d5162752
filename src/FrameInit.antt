-- ===== src/FrameInit.antt =====
-- mycode/mpi_frame_init.c: a frame that shares another one's buffer, and a frame with a buffer of its own.
-- The functions of the MPP library enter as their results; a buffer is a number.
pub mod Size
mod Tests
use dvb_stream_v.Cfg.{minus_one}
use dvb_stream_v.Base.{ℕ, ◌+◌, ◌*◌, ◌/◌, bit_and, not, Option, none, some, ◌==◌, if◌then◌else◌, u32}

-- The properties of an `MppFrame` that the program sets.
pub record MppFrame : Type 0 where
  pub width : ℕ
  pub height : ℕ
  pub hor_stride : ℕ
  pub ver_stride : ℕ
  pub fmt : ℕ
  pub eos : ℕ
  pub buffer : Option ℕ

-- `MPP_ALIGN(x, 8)`, `((x) + 8 - 1) & ~7`, on an `RK_U32`.
unfoldable pub align_8 : ℕ → ℕ
align_8 x = bit_and (u32 (x + 7)) 0xfffffff8

-- `hor_stride * ver_stride * 3 / 2` on `RK_U32`
unfoldable pub yuv_size : ℕ → ℕ → ℕ
yuv_size hor_stride ver_stride = u32 (hor_stride * ver_stride * 3) / 2

-- `frame_copy`, given whether `mpp_frame_init` fails: its result, and `*dst_frame`.
unfoldable pub frame_copy : ℕ → MppFrame → ℕ × Option MppFrame
frame_copy init_ret src = if not (init_ret == 0) then (minus_one, none) else (
  1,
  some (record {
    width = src.width;
    height = src.height;
    hor_stride = src.hor_stride;
    ver_stride = src.ver_stride;
    fmt = src.fmt;
    eos = src.eos;
    buffer = src.buffer;
  }),
)

-- `frame_init`, given whether `mpp_frame_init` fails and what `mpp_buffer_get` gives for a size, `none` if
-- it fails: its result, and `*dst_frame`.
unfoldable pub frame_init : ℕ → (ℕ → Option ℕ) → MppFrame → ℕ → ℕ → ℕ × Option MppFrame
unfolding align_8 yuv_size
frame_init init_ret buffer_get src w h =
    let bare : MppFrame = record {
      width = w;
      height = h;
      hor_stride = align_8 w;
      ver_stride = align_8 h;
      fmt = src.fmt;
      eos = src.eos;
      buffer = none;
    } in
    if not (init_ret == 0)
    then (minus_one, none)
    else elim (buffer_get (yuv_size (align_8 w) (align_8 h))) [
      | none ↦ (minus_one, some bare)
      | some buf ↦ (1, some (record bare { buffer = some buf }))
    ]
