-- ===== src/FrameInit/Size.antt =====
-- The strides and the buffer of a new frame.

use native.Mathlib.Nat.{pow-suc}
use dvb_stream_v.Base.{
  ℕ, zero, suc, ◌+◌, ◌*◌, ◌/◌, ◌%◌, ◌^◌, ◌≤◌, ◌<◌, bit_and, ◌≡◌, refl, ap₂, ◌∙◌, Option, some,
  arith, u32,
}
use dvb_stream_v.Base.Bits.{bit_and_step}
use dvb_stream_v.FrameInit.{align_8, yuv_size, frame_init, MppFrame}

-- `2 ^ k - 1`
ones : ℕ → ℕ
ones zero = 0
ones (suc k) = ones k * 2 + 1

bit_and-ones : (k x : ℕ) → x < 2 ^ k → bit_and x (ones k) ≡ x
unfolding ones
bit_and-ones zero x h = let none_set : x ≡ 0 = omega arith in rw none_set refl
bit_and-ones (suc k) x h =
    let double = pow-suc 2 k in
    let half = bit_and-ones k (x / 2) (omega arith) in
    let low : (ones k * 2 + 1) / 2 ≡ ones k = omega arith in
    let step = bit_and_step x (ones k * 2 + 1) in omega (arith, rw low at step, half)

-- The least multiple of 8 that is not below `x`.
align_8_lem : (x : ℕ) → x + 7 < 2 ^ 32 → align_8 x ≡ (x + 7) / 8 * 8
unfolding align_8
align_8_lem x h =
    let a = u32 (x + 7) in
    let all : bit_and (a / 2 / 2 / 2) 0x1fffffff ≡ a / 2 / 2 / 2 =
      unfold ones in bit_and-ones 29 (a / 2 / 2 / 2) (omega arith) in
    omega (
      arith,
      all,
      bit_and_step a 0xfffffff8,
      bit_and_step (a / 2) 0x7ffffffc,
      bit_and_step (a / 2 / 2) 0x3ffffffe,
    )

-- The bytes of a frame of `hor` by `ver` pixels with 12 bits for each.
yuv_size_lem : (hor ver : ℕ) → hor * ver * 3 < 2 ^ 32 → yuv_size hor ver ≡ hor * ver * 3 / 2
unfolding yuv_size
yuv_size_lem hor ver h = omega arith

even_product : (a b : ℕ) → 2 * (a * 8 * b * 3 / 2) ≡ a * 8 * b * 3
even_product a b = let e : a * 8 * b * 3 ≡ 2 * (12 * (a * b)) = grind arith in rw e (omega arith)

-- For a width and a height whose aligned product times 3 has 32 bits, and if `mpp_frame_init` and
-- `mpp_buffer_get` succeed: the frame has the width and the height, strides that are the least multiples of
-- 8 not below them, the format and the end mark of the source, and a buffer for which 12 bits for each
-- pixel of the strides have been asked, neither more nor less.
pub frame_init_lem :
    (buffer_get : ℕ → Option ℕ) (src : MppFrame) (w h b : ℕ)
    → w + 7 < 2 ^ 32
    → h + 7 < 2 ^ 32
    → (w + 7) / 8 * 8 * ((h + 7) / 8 * 8) * 3 < 2 ^ 32
    → buffer_get ((w + 7) / 8 * 8 * ((h + 7) / 8 * 8) * 3 / 2) ≡ some b
    → (dst : MppFrame) × (frame_init 0 buffer_get src w h ≡ (1, some dst))
      × (dst.width ≡ w)
      × (dst.height ≡ h)
      × ((w ≤ dst.hor_stride) × (dst.hor_stride < w + 8) × (dst.hor_stride % 8 ≡ 0))
      × ((h ≤ dst.ver_stride) × (dst.ver_stride < h + 8) × (dst.ver_stride % 8 ≡ 0))
      × (dst.fmt ≡ src.fmt)
      × (dst.eos ≡ src.eos)
      × (dst.buffer ≡ some b)
      × (size : ℕ) × (buffer_get size ≡ some b)
      × (2 * size ≡ 3 * (dst.hor_stride * dst.ver_stride))
unfolding frame_init
frame_init_lem buffer_get src w h b hw hh small got =
    let wide = align_8_lem w hw in
    let high = align_8_lem h hh in
    let size = yuv_size_lem ((w + 7) / 8 * 8) ((h + 7) / 8 * 8) small in
    let hor = (w + 7) / 8 * 8 in
    let ver = (h + 7) / 8 * 8 in
    (
      record {
        width = w;
        height = h;
        hor_stride = align_8 w;
        ver_stride = align_8 h;
        fmt = src.fmt;
        eos = src.eos;
        buffer = some b;
      },
      rw (ap₂ yuv_size wide high ∙ size, got, frame_init) refl,
      refl,
      refl,
      (omega (arith, wide), omega (arith, wide), omega (arith, wide)),
      (omega (arith, high), omega (arith, high), omega (arith, high)),
      refl,
      refl,
      refl,
      hor * ver * 3 / 2,
      got,
      rw (wide, high) (even_product ((w + 7) / 8) ver ∙ omega arith),
    )
