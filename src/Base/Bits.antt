-- ===== src/Base/Bits.antt =====
-- `&`, `|` and `^` at variables: the law of the lowest digit, masks, and fields that do not overlap.
use Prim.Native.Nat.{
  ℕ, zero, suc, ◌+◌, ◌*◌, ◌/◌, ◌%◌, ◌^◌, ◌≤◌, ◌<◌, min, differ, bit_and, bit_xor, digits,
  bit_and-bitwise, bit_xor-bitwise,
}
use mathlib.Core.Path.{◌≡◌, refl, ap}
use native.Mathlib.Nat.{pow-suc}
use native.Mathlib.Omega.{arith}

-- More fuel than digits makes no difference.
digits-fuel :
    (z : ℕ → ℕ) (f : ℕ → ℕ → ℕ) (m n a b : ℕ) → a ≤ m → a ≤ n → digits z f m a b ≡ digits z f n a b
digits-fuel z f zero zero zero b p q = refl
digits-fuel z f zero (suc n) zero b p q = refl
digits-fuel z f (suc m) zero zero b p q = refl
digits-fuel z f (suc m) (suc n) zero b p q = refl
digits-fuel z f zero n (suc a) b p q = absurd (omega arith)
digits-fuel z f (suc m) zero (suc a) b p q = absurd (omega arith)
digits-fuel z f (suc m) (suc n) (suc a) b p q =
    ap (λ (d : ℕ). d * 2 + f (suc a % 2) (b % 2))
      (digits-fuel z f m n (suc a / 2) (b / 2) (omega arith) (omega arith))

-- The digits of a positive number: the lowest one, behind those of the halves.
digits-suc :
    (z : ℕ → ℕ) (f : ℕ → ℕ → ℕ) (a b : ℕ)
    → digits z f (suc a) (suc a) b
      ≡ digits z f (suc a / 2) (suc a / 2) (b / 2) * 2 + f (suc a % 2) (b % 2)
digits-suc z f a b =
    ap (λ (d : ℕ). d * 2 + f (suc a % 2) (b % 2))
      (digits-fuel z f a (suc a / 2) (suc a / 2) (b / 2) (omega arith) (omega arith))

pub bit_xor_step : (x y : ℕ) → bit_xor x y ≡ bit_xor (x / 2) (y / 2) * 2 + differ (x % 2) (y % 2)
bit_xor_step zero y = omega (arith, bit_xor-bitwise 0 y, bit_xor-bitwise 0 (y / 2))
bit_xor_step (suc x) y =
    let halves = bit_xor-bitwise (suc x / 2) (y / 2) in
    omega (arith, bit_xor-bitwise (suc x) y, halves, digits-suc (λ b. b) differ x y)

pub bit_and_step : (x y : ℕ) → bit_and x y ≡ bit_and (x / 2) (y / 2) * 2 + min (x % 2) (y % 2)
bit_and_step zero y = omega (arith, bit_and-bitwise 0 y, bit_and-bitwise 0 (y / 2))
bit_and_step (suc x) y =
    let halves = bit_and-bitwise (suc x / 2) (y / 2) in
    omega (arith, bit_and-bitwise (suc x) y, halves, digits-suc (λ b. 0) min x y)

-- Zero on the right, for both operations at once.
with_zero : (fuel x : ℕ) → x ≤ fuel → (bit_and x 0 ≡ 0) × (bit_xor x 0 ≡ x)
with_zero fuel zero h = (refl, refl)
with_zero zero (suc x) h = absurd (omega arith)
with_zero (suc fuel) (suc x) h =
    let half = with_zero fuel (suc x / 2) (omega arith) in
    (omega (arith, bit_and_step (suc x) 0, half.0), grind (arith, bit_xor_step (suc x) 0, half.1))

bit_and_zero : (a : ℕ) → bit_and a 0 ≡ 0
bit_and_zero a = (with_zero a a (omega arith)).0

bit_xor_even : (t r : ℕ) → bit_xor (t * 2) r ≡ bit_xor t (r / 2) * 2 + r % 2
bit_xor_even t r =
    let half : t * 2 / 2 ≡ t = omega arith in
    let even : t * 2 % 2 ≡ 0 = omega arith in
    let step : bit_xor (t * 2) r ≡ bit_xor (t * 2 / 2) (r / 2) * 2 + differ (t * 2 % 2) (r % 2) =
      bit_xor_step (t * 2) r in
    rw (half, even) at step

-- A field `q << k` and a field below `2 ^ k` do not overlap: their `^` is their sum.
pub bit_xor_fields : (k q r : ℕ) → r < 2 ^ k → bit_xor (q * 2 ^ k) r ≡ q * 2 ^ k + r
bit_xor_fields zero q r h = grind (arith, (with_zero q q (omega arith)).1)
bit_xor_fields (suc k) q r h =
    let double : 2 ^ suc k ≡ 2 ^ k * 2 = omega (arith, pow-suc 2 k) in
    let twice : q * 2 ^ suc k ≡ q * 2 ^ k * 2 = omega (arith, ap (λ (t : ℕ). q * t) double) in
    rw twice (omega (arith, bit_xor_even (q * 2 ^ k) r, bit_xor_fields k q (r / 2) (omega arith)))

-- A mask of the `k` lowest bits.
mask_1 : (a : ℕ) → bit_and a 1 ≡ a % 2
mask_1 a = omega (arith, bit_and_step a 1, bit_and_zero (a / 2))

mask_3 : (a : ℕ) → bit_and a 3 ≡ a % 4
mask_3 a = omega (arith, bit_and_step a 3, mask_1 (a / 2))

pub mask_7 : (a : ℕ) → bit_and a 7 ≡ a % 8
mask_7 a = omega (arith, bit_and_step a 7, mask_3 (a / 2))

pub mask_0x0f : (a : ℕ) → bit_and a 0x0f ≡ a % 16
mask_0x0f a = omega (arith, bit_and_step a 15, mask_7 (a / 2))

mask_0x7f : (a : ℕ) → bit_and a 0x7f ≡ a % 128
mask_0x7f a = omega (
  arith,
  bit_and_step a 127,
  bit_and_step (a / 2) 63,
  bit_and_step (a / 2 / 2) 31,
  mask_0x0f (a / 2 / 2 / 2),
)

pub mask_0xff : (a : ℕ) → bit_and a 0xff ≡ a % 256
mask_0xff a = omega (arith, bit_and_step a 255, mask_0x7f (a / 2))

pub mask_0xfff : (a : ℕ) → bit_and a 0xfff ≡ a % 4096
mask_0xfff a = omega (
  arith,
  bit_and_step a 0xfff,
  bit_and_step (a / 2) 0x7ff,
  bit_and_step (a / 2 / 2) 0x3ff,
  bit_and_step (a / 2 / 2 / 2) 0x1ff,
  mask_0xff (a / 2 / 2 / 2 / 2),
)

-- Masks that leave the lowest bit out.
pub mask_0x0e : (a : ℕ) → bit_and a 0x0e ≡ a / 2 % 8 * 2
mask_0x0e a = omega (arith, bit_and_step a 14, mask_7 (a / 2))

pub mask_0xfe : (a : ℕ) → bit_and a 0xfe ≡ a / 2 % 128 * 2
mask_0xfe a = omega (arith, bit_and_step a 254, mask_0x7f (a / 2))
