-- ===== src/Pts/Rounding.antt =====
-- The counters of the time stamps, advanced in single precision: where the step is exact, how far it
-- is off, and where the counter stands still.
use native.Mathlib.Nat.{
  pow-suc, one-le-pow, mod-lt, div-add-mod', mul-div_cancel, mul-mod_left, pow-le-pow_right,
  le-div_iff_mul-le, mul-le-mul_right,
}
use dvb_stream_v.Base.{
  ℕ, zero, suc, ◌+◌, ◌-◌, ◌*◌, ◌/◌, ◌%◌, ◌^◌, ◌≤◌, ◌<◌, ◌≡◌, refl, sym, ap, ◌∙◌, inl, inr, arith,
  ◌==◌, lt→ltb, le→ltb, Bool-cases,
}
use dvb_stream_v.Pts.{
  unit, excess_bits, nearest, round_to, float_fuel, round_float, advance, video_offset,
  audio_offset,
}

-- The number of excess bits, by the size of the number.
excess_bits-le : (k fuel v : ℕ) → v < 2 ^ 24 * 2 ^ k → excess_bits fuel v ≤ k
unfolding excess_bits
excess_bits-le k zero v h = omega arith
excess_bits-le zero (suc fuel) v h = rw (lt→ltb v (2 ^ 24) (omega arith)) (omega arith)
excess_bits-le (suc k) (suc fuel) v h =
    let ih = excess_bits-le k fuel (v / 2) (omega (arith, pow-suc 2 k)) in ground arith

le-excess_bits : (k fuel v : ℕ) → k < fuel → 2 ^ 24 * 2 ^ k ≤ v → k < excess_bits fuel v
unfolding excess_bits
le-excess_bits k zero v f h = absurd (omega arith)
le-excess_bits zero (suc fuel) v f h = rw (le→ltb v (2 ^ 24) (omega arith)) (omega arith)
le-excess_bits (suc k) (suc fuel) v f h =
    let ih = le-excess_bits k fuel (v / 2) (omega arith) (omega (arith, pow-suc 2 k)) in
    let big = one-le-pow (suc k) 2 (omega arith) in ground arith

-- Rounding moves a number by at most half a unit, and not across a multiple of the unit.
nearest_near :
    (u q r : ℕ)
    → r < u
    → (2 * nearest u q r ≤ 2 * (q * u + r) + u)
      × (2 * (q * u + r) ≤ 2 * nearest u q r + u)
      × (q * u ≤ nearest u q r)
unfolding nearest
nearest_near u q r h = elim (Bool-cases (q % 2 == 0)) [
  | inl even ↦ let e : q + q % 2 ≡ q = ground arith in rw e (ground arith)
  | inr odd ↦ let e : q + q % 2 ≡ q + 1 = ground arith in rw e (ground arith)
]

round_to_near :
    (u v : ℕ)
    → 0 < u
    → (2 * round_to u v ≤ 2 * v + u) × (2 * v ≤ 2 * round_to u v + u) × (v / u * u ≤ round_to u v)
unfolding round_to
round_to_near u v pos =
    let n = nearest_near u (v / u) (v % u) (mod-lt v pos) in rw div-add-mod' at n

round_to_multiple : (u q : ℕ) → 0 < u → round_to u (q * u) ≡ q * u
unfolding round_to nearest
round_to_multiple u q pos = rw (mul-div_cancel q pos, mul-mod_left) (ground arith)

pub unit_pos : (e : ℕ) → 0 < 2 ^ e
unit_pos e = one-le-pow e 2 (omega arith)

-- A number of at most 24 + k bits moves by at most 2 ^ k / 2.
round_float_near :
    (k v : ℕ)
    → v < 2 ^ 24 * 2 ^ k
    → (2 * round_float v ≤ 2 * v + 2 ^ k) × (2 * v ≤ 2 * round_float v + 2 ^ k)
unfolding round_float
round_float_near k v h =
    let e = excess_bits-le k float_fuel v h in
    let small = pow-le-pow_right {n = 2} (omega arith) e in
    let n = round_to_near (2 ^ excess_bits float_fuel v) v (unit_pos (excess_bits float_fuel v)) in
    (omega arith, omega arith)

pow_split : (k e : ℕ) → e ≤ k → 2 ^ (k - e) * 2 ^ e ≡ 2 ^ k
pow_split k zero h = let e : k - 0 ≡ k = omega arith in rw e (omega arith)
pow_split k (suc e) h =
    let s : k - e ≡ suc (k - suc e) = omega arith in
    let ih : 2 ^ suc (k - suc e) * 2 ^ e ≡ 2 ^ k = rw s at (pow_split k e (omega arith)) in
    omega (
      arith,
      ih,
      pow-suc 2 e,
      ap (λ (t : ℕ). t * 2 ^ e) (pow-suc 2 (k - suc e)),
      ap (λ (t : ℕ). 2 ^ (k - suc e) * t) (pow-suc 2 e),
    )

-- A multiple of 2 ^ k below 2 ^ (24 + k) is a float.
round_float_exact : (k n : ℕ) → n * 2 ^ k < 2 ^ 24 * 2 ^ k → round_float (n * 2 ^ k) ≡ n * 2 ^ k
unfolding round_float
round_float_exact k n h =
    let e = excess_bits float_fuel (n * 2 ^ k) in
    let s = pow_split k e (excess_bits-le k float_fuel (n * 2 ^ k) h) in
    let whole : n * 2 ^ (k - e) * 2 ^ e ≡ n * 2 ^ k = omega (arith, ap (λ (t : ℕ). n * t) s) in
    sym (ap (round_to (2 ^ e)) whole)
    ∙ round_to_multiple (2 ^ e) (n * 2 ^ (k - e)) (unit_pos e)
    ∙ whole

-- Rounding does not go below a multiple of 2 ^ k.
round_float-ge : (k n v : ℕ) → v < 2 ^ 24 * 2 ^ k → n * 2 ^ k ≤ v → n * 2 ^ k ≤ round_float v
unfolding round_float
round_float-ge k n v h le =
    let e = excess_bits float_fuel v in
    let s = pow_split k e (excess_bits-le k float_fuel v h) in
    let whole : n * 2 ^ (k - e) * 2 ^ e ≡ n * 2 ^ k = omega (arith, ap (λ (t : ℕ). n * t) s) in
    let below = (le-div_iff_mul-le {x = n * 2 ^ (k - e)} {y = v} (unit_pos e)).1 (omega arith) in
    let near = round_to_near (2 ^ e) v (unit_pos e) in
    omega (arith, mul-le-mul_right (2 ^ e) below, near.2)

-- While counter and step have at most 24 bits, `get_pts` and `get_video_pts` advance the counter by
-- exactly 3003: the fraction that the float adds does not reach the next integer.
pub advance_exact : (pts : ℕ) → pts + 3003 < 2 ^ 24 → advance video_offset pts ≡ pts + 3003
unfolding advance
advance_exact pts h =
    let whole = round_float_exact 12 pts (omega arith) in
    let v = (pts + 3003) * 2 ^ 12 + 13 in
    let sum : pts * unit + video_offset ≡ v = omega arith in
    let low = round_float-ge 12 (pts + 3003) v (omega arith) (omega arith) in
    let high = round_float_near 12 v (omega arith) in rw (whole, sum) (omega arith)

-- `get_audio_pts` adds exactly 0x5a00 as long as the sum has at most 24 bits.
pub advance_audio_exact :
    (pts : ℕ) → pts + 0x5a00 < 2 ^ 24 → advance audio_offset pts ≡ pts + 0x5a00
unfolding advance
advance_audio_exact pts h =
    let whole = round_float_exact 12 pts (omega arith) in
    let sum : pts * unit + audio_offset ≡ (pts + 0x5a00) * 2 ^ 12 = omega arith in
    let again = round_float_exact 12 (pts + 0x5a00) (omega arith) in
    rw (whole, sum, again) (omega arith)

-- For every counter that fits the 33 bits of a time stamp, one step of `get_pts` or `get_video_pts`
-- moves it forward, by 2234 to 3772.
pub advance_range :
    (pts : ℕ)
    → pts < 2 ^ 33
    → (pts + 2234 ≤ advance video_offset pts) × (advance video_offset pts ≤ pts + 3772)
unfolding advance
advance_range pts h =
    let first = round_float_near 21 (pts * unit) (omega arith) in
    let second = round_float_near 22 (round_float (pts * unit) + video_offset) (omega arith) in
    (omega arith, omega arith)

-- The excess of a number with exactly 49 bits.
excess_bits_49 : (v : ℕ) → 2 ^ 48 ≤ v → v < 2 ^ 49 → excess_bits float_fuel v ≡ 25
excess_bits_49 v low high = omega (
  arith,
  excess_bits-le 25 float_fuel v (omega arith),
  le-excess_bits 24 float_fuel v (omega arith) (omega arith),
)

round_float_frozen :
    (m : ℕ) → 2 ^ 23 ≤ m → m < 2 ^ 24 → round_float (m * 2 ^ 25 + video_offset) ≡ m * 2 ^ 25
unfolding round_float round_to nearest
round_float_frozen m low high =
    let e = excess_bits_49 (m * 2 ^ 25 + video_offset) (omega arith) (omega arith) in
    let q : (m * 2 ^ 25 + video_offset) / 2 ^ 25 ≡ m = omega arith in
    let r : (m * 2 ^ 25 + video_offset) % 2 ^ 25 ≡ video_offset = omega arith in rw (e, q, r) refl

-- A counter from 2 ^ 36 on that is a multiple of 8192 is stuck there: `get_pts` adds less than half of
-- the distance to the next float, so every later time stamp is the same.
pub advance_frozen : (m : ℕ) → 2 ^ 23 ≤ m → m < 2 ^ 24 → advance video_offset (m * 8192) ≡ m * 8192
unfolding advance
advance_frozen m low high =
    let whole = round_float_exact 25 m (omega arith) in
    let units : m * 8192 * unit ≡ m * 2 ^ 25 = omega arith in
    rw (units, whole, round_float_frozen m low high) (omega arith)
