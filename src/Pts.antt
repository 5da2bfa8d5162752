-- ===== src/Pts.antt =====
-- The presentation time stamps: `get_pts` of mycode/conver_format.c and of simple/conver_format.c,
-- `get_audio_pts` and `get_video_pts` of mycode/mpi_decoder.c, and `tcp_get_pts` of mycode/gn_tcp.c.
--
-- The counters are advanced in `float`. A float is modelled exactly, as a natural number of units of
-- 2^-12: all values are at least 2048 or 0, and the constants are multiples of the unit. Each float
-- operation rounds to 24 significant bits, to nearest, ties to even (IEEE 754 single precision).
pub mod Rounding
pub mod Codec
mod Tests
use dvb_stream_v.Base.{
  ℕ, zero, suc, ◌+◌, ◌*◌, ◌/◌, ◌%◌, ◌^◌, bit_and, bit_or, List, [], ◌∷◌, ltb, if◌then◌else◌, get_or,
  u8, u64, ◌<<<◌, ◌>>>◌,
}

-- The float 1.0 is `unit` units.
abbrev pub unit : ℕ
unit = 2 ^ 12

-- How many bits of `v` a float has no room for, with fuel.
pub excess_bits : ℕ → ℕ → ℕ
excess_bits zero v = 0
excess_bits (suc fuel) v =
    let rest = suc (excess_bits fuel (v / 2)) in if ltb v (2 ^ 24) then 0 else rest

-- The multiple of `u` nearest to `q * u + r`, ties to the even one.
pub nearest : ℕ → ℕ → ℕ → ℕ
nearest u q r =
    if ltb (2 * r) u then q * u else if ltb u (2 * r) then (q + 1) * u else (q + q % 2) * u

pub round_to : ℕ → ℕ → ℕ
round_to u v = nearest u (v / u) (v % u)

-- The fuel is enough for any unsigned long plus one of the offsets, in units.
abbrev pub float_fuel : ℕ
float_fuel = 80

pub round_float : ℕ → ℕ
unfolding excess_bits nearest round_to
round_float v = round_to (2 ^ excess_bits float_fuel v) v

-- `pts = pts + pts_offset`: the unsigned long is converted to float, the sum is a float, and the
-- assignment drops its fraction. `offset` is in units.
unfoldable pub advance : ℕ → ℕ → ℕ
unfolding round_float
advance offset pts = u64 (round_float (round_float (pts * unit) + offset) / unit)

-- `90000 / frame_rate` for the float 29.97, which is 15712911 / 2^19: the quotient rounds
-- to 12300301 / 2^12, a little over 3003.
abbrev pub video_offset : ℕ
video_offset = 12300301

-- `pts_offset = 0x5A00`
abbrev pub audio_offset : ℕ
audio_offset = 0x5a00 * unit

-- `90000 / frame_rate` for the float 30.
abbrev pub simple_offset : ℕ
simple_offset = 3000 * unit

-- The five bytes that the functions store for the new value of the counter.
unfoldable pub pts_bytes : ℕ → List ℕ
pts_bytes pts =
    u8 (bit_or 0x21 (bit_and (pts >>> 29) 0x0e))
    ∷ u8 (bit_and (pts >>> 22) 0xff)
    ∷ u8 (bit_or 0x01 (bit_and (pts >>> 14) 0xfe))
    ∷ u8 (bit_and (pts >>> 7) 0xff)
    ∷ u8 (bit_or 0x01 (bit_and (u64 (pts <<< 1)) 0xfe))
    ∷ []

-- `get_pts` of mycode: the static counter before the call to that after it, and the bytes stored.
unfoldable pub get_pts : ℕ → ℕ × List ℕ
unfolding advance
get_pts pts = let pts' = advance video_offset pts in (pts', pts_bytes pts')

-- `get_audio_pts`
unfoldable pub get_audio_pts : ℕ → ℕ × List ℕ
unfolding advance
get_audio_pts pts = let pts' = advance audio_offset pts in (pts', pts_bytes pts')

-- `get_video_pts`: the static counter, which is also the result.
unfoldable pub get_video_pts : ℕ → ℕ
unfolding advance
get_video_pts pts = advance video_offset pts

-- `get_pts` of simple.
unfoldable pub simple_get_pts : ℕ → ℕ × List ℕ
unfolding advance
simple_get_pts pts = let pts' = advance simple_offset pts in (pts', pts_bytes pts')

-- `tcp_get_pts`: `pts` points at the five bytes.
unfoldable pub tcp_get_pts : List ℕ → ℕ
tcp_get_pts pts =
    let pts_0 = bit_and (get_or pts 0 0 >>> 1) 0x07 in
    let pts_1 = get_or pts 1 0 in
    let pts_2 = get_or pts 2 0 >>> 1 in
    let pts_3 = get_or pts 3 0 in
    let pts_4 = get_or pts 4 0 >>> 1 in
    u64 (u64 (pts_0 <<< 30) + u64 (pts_1 <<< 22) + u64 (pts_2 <<< 15) + u64 (pts_3 <<< 7) + pts_4)
