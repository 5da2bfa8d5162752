-- ===== src/Pts/Codec.antt =====
-- The five bytes of a time stamp, written and read back.
use dvb_stream_v.Base.{
  ℕ, ◌+◌, ◌*◌, ◌/◌, ◌%◌, ◌^◌, ◌<◌, bit_or, ◌≡◌, refl, Bool, true, ◌&&◌, ◌||◌, List, [], ◌∷◌, ◌++◌,
  arith, leb, ◌==◌, all_below, all_below_sound,
}
use dvb_stream_v.Base.Bits.{mask_7, mask_0xff, mask_0x0e, mask_0xfe}
use dvb_stream_v.Pts.{pts_bytes, tcp_get_pts}

-- The marker bits `0x21` and `0x01` lie beside the fields, by evaluation.
markers : ℕ → Bool
markers x =
    (bit_or 0x01 (x * 2) == 0x01 + x * 2) && (leb 8 x || bit_or 0x21 (x * 2) == 0x21 + x * 2)

markers_table : all_below 128 markers ≡ true
unfolding all_below markers
markers_table = refl

marker_0x01 : (x : ℕ) → x < 128 → bit_or 0x01 (x * 2) ≡ 0x01 + x * 2
unfolding markers
marker_0x01 x h =
    let t : markers x ≡ true = all_below_sound 128 markers markers_table x h in ground arith

marker_0x21 : (x : ℕ) → x < 8 → bit_or 0x21 (x * 2) ≡ 0x21 + x * 2
unfolding markers
marker_0x21 x h =
    let t : markers x ≡ true = all_below_sound 128 markers markers_table x (omega arith) in
    ground arith

-- The bytes as sums: 0010 and three bits, fifteen bits and fifteen bits, with a marker bit 1 at the end
-- of the first, the third and the fifth byte.
abbrev pub stamp_layout : ℕ → List ℕ
stamp_layout pts =
    (0x21 + pts / 2 ^ 30 % 8 * 2)
    ∷ (pts / 2 ^ 22 % 256)
    ∷ (1 + pts / 2 ^ 15 % 128 * 2)
    ∷ (pts / 2 ^ 7 % 256)
    ∷ (1 + pts % 128 * 2)
    ∷ []

-- The five bytes that are stored are those of ISO 13818-1 for the counter's lowest 33 bits.
pub pts_bytes_layout : (pts : ℕ) → pts_bytes pts ≡ stamp_layout pts
unfolding pts_bytes
pts_bytes_layout pts =
    simp (mask_0x0e, mask_0xff, mask_0xfe)
      (ground (
        arith,
        marker_0x21 (pts / 2 ^ 29 / 2 % 8) (omega arith),
        marker_0x01 (pts / 2 ^ 14 / 2 % 128) (omega arith),
        marker_0x01 (pts * 2 % 2 ^ 64 / 2 % 128) (omega arith),
      ))

pub tcp_get_pts-stamp_layout :
    (pts : ℕ) (rest : List ℕ) → tcp_get_pts (stamp_layout pts ++ rest) ≡ pts % 2 ^ 33
unfolding tcp_get_pts
tcp_get_pts-stamp_layout pts rest = rw mask_7 (omega arith)

-- `tcp_get_pts` reads back the lowest 33 bits of any counter whose bytes were stored.
pub tcp_get_pts-pts_bytes :
    (pts : ℕ) (rest : List ℕ) → tcp_get_pts (pts_bytes pts ++ rest) ≡ pts % 2 ^ 33
tcp_get_pts-pts_bytes pts rest = rw (pts_bytes_layout pts) (tcp_get_pts-stamp_layout pts rest)
