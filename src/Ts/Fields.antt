-- ===== src/Ts/Fields.antt =====
-- The header fields that `ts_packet_init` reads, against the bit layout of ISO 13818-1.
use dvb_stream_v.Base.{
  ℕ, ◌+◌, ◌*◌, ◌/◌, ◌%◌, ◌^◌, ◌<◌, bit_and, bit_xor, ◌≡◌, refl, inl, inr, Bool, true, ◌&&◌, List,
  [], ◌∷◌, arith, ltb, ◌==◌, ltb→lt, Bool-cases, all_below, all_below_sound, All-get_or, u8, u16,
  ◌<<<◌, ◌>>>◌,
}
use dvb_stream_v.Base.Bits.{bit_xor_fields}
use dvb_stream_v.Ts.{IsByte, IsBytes, byte_at, parse_header, flag_adapt, flag_payload, TsHeader}

pub byte_at-IsByte : (buf : List ℕ) (i : ℕ) → IsBytes buf → IsByte (byte_at buf i)
byte_at-IsByte buf i h = All-get_or IsByte buf i 0 h (omega arith)

-- The masks of a byte, by evaluation at each of its 256 values.
abbrev masks : ℕ → Bool
masks b =
    (u8 (bit_and b 0x80 >>> 7) == b / 128)
    && (u8 (bit_and b 0x40 >>> 6) == b / 64 % 2)
    && (u8 (bit_and b 0x20 >>> 5) == b / 32 % 2)
    && (u16 (bit_and b 0x1f) == b % 32)
    && (u8 (bit_and b 0xc0 >>> 6) == b / 64)
    && (u8 (bit_and b 0x30 >>> 4) == b / 16 % 4)
    && (u8 (bit_and b 0x0f) == b % 16)

masks_table : all_below 256 masks ≡ true
unfolding all_below
masks_table = refl

record Masks (b : ℕ) : Type 0 where
  bit_7 : u8 (bit_and b 0x80 >>> 7) ≡ b / 128
  bit_6 : u8 (bit_and b 0x40 >>> 6) ≡ b / 64 % 2
  bit_5 : u8 (bit_and b 0x20 >>> 5) ≡ b / 32 % 2
  low_5 : u16 (bit_and b 0x1f) ≡ b % 32
  high_2 : u8 (bit_and b 0xc0 >>> 6) ≡ b / 64
  bits_5_4 : u8 (bit_and b 0x30 >>> 4) ≡ b / 16 % 4
  low_4 : u8 (bit_and b 0x0f) ≡ b % 16

masks_lem : (b : ℕ) → IsByte b → Masks b
masks_lem b h = let t : masks b ≡ true = all_below_sound 256 masks masks_table b h in ground arith

-- Two bytes, the high one first.
pub big_endian :
    (hi lo : ℕ) → hi < 256 → IsByte lo → u16 (bit_xor (u16 (hi <<< 8)) lo) ≡ hi * 256 + lo
big_endian hi lo hh hl =
    let fits : u16 (hi <<< 8) ≡ hi * 2 ^ 8 = omega arith in
    rw fits (omega (arith, bit_xor_fields 8 hi lo hl))

-- The four header bytes as the standard lays them out, by `/` and `%`.
pub record Layout (b1 b2 b3 : ℕ) (h : TsHeader) : Type 0 where
  pub sync_unread : h.sync_byte ≡ 0
  pub error_bit : h.transport_error_indicator ≡ b1 / 128
  pub start_bit : h.payload_unit_start_indicator ≡ b1 / 64 % 2
  pub priority_bit : h.transport_priority ≡ b1 / 32 % 2
  pub pid_bits : h.pid ≡ b1 % 32 * 256 + b2
  pub scrambling_bits : h.transport_scrambling_control ≡ b3 / 64
  pub adaptation_bits : h.adaptation_field_control ≡ b3 / 16 % 4
  pub counter_bits : h.continuity_counter ≡ b3 % 16

pub Layout-bytes :
    (buf : List ℕ)
    → IsByte (byte_at buf 1)
    → IsByte (byte_at buf 2)
    → IsByte (byte_at buf 3)
    → Layout (byte_at buf 1) (byte_at buf 2) (byte_at buf 3) (parse_header buf)
unfolding parse_header
Layout-bytes buf h1 h2 h3 =
    let m1 = masks_lem (byte_at buf 1) h1 in
    let m3 = masks_lem (byte_at buf 3) h3 in
    record {
      sync_unread = refl;
      error_bit = m1.bit_7;
      start_bit = m1.bit_6;
      priority_bit = m1.bit_5;
      pid_bits = rw (m1.low_5) (big_endian _ _ (omega arith) h2);
      scrambling_bits = m3.high_2;
      adaptation_bits = m3.bits_5_4;
      counter_bits = m3.low_4;
    }

-- For every buffer of bytes, each header field that `ts_packet_init` stores is the field of the
-- standard's layout of the second to the fourth byte; the sync byte is not stored.
pub parse_header-Layout :
    (buf : List ℕ)
    → IsBytes buf
    → Layout (byte_at buf 1) (byte_at buf 2) (byte_at buf 3) (parse_header buf)
parse_header-Layout buf h =
    Layout-bytes buf (byte_at-IsByte buf 1 h) (byte_at-IsByte buf 2 h) (byte_at-IsByte buf 3 h)

flags_table : all_below 4 (λ c. (bit_and c 0x02 >>> 1 == c / 2) && (bit_and c 0x01 == c % 2)) ≡ true
unfolding all_below
flags_table = refl

-- The two flags are the two bits of the adaptation field control.
pub flags_lem :
    (h : TsHeader)
    → h.adaptation_field_control < 4
    → (flag_adapt h ≡ h.adaptation_field_control / 2)
      × (flag_payload h ≡ h.adaptation_field_control % 2)
unfolding flag_adapt flag_payload
flags_lem h small =
    let t =
      all_below_sound 4 (λ c. (bit_and c 0x02 >>> 1 == c / 2) && (bit_and c 0x01 == c % 2))
        flags_table h.adaptation_field_control small in
    ground arith

-- What the packet's fourth byte says of an adaptation field and of a payload.
pub flags_of_byte :
    (buf : List ℕ)
    → IsBytes buf
    → (flag_adapt (parse_header buf) ≡ byte_at buf 3 / 32 % 2)
      × (flag_payload (parse_header buf) ≡ byte_at buf 3 / 16 % 2)
flags_of_byte buf h =
    let l = parse_header-Layout buf h in
    let f = flags_lem (parse_header buf) (omega arith) in (omega arith, omega arith)

-- A test that all numbers of a list are bytes.
abbrev pub all_bytes : List ℕ → Bool
all_bytes [] = true
all_bytes (b ∷ bs) = ltb b 256 && all_bytes bs

pub all_bytes_sound : (bs : List ℕ) → all_bytes bs ≡ true → IsBytes bs
all_bytes_sound [] h = tt
all_bytes_sound (b ∷ bs) h = elim (Bool-cases (ltb b 256)) [
  | inl e ↦ (ltb→lt b 256 e, all_bytes_sound bs (rw e at h))
  | inr e ↦ absurd (cc (rw e at h))
]
