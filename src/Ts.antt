-- ===== src/Ts.antt =====
-- mycode/ts_packet.h and mycode/ts_packet.c: the structs of a transport stream packet, and the parser
-- `ts_packet_init`. (simple/ts_packet.c is the same text.)
pub mod Fields
pub mod Outcomes
pub mod Content
pub mod Pes
mod Tests
use dvb_stream_v.Base.{
  ℕ, zero, suc, ◌+◌, ◌-◌, ◌^◌, ◌<◌, bit_and, bit_xor, ◌&&◌, ◌||◌, Option, none, some, List, [], ◌∷◌,
  ltb, leb, ◌==◌, if◌then◌else◌, get_or, set, replicate, All, u8, u16, u64, ◌<<<◌, ◌>>>◌,
}

-- `TS_PACKET_SIZE`
abbrev pub ts_packet_size : ℕ
ts_packet_size = 188

-- `TS_SYNC_BYTE`
abbrev pub ts_sync_byte : ℕ
ts_sync_byte = 0x47

abbrev pub IsByte : ℕ → Type 0
IsByte b = b < 2 ^ 8

abbrev pub IsBytes : List ℕ → Type 0
IsBytes = All IsByte

-- `Ts_header`
pub record TsHeader : Type 0 where
  pub sync_byte : ℕ
  pub transport_error_indicator : ℕ
  pub payload_unit_start_indicator : ℕ
  pub transport_priority : ℕ
  pub pid : ℕ
  pub transport_scrambling_control : ℕ
  pub adaptation_field_control : ℕ
  pub continuity_counter : ℕ

-- `Adaptation`
pub record Adaptation : Type 0 where
  pub flag : ℕ
  pub adaptation_field_length : ℕ
  pub flag_pcr : ℕ
  pub pcr : List ℕ

-- `Pes_header`
pub record PesHeader : Type 0 where
  pub flag : ℕ
  pub stream_id : ℕ
  pub packet_length : ℕ
  pub flag_priority : ℕ
  pub flag_pts : ℕ
  pub flag_dts : ℕ
  pub data_length : ℕ
  pub pts : List ℕ
  pub dts : List ℕ

-- `Payload`; `bytes` is its member `data`.
pub record Payload : Type 0 where
  pub flag : ℕ
  pub size : ℕ
  pub payload_offset : ℕ
  pub bytes : List ℕ

-- `Ts_packet`
pub record TsPacket : Type 0 where
  pub ts_header : TsHeader
  pub adapt : Adaptation
  pub pes_header : PesHeader
  pub payload : Payload

-- `buf[i]`. The caller's buffer has 4096 bytes; `Ts.Outcomes` bounds the indices that are read.
abbrev pub byte_at : List ℕ → ℕ → ℕ
byte_at buf i = get_or buf i 0

abbrev pub five_bytes : List ℕ → ℕ → List ℕ
five_bytes buf i =
    byte_at buf i
    ∷ byte_at buf (i + 1)
    ∷ byte_at buf (i + 2)
    ∷ byte_at buf (i + 3)
    ∷ byte_at buf (i + 4)
    ∷ []

-- What `memset` leaves in the parts that the parser does not fill in.
abbrev pub no_bytes : List ℕ
no_bytes = replicate 5 0

abbrev pub no_adaptation : Adaptation
no_adaptation = record { flag = 0; adaptation_field_length = 0; flag_pcr = 0; pcr = no_bytes }

abbrev pub no_pes : PesHeader
no_pes = record {
  flag = 0;
  stream_id = 0;
  packet_length = 0;
  flag_priority = 0;
  flag_pts = 0;
  flag_dts = 0;
  data_length = 0;
  pts = no_bytes;
  dts = no_bytes;
}

abbrev pub no_payload : Payload
no_payload = record { flag = 0; size = 0; payload_offset = 0; bytes = replicate ts_packet_size 0 }

-- The int -1 is `none`; any other result is positive, since `p` is not negative.
unfoldable pub is_continuous_zero : List ℕ → ℕ → Option ℕ
is_continuous_zero buf p =
    if byte_at buf p == 0 && byte_at buf (p + 1) == 0
    then if byte_at buf (p + 2) == 1
      then some (p + 3)
      else if byte_at buf (p + 2) == 0 && byte_at buf (p + 3) == 1
      then some (p + 4)
      else none
    else none

-- The header fields of `ts_packet_init`. The sync byte stays 0: the parser does not read it.
unfoldable pub parse_header : List ℕ → TsHeader
parse_header buf =
    let pid_high = u16 (bit_and (byte_at buf 1) 0x1f) in
    record {
      sync_byte = 0;
      transport_error_indicator = u8 (bit_and (byte_at buf 1) 0x80 >>> 7);
      payload_unit_start_indicator = u8 (bit_and (byte_at buf 1) 0x40 >>> 6);
      transport_priority = u8 (bit_and (byte_at buf 1) 0x20 >>> 5);
      pid = u16 (bit_xor (u16 (pid_high <<< 8)) (byte_at buf 2));
      transport_scrambling_control = u8 (bit_and (byte_at buf 3) 0xc0 >>> 6);
      adaptation_field_control = u8 (bit_and (byte_at buf 3) 0x30 >>> 4);
      continuity_counter = u8 (bit_and (byte_at buf 3) 0x0f);
    }

unfoldable pub flag_adapt : TsHeader → ℕ
flag_adapt h = bit_and h.adaptation_field_control 0x02 >>> 1

unfoldable pub flag_payload : TsHeader → ℕ
flag_payload h = bit_and h.adaptation_field_control 0x01

-- The body of `if (flag_adapt)`.
unfoldable pub parse_adaptation : List ℕ → Adaptation
parse_adaptation buf = record {
  flag = 1;
  adaptation_field_length = byte_at buf 4;
  flag_pcr = byte_at buf 5;
  pcr = if byte_at buf 5 == 0x50 then five_bytes buf 6 else no_bytes;
}

-- The body of `if (stream_id >= 0xc0 && stream_id <= 0xef)`, behind a start code that ends at `z`.
unfoldable pub parse_pes : List ℕ → ℕ → PesHeader
parse_pes buf z =
    let flag_pts = byte_at buf (z + 4) in
    record {
      flag = 1;
      stream_id = byte_at buf z;
      packet_length = u16 (bit_xor (u16 (byte_at buf (z + 1) <<< 8)) (byte_at buf (z + 2)));
      flag_priority = byte_at buf (z + 3);
      flag_pts = flag_pts;
      flag_dts = 0;
      data_length = byte_at buf (z + 5);
      pts = if flag_pts == 0x80 || flag_pts == 0xc0 then five_bytes buf (z + 6) else no_bytes;
      dts = if flag_pts == 0xc0 then five_bytes buf (z + 11) else no_bytes;
    }

-- A PES header, if one begins at the payload's first byte, and the payload's offset behind it.
unfoldable pub find_pes : List ℕ → ℕ → PesHeader × ℕ
unfolding is_continuous_zero parse_pes
find_pes buf offset = elim (is_continuous_zero buf offset) [
  | none ↦ (no_pes, offset)
  | some z ↦
      if leb 0xc0 (byte_at buf z) && leb (byte_at buf z) 0xef
      then (parse_pes buf z, z + 5 + byte_at buf (z + 5) + 1)
      else (no_pes, offset)
]

-- `p->payload.size`: an int is converted to size_t, so a negative difference is a huge number.
unfoldable pub payload_size : ℕ → ℕ
payload_size offset = u64 (ts_packet_size + 2 ^ 64 - offset)

-- The copy loop at index `i`, with `room` bytes of `payload.data` left. `none` is a write past the
-- array's end.
unfoldable pub copy_payload : ℕ → ℕ → ℕ → List ℕ → ℕ → List ℕ → Option (List ℕ)
copy_payload zero size i buf offset bytes = if ltb i size then none else some bytes
copy_payload (suc room) size i buf offset bytes =
    let rest = copy_payload room size (i + 1) buf offset (set bytes i (byte_at buf (offset + i))) in
    if ltb i size then rest else some bytes

-- What a call of `ts_packet_init` comes to.
pub data Parsed : Type 0 where
  -- it returns 1, and `*packet` is set
  parsed : TsPacket → Parsed
  -- it returns -1, and `*packet` is as before
  refused : Parsed
  -- its copy loop writes past `payload.data`, which C leaves undefined
  overrun : Parsed

-- Where the payload begins: behind the adaptation field, if there is one.
unfoldable pub payload_start : TsHeader → Adaptation → ℕ
payload_start h adapt = if flag_adapt h == 0 then 4 else 4 + adapt.adaptation_field_length + 1

-- The body of `if (flag_payload)`.
unfoldable pub parse_payload : List ℕ → TsHeader → Adaptation → Parsed
unfolding payload_start find_pes payload_size copy_payload
parse_payload buf h adapt =
    let (pes, offset) = find_pes buf (payload_start h adapt) in
    elim (copy_payload ts_packet_size (payload_size offset) 0 buf offset no_payload.bytes) [
      | none ↦ overrun
      | some bytes ↦ parsed (record {
        ts_header = h;
        adapt = adapt;
        pes_header = pes;
        payload = record {
          flag = 1;
          size = payload_size offset;
          payload_offset = offset;
          bytes = bytes;
        };
      })
    ]

-- What is read of the adaptation field.
unfoldable pub adaptation_of : List ℕ → TsHeader → Adaptation
unfolding flag_adapt parse_adaptation
adaptation_of buf h = if flag_adapt h == 0 then no_adaptation else parse_adaptation buf

unfoldable pub ts_packet_init : List ℕ → Parsed
unfolding parse_header flag_payload adaptation_of parse_payload
ts_packet_init buf =
    let h = parse_header buf in
    let adapt = adaptation_of buf h in
    if h.transport_error_indicator == 1
    then refused
    else if flag_payload h == 0
    then parsed (record { ts_header = h; adapt = adapt; pes_header = no_pes; payload = no_payload })
    else parse_payload buf h adapt
