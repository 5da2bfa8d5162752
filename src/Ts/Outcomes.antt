-- ===== src/Ts/Outcomes.antt =====
-- What a call of `ts_packet_init` comes to, on every packet.
use native.Mathlib.Decide.{dec_lt, ℕ_discrete}
use dvb_stream_v.Base.{
  ℕ, ◌+◌, ◌-◌, ◌/◌, ◌%◌, ◌≤◌, ◌<◌, ◌≡◌, refl, sym, ap, ◌∙◌, ◌⊎◌, inl, inr, some, List, arith, ◌==◌,
  Bool-cases, Option-cases,
}
use dvb_stream_v.Ts.{
  ts_packet_size, IsBytes, byte_at, no_pes, no_payload, is_continuous_zero, parse_header,
  flag_payload, find_pes, payload_size, copy_payload, payload_start, parse_payload, adaptation_of,
  ts_packet_init, TsHeader, Adaptation, TsPacket, Parsed, parsed, refused, overrun,
}
use dvb_stream_v.Ts.Content.{payload_size_inside, copy_outside, rest_of_packet, copy_inside}
use dvb_stream_v.Ts.Fields.{byte_at-IsByte, parse_header-Layout, flags_of_byte}

-- The offset at which the parser takes the payload to begin.
abbrev pub data_offset : List ℕ → ℕ
data_offset buf =
    (find_pes buf (payload_start (parse_header buf) (adaptation_of buf (parse_header buf)))).1

-- The packet's own bits: transport error, adaptation field, payload.
abbrev pub HasError : List ℕ → Type 0
HasError buf = 128 ≤ byte_at buf 1

abbrev pub HasPayload : List ℕ → Type 0
HasPayload buf = byte_at buf 3 / 16 % 2 ≡ 1

abbrev pub HasAdaptation : List ℕ → Type 0
HasAdaptation buf = byte_at buf 3 / 32 % 2 ≡ 1

pub is_continuous_zero_range :
    (buf : List ℕ) (p z : ℕ) → is_continuous_zero buf p ≡ some z → (p + 3 ≤ z) × (z ≤ p + 4)
unfolding is_continuous_zero
is_continuous_zero_range buf p z h = ground arith

-- A PES header moves the payload's start forward, by at most 4 + 6 + 255 bytes.
pub find_pes_range :
    (buf : List ℕ) (offset : ℕ)
    → IsBytes buf
    → (offset ≤ (find_pes buf offset).1) × ((find_pes buf offset).1 ≤ offset + 265)
unfolding find_pes
find_pes_range buf offset h = elim (Option-cases (is_continuous_zero buf offset)) [
  | inl e ↦ rw (e, find_pes) (omega arith, omega arith)
  | inr (z, e) ↦
      let r = is_continuous_zero_range buf offset z e in
      let b = byte_at-IsByte buf (z + 5) h in rw (e, find_pes) (ground arith)
]

-- The payload starts behind the four header bytes and the adaptation field, if there is one.
pub payload_start_cases :
    (buf : List ℕ)
    → IsBytes buf
    → (HasAdaptation buf
        × (payload_start (parse_header buf) (adaptation_of buf (parse_header buf))
            ≡ byte_at buf 4 + 5))
      ⊎ ((byte_at buf 3 / 32 % 2 ≡ 0)
          × (payload_start (parse_header buf) (adaptation_of buf (parse_header buf)) ≡ 4))
unfolding payload_start adaptation_of
payload_start_cases buf h = let f = flags_of_byte buf h in ground arith

-- For every buffer of bytes, the payload is taken to begin behind the four header bytes, not before
-- the end of the adaptation field, and at index 525 at the latest.
pub data_offset_range :
    (buf : List ℕ)
    → IsBytes buf
    → (4 ≤ data_offset buf)
      × (data_offset buf ≤ 525)
      × (payload_start (parse_header buf) (adaptation_of buf (parse_header buf)) ≤ data_offset buf)
data_offset_range buf h =
    let start = payload_start (parse_header buf) (adaptation_of buf (parse_header buf)) in
    let b = byte_at-IsByte buf 4 h in
    let s = payload_start_cases buf h in
    let r = find_pes_range buf start h in (omega arith, omega arith, r.0)

-- The packet that is stored when there is no payload.
abbrev pub bare : List ℕ → TsPacket
bare buf = record {
  ts_header = parse_header buf;
  adapt = adaptation_of buf (parse_header buf);
  pes_header = no_pes;
  payload = no_payload;
}

-- The packet that is stored when the payload begins inside the packet.
abbrev pub loaded : List ℕ → TsPacket
loaded buf = record {
  ts_header = parse_header buf;
  adapt = adaptation_of buf (parse_header buf);
  pes_header =
      (find_pes buf (payload_start (parse_header buf) (adaptation_of buf (parse_header buf)))).0;
  payload = record {
    flag = 1;
    size = ts_packet_size - data_offset buf;
    payload_offset = data_offset buf;
    bytes = rest_of_packet buf (data_offset buf);
  };
}

-- What a call returns, with the bits of the packet that make it so.
pub data Outcome (buf : List ℕ) (r : Parsed) : Type 0 where
  on_error : HasError buf → r ≡ refused → Outcome buf r
  on_no_payload :
      byte_at buf 1 < 128 → byte_at buf 3 / 16 % 2 ≡ 0 → r ≡ parsed (bare buf) → Outcome buf r
  on_far_payload :
      byte_at buf 1 < 128
      → HasPayload buf
      → ts_packet_size < data_offset buf
      → r ≡ overrun
      → Outcome buf r
  on_payload :
      byte_at buf 1 < 128
      → HasPayload buf
      → data_offset buf ≤ ts_packet_size
      → r ≡ parsed (loaded buf)
      → Outcome buf r

module _ (buf : List ℕ) (h : IsBytes buf) where
  error_bit_lem : (parse_header buf).transport_error_indicator ≡ byte_at buf 1 / 128
  error_bit_lem = (parse_header-Layout buf h).error_bit

  not_refused :
      byte_at buf 1 < 128
      → HasPayload buf
      → ts_packet_init buf
        ≡ parse_payload buf (parse_header buf) (adaptation_of buf (parse_header buf))
  unfolding ts_packet_init
  not_refused ok pay = let f = flags_of_byte buf h in let e = error_bit_lem in ground (arith, e, f)

  far_payload :
      byte_at buf 1 < 128
      → HasPayload buf
      → ts_packet_size < data_offset buf
      → ts_packet_init buf ≡ overrun
  unfolding parse_payload
  far_payload ok pay far =
      let r = data_offset_range buf h in
      not_refused ok pay
      ∙ rw (copy_outside buf (data_offset buf) far (omega arith), parse_payload) refl

  pub near_payload :
      byte_at buf 1 < 128
      → HasPayload buf
      → data_offset buf ≤ ts_packet_size
      → ts_packet_init buf ≡ parsed (loaded buf)
  unfolding parse_payload
  near_payload ok pay near =
      let size = payload_size_inside buf (data_offset buf) near in
      not_refused ok pay
      ∙ rw (copy_inside buf (data_offset buf) near, parse_payload)
          (ap
            (λ k.
              parsed (record (loaded buf) { payload = record (loaded buf).payload { size = k } }))
            size)

  -- For every buffer of bytes, `ts_packet_init` refuses the packet if its error bit is set; else it
  -- returns the header alone if there is no payload, copies the bytes from the payload's offset to
  -- the end of the packet if the offset is at most 188, and otherwise writes past its array.
  pub ts_packet_init-Outcome : Outcome buf (ts_packet_init buf)
  unfolding ts_packet_init
  ts_packet_init-Outcome =
      let f = flags_of_byte buf h in
      let e = error_bit_lem in
      let b1 = byte_at-IsByte buf 1 h in
      elim (dec_lt (byte_at buf 1) 128) [
        | no bad ↦ on_error (omega arith) (ground arith)
        | yes ok ↦ elim (ℕ_discrete (byte_at buf 3 / 16 % 2) 0) [
          | yes empty ↦ on_no_payload ok empty (ground arith)
          | no pay ↦ elim (dec_lt ts_packet_size (data_offset buf)) [
            | yes far ↦ on_far_payload ok (omega arith) far (far_payload ok (omega arith) far)
            | no near ↦
                on_payload ok (omega arith) (omega arith)
                  (near_payload ok (omega arith) (omega arith))
          ]
        ]
      ]

  -- A packet with a payload and an adaptation field whose length byte is 184 or more, and no error bit,
  -- makes `ts_packet_init` write past its array, whatever its other bytes are.
  pub long_adaptation_overruns :
      byte_at buf 1 < 128
      → HasPayload buf
      → HasAdaptation buf
      → 184 ≤ byte_at buf 4
      → ts_packet_init buf ≡ overrun
  long_adaptation_overruns ok pay adapt long =
      let s = payload_start_cases buf h in
      let r = data_offset_range buf h in far_payload ok pay (omega arith)

-- The header of what a call stores.
abbrev header_or : TsHeader → Parsed → TsHeader
header_or h (parsed p) = p.ts_header
header_or h other = h

parse_payload_header :
    (buf : List ℕ) (h : TsHeader) (adapt : Adaptation) → header_or h (parse_payload buf h adapt) ≡ h
unfolding parse_payload
parse_payload_header buf h adapt =
    let offset = (find_pes buf (payload_start h adapt)).1 in
    elim (Option-cases
      (copy_payload ts_packet_size (payload_size offset) 0 buf offset no_payload.bytes)) [
        | inl e ↦ rw (e, parse_payload) refl
        | inr (bytes, e) ↦ rw (e, parse_payload) refl
      ]

-- The packet that is stored has the header of the bytes.
pub parsed_header :
    (buf : List ℕ) (p : TsPacket) → ts_packet_init buf ≡ parsed p → p.ts_header ≡ parse_header buf
unfolding ts_packet_init
parsed_header buf p e =
    let h = parse_header buf in
    let same : header_or h (parsed p) ≡ header_or h (ts_packet_init buf) =
      ap (header_or h) (sym e) in
    same ∙ elim (Bool-cases (h.transport_error_indicator == 1)) [
      | inl bad ↦ rw bad refl
      | inr ok ↦ elim (Bool-cases (flag_payload h == 0)) [
        | inl none_there ↦ rw (ok, none_there) refl
        | inr there ↦ rw (ok, there) (parse_payload_header buf h (adaptation_of buf h))
      ]
    ]
