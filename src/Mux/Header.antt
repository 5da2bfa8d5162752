-- ===== src/Mux/Header.antt =====
-- `put_ts_header` against the parser's `parse_header`.
use dvb_stream_v.Base.{ℕ, ◌+◌, ◌*◌, ◌/◌, ◌%◌, ◌^◌, ◌<◌, ◌≡◌, ◌∙◌, List, [], ◌∷◌, ◌++◌, arith, u8}
use dvb_stream_v.Base.Bits.{mask_0x0f, mask_0xfff}
use dvb_stream_v.Ts.{parse_header, TsHeader}
use dvb_stream_v.Ts.Fields.{Layout-bytes}
use dvb_stream_v.Mux.{next_count, put_ts_header}

pub next_count_lem : (count : ℕ) → next_count count ≡ (count + 1) % 16
unfolding next_count
next_count_lem count = rw mask_0x0f (omega arith)

-- The fields of a header have the widths of the standard.
pub record IsHeader (ts : TsHeader) : Type 0 where
  pub error_fits : ts.transport_error_indicator < 2
  pub start_fits : ts.payload_unit_start_indicator < 2
  pub priority_fits : ts.transport_priority < 2
  pub pid_fits : ts.pid < 2 ^ 13
  pub scrambling_fits : ts.transport_scrambling_control < 4
  pub adaptation_fits : ts.adaptation_field_control < 4

-- The four bytes without wrap-around.
pub put_ts_header_bytes :
    (count : ℕ) (ts : TsHeader)
    → IsHeader ts
    → (put_ts_header count ts).1
      ≡ u8 ts.sync_byte
        ∷ (ts.transport_error_indicator * 128
            + ts.payload_unit_start_indicator * 64
            + ts.transport_priority * 32
            + ts.pid / 256)
        ∷ (ts.pid % 256)
        ∷ (ts.transport_scrambling_control * 64
            + ts.adaptation_field_control * 16
            + (count + 1) % 16)
        ∷ []
unfolding put_ts_header
put_ts_header_bytes count ts h = rw (mask_0xfff, next_count_lem) (ground arith)

header_path :
    (g h : TsHeader)
    → g.sync_byte ≡ h.sync_byte
    → g.transport_error_indicator ≡ h.transport_error_indicator
    → g.payload_unit_start_indicator ≡ h.payload_unit_start_indicator
    → g.transport_priority ≡ h.transport_priority
    → g.pid ≡ h.pid
    → g.transport_scrambling_control ≡ h.transport_scrambling_control
    → g.adaptation_field_control ≡ h.adaptation_field_control
    → g.continuity_counter ≡ h.continuity_counter
    → g ≡ h
header_path g h p0 p1 p2 p3 p4 p5 p6 p7 = λ i. record {
  sync_byte = p0 i;
  transport_error_indicator = p1 i;
  payload_unit_start_indicator = p2 i;
  transport_priority = p3 i;
  pid = p4 i;
  transport_scrambling_control = p5 i;
  adaptation_field_control = p6 i;
  continuity_counter = p7 i;
}

-- What `put_ts_header` stores, `ts_packet_init` reads back: every field of a header whose fields fit
-- their widths, with the advanced continuity counter, whatever follows the four bytes.
pub parse_header-put_ts_header :
    (count : ℕ) (ts : TsHeader) (rest : List ℕ)
    → IsHeader ts
    → parse_header ((put_ts_header count ts).1 ++ rest)
      ≡ record ts { sync_byte = 0; continuity_counter = (count + 1) % 16 }
parse_header-put_ts_header count ts rest h = rw (put_ts_header_bytes count ts h) (
    let b1 =
      ts.transport_error_indicator * 128
      + ts.payload_unit_start_indicator * 64
      + ts.transport_priority * 32
      + ts.pid / 256 in
    let b3 =
      ts.transport_scrambling_control * 64 + ts.adaptation_field_control * 16 + (count + 1) % 16 in
    let buf : List ℕ = u8 ts.sync_byte ∷ b1 ∷ (ts.pid % 256) ∷ b3 ∷ rest in
    let l = Layout-bytes buf (omega arith) (omega arith) (omega arith) in
    header_path (parse_header buf)
      (record ts { sync_byte = 0; continuity_counter = (count + 1) % 16 }) l.sync_unread
      (l.error_bit ∙ omega arith) (l.start_bit ∙ omega arith) (l.priority_bit ∙ omega arith)
      (l.pid_bits ∙ omega arith) (l.scrambling_bits ∙ omega arith) (l.adaptation_bits ∙ omega arith)
      (l.counter_bits ∙ omega arith))
