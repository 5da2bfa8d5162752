-- ===== src/Demux/Plain.antt =====
-- Packets without an adaptation field whose PES header stands behind a start code of three bytes, as
-- `ts_packet_init` reads them.

use dvb_stream_v.Ts.Outcomes.{
  data_offset, HasPayload, payload_start_cases, bare, loaded, ts_packet_init-Outcome, on_error,
  on_no_payload, on_far_payload, on_payload,
}
use dvb_stream_v.Base.{
  ℕ, ◌+◌, ◌/◌, ◌%◌, ◌≤◌, ◌<◌, ◌≡◌, refl, sym, ap, ◌∙◌, inl, inr, true, ◌&&◌, some, List, arith, leb,
  Bool-cases, Option-cases,
}
use dvb_stream_v.Ts.{
  ts_packet_size, IsBytes, byte_at, is_continuous_zero, parse_header, parse_pes, find_pes,
  payload_start, adaptation_of, ts_packet_init, TsPacket, Parsed, parsed,
}

-- A PES header behind a start code of three bytes at byte 4.
unfoldable pub HasPes : List ℕ → Type 0
HasPes buf =
    (byte_at buf 4 ≡ 0)
    × (byte_at buf 5 ≡ 0)
    × (byte_at buf 6 ≡ 1)
    × ((leb 0xc0 (byte_at buf 7) && leb (byte_at buf 7) 0xef) ≡ true)

pub found_lem :
    (buf : List ℕ) → HasPes buf → find_pes buf 4 ≡ (parse_pes buf 7, 7 + 5 + byte_at buf 12 + 1)
unfolding find_pes is_continuous_zero HasPes
found_lem buf h =
    let zeros : is_continuous_zero buf 4 ≡ some 7 = rw (h.0, h.1, h.2) refl in
    rw (zeros, find_pes) (rw h.3 refl)

zeros_lem :
    (buf : List ℕ) (z : ℕ)
    → is_continuous_zero buf 4 ≡ some z
    → byte_at buf 6 ≡ 1
    → (byte_at buf 4 ≡ 0) × (byte_at buf 5 ≡ 0) × (z ≡ 7)
unfolding is_continuous_zero
zeros_lem buf z h start = ground arith

flag_lem : (buf : List ℕ) → (find_pes buf 4).0.flag ≡ 1 → byte_at buf 6 ≡ 1 → HasPes buf
unfolding find_pes HasPes
flag_lem buf flag start = elim (Option-cases (is_continuous_zero buf 4)) [
  | inl none_there ↦ absurd (omega (arith, rw (none_there, find_pes) at flag))
  | inr (z, e) ↦
      let (a, b, seven) = zeros_lem buf z e start in
      let at_seven : is_continuous_zero buf 4 ≡ some 7 = e ∙ ap some seven in
      elim (Bool-cases (leb 0xc0 (byte_at buf 7) && leb (byte_at buf 7) 0xef)) [
        | inl stream ↦ (a, b, start, stream)
        | inr other ↦ absurd (omega (arith, rw (other) at (rw (at_seven, find_pes) at flag)))
      ]
]

pub plain_start :
    (buf : List ℕ)
    → IsBytes buf
    → byte_at buf 3 / 32 % 2 ≡ 0
    → payload_start (parse_header buf) (adaptation_of buf (parse_header buf)) ≡ 4
plain_start buf bytes plain = elim (payload_start_cases buf bytes) [
  | inl (adapts, at) ↦ absurd (omega (arith, adapts))
  | inr (none_there, at) ↦ at
]

-- Without an adaptation field, and with a start code of three bytes.
pub record Found (buf : List ℕ) (p : TsPacket) : Type 0 where
  pub no_error : byte_at buf 1 < 128
  pub payload_there : HasPayload buf
  pub fits : data_offset buf ≤ ts_packet_size
  pub stored : p ≡ loaded buf
  pub pes : HasPes buf

packet_or : TsPacket → Parsed → TsPacket
packet_or d (parsed p) = p
packet_or d other = d

pub Found_lem :
    (buf : List ℕ) (p : TsPacket)
    → IsBytes buf
    → ts_packet_init buf ≡ parsed p
    → byte_at buf 3 / 32 % 2 ≡ 0
    → byte_at buf 6 ≡ 1
    → p.pes_header.flag ≡ 1
    → Found buf p
unfolding packet_or
Found_lem buf p bytes init plain start flag = elim (ts_packet_init-Outcome buf bytes) [
  | on_error bad r ↦ absurd (cc (init, r))
  | on_no_payload ok empty r ↦
      let same : p ≡ bare buf = ap (packet_or p) (sym init ∙ r) in
      absurd (omega (arith, ap (λ q. q.pes_header.flag) same, flag))
  | on_far_payload ok pay far r ↦ absurd (cc (init, r))
  | on_payload ok pay near r ↦
      let same : p ≡ loaded buf = ap (packet_or p) (sym init ∙ r) in
      let four = plain_start buf bytes plain in
      record {
        no_error = ok;
        payload_there = pay;
        fits = near;
        stored = same;
        pes =
            flag_lem buf
              (ap (λ k. (find_pes buf k).0.flag) (sym four)
                ∙ ap (λ q. q.pes_header.flag) (sym same)
                ∙ flag)
              start;
      }
]
