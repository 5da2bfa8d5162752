-- ===== src/Mux/Payload.antt =====
-- The payloads of the packets that `h264_to_ts` lays out, taken out as ISO 13818-1 says.
use native.Mathlib.Decide.{ℕ_discrete}
use dvb_stream_v.Base.{
  ℕ, zero, suc, ◌+◌, ◌-◌, ◌*◌, ◌/◌, ◌%◌, ◌≤◌, ◌<◌, ◌≡◌, refl, ap₂, ◌∙◌, true, false, List, [], ◌∷◌,
  ◌++◌, arith, ltb, ◌==◌, if◌then◌else◌, length, take, drop, replicate, length-take, length-drop,
  length-replicate, take-append-drop, drop-append,
}
use dvb_stream_v.Ts.{byte_at}
use dvb_stream_v.Mux.Round.{packet_of}
use dvb_stream_v.Mux.Loop.{chunks, packets_of}

-- The payload of a packet by ISO 13818-1: what follows the header and the adaptation field.
abbrev pub ts_payload : List ℕ → List ℕ
ts_payload pkt =
    if byte_at pkt 3 / 16 % 2 == 1
    then drop (if byte_at pkt 3 / 32 % 2 == 1 then 5 + byte_at pkt 4 else 4) pkt
    else []

abbrev pub payloads : List (List ℕ) → List ℕ
payloads [] = []
payloads (p ∷ ps) = ts_payload p ++ payloads ps

ts_payload_long :
    (pid start counter : ℕ) (chunk : List ℕ)
    → counter < 16
    → length chunk ≡ 184
    → ts_payload (packet_of pid start counter chunk) ≡ chunk
ts_payload_long pid start counter chunk c e =
    let n : ltb (length chunk) 184 ≡ false = ground arith in
    let k : 184 - length chunk ≡ 0 = omega arith in
    let a : ((1 * 16 + counter) / 16 % 2 == 1) ≡ true = ground arith in
    let b : ((1 * 16 + counter) / 32 % 2 == 1) ≡ false = ground arith in rw (n, k, a, b) refl

ts_payload_short :
    (k pid start counter : ℕ) (chunk : List ℕ)
    → counter < 16
    → length chunk + k ≡ 184
    → 0 < k
    → ts_payload (packet_of pid start counter chunk) ≡ chunk
ts_payload_short zero pid start counter chunk c e pos = absurd (omega arith)
ts_payload_short (suc zero) pid start counter chunk c e pos =
    let n : ltb (length chunk) 184 ≡ true = ground arith in
    let k : 184 - length chunk ≡ 1 = omega arith in
    let a : ((3 * 16 + counter) / 16 % 2 == 1) ≡ true = ground arith in
    let b : ((3 * 16 + counter) / 32 % 2 == 1) ≡ true = ground arith in rw (n, k, a, b) refl
ts_payload_short (suc (suc j)) pid start counter chunk c e pos =
    let n : ltb (length chunk) 184 ≡ true = ground arith in
    let k : 184 - length chunk ≡ suc (suc j) = omega arith in
    let a : ((3 * 16 + counter) / 16 % 2 == 1) ≡ true = ground arith in
    let b : ((3 * 16 + counter) / 32 % 2 == 1) ≡ true = ground arith in
    let d : 5 + (j + 1) ≡ suc (suc (suc (suc (suc (suc j))))) = omega arith in
    rw (n, k, a, b, d) (drop-append j (replicate j 0xff) chunk (length-replicate j 0xff))

pub ts_payload_lem :
    (pid start counter : ℕ) (chunk : List ℕ)
    → counter < 16
    → length chunk ≤ 184
    → ts_payload (packet_of pid start counter chunk) ≡ chunk
ts_payload_lem pid start counter chunk c h = elim (ℕ_discrete (length chunk) 184) [
  | yes e ↦ ts_payload_long pid start counter chunk c e
  | no ne ↦
      ts_payload_short (184 - length chunk) pid start counter chunk c (omega arith) (omega arith)
]

pub payloads_lem :
    (fuel pid start count : ℕ) (xs : List ℕ)
    → length xs < fuel
    → payloads (packets_of pid start count (chunks fuel xs)) ≡ xs
unfolding packets_of chunks
payloads_lem zero pid start count xs h = absurd (omega arith)
payloads_lem (suc fuel) pid start count [] h = refl
payloads_lem (suc fuel) pid start count (x ∷ xs) h =
    ap₂ ◌++◌
      (ts_payload_lem pid start ((count + 1) % 16) (take 184 (x ∷ xs)) (omega arith)
        (omega (arith, length-take 184 (x ∷ xs))))
      (payloads_lem fuel pid 0 ((count + 1) % 16) (drop 184 (x ∷ xs))
        (omega (arith, length-drop 184 (x ∷ xs))))
    ∙ take-append-drop 184 (x ∷ xs)
