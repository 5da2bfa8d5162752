-- ===== src/Mux/Loop.antt =====
-- The packet loop of `h264_to_ts` against a packetiser by recursion on the bytes that are left.

use native.Mathlib.Decide.{dec_lt}
use dvb_stream_v.Base.{
  ℕ, zero, suc, ◌+◌, ◌-◌, ◌%◌, ◌^◌, ◌≤◌, ◌<◌, min, ◌≡◌, refl, sym, ap, ap₂, ◌∙◌, false, some, List,
  [], ◌∷◌, arith, ◌==◌, if◌then◌else◌, lt→ltb, le→ltb, length, take, drop, All, length-append,
  length-drop, take_all, drop_all, drop-drop, slice-take-drop,
}
use dvb_stream_v.Ts.{ts_packet_size}
use dvb_stream_v.Mux.{packets, Emitted, Rounds}
use dvb_stream_v.Mux.Round.{
  stuffing_bytes, length-stuffing_bytes, packet_of, chunk_of, start_of, round_packet,
  length-chunk_of, behind_chunk, round_lem,
}

-- The bytes in portions of 184, the last one shorter; with fuel.
unfoldable pub chunks : ℕ → List ℕ → List (List ℕ)
chunks zero xs = []
chunks (suc fuel) [] = []
chunks (suc fuel) (x ∷ xs) = take 184 (x ∷ xs) ∷ chunks fuel (drop 184 (x ∷ xs))

-- A packet for each portion: the start bit in the first, the counter counting on.
unfoldable pub packets_of : ℕ → ℕ → ℕ → List (List ℕ) → List (List ℕ)
packets_of pid start count [] = []
packets_of pid start count (c ∷ cs) =
    packet_of pid start ((count + 1) % 16) c ∷ packets_of pid 0 ((count + 1) % 16) cs

-- The static counter after that many packets.
unfoldable pub count_after : ℕ → List (List ℕ) → ℕ
count_after count [] = count
count_after count (c ∷ cs) = count_after ((count + 1) % 16) cs

-- What a round stored behind the buffer: one byte, at the first index that the buffer does not have.
abbrev pub SpillsOne : Emitted → Type 0
SpillsOne e = (v : ℕ) × (e.spilled ≡ (ts_packet_size, v) ∷ [])

abbrev pub packets_in : List Emitted → List (List ℕ)
packets_in [] = []
packets_in (e ∷ es) = e.packet ∷ packets_in es

pub length-packet_of :
    (pid start counter : ℕ) (chunk : List ℕ)
    → length chunk ≤ 184
    → length (packet_of pid start counter chunk) ≡ ts_packet_size
length-packet_of pid start counter chunk h = omega (
  arith,
  length-append (stuffing_bytes (184 - length chunk)) chunk,
  length-stuffing_bytes (184 - length chunk),
)

chunks_next :
    (fuel : ℕ) (xs : List ℕ)
    → 0 < length xs
    → chunks (suc fuel) xs ≡ take 184 xs ∷ chunks fuel (drop 184 xs)
unfolding chunks
chunks_next fuel [] h = absurd (omega arith)
chunks_next fuel (x ∷ xs) h = refl

take-min : (n : ℕ) (xs : List ℕ) → take (min n (length xs)) xs ≡ take n xs
take-min n xs = elim (dec_lt n (length xs)) [
  | yes short ↦ let e : min n (length xs) ≡ n = omega arith in rw e refl
  | no long ↦
      let e : min n (length xs) ≡ length xs = omega arith in
      rw e (take_all (length xs) xs (omega arith) ∙ sym (take_all n xs (omega arith)))
]

drop-min : (n : ℕ) (xs : List ℕ) → drop (min n (length xs)) xs ≡ drop n xs
drop-min n xs = elim (dec_lt n (length xs)) [
  | yes short ↦ let e : min n (length xs) ≡ n = omega arith in rw e refl
  | no long ↦
      let e : min n (length xs) ≡ length xs = omega arith in
      rw e (drop_all (length xs) xs (omega arith) ∙ sym (drop_all n xs (omega arith)))
]

module _ (stray : ℕ) (pid : ℕ) (ptr : List ℕ) where
  -- What the loop returns from a state.
  pub record Sends (fuel : ℕ) (s : Rounds) (es : List Emitted) : Type 0 where
    pub sent :
        packets_in es
        ≡ packets_of pid (if s.rounds == 0 then 1 else 0) s.count (chunks fuel (drop s.p ptr))
    pub one_each : All SpillsOne es

  chunk_lem : (s : Rounds) → s.p ≤ length ptr → chunk_of stray pid ptr s ≡ take 184 (drop s.p ptr)
  chunk_lem s h =
      slice-take-drop ptr s.p (min 184 (length ptr - s.p)) stray (omega arith)
      ∙ ap (λ (n : ℕ). take (min 184 n) (drop s.p ptr)) (sym (length-drop s.p ptr))
      ∙ take-min 184 (drop s.p ptr)

  next_lem : (s : Rounds) → drop (s.p + min 184 (length ptr - s.p)) ptr ≡ drop 184 (drop s.p ptr)
  next_lem s =
      sym (drop-drop (min 184 (length ptr - s.p)) s.p ptr)
      ∙ ap (λ (n : ℕ). drop (min 184 n) (drop s.p ptr)) (sym (length-drop s.p ptr))
      ∙ drop-min 184 (drop s.p ptr)

  abbrev after_round : Rounds → Rounds
  after_round s = record {
    rounds = s.rounds + 1;
    p = s.p + min 184 (length ptr - s.p);
    cells = round_packet stray pid ptr s;
    count = (s.count + 1) % 16;
  }

  abbrev first_emitted : Rounds → Emitted
  first_emitted s = record {
    packet = round_packet stray pid ptr s;
    spilled = (ts_packet_size, behind_chunk stray pid ptr s) ∷ [];
  }

  packets_next :
      (fuel : ℕ) (s : Rounds) (es : List Emitted) (count : ℕ)
      → length ptr < 2 ^ 31
      → pid < 2 ^ 13
      → length s.cells ≡ ts_packet_size
      → s.p < length ptr
      → packets stray pid ptr fuel (after_round s) ≡ some (es, count)
      → packets stray pid ptr (suc fuel) s ≡ some (first_emitted s ∷ es, count)
  unfolding packets
  packets_next fuel s es count small fits full more h =
      rw (lt→ltb s.p (length ptr) more, round_lem stray pid ptr s small fits more full, h)
        (ap (λ (r : Emitted × Rounds). some (r.0 ∷ es, count))
          (round_lem stray pid ptr s small fits more full))

  fresh_buffer : (s : Rounds) → length (round_packet stray pid ptr s) ≡ ts_packet_size
  fresh_buffer s =
      length-packet_of pid (start_of stray pid ptr s) ((s.count + 1) % 16)
        (chunk_of stray pid ptr s) (omega (arith, length-chunk_of stray pid ptr s))

  portions :
      (fuel : ℕ) (s : Rounds)
      → s.p < length ptr
      → chunks (suc fuel) (drop s.p ptr)
        ≡ chunk_of stray pid ptr s ∷ chunks fuel (drop (after_round s).p ptr)
  portions fuel s more =
      chunks_next fuel (drop s.p ptr) (omega (arith, length-drop s.p ptr))
      ∙ ap₂ (λ (c : List ℕ) (r : List ℕ). c ∷ chunks fuel r) (sym (chunk_lem s (omega arith)))
          (sym (next_lem s))

  count_next :
      (fuel : ℕ) (s : Rounds)
      → s.p < length ptr
      → count_after ((s.count + 1) % 16) (chunks fuel (drop (after_round s).p ptr))
        ≡ count_after s.count (chunks (suc fuel) (drop s.p ptr))
  unfolding count_after
  count_next fuel s more = rw (portions fuel s more) refl

  Sends-next :
      (fuel : ℕ) (s : Rounds) (es : List Emitted)
      → s.p < length ptr
      → Sends fuel (after_round s) es
      → Sends (suc fuel) s (first_emitted s ∷ es)
  unfolding packets_of
  Sends-next fuel s es more ih =
      let later : (s.rounds + 1 == 0) ≡ false = ground arith in
      record {
        sent =
            rw (portions fuel s more)
              (ap (◌∷◌ (round_packet stray pid ptr s)) (ih.sent ∙ rw later refl));
        one_each = ((behind_chunk stray pid ptr s, refl), ih.one_each);
      }

  -- With more fuel than bytes left the loop ends, and has sent what the packetiser sends.
  pub packets_lem :
      (fuel : ℕ) (s : Rounds)
      → length ptr < 2 ^ 31
      → pid < 2 ^ 13
      → length s.cells ≡ ts_packet_size
      → s.p ≤ length ptr
      → length ptr - s.p < fuel
      → (es : List Emitted) × (packets stray pid ptr fuel s
          ≡ some (es, count_after s.count (chunks fuel (drop s.p ptr))))
        × Sends fuel s es
  packets_lem zero s small fits full inside enough = absurd (omega arith)
  packets_lem (suc fuel) s small fits full inside enough = elim (dec_lt s.p (length ptr)) [
    | no done ↦
        let nothing = drop_all s.p ptr (omega arith) in
        (
          [],
          unfold packets count_after chunks in
              rw (nothing, le→ltb s.p (length ptr) (omega arith)) refl,
          record { sent = unfold packets_of chunks in rw nothing refl; one_each = tt },
        )
    | yes more ↦
        let (es, e, ih) =
          packets_lem fuel (after_round s) small fits (fresh_buffer s) (omega arith)
            (omega arith) in
        (
          first_emitted s ∷ es,
          packets_next fuel s es _ small fits full more e
              ∙ ap (λ (n : ℕ). some (first_emitted s ∷ es, n)) (count_next fuel s more),
          Sends-next fuel s es more ih,
        )
  ]
