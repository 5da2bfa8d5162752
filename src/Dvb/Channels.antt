-- ===== src/Dvb/Channels.antt =====
-- The channel list of mycode/gn_dvb.c: no line makes the parser write outside its array.
use dvb_stream_v.Base.{
  ℕ, suc, ◌+◌, ◌≤◌, ◌<◌, ◌≡◌, refl, ◌∙◌, inl, inr, Bool, List, [], ◌∷◌, arith, ltb, ◌==◌,
  if◌then◌else◌, ltb→lt, ==→eq, Bool-cases, length,
}
use dvb_stream_v.Ring.{update}
use dvb_stream_v.Dvb.Settings.{max_program_nums, Api, GnProgram}
use dvb_stream_v.Dvb.{parse_line, parse_lines, dvbcfg_zapchannel_parse}

-- What the loop has done to the array and to the number of entries.
record Bounded (p q : ℕ → GnProgram) (count n lines : ℕ) : Type 0 where
  at_most : n ≤ max_program_nums
  from_before : count ≤ n
  by_lines : n ≤ count + lines
  beyond : (k : ℕ) → max_program_nums ≤ k → q k ≡ p k
  settled : (k : ℕ) → k < count → q k ≡ p k

update-ne : (p : ℕ → GnProgram) (i k : ℕ) (a : GnProgram) → (i ≡ k → ⊥) → update p i a k ≡ p k
update-ne p i k a ne = elim (Bool-cases (i == k)) [
  | inl e ↦ absurd (ne (==→eq i k e))
  | inr e ↦ rw e refl
]

Bounded-start :
    (p : ℕ → GnProgram) (count lines : ℕ) → count ≤ max_program_nums → Bounded p p count count lines
Bounded-start p count lines h = record {
  at_most = h;
  from_before = omega arith;
  by_lines = omega arith;
  beyond = λ k h. refl;
  settled = λ k h. refl;
}

step_count : (complete : Bool) (count : ℕ) → ℕ
step_count complete count = if complete then count + 1 else count

Bounded-parse_lines :
    (api : Api) (lines : List (List ℕ)) (p : ℕ → GnProgram) (count : ℕ)
    → count ≤ max_program_nums
    → Bounded p
        (parse_lines api lines p count).0
        count
        (parse_lines api lines p count).1
        (length lines)
unfolding parse_lines
Bounded-parse_lines api [] p count h = Bounded-start p count 0 h
Bounded-parse_lines api (line ∷ lines) p count h = elim (Bool-cases (ltb count max_program_nums)) [
  | inr full ↦ rw (full, parse_lines) (Bounded-start p count (suc (length lines)) h)
  | inl room ↦
      let small = ltb→lt count max_program_nums room in
      let round = parse_line api (p count) line in
      let count' = if round.1 then count + 1 else count in
      let near : (count ≤ count') × (count' ≤ count + 1) = ground arith in
      let ih = Bounded-parse_lines api lines (update p count round.0) count' (omega arith) in
      rw (room, parse_lines)
        (record {
          at_most = ih.at_most;
          from_before = omega (arith, ih.from_before);
          by_lines = omega (arith, ih.by_lines);
          beyond = λ k far. ih.beyond k far ∙ update-ne p count k round.0 (λ e. omega arith);
          settled = λ k early.
              ih.settled k (omega arith) ∙ update-ne p count k round.0 (λ e. omega arith);
        })
]

-- Whatever the file holds, `dvbcfg_zapchannel_parse` counts at most 50 programmes, and at most one for
-- each line, and writes only to the 50 entries of its array.
pub dvbcfg_zapchannel_parse-bounds :
    (api : Api) (lines : List (List ℕ)) (stray : ℕ → GnProgram)
    → ((dvbcfg_zapchannel_parse api lines stray).1 ≤ max_program_nums)
      × ((dvbcfg_zapchannel_parse api lines stray).1 ≤ length lines)
      × ((k : ℕ) → max_program_nums ≤ k → (dvbcfg_zapchannel_parse api lines stray).0 k ≡ stray k)
unfolding dvbcfg_zapchannel_parse
dvbcfg_zapchannel_parse-bounds api lines stray =
    let b = Bounded-parse_lines api lines stray 0 (omega arith) in
    (b.at_most, omega (arith, b.by_lines), b.beyond)
