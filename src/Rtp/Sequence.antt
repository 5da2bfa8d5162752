-- ===== src/Rtp/Sequence.antt =====
-- Sequence numbers over any interleaving of the calls of mycode/gn_rtp.c.
use mathlib.Core.Option.{some-injective}
use dvb_stream_v.Base.{
  ℕ, ◌+◌, ◌%◌, ◌^◌, ◌≡◌, refl, sym, ap, ◌∙◌, inl, inr, some, List, [], ◌∷◌, ◌++◌, append-nil,
  append_assoc, arith, Option-cases, length, All,
}
use dvb_stream_v.Rtp.{Rtp}
use dvb_stream_v.Rtp.Datagrams.{datagram, IsReady}
use dvb_stream_v.Rtp.Calls.{step, run, HasPacket, step-Moves, Call}

-- Datagrams of 200 bytes from one source, with consecutive numbers modulo 2^16 from `seq` on.
abbrev pub Numbered : ℕ → ℕ → List (List ℕ) → Type 0
Numbered ssrc seq [] = Unit
Numbered ssrc seq (d ∷ ds) =
    ((bytes : List ℕ) × (d ≡ datagram seq ssrc bytes) × (length bytes ≡ 188))
    × Numbered ssrc ((seq + 1) % 2 ^ 16) ds

-- From a ready state, any interleaving of puts and sends that returns hands 200-byte datagrams of the
-- one source to `sendto`, for both queues together numbered one by one from the current sequence number
-- on, modulo 2^16; and the next number is the current one plus their count, modulo 2^16.
pub run-Numbered :
    (cs : List Call) (s : Rtp) {s' : Rtp}
    → IsReady s
    → All HasPacket cs
    → run s cs ≡ some s'
    → (ds : List (List ℕ)) × (s'.handed ≡ s.handed ++ ds)
      × Numbered s.ssrc s.rtpseq ds
      × (s'.rtpseq ≡ (s.rtpseq + length ds) % 2 ^ 16)
unfolding run
run-Numbered [] s {s'} r h e =
    let same : s' ≡ s = sym (some-injective s s' e) in
    ([], rw (same, append-nil) refl, tt, rw same (omega (arith, r.seq_fits)))
run-Numbered (c ∷ cs) s {s'} r h e = elim (Option-cases (step s c)) [
  | inl stuck ↦ absurd (cc (rw (stuck, run) at e))
  | inr (t, st) ↦
      let m = step-Moves s t c h.0 r st in
      let (ds, handed, numbered, next) =
        run-Numbered cs t {s' = s'} m.ready h.1 (rw (st, run) at e) in
      elim m.handed_on [
        | inl (same, seq) ↦ (
          ds,
          handed ∙ ap (λ (l : List (List ℕ)). l ++ ds) same,
          rw (m.source, seq) at numbered,
          next ∙ ap (λ (k : ℕ). (k + length ds) % 2 ^ 16) seq,
        )
        | inr (bytes, whole, more, seq) ↦ (
          datagram s.rtpseq s.ssrc bytes ∷ ds,
          handed
              ∙ ap (λ (l : List (List ℕ)). l ++ ds) more
              ∙ append_assoc s.handed (datagram s.rtpseq s.ssrc bytes ∷ []) ds,
          ((bytes, refl, whole), rw (m.source, seq) at numbered),
          next ∙ ap (λ (k : ℕ). (k + length ds) % 2 ^ 16) seq ∙ omega arith,
        )
      ]
]
