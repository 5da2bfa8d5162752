-- ===== src/Frames/Schedule.antt =====
-- Schedules of the decoder's and the encoder's thread of mycode/main.c.
use dvb_stream_v.Base.{
  ℕ, ◌+◌, ◌%◌, ◌≤◌, ◌<◌, ◌≡◌, refl, inl, inr, false, ◌&&◌, List, [], ◌∷◌, ◌++◌, arith, ◌==◌,
  Bool-cases, length,
}
use dvb_stream_v.Ring.Contents.{span, length-span}
use dvb_stream_v.Frames.Threads.{
  initial_threads, store_step, take_step, move, moves, Storing, Taking, Threads, Move, decoder,
  encoder,
}
use dvb_stream_v.Frames.Places.{left, or-false, Keeps}
use dvb_stream_v.Frames.Steps.{store_step-Keeps, take_step-Keeps}

module _ {ℓ} {A : Type ℓ} where
  move-Keeps :
      (m : Move A) (used : ℕ) (s : Threads A)
      → Keeps used s
      → (move m s).astray ≡ false
      → (used' : ℕ) × Keeps used' (move m s)
  unfolding move
  move-Keeps (decoder a) used s v fine = store_step-Keeps used s v a s.storing refl fine
  move-Keeps (encoder eos) used s v fine = take_step-Keeps used s v eos s.taking refl fine

  store-astray :
      (at : Storing) (a : A) (s : Threads A) → (store_step at a s).astray ≡ false → s.astray ≡ false
  unfolding store_step
  store-astray Storing.waits a s h = elim (Bool-cases (s.tail + 1 == s.head)) [
    | inl full ↦ rw full at h
    | inr free ↦ (or-false s.astray (s.head == 0 && s.tail == 299) (rw free at h)).0
  ]
  store-astray Storing.stores a s h = h
  store-astray Storing.bumps a s h = h
  store-astray Storing.wraps a s h = h

  take-astray :
      (at : Taking) (eos : ℕ) (s : Threads A)
      → (take_step at eos s).astray ≡ false
      → s.astray ≡ false
  unfolding take_step
  take-astray Taking.waits eos s h = elim (Bool-cases (s.pkt_eos == 0)) [
    | inr done ↦ rw done at h
    | inl more ↦ elim (Bool-cases (s.head == s.tail)) [
      | inl nothing ↦ rw (more, nothing) at h
      | inr some_there ↦
          (or-false s.astray (s.head == 0 && s.tail == 300) (rw (more, some_there) at h)).0
    ]
  ]
  take-astray Taking.encodes eos s h = h
  take-astray Taking.bumps eos s h = h
  take-astray Taking.wraps eos s h = h
  take-astray Taking.finished eos s h = h

  move-astray : (m : Move A) (s : Threads A) → (move m s).astray ≡ false → s.astray ≡ false
  unfolding move
  move-astray (decoder a) s h = store-astray s.storing a s h
  move-astray (encoder eos) s h = take-astray s.taking eos s h

  moves-astray :
      (ms : List (Move A)) (s : Threads A) → (moves ms s).astray ≡ false → s.astray ≡ false
  unfolding moves
  moves-astray [] s h = h
  moves-astray (m ∷ ms) s h = move-astray m s (moves-astray ms (move m s) h)

  moves-Keeps :
      (ms : List (Move A)) (used : ℕ) (s : Threads A)
      → Keeps used s
      → (moves ms s).astray ≡ false
      → (used' : ℕ) × Keeps used' (moves ms s)
  unfolding moves
  moves-Keeps [] used s v fine = (used, v)
  moves-Keeps (m ∷ ms) used s v fine =
      let (used', v') = move-Keeps m used s v (moves-astray ms (move m s) fine) in
      moves-Keeps ms used' (move m s) v' fine

initial-Keeps {ℓ} : {A : Type ℓ} (made : ℕ → A) → Keeps 0 (initial_threads made)
unfolding initial_threads
initial-Keeps made = record {
  few = omega arith;
  tail_lem = refl;
  tail_at = omega arith;
  head_at = omega arith;
  room = tt;
  frame = tt;
  order = refl;
}

length-left {ℓ} : {A : Type ℓ} (at : Taking) (xs : List A) → length (left at xs) ≤ length xs
length-left Taking.waits xs = omega arith
length-left Taking.encodes xs = omega arith
length-left Taking.bumps [] = omega arith
length-left Taking.bumps (x ∷ xs) = omega arith
length-left Taking.wraps xs = omega arith
length-left Taking.finished xs = omega arith

-- Whatever the order in which the two threads move, from the start on: if the decoder's thread has never left
-- its waiting loop with head 0 and tail 299, nor the encoder's with head 0 and tail 300, then the frames that
-- the encoder has been given are the first of those that the decoder has stored, each once and in the same
-- order, and fewer than 300 wait behind them.
pub moves_order {ℓ} :
    {A : Type ℓ} (made : ℕ → A) (ms : List (Move A))
    → (moves ms (initial_threads made)).astray ≡ false
    → (q : List A) × ((moves ms (initial_threads made)).stored
        ≡ (moves ms (initial_threads made)).encoded ++ q)
      × (length q < 300)
moves_order made ms fine =
    let last = moves ms (initial_threads made) in
    let (used, v) = moves-Keeps ms 0 (initial_threads made) (initial-Keeps made) fine in
    let frames = span 300 last.buffer (last.head % 300) used in
    (
      left last.taking frames,
      v.order,
      omega (
        arith,
        length-left last.taking frames,
        length-span 300 last.buffer (last.head % 300) used,
        v.few,
      ),
    )
