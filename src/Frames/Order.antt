-- ===== src/Frames/Order.antt =====
-- The ring of frames of mycode/main.c as a queue: where it is one, and where it loses its frames.
use mathlib.Core.Logic.{◌↔◌}
use mathlib.Core.Option.{some-injective}
use dvb_stream_v.Base.{
  ◌+◌, ◌<◌, ◌≡◌, refl, sym, ap, ◌∙◌, inl, inr, false, Option, none, some, List, [], ◌∷◌, ◌++◌,
  arith, ◌==◌, ==→eq, Bool-cases, length, drop,
}
use dvb_stream_v.Ring.{is_empty, push, pop, Ring}
use dvb_stream_v.Ring.Contents.{
  size, span, contents, length-contents, push-IsValid, pop-IsValid, contents-push, contents-pop,
  is_empty_lem, IsValid,
}
use dvb_stream_v.Frames.{buffer_size, frame_preprocess, take_frame}

abbrev first_of {ℓ} : {A : Type ℓ} → List A → Option A
first_of [] = none
first_of (x ∷ xs) = some x

module _ {ℓ} {A : Type ℓ} (r : Ring A) (v : IsValid buffer_size r) where
  -- The decoder's thread waits exactly if 299 frames wait and the head is not at the array's start: the
  -- test compares `tail + 1` without the modulus.
  pub frame_preprocess-eq-none :
      (a : A)
      → (frame_preprocess a r ≡ none) ↔ ((length (contents buffer_size r) ≡ 299) × (0 < r.head))
  unfolding frame_preprocess
  frame_preprocess-eq-none a =
      let l = length-contents buffer_size r in
      let h = v.head_in in
      let t = v.tail_in in
      elim (Bool-cases (r.tail + 1 == r.head)) [
        | inl e ↦ (λ w. (ground (arith, l), omega (arith, ==→eq _ _ e)), λ w. rw e refl)
        | inr e ↦ (λ w. absurd (cc (rw e at w)), λ w. absurd (ground (arith, l)))
      ]

  -- A frame that is stored while fewer than 299 frames wait comes behind them.
  pub contents-frame_preprocess :
      (a : A)
      → length (contents buffer_size r) < 299
      → (r' : Ring A) × (frame_preprocess a r ≡ some r')
        × IsValid buffer_size r'
        × (contents buffer_size r' ≡ contents buffer_size r ++ a ∷ [])
  unfolding frame_preprocess
  contents-frame_preprocess a few =
      let l = length-contents buffer_size r in
      let h = v.head_in in
      let t = v.tail_in in
      let room : (r.tail + 1 == r.head) ≡ false = ground (arith, l) in
      (
        push buffer_size r a,
        rw room refl,
        push-IsValid buffer_size r v a,
        contents-push buffer_size r v a (omega (arith, l)),
      )

  -- The encoder's thread takes the frame that has waited longest, and waits only if there is none.
  pub take_frame_lem :
      (x : A) (xs : List A)
      → contents buffer_size r ≡ x ∷ xs
      → (r' : Ring A) × (take_frame r ≡ some (x, r'))
        × IsValid buffer_size r'
        × (contents buffer_size r' ≡ xs)
  unfolding take_frame
  take_frame_lem x xs e =
      let some_wait : 0 < size buffer_size r =
        omega (arith, ap length e, length-contents buffer_size r) in
      let split = contents-pop buffer_size r v some_wait in
      let more : is_empty r ≡ false = ground (arith, is_empty_lem buffer_size r v) in
      let same : r.slots r.head ∷ contents buffer_size (pop buffer_size r) ≡ x ∷ xs =
        sym split ∙ e in
      let oldest : r.slots r.head ≡ x = some-injective _ _ (ap first_of same) in
      (
        pop buffer_size r,
        rw more (ap (λ (y : A). some (y, pop buffer_size r)) oldest),
        pop-IsValid buffer_size r v,
        ap (drop 1) same,
      )

  -- With the head at the array's start and 299 frames waiting, one more frame makes the ring look empty:
  -- the decoder's thread does not wait, and all of the frames are lost.
  pub frame_preprocess_loses :
      (a : A)
      → r.head ≡ 0
      → length (contents buffer_size r) ≡ 299
      → (r' : Ring A) × (frame_preprocess a r ≡ some r') × (contents buffer_size r' ≡ [])
  unfolding frame_preprocess push
  frame_preprocess_loses a start many =
      let l = length-contents buffer_size r in
      let h = v.head_in in
      let t = v.tail_in in
      let last : r.tail ≡ 299 = ground (arith, l) in
      let room : (r.tail + 1 == r.head) ≡ false = ground arith in
      let r' = push buffer_size r a in
      let none_left : size buffer_size r' ≡ 0 = ground arith in
      (r', rw room refl, ap (span buffer_size r'.slots r'.head) none_left)
