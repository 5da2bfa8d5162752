-- ===== src/Ring/Contents.antt =====
-- A circular array as the queue of the elements from its head to its tail.
use native.Mathlib.Nat.{mod-eq_of_lt, mod-eq-sub-mod}
use native.Mathlib.Decide.{dec_lt}
use dvb_stream_v.Base.{
  ℕ, zero, suc, ◌+◌, ◌-◌, ◌%◌, ◌≤◌, ◌<◌, ◌≡◌, refl, ap, ap₂, ◌∙◌, ◌⊎◌, inl, inr, true, false, List,
  [], ◌∷◌, ◌++◌, arith, leb, ◌==◌, if◌then◌else◌, length, drop,
}
use dvb_stream_v.Ring.{update, is_empty, is_full, push, pop, Ring}

-- An index that has gone round at most once.
pub mod_once : (a n : ℕ) → 0 < n → a < n + n → ((a < n) × (a % n ≡ a)) ⊎ ((n ≤ a) × (a % n ≡ a - n))
mod_once a n pos h = elim (dec_lt a n) [
  | yes lt ↦ inl (lt, mod-eq_of_lt lt)
  | no ge ↦
      let le : n ≤ a = omega arith in
      let lt : a - n < n = omega arith in inr (le, mod-eq-sub-mod le ∙ mod-eq_of_lt lt)
]

module _ {ℓ} {A : Type ℓ} (n : ℕ) where
  -- Both indices lie in the array.
  pub record IsValid (r : Ring A) : Type 0 where
    pub head_in : r.head < n
    pub tail_in : r.tail < n

  -- The number of elements in the queue.
  abbrev pub size : Ring A → ℕ
  size r = if leb r.head r.tail then r.tail - r.head else r.tail + n - r.head

  -- The `k` elements from index `i` on, going round at `n`.
  abbrev pub span : (ℕ → A) → ℕ → ℕ → List A
  span f i zero = []
  span f i (suc k) = f i ∷ span f ((i + 1) % n) k

  abbrev pub contents : Ring A → List A
  contents r = span r.slots r.head (size r)

  pub length-span : (f : ℕ → A) (i k : ℕ) → length (span f i k) ≡ k
  length-span f i zero = refl
  length-span f i (suc k) = ap suc (length-span f ((i + 1) % n) k)

  pub length-contents : (r : Ring A) → length (contents r) ≡ size r
  length-contents r = length-span r.slots r.head (size r)

  -- The first and the last element of a span.
  pub span_head : (f : ℕ → A) (k i : ℕ) → 0 < k → span f i k ≡ f i ∷ drop 1 (span f i k)
  span_head f zero i h = absurd (omega arith)
  span_head f (suc k) i h = refl

  pub span-suc :
      (f : ℕ → A) (k i : ℕ) → i < n → k < n → span f i (suc k) ≡ span f i k ++ f ((i + k) % n) ∷ []
  span-suc f zero i hi hk =
      let once = mod_once (i + 0) n (omega arith) (omega arith) in
      let same : (i + 0) % n ≡ i = omega arith in rw same refl
  span-suc f (suc k) i hi hk =
      let once = mod_once (i + suc k) n (omega arith) (omega arith) in
      let next = mod_once (i + 1) n (omega arith) (omega arith) in
      let later = mod_once ((i + 1) % n + k) n (omega arith) (omega arith) in
      let same : ((i + 1) % n + k) % n ≡ (i + suc k) % n = omega arith in
      ap (◌∷◌ (f i)) (span-suc f k ((i + 1) % n) (omega arith) (omega arith) ∙ rw same refl)

  -- A write behind a span, and before it comes round again, leaves the span alone.
  pub span-update :
      (f : ℕ → A) (a : A) (k m i j : ℕ)
      → i < n
      → k + m < n
      → j ≡ (i + (k + m)) % n
      → span (update f j a) i k ≡ span f i k
  span-update f a zero m i j hi hk e = refl
  span-update f a (suc k) m i j hi hk e =
      let once = mod_once (i + (suc k + m)) n (omega arith) (omega arith) in
      let next = mod_once (i + 1) n (omega arith) (omega arith) in
      let later = mod_once ((i + 1) % n + (k + m)) n (omega arith) (omega arith) in
      let apart : (j == i) ≡ false = ground arith in
      ap₂ ◌∷◌ (rw apart refl)
        (span-update f a k m ((i + 1) % n) j (omega arith) (omega arith) (omega arith))

  span_snoc :
      (f : ℕ → A) (a : A) (k i j : ℕ)
      → i < n
      → k < n
      → j ≡ (i + k) % n
      → span (update f j a) i (suc k) ≡ span f i k ++ a ∷ []
  span_snoc f a zero i j hi hk e =
      let once = mod_once (i + 0) n (omega arith) (omega arith) in
      let same : (j == i) ≡ true = ground arith in rw same refl
  span_snoc f a (suc k) i j hi hk e =
      let once = mod_once (i + suc k) n (omega arith) (omega arith) in
      let next = mod_once (i + 1) n (omega arith) (omega arith) in
      let later = mod_once ((i + 1) % n + k) n (omega arith) (omega arith) in
      let apart : (j == i) ≡ false = ground arith in
      ap₂ ◌∷◌ (rw apart refl)
        (span_snoc f a k ((i + 1) % n) j (omega arith) (omega arith) (omega arith))

  module _ (r : Ring A) (v : IsValid r) where
    -- The queue is full when it has one element less than the array has slots.
    pub is_full_lem : is_full n r ≡ (size r + 1 == n)
    unfolding is_full
    is_full_lem = let next = mod_once (r.tail + 1) n (omega arith) (omega arith) in ground arith

    pub size-lt : size r < n
    size-lt = ground arith

    pub push-IsValid : (a : A) → IsValid (push n r a)
    unfolding push
    push-IsValid a =
        let next = mod_once (r.tail + 1) n (omega arith) (omega arith) in
        record { head_in = v.head_in; tail_in = omega arith }

    pub pop-IsValid : IsValid (pop n r)
    unfolding pop
    pop-IsValid =
        let next = mod_once (r.head + 1) n (omega arith) (omega arith) in
        record { head_in = omega arith; tail_in = v.tail_in }

    tail_lem : r.tail ≡ (r.head + size r) % n
    tail_lem =
        let small = size-lt in
        let next = mod_once (r.head + size r) n (omega arith) (omega arith) in ground arith

    size-push : (a : A) → size r + 1 < n → size (push n r a) ≡ suc (size r)
    unfolding push
    size-push a room =
        let next = mod_once (r.tail + 1) n (omega arith) (omega arith) in ground arith

    -- A push on a queue with room appends the element.
    pub contents-push : (a : A) → size r + 1 < n → contents (push n r a) ≡ contents r ++ a ∷ []
    contents-push a room =
        ap (span (push n r a).slots (push n r a).head) (size-push a room)
        ∙ (unfold push in
            span_snoc r.slots a (size r) r.head r.tail v.head_in (omega arith) tail_lem)

    pub size-pop : 0 < size r → size r ≡ suc (size (pop n r))
    unfolding pop
    size-pop more = let next = mod_once (r.head + 1) n (omega arith) (omega arith) in ground arith

    -- A pop on a queue with an element takes the oldest off.
    pub contents-pop : 0 < size r → contents r ≡ r.slots r.head ∷ contents (pop n r)
    contents-pop more = ap (span r.slots r.head) (size-pop more) ∙ (unfold pop in refl)

    pub is_empty_lem : is_empty r ≡ (size r == 0)
    unfolding is_empty
    is_empty_lem = ground arith
