-- ===== src/Simple/Slots.antt =====
-- The flagged slots of simple/main.c as a queue: what holds between any two steps of the threads.
use dvb_stream_v.Ring.{update}
use dvb_stream_v.Base.{
  ℕ, suc, ◌+◌, ◌-◌, ◌%◌, ◌≤◌, ◌<◌, ◌≡◌, refl, List, [], ◌∷◌, ◌++◌, arith, ltb, leb, if◌then◌else◌,
  length, drop,
}
use dvb_stream_v.Ring.Contents.{mod_once, span}
use dvb_stream_v.Simple.{PutAt, TakeAt, System}

-- The slots from the encoder's index on to `j`, going round at `n`.
abbrev pub distance : ℕ → ℕ → ℕ → ℕ
distance n i j = if leb i j then j - i else j + n - i

-- A frame that `encoder_run` has been given keeps its slot until the flag is cleared.
abbrev pub waiting {ℓ} : {A : Type ℓ} → TakeAt → List A → List A
waiting TakeAt.waits xs = xs
waiting TakeAt.encodes xs = xs
waiting TakeAt.clears xs = drop 1 xs
waiting TakeAt.finished xs = xs

-- Behind its waiting loop, the decoder's thread has a free slot.
abbrev pub HasRoom : ℕ → PutAt → ℕ → Type 0
HasRoom n PutAt.waits used = Unit
HasRoom n PutAt.stores used = used < n
HasRoom n PutAt.flags used = used < n

-- Behind its waiting loop, the encoder's thread has a frame.
abbrev pub HasFrame : TakeAt → ℕ → Type 0
HasFrame TakeAt.waits used = Unit
HasFrame TakeAt.encodes used = 0 < used
HasFrame TakeAt.clears used = 0 < used
HasFrame TakeAt.finished used = Unit

pub HasRoom-less : (n : ℕ) (at : PutAt) (used : ℕ) → HasRoom n at (suc used) → HasRoom n at used
HasRoom-less n PutAt.waits used h = tt
HasRoom-less n PutAt.stores used h = omega arith
HasRoom-less n PutAt.flags used h = omega arith

pub HasFrame-suc : (at : TakeAt) (used : ℕ) → HasFrame at used → HasFrame at (suc used)
HasFrame-suc TakeAt.waits used h = tt
HasFrame-suc TakeAt.encodes used h = omega arith
HasFrame-suc TakeAt.clears used h = omega arith
HasFrame-suc TakeAt.finished used h = tt

pub waiting_snoc {ℓ} :
    {A : Type ℓ} (at : TakeAt) (xs : List A) (a : A)
    → HasFrame at (length xs)
    → waiting at (xs ++ a ∷ []) ≡ waiting at xs ++ a ∷ []
waiting_snoc TakeAt.waits xs a h = refl
waiting_snoc TakeAt.encodes xs a h = refl
waiting_snoc TakeAt.clears [] a h = absurd (omega arith)
waiting_snoc TakeAt.clears (x ∷ xs) a h = refl
waiting_snoc TakeAt.finished xs a h = refl

module _ (n : ℕ) where
  pub flag_set :
      (flag : ℕ → ℕ) (i p used j : ℕ)
      → i < n
      → used < n
      → p ≡ (i + used) % n
      → j < n
      → flag j ≡ (if ltb (distance n i j) used then 1 else 0)
      → update flag p 1 j ≡ (if ltb (distance n i j) (suc used) then 1 else 0)
  flag_set flag i p used j hi hu hp hj h =
      let once = mod_once (i + used) n (omega arith) (omega arith) in ground arith

  pub flag_cleared :
      (flag : ℕ → ℕ) (i used j : ℕ)
      → i < n
      → suc used ≤ n
      → j < n
      → flag j ≡ (if ltb (distance n i j) (suc used) then 1 else 0)
      → update flag i 0 j ≡ (if ltb (distance n ((i + 1) % n) j) used then 1 else 0)
  flag_cleared flag i used j hi hu hj h =
      let once = mod_once (i + 1) n (omega arith) (omega arith) in ground arith

module _ {ℓ} {A : Type ℓ} (n : ℕ) where
  -- The flags are set on the `used` slots from the encoder's index on, and nowhere else; the frames in
  -- these slots are those that have been stored and not yet encoded.
  pub record Represents (used : ℕ) (s : System A) : Type ℓ where
    pub put_in : s.put_p < n
    pub take_in : s.take_p < n
    pub used-le : used ≤ n
    pub put_lem : s.put_p ≡ (s.take_p + used) % n
    pub room : HasRoom n s.put_at used
    pub frame : HasFrame s.take_at used
    pub flagged :
        (j : ℕ) → j < n → s.buffer_flag j ≡ (if ltb (distance n s.take_p j) used then 1 else 0)
    pub order : s.stored ≡ s.encoded ++ waiting s.take_at (span n s.buffer s.take_p used)
