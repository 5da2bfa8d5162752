-- ===== src/Frames/Places.antt =====
-- The places of the two threads of mycode/main.c in their loops, and what holds between any two steps.

use dvb_stream_v.Base.{
  ℕ, suc, ◌+◌, ◌%◌, ◌≤◌, ◌<◌, ◌≡◌, refl, Bool, true, false, ◌&&◌, ◌||◌, List, [], ◌∷◌, ◌++◌, arith,
  ◌==◌, length, drop,
}
use dvb_stream_v.Ring.Contents.{span}
use dvb_stream_v.Frames.Threads.{Storing, Taking, Threads}

-- A frame that `encoder_run` has been given is behind the head before `head++` only.
abbrev pub left {ℓ} : {A : Type ℓ} → Taking → List A → List A
left Taking.waits xs = xs
left Taking.encodes xs = xs
left Taking.bumps xs = drop 1 xs
left Taking.wraps xs = xs
left Taking.finished xs = xs

-- Behind its waiting loop, the decoder's thread has room for its frame.
abbrev pub RoomAt : Storing → ℕ → Type 0
RoomAt Storing.waits used = Unit
RoomAt Storing.stores used = used < 299
RoomAt Storing.bumps used = used < 299
RoomAt Storing.wraps used = Unit

-- Behind its waiting loop, the encoder's thread has a frame.
abbrev pub FrameAt : Taking → ℕ → Type 0
FrameAt Taking.waits used = Unit
FrameAt Taking.encodes used = 0 < used
FrameAt Taking.bumps used = 0 < used
FrameAt Taking.wraps used = Unit
FrameAt Taking.finished used = Unit

-- An index is in the array, but for the time between its two stores.
abbrev pub TailAt : Storing → ℕ → Type 0
TailAt Storing.waits i = i < 300
TailAt Storing.stores i = i < 300
TailAt Storing.bumps i = i < 300
TailAt Storing.wraps i = i ≤ 300

abbrev pub HeadAt : Taking → ℕ → Type 0
HeadAt Taking.waits i = i < 300
HeadAt Taking.encodes i = i < 300
HeadAt Taking.bumps i = i < 300
HeadAt Taking.wraps i = i ≤ 300
HeadAt Taking.finished i = i < 300

-- `used` frames stand from the head on, and are those that have been stored and not yet encoded.
pub record Keeps {ℓ} {A : Type ℓ} (used : ℕ) (s : Threads A) : Type ℓ where
  pub few : used < 300
  pub tail_lem : s.tail % 300 ≡ (s.head % 300 + used) % 300
  pub tail_at : TailAt s.storing s.tail
  pub head_at : HeadAt s.taking s.head
  pub room : RoomAt s.storing used
  pub frame : FrameAt s.taking used
  pub order : s.stored ≡ s.encoded ++ left s.taking (span 300 s.buffer (s.head % 300) used)

pub HeadAt-le : (at : Taking) (i : ℕ) → HeadAt at i → i ≤ 300
HeadAt-le Taking.waits i h = omega arith
HeadAt-le Taking.encodes i h = omega arith
HeadAt-le Taking.bumps i h = omega arith
HeadAt-le Taking.wraps i h = h
HeadAt-le Taking.finished i h = omega arith

pub TailAt-le : (at : Storing) (i : ℕ) → TailAt at i → i ≤ 300
TailAt-le Storing.waits i h = omega arith
TailAt-le Storing.stores i h = omega arith
TailAt-le Storing.bumps i h = omega arith
TailAt-le Storing.wraps i h = h

pub RoomAt-less : (at : Storing) (used : ℕ) → RoomAt at (suc used) → RoomAt at used
RoomAt-less Storing.waits used h = tt
RoomAt-less Storing.stores used h = omega arith
RoomAt-less Storing.bumps used h = omega arith
RoomAt-less Storing.wraps used h = tt

pub FrameAt-suc : (at : Taking) (used : ℕ) → FrameAt at used → FrameAt at (suc used)
FrameAt-suc Taking.waits used h = tt
FrameAt-suc Taking.encodes used h = omega arith
FrameAt-suc Taking.bumps used h = omega arith
FrameAt-suc Taking.wraps used h = tt
FrameAt-suc Taking.finished used h = tt

pub left_snoc {ℓ} :
    {A : Type ℓ} (at : Taking) (xs : List A) (a : A)
    → FrameAt at (length xs)
    → left at (xs ++ a ∷ []) ≡ left at xs ++ a ∷ []
left_snoc Taking.waits xs a h = refl
left_snoc Taking.encodes xs a h = refl
left_snoc Taking.bumps [] a h = absurd (omega arith)
left_snoc Taking.bumps (x ∷ xs) a h = refl
left_snoc Taking.wraps xs a h = refl
left_snoc Taking.finished xs a h = refl

pub or-false : (a b : Bool) → (a || b) ≡ false → (a ≡ false) × (b ≡ false)
or-false true b h = absurd (cc)
or-false false b h = (refl, h)

-- The test of the encoder's waiting loop finds a frame, but for the time between the stores of `tail`.
pub frame_lem :
    (head tail used : ℕ)
    → head < 300
    → tail ≤ 300
    → tail % 300 ≡ (head % 300 + used) % 300
    → (head == tail) ≡ false
    → (head == 0 && tail == 300) ≡ false
    → 0 < used
frame_lem head tail used hh ht e test rare = ground arith

-- The test of the waiting loop leaves room for a frame, but for the one case that it misses.
pub room_lem :
    (head tail used : ℕ)
    → head ≤ 300
    → tail < 300
    → used < 300
    → tail % 300 ≡ (head % 300 + used) % 300
    → (tail + 1 == head) ≡ false
    → (head == 0 && tail == 299) ≡ false
    → used < 299
room_lem head tail used hh ht hu e test rare = ground arith
