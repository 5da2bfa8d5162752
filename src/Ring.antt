-- ===== src/Ring.antt =====
-- The circular arrays that mycode/gn_tcp.c, mycode/gn_rtp.c and mycode/main.c keep beside two indices:
-- the tests and index steps that the three files write out for each of their queues.
pub mod Contents
use dvb_stream_v.Base.{ℕ, ◌+◌, ◌%◌, Bool, ◌==◌, if◌then◌else◌}

abbrev pub update {ℓ} : {A : Type ℓ} → (ℕ → A) → ℕ → A → ℕ → A
update f i a j = if i == j then a else f j

-- A static array, and the indices of the next element to take and of the next free slot.
pub record Ring {ℓ} (A : Type ℓ) : Type ℓ where
  pub slots : ℕ → A
  pub head : ℕ
  pub tail : ℕ

module _ {ℓ} {A : Type ℓ} where
  -- `head == tail`
  unfoldable pub is_empty : Ring A → Bool
  is_empty r = r.head == r.tail

  module _ (n : ℕ) where
    -- `head == ((tail + 1) % N)`
    unfoldable pub is_full : Ring A → Bool
    is_full r = r.head == (r.tail + 1) % n

    -- The copy to `buffer[tail]`, then `tail++; tail %= N;`
    unfoldable pub push : Ring A → A → Ring A
    push r a = record r { slots = update r.slots r.tail a; tail = (r.tail + 1) % n }

    -- `head++; head %= N;`
    unfoldable pub pop : Ring A → Ring A
    pop r = record r { head = (r.head + 1) % n }
