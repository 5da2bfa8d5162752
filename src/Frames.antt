-- ===== src/Frames.antt =====
-- mycode/main.c: the ring of frames between the decoder's and the encoder's thread.
--
-- A frame is of any type. What the RGA library leaves in the destination frame enters as the frame
-- that is stored. A loop that waits gives `none`: the thread goes on only when the other one has moved.
pub mod Order
pub mod Threads
pub mod Places
pub mod Steps
pub mod Schedule
pub mod Race
mod Tests
use dvb_stream_v.Base.{ℕ, ◌+◌, Option, none, some, ltb, ◌==◌, if◌then◌else◌}
use dvb_stream_v.Ring.{is_empty, push, pop, Ring}

-- `BUFFER_SIZE`
abbrev pub buffer_size : ℕ
buffer_size = 300

module _ {ℓ} {A : Type ℓ} where
  -- `frame_change`: every slot is initialised, with a frame that `frame_init` makes.
  unfoldable pub frame_change : (ℕ → A) → Ring A → Ring A
  frame_change made r = record r { slots = λ i. if ltb i buffer_size then made i else r.slots i }

  -- `frame_preprocess`: it waits while `tail + 1 == head`, as ints; then it stores the scaled frame and
  -- moves `tail` on.
  unfoldable pub frame_preprocess : A → Ring A → Option (Ring A)
  unfolding push
  frame_preprocess scaled r =
      if r.tail + 1 == r.head then none else some (push buffer_size r scaled)

  -- A round of `thread_encoder`: it waits while `head == tail`; then it encodes the frame at the head,
  -- and moves `head` on.
  unfoldable pub take_frame : Ring A → Option (A × Ring A)
  unfolding is_empty pop
  take_frame r = if is_empty r then none else some (r.slots r.head, pop buffer_size r)
