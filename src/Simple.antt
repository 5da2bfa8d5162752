-- ===== src/Simple.antt =====
-- simple/main.c: the frames' array with a flag for each slot, which the decoder's and the encoder's thread
-- share, and the threads' steps between two accesses to it.
--
-- A frame is of any type. What `c_RkRgaBlit` leaves in the destination frame enters as the frame that is
-- stored, and what `encoder_run` leaves in `encoder->pkt_eos` as a number.
pub mod Slots
pub mod Queue
pub mod Order
pub mod Input
mod Tests
use dvb_stream_v.Ring.{update}
use dvb_stream_v.Base.{
  ℕ, ◌+◌, ◌%◌, not, Option, none, some, List, [], ◌∷◌, ◌++◌, ltb, ◌==◌, if◌then◌else◌,
}

-- `BUFFER_SIZE`
abbrev pub buffer_size : ℕ
buffer_size = 300

-- Where the decoder's thread stands in `frame_preprocess`: at the waiting loop, before the frame is
-- stored, and before the flag is set.
pub data PutAt : Type 0 where
  waits stores flags : PutAt

-- Where the encoder's thread stands in `thread_encoder`: at a waiting loop, before `encoder_run`, before
-- the flag is cleared, and behind the loop.
pub data TakeAt : Type 0 where
  waits encodes clears finished : TakeAt

-- The variables that the threads share, their own static `p`, and their places. `set_up` is the frame that
-- `encoder_data_init` has been given. `stored` and `encoded` are the frames that the one thread has stored
-- and flagged, and the other has given to `encoder_run`, in order.
pub record System {ℓ} (A : Type ℓ) : Type ℓ where
  pub buffer : ℕ → A
  pub buffer_flag : ℕ → ℕ
  pub put_p : ℕ
  pub put_at : PutAt
  pub take_p : ℕ
  pub take_at : TakeAt
  pub pkt_eos : ℕ
  pub set_up : Option A
  pub stored : List A
  pub encoded : List A

-- Which thread moves: the decoder's, with the frame that it has to store, or the encoder's, with what
-- `encoder_run` leaves in `pkt_eos`.
pub data Turn {ℓ} (A : Type ℓ) : Type ℓ where
  decoder : A → Turn A
  encoder : ℕ → Turn A

module _ {ℓ} {A : Type ℓ} where
  -- The static variables before the threads start.
  unfoldable pub initial_system : (ℕ → A) → System A
  initial_system made = record {
    buffer = made;
    buffer_flag = λ i. 0;
    put_p = 0;
    put_at = PutAt.waits;
    take_p = 0;
    take_at = TakeAt.waits;
    pkt_eos = 0;
    set_up = none;
    stored = [];
    encoded = [];
  }

  -- `encoder_data_init(&encoder, buffer[p], FPS)` stands before the loop.
  abbrev pub set_up_once : Option A → A → Option A
  set_up_once none a = some a
  set_up_once (some b) a = some b

  module _ (n : ℕ) where
    -- `frame_change`: each of the slots is initialised, with a frame that `frame_init` makes.
    unfoldable pub frame_change : (ℕ → A) → System A → System A
    frame_change made s = record s { buffer = λ i. if ltb i n then made i else s.buffer i }

    -- `frame_preprocess` from where the thread stands: the test of the waiting loop, the store to
    -- `buffer[p]`, or `buffer_flag[p]=1; p++; p=p%BUFFER_SIZE;`.
    unfoldable pub frame_preprocess : PutAt → A → System A → System A
    frame_preprocess PutAt.waits scaled s =
        if s.buffer_flag s.put_p == 0 then record s { put_at = PutAt.stores } else s
    frame_preprocess PutAt.stores scaled s = record s {
      buffer = update s.buffer s.put_p scaled;
      put_at = PutAt.flags;
    }
    frame_preprocess PutAt.flags scaled s = record s {
      buffer_flag = update s.buffer_flag s.put_p 1;
      put_p = (s.put_p + 1) % n;
      put_at = PutAt.waits;
      stored = s.stored ++ s.buffer s.put_p ∷ [];
    }

    -- `thread_encoder` from where the thread stands: the test of a waiting loop and of the loop itself,
    -- `encoder_run`, or `buffer_flag[p]=0; p++; p=p%BUFFER_SIZE;`.
    unfoldable pub thread_encoder : TakeAt → ℕ → System A → System A
    thread_encoder TakeAt.waits eos s =
        if not (s.pkt_eos == 0)
        then record s { take_at = TakeAt.finished }
        else if s.buffer_flag s.take_p == 0
        then s
        else record s {
          take_at = TakeAt.encodes;
          set_up = set_up_once s.set_up (s.buffer s.take_p);
        }
    thread_encoder TakeAt.encodes eos s = record s {
      take_at = TakeAt.clears;
      pkt_eos = eos;
      encoded = s.encoded ++ s.buffer s.take_p ∷ [];
    }
    thread_encoder TakeAt.clears eos s = record s {
      buffer_flag = update s.buffer_flag s.take_p 0;
      take_p = (s.take_p + 1) % n;
      take_at = TakeAt.waits;
    }
    thread_encoder TakeAt.finished eos s = s

    unfoldable pub turn : Turn A → System A → System A
    unfolding frame_preprocess thread_encoder
    turn (decoder a) s = frame_preprocess s.put_at a s
    turn (encoder eos) s = thread_encoder s.take_at eos s

    -- The turns of a schedule, in order.
    unfoldable pub run : List (Turn A) → System A → System A
    unfolding turn
    run [] s = s
    run (t ∷ ts) s = run ts (turn t s)
