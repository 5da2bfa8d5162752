-- ===== src/Frames/Threads.antt =====
-- mycode/main.c: the decoder's and the encoder's thread, step by step between two accesses to the ring, its
-- head and its tail. `tail++` and `tail = tail % BUFFER_SIZE` are two stores, and so are those of `head`.
use dvb_stream_v.Ring.{update}
use dvb_stream_v.Base.{
  ℕ, ◌+◌, ◌%◌, Bool, false, ◌&&◌, ◌||◌, not, List, [], ◌∷◌, ◌++◌, ◌==◌, if◌then◌else◌,
}
use dvb_stream_v.Frames.{buffer_size}

-- Where the decoder's thread stands in `frame_preprocess`: at its waiting loop, before the frame is stored,
-- before `tail++`, and before the modulus is taken.
pub data Storing : Type 0 where
  waits stores bumps wraps : Storing

-- Where the encoder's thread stands in `thread_encoder`: at a waiting loop, before `encoder_run`, before
-- `head++`, before the modulus is taken, and behind the loop.
pub data Taking : Type 0 where
  waits encodes bumps wraps finished : Taking

-- The shared variables and the threads' places. `stored` and `encoded` are the frames that the one thread
-- has put behind `tail` and the other has given to `encoder_run`. `astray` is whether the decoder's thread
-- has ever left its waiting loop with head 0 and tail 299, or the encoder's with head 0 and tail 300.
pub record Threads {ℓ} (A : Type ℓ) : Type ℓ where
  pub buffer : ℕ → A
  pub head : ℕ
  pub tail : ℕ
  pub storing : Storing
  pub taking : Taking
  pub pkt_eos : ℕ
  pub astray : Bool
  pub stored : List A
  pub encoded : List A

-- Which thread moves: the decoder's, with the frame that it has to store, or the encoder's, with what
-- `encoder_run` leaves in `pkt_eos`.
pub data Move {ℓ} (A : Type ℓ) : Type ℓ where
  decoder : A → Move A
  encoder : ℕ → Move A

module _ {ℓ} {A : Type ℓ} where
  unfoldable pub initial_threads : (ℕ → A) → Threads A
  initial_threads made = record {
    buffer = made;
    head = 0;
    tail = 0;
    storing = Storing.waits;
    taking = Taking.waits;
    pkt_eos = 0;
    astray = false;
    stored = [];
    encoded = [];
  }

  -- `frame_preprocess` from where the thread stands.
  unfoldable pub store_step : Storing → A → Threads A → Threads A
  store_step Storing.waits scaled s = if s.tail + 1 == s.head then s else record s {
    storing = Storing.stores;
    astray = s.astray || (s.head == 0 && s.tail == 299);
  }
  store_step Storing.stores scaled s = record s {
    buffer = update s.buffer s.tail scaled;
    storing = Storing.bumps;
  }
  store_step Storing.bumps scaled s = record s {
    tail = s.tail + 1;
    storing = Storing.wraps;
    stored = s.stored ++ s.buffer s.tail ∷ [];
  }
  store_step Storing.wraps scaled s = record s {
    tail = s.tail % buffer_size;
    storing = Storing.waits;
  }

  -- `thread_encoder` from where the thread stands.
  unfoldable pub take_step : Taking → ℕ → Threads A → Threads A
  take_step Taking.waits eos s =
      if not (s.pkt_eos == 0)
      then record s { taking = Taking.finished }
      else if s.head == s.tail
      then s
      else record s { taking = Taking.encodes; astray = s.astray || (s.head == 0 && s.tail == 300) }
  take_step Taking.encodes eos s = record s {
    taking = Taking.bumps;
    pkt_eos = eos;
    encoded = s.encoded ++ s.buffer s.head ∷ [];
  }
  take_step Taking.bumps eos s = record s { head = s.head + 1; taking = Taking.wraps }
  take_step Taking.wraps eos s = record s { head = s.head % buffer_size; taking = Taking.waits }
  take_step Taking.finished eos s = s

  unfoldable pub move : Move A → Threads A → Threads A
  unfolding store_step take_step
  move (decoder a) s = store_step s.storing a s
  move (encoder eos) s = take_step s.taking eos s

  -- The moves of a schedule, in order.
  unfoldable pub moves : List (Move A) → Threads A → Threads A
  unfolding move
  moves [] s = s
  moves (m ∷ ms) s = moves ms (move m s)
