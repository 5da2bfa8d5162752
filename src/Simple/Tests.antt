-- ===== src/Simple/Tests.antt =====
-- Runs of the threads of simple/main.c.
use dvb_stream_v.Base.{
  ℕ, suc, ◌+◌, ◌/◌, ◌≤◌, ◌≡◌, refl, ap, ◌≢◌, inl, true, false, List, [], ◌∷◌, ◌++◌, length,
  replicate, length-replicate,
}
use dvb_stream_v.Simple.{
  buffer_size, initial_system, frame_change, run, TakeAt, Turn, decoder, encoder,
}
use dvb_stream_v.Ring.Contents.{span}
use dvb_stream_v.Simple.Input.{thread_input, Reader}
use dvb_stream_v.Simple.Input.Cycle.{
  joined, count_eos, copies, remaining, thread_input-copies, thread_input-eq-content, IsOpen,
}
use dvb_stream_v.Cfg.{minus_one}
use dvb_stream_v.Simple.Order.{
  encoder_turns, reached, run_order, run_exclusive, run_drains, frame_change_loses,
}

abbrev made_frames : ℕ → ℕ
made_frames i = 1000 + i

-- The decoder stores 71 and 72, the encoder is given 71.
abbrev two_stored : List (Turn ℕ)
two_stored =
    decoder 71
    ∷ decoder 71
    ∷ encoder 0
    ∷ decoder 71
    ∷ decoder 72
    ∷ encoder 0
    ∷ decoder 72
    ∷ encoder 0
    ∷ decoder 72
    ∷ encoder 0
    ∷ []

-- The decoder is about to store 72 while the encoder reads 71.
abbrev both_busy : List (Turn ℕ)
both_busy = decoder 71 ∷ decoder 71 ∷ decoder 71 ∷ encoder 0 ∷ decoder 72 ∷ []

two_stored_result :
    ((reached made_frames two_stored).stored ≡ 71 ∷ 72 ∷ [])
    × ((reached made_frames two_stored).encoded ≡ 71 ∷ [])
unfolding run initial_system
two_stored_result = (refl, refl)

ends_with_the_stream :
    (reached made_frames (
      decoder 71
      ∷ decoder 71
      ∷ decoder 71
      ∷ encoder 0
      ∷ encoder 1
      ∷ encoder 0
      ∷ encoder 0
      ∷ [])).take_at
    ≡ TakeAt.finished
unfolding run initial_system
ends_with_the_stream = refl

run_order_example :
    (q : List ℕ) × ((reached made_frames two_stored).stored
      ≡ (reached made_frames two_stored).encoded ++ q)
    × (length q ≤ 300)
run_order_example = run_order made_frames two_stored

run_exclusive_example :
    (reached made_frames both_busy).put_p ≢ (reached made_frames both_busy).take_p
unfolding run initial_system
run_exclusive_example = run_exclusive made_frames both_busy refl (inl refl)

run_drains_example :
    (k : ℕ) × ((run buffer_size (encoder_turns k) (reached made_frames two_stored)).encoded
      ≡ (reached made_frames two_stored).stored)
unfolding run initial_system
run_drains_example = run_drains made_frames two_stored refl refl

frame_change_loses_example :
    (used : ℕ) × (q : List ℕ) × ((reached made_frames two_stored).stored
      ≡ (reached made_frames two_stored).encoded ++ q)
    × (length q ≡ used)
    × ((run buffer_size
          (encoder_turns used)
          (frame_change buffer_size (λ i. 2000 + i) (reached made_frames two_stored))).encoded
        ≡ (reached made_frames two_stored).encoded
          ++ span buffer_size (λ i. 2000 + i) (reached made_frames two_stored).take_p used)
unfolding run initial_system
frame_change_loses_example = frame_change_loses made_frames two_stored (λ i. 2000 + i) refl refl

-- A file of 4100 bytes.
abbrev long_reader : Reader
long_reader = record {
  content = replicate 4100 7;
  unread = replicate 4100 7;
  packet = record { bytes = []; eos = false };
  packet_size = 4096;
  packet_count = 0;
  pkt_eos = 0;
}

abbrev long_reader-IsOpen : IsOpen long_reader
long_reader-IsOpen = record { size = refl; at_start = refl }

-- A file of three bytes, whose only packet is refused once and taken twice.
abbrev short_reader : Reader
short_reader = record long_reader { content = 1 ∷ 2 ∷ 3 ∷ []; unread = 1 ∷ 2 ∷ 3 ∷ [] }

abbrev short_reader-IsOpen : IsOpen short_reader
short_reader-IsOpen = record { size = refl; at_start = refl }

thread_input-copies_example :
    (joined (thread_input (0 ∷ minus_one ∷ 0 ∷ []) short_reader).0
        ++ remaining (thread_input (0 ∷ minus_one ∷ 0 ∷ []) short_reader).1
      ≡ copies
          (suc (count_eos (thread_input (0 ∷ minus_one ∷ 0 ∷ []) short_reader).0))
          (1 ∷ 2 ∷ 3 ∷ []))
    × (length (thread_input (0 ∷ minus_one ∷ 0 ∷ []) short_reader).0 ≡ 2)
thread_input-copies_example =
    thread_input-copies (0 ∷ minus_one ∷ 0 ∷ []) short_reader short_reader-IsOpen

thread_input-eq-content_example :
    (joined (thread_input (1 ∷ 0 ∷ 1 ∷ 0 ∷ []) long_reader).0 ≡ replicate 4100 7)
    × (count_eos (thread_input (1 ∷ 0 ∷ 1 ∷ 0 ∷ []) long_reader).0 ≡ 1)
thread_input-eq-content_example =
    thread_input-eq-content (1 ∷ 0 ∷ 1 ∷ 0 ∷ []) long_reader long_reader-IsOpen
      (ap (λ k. k / 4096 + 1) (length-replicate {A = ℕ} 4100 7))

short_reader_result :
    (thread_input (0 ∷ minus_one ∷ 0 ∷ []) short_reader).0
    ≡ record { bytes = 1 ∷ 2 ∷ 3 ∷ []; eos = true }
      ∷ record { bytes = 1 ∷ 2 ∷ 3 ∷ []; eos = true }
      ∷ []
unfolding thread_input
short_reader_result = refl
