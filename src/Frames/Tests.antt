-- ===== src/Frames/Tests.antt =====
-- A ring of three frames, and one that is about to lose its frames.
use dvb_stream_v.Base.{ℕ, ◌+◌, ◌<◌, ◌≡◌, refl, some, List, [], ◌∷◌, ◌++◌, arith, length}
use dvb_stream_v.Ring.{Ring}
use dvb_stream_v.Ring.Contents.{contents, IsValid}
use dvb_stream_v.Frames.{buffer_size, frame_preprocess}
use dvb_stream_v.Frames.Threads.{initial_threads, moves, Move, decoder, encoder}
use dvb_stream_v.Frames.Race.{first_frames, moves-race}
use dvb_stream_v.Frames.Schedule.{moves_order}
use dvb_stream_v.Frames.Order.{frame_preprocess_loses}

abbrev three : Ring ℕ
three = record { slots = λ i. i + 100; head = 298; tail = 1 }

three-IsValid : IsValid buffer_size three
three-IsValid = record { head_in = omega arith; tail_in = omega arith }

-- 299 frames, from the start of the array on, and from its second slot on.
abbrev crowded : Ring ℕ
crowded = record { slots = λ i. i; head = 0; tail = 299 }

crowded-IsValid : IsValid buffer_size crowded
crowded-IsValid = record { head_in = omega arith; tail_in = omega arith }

abbrev waiting : Ring ℕ
waiting = record { slots = λ i. i; head = 1; tail = 0 }

frame_preprocess_loses_example :
    (r' : Ring ℕ) × (frame_preprocess 7 crowded ≡ some r') × (contents buffer_size r' ≡ [])
frame_preprocess_loses_example = frame_preprocess_loses crowded crowded-IsValid 7 refl refl

-- Two frames are stored, and one of them is encoded between two stores of the other thread.
abbrev two_in_turn : List (Move ℕ)
two_in_turn =
    decoder 71
    ∷ decoder 71
    ∷ decoder 71
    ∷ encoder 0
    ∷ decoder 71
    ∷ decoder 72
    ∷ encoder 0
    ∷ decoder 72
    ∷ decoder 72
    ∷ encoder 0
    ∷ decoder 72
    ∷ []

moves_order_example :
    (q : List ℕ) × ((moves two_in_turn (initial_threads (λ i. i))).stored
      ≡ (moves two_in_turn (initial_threads (λ i. i))).encoded ++ q)
    × (length q < 300)
unfolding moves initial_threads
moves_order_example = moves_order (λ i. i) two_in_turn refl

moves-race_example :
    (ms : List (Move ℕ)) × ((moves ms (initial_threads (λ _. 0))).stored
      ≡ first_frames (λ i. i + 1) 300)
    × ((moves ms (initial_threads (λ _. 0))).encoded ≡ first_frames (λ i. i + 1) 300 ++ 1 ∷ [])
moves-race_example = moves-race (λ i. i + 1) (λ _. 0)

two_in_turn_result :
    ((moves two_in_turn (initial_threads (λ i. i))).stored ≡ 71 ∷ 72 ∷ [])
    × ((moves two_in_turn (initial_threads (λ i. i))).encoded ≡ 71 ∷ [])
unfolding moves initial_threads
two_in_turn_result = (refl, refl)
