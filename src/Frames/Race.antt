-- ===== src/Frames/Race.antt =====
-- A schedule of the two threads of mycode/main.c in which the encoder's thread moves on between `tail++` and
-- `tail = tail % BUFFER_SIZE`.
use dvb_stream_v.Base.{
  ℕ, zero, suc, ◌+◌, ◌%◌, ◌≤◌, ◌<◌, ◌≡◌, refl, ap, ap₂, ◌∙◌, inl, inr, Bool, true, false, ◌&&◌,
  ◌||◌, List, [], ◌∷◌, ◌++◌, arith, ◌==◌, ==→eq, Bool-cases,
}
use dvb_stream_v.Ring.{update}
use dvb_stream_v.Frames.Threads.{
  initial_threads, move, moves, Storing, Taking, Threads, Move, decoder, encoder,
}

-- The first frames of a stream.
abbrev pub first_frames {ℓ} : {A : Type ℓ} → (ℕ → A) → ℕ → List A
first_frames f zero = []
first_frames f (suc n) = first_frames f n ++ f n ∷ []

module _ {ℓ} {A : Type ℓ} where
  -- A frame that is stored, and then encoded.
  abbrev in_turn : A → List (Move A)
  in_turn a =
      decoder a
      ∷ decoder a
      ∷ decoder a
      ∷ decoder a
      ∷ encoder 0
      ∷ encoder 0
      ∷ encoder 0
      ∷ encoder 0
      ∷ []

  -- The moves of the decoder's thread up to the store of `tail++`, and those in which the encoder's thread
  -- is given two frames.
  abbrev race : A → List (Move A)
  race a =
      decoder a
      ∷ decoder a
      ∷ decoder a
      ∷ encoder 0
      ∷ encoder 0
      ∷ encoder 0
      ∷ encoder 0
      ∷ encoder 0
      ∷ encoder 0
      ∷ []

  -- An empty ring whose indices are at a slot, with both threads at their waiting loops.
  abbrev at_slot : ℕ → (ℕ → A) → Bool → List A → Threads A
  at_slot n buffer astray frames = record {
    buffer = buffer;
    head = n;
    tail = n;
    storing = Storing.waits;
    taking = Taking.waits;
    pkt_eos = 0;
    astray = astray;
    stored = frames;
    encoded = frames;
  }

  moves-append :
      (ms ns : List (Move A)) (s : Threads A) → moves (ms ++ ns) s ≡ moves ns (moves ms s)
  unfolding moves
  moves-append [] ns s = refl
  moves-append (m ∷ ms) ns s = moves-append ms ns (move m s)

  module _ (n : ℕ) (a : A) (buffer : ℕ → A) (astray : Bool) (frames : List A) where
    -- On the way: the threads' places, the indices, and the frame behind the stored ones and the encoded ones.
    abbrev between : Storing → Taking → ℕ → ℕ → Bool → Threads A
    between storing taking head tail astray' = record {
      buffer = update buffer n a;
      head = head;
      tail = tail;
      storing = storing;
      taking = taking;
      pkt_eos = 0;
      astray = astray';
      stored = frames ++ update buffer n a n ∷ [];
      encoded = frames;
    }

    abbrev astray_1 : Bool
    astray_1 = astray || (n == 0 && n == 299)

    abbrev astray_2 : ℕ → Bool
    astray_2 tail = astray_1 || (n == 0 && tail == 300)

    stored_lem :
        n < 299
        → moves
            (decoder a ∷ decoder a ∷ decoder a ∷ decoder a ∷ [])
            (at_slot n buffer astray frames)
          ≡ between Storing.waits Taking.waits n (n + 1) astray_1
    unfolding moves
    stored_lem h =
        let apart : (n + 1 == n) ≡ false = ground arith in
        let inside : (n + 1) % 300 ≡ n + 1 = omega arith in
        let begun : move (decoder a) (at_slot n buffer astray frames)
            ≡ record (at_slot n buffer astray frames) {
              storing = Storing.stores;
              astray = astray_1;
            } =
          unfold move in rw apart refl in
        ap (moves (decoder a ∷ decoder a ∷ decoder a ∷ [])) begun
        ∙ ap (λ k. between Storing.waits Taking.waits n k astray_1) inside

    encoded_lem :
        n < 299
        → moves
            (encoder 0 ∷ encoder 0 ∷ encoder 0 ∷ encoder 0 ∷ [])
            (between Storing.waits Taking.waits n (n + 1) astray_1)
          ≡ at_slot (n + 1) (update buffer n a) (astray_2 (n + 1)) (frames ++ a ∷ [])
    unfolding moves
    encoded_lem h =
        let some_there : (n == n + 1) ≡ false = ground arith in
        let here : update buffer n a n ≡ a =
          (let same : (n == n) ≡ true = ground arith in rw same refl) in
        let inside : (n + 1) % 300 ≡ n + 1 = omega arith in
        let begun : move (encoder 0) (between Storing.waits Taking.waits n (n + 1) astray_1)
            ≡ between Storing.waits Taking.encodes n (n + 1) (astray_2 (n + 1)) =
          unfold move in rw some_there refl in
        ap (moves (encoder 0 ∷ encoder 0 ∷ encoder 0 ∷ [])) begun
        ∙ ap₂
            (λ k b.
              record (at_slot (n + 1) (update buffer n a) (astray_2 (n + 1)) (frames ++ b ∷ [])) {
                head = k;
              })
            inside here

    next_slot :
        n < 299
        → moves (in_turn a) (at_slot n buffer astray frames)
          ≡ at_slot (n + 1) (update buffer n a) (astray_2 (n + 1)) (frames ++ a ∷ [])
    next_slot h =
        moves-append (decoder a ∷ decoder a ∷ decoder a ∷ decoder a ∷ [])
          (encoder 0 ∷ encoder 0 ∷ encoder 0 ∷ encoder 0 ∷ []) (at_slot n buffer astray frames)
        ∙ ap (moves (encoder 0 ∷ encoder 0 ∷ encoder 0 ∷ encoder 0 ∷ [])) (stored_lem h)
        ∙ encoded_lem h

  -- The schedule that stores and encodes the first frames in turn.
  abbrev in_turns : (ℕ → A) → ℕ → List (Move A)
  in_turns f zero = []
  in_turns f (suc n) = in_turns f n ++ in_turn (f n)

  reached :
      (f made : ℕ → A) (n : ℕ)
      → n ≤ 299
      → (buffer : ℕ → A) × (astray : Bool) × (moves (in_turns f n) (initial_threads made)
          ≡ at_slot n buffer astray (first_frames f n))
        × ((i : ℕ) → i < n → buffer i ≡ f i)
  unfolding moves initial_threads
  reached f made zero h = (made, false, refl, λ i lt. absurd (omega arith))
  reached f made (suc n) h =
      let (buffer, astray, e, same) = reached f made n (omega arith) in
      let next = next_slot n (f n) buffer astray (first_frames f n) (omega arith) in
      let astray' = astray_2 n (f n) buffer astray (first_frames f n) (n + 1) in
      let one_on : n + 1 ≡ suc n = omega arith in
      (
        update buffer n (f n),
        astray',
        moves-append (in_turns f n) (in_turn (f n)) (initial_threads made)
            ∙ ap (moves (in_turn (f n))) e
            ∙ next
            ∙ ap (λ k. at_slot k (update buffer n (f n)) astray' (first_frames f (suc n))) one_on,
        λ i lt. elim (Bool-cases (n == i)) [
          | inl here ↦ rw here (ap f (==→eq _ _ here))
          | inr there ↦ rw there (same i (ground arith))
        ],
      )

-- Whatever the frames of the stream are: there is a schedule from the start on after which the first 300 frames
-- have been stored in their order, and the encoder has been given these 300 in order and then the very first one
-- once more.
pub moves-race {ℓ} :
    {A : Type ℓ} (f made : ℕ → A)
    → (ms : List (Move A)) × ((moves ms (initial_threads made)).stored ≡ first_frames f 300)
      × ((moves ms (initial_threads made)).encoded ≡ first_frames f 300 ++ f 0 ∷ [])
unfolding moves
moves-race f made =
    let (buffer, astray, e, same) = reached f made 299 (omega arith) in
    let all =
      moves-append (in_turns f 299) (race (f 299)) (initial_threads made)
      ∙ ap (moves (race (f 299))) e in
    (
      in_turns f 299 ++ race (f 299),
      ap (λ s. s.stored) all,
      ap (λ s. s.encoded) all ∙ ap (λ a. first_frames f 300 ++ a ∷ []) (same 0 (omega arith)),
    )
