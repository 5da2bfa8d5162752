-- ===== src/Simple/Order.antt =====
-- Schedules of the decoder's and the encoder's thread of simple/main.c.
use native.Mathlib.Decide.{dec_lt}
use mathlib.Core.Path.{subst}
use dvb_stream_v.Ring.{update}
use dvb_stream_v.Base.{
  ℕ, zero, suc, ◌+◌, ◌%◌, ◌≤◌, ◌<◌, ◌≡◌, refl, sym, ap, ap₂, ◌∙◌, ◌≢◌, ◌⊎◌, inl, inr, true, List,
  [], ◌∷◌, ◌++◌, append-nil, append_assoc, arith, ltb, if◌then◌else◌, length,
}
use dvb_stream_v.Ring.Contents.{mod_once, span, length-span}
use dvb_stream_v.Simple.{
  buffer_size, initial_system, set_up_once, frame_change, turn, run, PutAt, TakeAt, System, Turn,
  decoder, encoder,
}
use dvb_stream_v.Simple.Slots.{distance, waiting, HasRoom, HasFrame, flag_cleared, Represents}
use dvb_stream_v.Simple.Queue.{frame_preprocess-Represents, thread_encoder-Represents}

-- Turns in which the encoder's thread encodes `k` frames, and `encoder_run` sets `pkt_eos` to 0.
abbrev pub encoder_turns {ℓ} : {A : Type ℓ} → ℕ → List (Turn A)
encoder_turns zero = []
encoder_turns (suc k) = encoder 0 ∷ encoder 0 ∷ encoder 0 ∷ encoder_turns k

module _ {ℓ} {A : Type ℓ} (n : ℕ) where
  turn-Represents :
      (t : Turn A) (used : ℕ) (s : System A)
      → Represents n used s
      → (used' : ℕ) × Represents n used' (turn n t s)
  unfolding turn
  turn-Represents (decoder a) used s v = frame_preprocess-Represents n used s v a s.put_at refl
  turn-Represents (encoder eos) used s v = thread_encoder-Represents n used s v eos s.take_at refl

  run-Represents :
      (ts : List (Turn A)) (used : ℕ) (s : System A)
      → Represents n used s
      → (used' : ℕ) × Represents n used' (run n ts s)
  unfolding run
  run-Represents [] used s v = (used, v)
  run-Represents (t ∷ ts) used s v =
      let (used', v') = turn-Represents t used s v in run-Represents ts used' (turn n t s) v'

  length-waiting : (at : TakeAt) (xs : List A) → length (waiting at xs) ≤ length xs
  length-waiting TakeAt.waits xs = omega arith
  length-waiting TakeAt.encodes xs = omega arith
  length-waiting TakeAt.clears [] = omega arith
  length-waiting TakeAt.clears (x ∷ xs) = omega arith
  length-waiting TakeAt.finished xs = omega arith

  -- The system behind a round of the encoder's loop.
  abbrev encoded_one : System A → System A
  encoded_one s = record s {
    buffer_flag = update s.buffer_flag s.take_p 0;
    take_p = (s.take_p + 1) % n;
    take_at = TakeAt.waits;
    pkt_eos = 0;
    set_up = set_up_once s.set_up (s.buffer s.take_p);
    encoded = s.encoded ++ s.buffer s.take_p ∷ [];
  }

  encode_one :
      (s : System A)
      → s.take_at ≡ TakeAt.waits
      → s.pkt_eos ≡ 0
      → s.buffer_flag s.take_p ≡ 1
      → turn n (encoder 0) (turn n (encoder 0) (turn n (encoder 0) s)) ≡ encoded_one s
  unfolding turn
  encode_one s at eos flag = rw (at, eos, flag) refl

  encode_all :
      (used : ℕ) (s : System A)
      → s.take_p < n
      → used ≤ n
      → ((j : ℕ) → j < n → s.buffer_flag j ≡ (if ltb (distance n s.take_p j) used then 1 else 0))
      → s.take_at ≡ TakeAt.waits
      → s.pkt_eos ≡ 0
      → (run n (encoder_turns used) s).encoded ≡ s.encoded ++ span n s.buffer s.take_p used
  unfolding run
  encode_all zero s hi hu flagged at eos = sym (append-nil s.encoded)
  encode_all (suc used) s hi hu flagged at eos =
      let first : s.buffer_flag s.take_p ≡ 1 = ground (arith, flagged s.take_p hi) in
      let once = mod_once (s.take_p + 1) n (omega arith) (omega arith) in
      ap (λ t. (run n (encoder_turns used) t).encoded) (encode_one s at eos first)
      ∙ encode_all used (encoded_one s) (omega arith) (omega arith)
          (λ j hj. flag_cleared n s.buffer_flag s.take_p used j hi hu hj (flagged j hj)) refl refl
      ∙ append_assoc s.encoded (s.buffer s.take_p ∷ []) (span n s.buffer ((s.take_p + 1) % n) used)

-- Slots below `n` that `frame_change` has filled.
span-frame_change {ℓ} :
    {A : Type ℓ} (n : ℕ) (fresh : ℕ → A) (f : ℕ → A) (k i : ℕ)
    → i < n
    → span n (λ j. if ltb j n then fresh j else f j) i k ≡ span n fresh i k
span-frame_change n fresh f zero i hi = refl
span-frame_change n fresh f (suc k) i hi =
    let once = mod_once (i + 1) n (omega arith) (omega arith) in
    let below : ltb i n ≡ true = ground arith in
    ap₂ ◌∷◌ (rw below refl) (span-frame_change n fresh f k ((i + 1) % n) (omega arith))

module _ {ℓ} {A : Type ℓ} (n used : ℕ) (s : System A) (v : Represents n used s) where
  frames_apart :
      s.put_at ≡ PutAt.stores
      → (s.take_at ≡ TakeAt.encodes) ⊎ (s.take_at ≡ TakeAt.clears)
      → s.put_p ≢ s.take_p
  frames_apart here busy same =
      let some_free : used < n = subst (λ at. HasRoom n at used) here v.room in
      let some_wait : 0 < used = elim busy [
        | inl e ↦ subst (λ at. HasFrame at used) e v.frame
        | inr e ↦ subst (λ at. HasFrame at used) e v.frame
      ] in
      let once = mod_once (s.take_p + used) n (omega arith) (omega (arith, v.take_in)) in
      omega (arith, v.put_lem, v.take_in)

  one_goes_on : (s.buffer_flag s.put_p ≡ 0) ⊎ (s.buffer_flag s.take_p ≡ 1)
  one_goes_on = elim (dec_lt 0 used) [
    | yes more ↦ inr (ground (arith, v.flagged s.take_p v.take_in, v.take_in))
    | no none_used ↦ inl (ground (arith, v.flagged s.put_p v.put_in, v.put_lem, v.take_in))
  ]

  drains :
      s.take_at ≡ TakeAt.waits → s.pkt_eos ≡ 0 → (run n (encoder_turns used) s).encoded ≡ s.stored
  drains at eos =
      encode_all n used s v.take_in v.used-le v.flagged at eos
      ∙ sym (
          subst (λ at. s.stored ≡ s.encoded ++ waiting at (span n s.buffer s.take_p used)) at
            v.order)

  replaced :
      (fresh : ℕ → A)
      → s.take_at ≡ TakeAt.waits
      → s.pkt_eos ≡ 0
      → (run n (encoder_turns used) (frame_change n fresh s)).encoded
        ≡ s.encoded ++ span n fresh s.take_p used
  unfolding frame_change
  replaced fresh at eos =
      encode_all n used (frame_change n fresh s) v.take_in v.used-le v.flagged at eos
      ∙ ap (◌++◌ s.encoded) (span-frame_change n fresh s.buffer used s.take_p v.take_in)

initial-Represents {ℓ} :
    {A : Type ℓ} (made : ℕ → A) → Represents buffer_size 0 (initial_system made)
unfolding initial_system
initial-Represents made = record {
  put_in = omega arith;
  take_in = omega arith;
  used-le = omega arith;
  put_lem = refl;
  room = tt;
  frame = tt;
  flagged = λ j hj. ground arith;
  order = refl;
}

module _ {ℓ} {A : Type ℓ} (made : ℕ → A) (ts : List (Turn A)) where
  -- The system behind a schedule.
  abbrev pub reached : System A
  reached = run buffer_size ts (initial_system made)

  reached-Represents : (used : ℕ) × Represents buffer_size used reached
  reached-Represents =
      run-Represents buffer_size ts 0 (initial_system made) (initial-Represents made)

  -- Whatever the order in which the two threads move: the frames that the encoder has been given are
  -- the first of those that the decoder has stored, each once and in the same order, and at most 300
  -- frames wait behind them.
  pub run_order : (q : List A) × (reached.stored ≡ reached.encoded ++ q) × (length q ≤ 300)
  run_order =
      let (used, v) = reached-Represents in
      let frames = span buffer_size reached.buffer reached.take_p used in
      let few : length frames ≡ used = length-span buffer_size reached.buffer reached.take_p used in
      (
        waiting reached.take_at frames,
        v.order,
        omega (arith, length-waiting buffer_size reached.take_at frames, few, v.used-le),
      )

  -- The decoder's thread never stores into the slot that the encoder's thread reads, whatever the order
  -- in which they move.
  pub run_exclusive :
      reached.put_at ≡ PutAt.stores
      → (reached.take_at ≡ TakeAt.encodes) ⊎ (reached.take_at ≡ TakeAt.clears)
      → reached.put_p ≢ reached.take_p
  run_exclusive here busy =
      let (used, v) = reached-Represents in frames_apart buffer_size used reached v here busy

  -- The threads never wait for each other: whatever the order in which they have moved, the slot at the
  -- decoder's index is free or the one at the encoder's index holds a frame.
  pub run_goes_on :
      (reached.buffer_flag reached.put_p ≡ 0) ⊎ (reached.buffer_flag reached.take_p ≡ 1)
  run_goes_on = let (used, v) = reached-Represents in one_goes_on buffer_size used reached v

  -- From any point at which the encoder's thread is at its waiting loop and has not seen the end of the
  -- stream, turns of the encoder's thread alone are enough to encode all the frames that have been stored.
  pub run_drains :
      reached.take_at ≡ TakeAt.waits
      → reached.pkt_eos ≡ 0
      → (k : ℕ) × ((run buffer_size (encoder_turns k) reached).encoded ≡ reached.stored)
  run_drains at eos =
      let (used, v) = reached-Represents in (used, drains buffer_size used reached v at eos)

  -- A call of `frame_change` at a point at which `used` frames wait, the encoder's thread is at its waiting
  -- loop and has not seen the end of the stream: what the encoder's thread is given next are `used` of the
  -- frames that `frame_init` has just made, in the place of those that waited.
  pub frame_change_loses :
      (fresh : ℕ → A)
      → reached.take_at ≡ TakeAt.waits
      → reached.pkt_eos ≡ 0
      → (used : ℕ) × (q : List A) × (reached.stored ≡ reached.encoded ++ q)
        × (length q ≡ used)
        × ((run buffer_size (encoder_turns used) (frame_change buffer_size fresh reached)).encoded
            ≡ reached.encoded ++ span buffer_size fresh reached.take_p used)
  frame_change_loses fresh at eos =
      let (used, v) = reached-Represents in
      let frames = span buffer_size reached.buffer reached.take_p used in
      (
        used,
        frames,
        subst (λ at. reached.stored ≡ reached.encoded ++ waiting at frames) at v.order,
        length-span buffer_size reached.buffer reached.take_p used,
        replaced buffer_size used reached v fresh at eos,
      )
