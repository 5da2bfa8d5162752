-- ===== src/Simple/Queue.antt =====
-- What each step of the threads of simple/main.c does to the queue of its flagged slots.

use mathlib.Core.Path.{subst}
use dvb_stream_v.Base.{
  ℕ, zero, suc, ◌+◌, ◌%◌, ◌<◌, ◌≡◌, sym, ap, ◌∙◌, ◌≢◌, inl, inr, [], ◌∷◌, ◌++◌, append_assoc, arith,
  ◌==◌, ==→eq, Bool-cases, length, drop,
}
use dvb_stream_v.Ring.Contents.{mod_once, span, length-span, span_head, span-suc, span-update}
use dvb_stream_v.Simple.{frame_preprocess, thread_encoder, PutAt, TakeAt, System}
use dvb_stream_v.Simple.Slots.{
  waiting, HasRoom, HasFrame, HasRoom-less, HasFrame-suc, waiting_snoc, flag_set, flag_cleared,
  Represents,
}

module _ {ℓ} {A : Type ℓ} (n : ℕ) where
  -- The flag at the decoder's index is set exactly if all slots are used.
  put_flag :
      (used : ℕ) (s : System A) → Represents n used s → (s.buffer_flag s.put_p ≡ 0) → used < n
  put_flag used s v e =
      let once = mod_once (s.take_p + used) n (omega arith) (omega arith) in
      ground (arith, v.flagged s.put_p v.put_in, v.put_lem, v.used-le, v.take_in)

  take_flag :
      (used : ℕ) (s : System A) → Represents n used s → s.buffer_flag s.take_p ≢ 0 → 0 < used
  take_flag used s v e = ground (arith, v.flagged s.take_p v.take_in)

  clear :
      (eos used : ℕ) (s : System A)
      → Represents n used s
      → s.take_at ≡ TakeAt.clears
      → (used' : ℕ) × Represents n used' (thread_encoder n TakeAt.clears eos s)
  unfolding thread_encoder
  clear eos zero s v e =
      let some_wait : 0 < 0 = subst (λ at. HasFrame at zero) e v.frame in absurd (omega arith)
  clear eos (suc used) s v e =
      let once = mod_once (s.take_p + suc used) n (omega arith) (omega arith) in
      let next = mod_once (s.take_p + 1) n (omega arith) (omega arith) in
      let later = mod_once ((s.take_p + 1) % n + used) n (omega arith) (omega arith) in
      (
        used,
        record {
          put_in = v.put_in;
          take_in = omega arith;
          used-le = omega (arith, v.used-le);
          put_lem = omega (arith, v.put_lem);
          room = HasRoom-less n s.put_at used v.room;
          frame = tt;
          flagged = λ j hj.
              flag_cleared n s.buffer_flag s.take_p used j v.take_in v.used-le hj (v.flagged j hj);
          order =
              subst (λ at. s.stored ≡ s.encoded ++ waiting at (span n s.buffer s.take_p (suc used)))
                e v.order;
        },
      )

  module _ (used : ℕ) (s : System A) (v : Represents n used s) where
    stored_one_more :
        used < n
        → s.stored ++ s.buffer s.put_p ∷ []
          ≡ s.encoded ++ waiting s.take_at (span n s.buffer s.take_p (suc used))
    stored_one_more room =
        let frames = span n s.buffer s.take_p used in
        let enough : HasFrame s.take_at (length frames) =
          rw (length-span n s.buffer s.take_p used) v.frame in
        let longer : span n s.buffer s.take_p (suc used) ≡ frames ++ s.buffer s.put_p ∷ [] =
          rw v.put_lem (span-suc n s.buffer used s.take_p v.take_in room) in
        rw longer (
          rw (waiting_snoc s.take_at frames (s.buffer s.put_p) enough) (
            rw v.order (append_assoc s.encoded (waiting s.take_at frames) (s.buffer s.put_p ∷ []))))

    -- A step of the decoder's thread keeps the flags true to the queue; the step that sets the flag adds
    -- its frame.
    pub frame_preprocess-Represents :
        (a : A) (at : PutAt)
        → s.put_at ≡ at
        → (used' : ℕ) × Represents n used' (frame_preprocess n at a s)
    unfolding frame_preprocess
    frame_preprocess-Represents a PutAt.waits e = elim (Bool-cases (s.buffer_flag s.put_p == 0)) [
      | inr has_one ↦ (used, rw has_one v)
      | inl free ↦ (
        used,
        rw free (record {
          put_in = v.put_in;
          take_in = v.take_in;
          used-le = v.used-le;
          put_lem = v.put_lem;
          room = put_flag used s v (==→eq _ _ free);
          frame = v.frame;
          flagged = v.flagged;
          order = v.order;
        }),
      )
    ]
    frame_preprocess-Represents a PutAt.stores e =
        let room : used < n = subst (λ at. HasRoom n at used) e v.room in
        (
          used,
          record {
            put_in = v.put_in;
            take_in = v.take_in;
            used-le = v.used-le;
            put_lem = v.put_lem;
            room = room;
            frame = v.frame;
            flagged = v.flagged;
            order =
                rw
                  (span-update n s.buffer a used 0 s.take_p s.put_p v.take_in (omega arith)
                    (v.put_lem ∙ ap (λ (k : ℕ). (s.take_p + k) % n) (omega arith)))
                  v.order;
          },
        )
    frame_preprocess-Represents a PutAt.flags e =
        let room : used < n = subst (λ at. HasRoom n at used) e v.room in
        let next = mod_once (s.put_p + 1) n (omega arith) (omega arith) in
        let once = mod_once (s.take_p + used) n (omega arith) (omega arith) in
        let further = mod_once (s.take_p + suc used) n (omega arith) (omega arith) in
        (
          suc used,
          record {
            put_in = omega arith;
            take_in = v.take_in;
            used-le = omega arith;
            put_lem = omega (arith, v.put_lem);
            room = tt;
            frame = HasFrame-suc s.take_at used v.frame;
            flagged = λ j hj.
                flag_set n s.buffer_flag s.take_p s.put_p used j v.take_in room v.put_lem hj
                  (v.flagged j hj);
            order = stored_one_more room;
          },
        )

    order_at :
        (at : TakeAt)
        → s.take_at ≡ at
        → s.stored ≡ s.encoded ++ waiting at (span n s.buffer s.take_p used)
    order_at at e = rw (← e) v.order

    -- A step of the encoder's thread keeps the flags true to the queue; `encoder_run` takes the oldest
    -- frame, and the step that clears the flag frees its slot.
    pub thread_encoder-Represents :
        (eos : ℕ) (at : TakeAt)
        → s.take_at ≡ at
        → (used' : ℕ) × Represents n used' (thread_encoder n at eos s)
    unfolding thread_encoder
    thread_encoder-Represents eos TakeAt.waits e = elim (Bool-cases (s.pkt_eos == 0)) [
      | inr over ↦ (
        used,
        rw over (record {
          put_in = v.put_in;
          take_in = v.take_in;
          used-le = v.used-le;
          put_lem = v.put_lem;
          room = v.room;
          frame = tt;
          flagged = v.flagged;
          order = order_at TakeAt.waits e;
        }),
      )
      | inl more ↦ elim (Bool-cases (s.buffer_flag s.take_p == 0)) [
        | inl none_yet ↦ (used, rw (more, none_yet) v)
        | inr has_one ↦ (
          used,
          rw (more, has_one)
              (record {
                put_in = v.put_in;
                take_in = v.take_in;
                used-le = v.used-le;
                put_lem = v.put_lem;
                room = v.room;
                frame = take_flag used s v (ground arith);
                flagged = v.flagged;
                order = order_at TakeAt.waits e;
              }),
        )
      ]
    ]
    thread_encoder-Represents eos TakeAt.encodes e =
        let some_wait : 0 < used = subst (λ at. HasFrame at used) e v.frame in
        (
          used,
          record {
            put_in = v.put_in;
            take_in = v.take_in;
            used-le = v.used-le;
            put_lem = v.put_lem;
            room = v.room;
            frame = some_wait;
            flagged = v.flagged;
            order =
                order_at TakeAt.encodes e
                ∙ ap (◌++◌ s.encoded) (span_head n s.buffer used s.take_p some_wait)
                ∙ sym (
                    append_assoc s.encoded (s.buffer s.take_p ∷ [])
                      (drop 1 (span n s.buffer s.take_p used)));
          },
        )
    thread_encoder-Represents eos TakeAt.clears e = clear eos used s v e
    thread_encoder-Represents eos TakeAt.finished e = (used, v)
