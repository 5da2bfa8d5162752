-- ===== src/Frames/Steps.antt =====
-- The steps of the two threads of mycode/main.c keep their ring in order.

use mathlib.Core.Path.{subst}
use dvb_stream_v.Base.{
  ℕ, zero, suc, ◌+◌, ◌%◌, ◌<◌, ◌≡◌, sym, ap, ◌∙◌, inl, inr, false, ◌&&◌, [], ◌∷◌, ◌++◌,
  append_assoc, arith, ◌==◌, Bool-cases, length, drop,
}
use dvb_stream_v.Ring.Contents.{span, length-span, span_head, span-suc, span-update}
use dvb_stream_v.Frames.Threads.{store_step, take_step, Storing, Taking, Threads}
use dvb_stream_v.Frames.Places.{
  left, RoomAt, FrameAt, TailAt, HeadAt, HeadAt-le, TailAt-le, RoomAt-less, FrameAt-suc, left_snoc,
  or-false, frame_lem, room_lem, Keeps,
}

-- `head++` frees the slot of the frame that has been encoded.
head_on {ℓ} :
    {A : Type ℓ} (eos used : ℕ) (s : Threads A)
    → Keeps used s
    → s.taking ≡ Taking.bumps
    → (used' : ℕ) × Keeps used' (take_step Taking.bumps eos s)
unfolding take_step
head_on eos zero s v e =
    let some_wait : 0 < 0 = subst (λ at. FrameAt at zero) e v.frame in absurd (omega arith)
head_on eos (suc used) s v e =
    let head_in : s.head < 300 = subst (λ at. HeadAt at s.head) e v.head_at in
    (
      used,
      record {
        few = omega (arith, v.few);
        tail_lem = omega (arith, v.tail_lem);
        tail_at = v.tail_at;
        head_at = omega arith;
        room = RoomAt-less s.storing used v.room;
        frame = tt;
        order =
            subst
              (λ at. s.stored ≡ s.encoded ++ left at (span 300 s.buffer (s.head % 300) (suc used)))
              e v.order
            ∙ ap (λ (j : ℕ). s.encoded ++ span 300 s.buffer j used) (omega arith);
      },
    )

module _ {ℓ} {A : Type ℓ} (used : ℕ) (s : Threads A) (v : Keeps used s) where
  one_more :
      s.tail < 300
      → s.stored ++ s.buffer s.tail ∷ []
        ≡ s.encoded ++ left s.taking (span 300 s.buffer (s.head % 300) (suc used))
  one_more tail_in =
      let frames = span 300 s.buffer (s.head % 300) used in
      let enough : FrameAt s.taking (length frames) =
        rw (length-span 300 s.buffer (s.head % 300) used) v.frame in
      let at_tail : (s.head % 300 + used) % 300 ≡ s.tail = omega (arith, v.tail_lem) in
      let longer : span 300 s.buffer (s.head % 300) (suc used) ≡ frames ++ s.buffer s.tail ∷ [] =
        span-suc 300 s.buffer used (s.head % 300) (omega arith) v.few
        ∙ ap (λ (j : ℕ). frames ++ s.buffer j ∷ []) at_tail in
      rw longer (
        rw (left_snoc s.taking frames (s.buffer s.tail) enough)
          (rw v.order (append_assoc s.encoded (left s.taking frames) (s.buffer s.tail ∷ []))))

  pub store_step-Keeps :
      (a : A) (at : Storing)
      → s.storing ≡ at
      → (store_step at a s).astray ≡ false
      → (used' : ℕ) × Keeps used' (store_step at a s)
  unfolding store_step
  store_step-Keeps a Storing.waits e fine = elim (Bool-cases (s.tail + 1 == s.head)) [
    | inl full ↦ (used, rw full v)
    | inr free ↦
        let tail_in : s.tail < 300 = subst (λ at. TailAt at s.tail) e v.tail_at in
        let rare = (or-false s.astray (s.head == 0 && s.tail == 299) (rw free at fine)).1 in
        (
          used,
          rw free (record {
            few = v.few;
            tail_lem = v.tail_lem;
            tail_at = tail_in;
            head_at = v.head_at;
            room =
                room_lem s.head s.tail used (HeadAt-le s.taking s.head v.head_at) tail_in v.few
                  v.tail_lem free rare;
            frame = v.frame;
            order = v.order;
          }),
        )
  ]
  store_step-Keeps a Storing.stores e fine =
      let tail_in : s.tail < 300 = subst (λ at. TailAt at s.tail) e v.tail_at in
      let some_room : used < 299 = subst (λ at. RoomAt at used) e v.room in
      (
        used,
        record {
          few = v.few;
          tail_lem = v.tail_lem;
          tail_at = tail_in;
          head_at = v.head_at;
          room = some_room;
          frame = v.frame;
          order =
              rw
                (span-update 300 s.buffer a used 0 (s.head % 300) s.tail (omega arith) (omega arith)
                  (omega (arith, v.tail_lem)))
                v.order;
        },
      )
  store_step-Keeps a Storing.bumps e fine =
      let tail_in : s.tail < 300 = subst (λ at. TailAt at s.tail) e v.tail_at in
      let some_room : used < 299 = subst (λ at. RoomAt at used) e v.room in
      (
        suc used,
        record {
          few = omega arith;
          tail_lem = omega (arith, v.tail_lem);
          tail_at = omega arith;
          head_at = v.head_at;
          room = tt;
          frame = FrameAt-suc s.taking used v.frame;
          order = one_more tail_in;
        },
      )
  store_step-Keeps a Storing.wraps e fine = (
    used,
    record {
      few = v.few;
      tail_lem = omega (arith, v.tail_lem);
      tail_at = omega arith;
      head_at = v.head_at;
      room = tt;
      frame = v.frame;
      order = v.order;
    },
  )

  order_at :
      (at : Taking)
      → s.taking ≡ at
      → s.stored ≡ s.encoded ++ left at (span 300 s.buffer (s.head % 300) used)
  order_at at e = rw (← e) v.order

  pub take_step-Keeps :
      (eos : ℕ) (at : Taking)
      → s.taking ≡ at
      → (take_step at eos s).astray ≡ false
      → (used' : ℕ) × Keeps used' (take_step at eos s)
  unfolding take_step
  take_step-Keeps eos Taking.waits e fine = elim (Bool-cases (s.pkt_eos == 0)) [
    | inr done ↦ (
      used,
      rw done (record {
        few = v.few;
        tail_lem = v.tail_lem;
        tail_at = v.tail_at;
        head_at = subst (λ at. HeadAt at s.head) e v.head_at;
        room = v.room;
        frame = tt;
        order = order_at Taking.waits e;
      }),
    )
    | inl more ↦ elim (Bool-cases (s.head == s.tail)) [
      | inl nothing ↦ (used, rw (more, nothing) v)
      | inr some_there ↦
          let rare =
            (or-false s.astray (s.head == 0 && s.tail == 300) (rw (more, some_there) at fine)).1 in
          let head_in : s.head < 300 = subst (λ at. HeadAt at s.head) e v.head_at in
          (
            used,
            rw (more, some_there)
                (record {
                  few = v.few;
                  tail_lem = v.tail_lem;
                  tail_at = v.tail_at;
                  head_at = head_in;
                  room = v.room;
                  frame =
                      frame_lem s.head s.tail used head_in (TailAt-le s.storing s.tail v.tail_at)
                        v.tail_lem some_there rare;
                  order = order_at Taking.waits e;
                }),
          )
    ]
  ]
  take_step-Keeps eos Taking.encodes e fine =
      let some_wait : 0 < used = subst (λ at. FrameAt at used) e v.frame in
      let head_in : s.head < 300 = subst (λ at. HeadAt at s.head) e v.head_at in
      let same : s.head % 300 ≡ s.head = omega arith in
      (
        used,
        record {
          few = v.few;
          tail_lem = v.tail_lem;
          tail_at = v.tail_at;
          head_at = head_in;
          room = v.room;
          frame = some_wait;
          order =
              order_at Taking.encodes e
              ∙ ap (◌++◌ s.encoded) (span_head 300 s.buffer used (s.head % 300) some_wait)
              ∙ ap
                  (λ (j : ℕ).
                    s.encoded ++ s.buffer j ∷ drop 1 (span 300 s.buffer (s.head % 300) used))
                  same
              ∙ sym (
                  append_assoc s.encoded (s.buffer s.head ∷ [])
                    (drop 1 (span 300 s.buffer (s.head % 300) used)));
        },
      )
  take_step-Keeps eos Taking.bumps e fine = head_on eos used s v e
  take_step-Keeps eos Taking.wraps e fine = (
    used,
    record {
      few = v.few;
      tail_lem = omega (arith, v.tail_lem);
      tail_at = v.tail_at;
      head_at = omega arith;
      room = v.room;
      frame = tt;
      order =
          order_at Taking.wraps e
          ∙ ap (λ (j : ℕ). s.encoded ++ span 300 s.buffer j used) (omega arith);
    },
  )
  take_step-Keeps eos Taking.finished e fine = (used, v)
