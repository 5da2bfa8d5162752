-- ===== src/Program/Decoding.antt =====
-- mycode/main.c, `thread_output`: decoded frames are scaled into the ring until the stream's end.
use dvb_stream_v.Frames.Order.{contents-frame_preprocess}
use mathlib.Core.Path.{subst}
use mathlib.Core.Path.{subst}
use dvb_stream_v.Base.{
  ℕ, ◌+◌, ◌^◌, ◌≤◌, ◌<◌, ◌≡◌, refl, sym, ap, ◌∙◌, inl, inr, Bool, true, false, Option, none, some,
  List, [], ◌∷◌, ◌++◌, append-nil, append_assoc, arith, ◌==◌, if◌then◌else◌, ==→eq, Bool-cases,
  Option-cases, if_true, if_false, length, All, length-append, u64,
}
use dvb_stream_v.Ring.{Ring}
use dvb_stream_v.Ring.Contents.{contents, IsValid}
use dvb_stream_v.FrameInit.{MppFrame}
use dvb_stream_v.Frames.{buffer_size, frame_change, frame_preprocess}
use dvb_stream_v.Decoder.{
  on_info_change, decoder_run, DecoderData, Frame, RunCall, Run, fails, no_frame, changed,
  got_frame,
}
use dvb_stream_v.Decoder.Running.{decoder_of}

-- A round: what `decode_get_frame` stores, which calls succeed, the frame that scaling gives, and the frames
-- that `frame_init` makes.
pub record OutputRound : Type 0 where
  pub frame : Option Frame
  pub ok : RunCall → Bool
  pub scaled : MppFrame
  pub made : ℕ → MppFrame

-- What the rounds come to: the thread has ended behind its loop, would go on, or waits for a free slot.
pub data OutputEnds : Type 0 where
  finishes goes_on : DecoderData → Ring MppFrame → OutputEnds
  waits : Ring MppFrame → OutputEnds

-- The callback that a call of `decoder_run` makes: `frame_change`, `frame_preprocess`, or none.
unfoldable pub called : OutputRound → Run → Ring MppFrame → Option (Ring MppFrame)
called c (fails d) r = some r
called c (no_frame d) r = some r
called c (changed d) r = some (frame_change c.made r)
called c (got_frame d) r = frame_preprocess c.scaled r

-- `do decoder_run(decoder,&frame_change,&frame_preprocess); while(!decoder->frm_eos)`
unfoldable pub thread_output : List OutputRound → DecoderData → Ring MppFrame → OutputEnds
thread_output [] d r = goes_on d r
thread_output (c ∷ cs) d r = elim (called c (decoder_run c.frame c.ok d) r) [
  | none ↦ waits r
  | some r' ↦
      let d' = decoder_of (decoder_run c.frame c.ok d) in
      elim (d'.frm_eos == 0) [ true ↦ thread_output cs d' r' | false ↦ finishes d' r' ]
]

-- The frames that are scaled: those that come, up to the first one with an end mark.
abbrev pub frames_until_end : List OutputRound → List MppFrame
frames_until_end [] = []
frames_until_end (c ∷ cs) =
    let rest = frames_until_end cs in
    elim c.frame [ none ↦ rest | some f ↦ c.scaled ∷ (if f.eos == 0 then rest else []) ]

-- A round in which the size of the picture does not change.
abbrev pub KeepsFrame : Option Frame → Type 0
KeepsFrame none = Unit
KeepsFrame (some f) = f.info_change ≡ false

abbrev pub KeepsSize : OutputRound → Type 0
KeepsSize c = KeepsFrame c.frame

-- What the rounds have done.
pub record Stored (cs : List OutputRound) (d : DecoderData) (r : Ring MppFrame) : Type 0 where
  pub d' : DecoderData
  pub r' : Ring MppFrame
  pub ended : thread_output cs d r ≡ (if d'.frm_eos == 0 then goes_on d' r' else finishes d' r')
  pub valid : IsValid buffer_size r'
  pub in_order : contents buffer_size r' ≡ contents buffer_size r ++ frames_until_end cs
  pub counted : d'.frame_count ≡ u64 (d.frame_count + length (frames_until_end cs))

thread_output-next :
    (c : OutputRound) (cs : List OutputRound) (d : DecoderData) (r r1 : Ring MppFrame) (res : Run)
    → decoder_run c.frame c.ok d ≡ res
    → called c res r ≡ some r1
    → thread_output (c ∷ cs) d r ≡ (
        if (decoder_of res).frm_eos == 0
        then thread_output cs (decoder_of res) r1
        else finishes (decoder_of res) r1)
unfolding thread_output
thread_output-next c cs d r r1 res run call =
    let Next : Run → Type 0 = λ res.
      called c res r ≡ some r1
      → thread_output (c ∷ cs) d r ≡ (
          if (decoder_of res).frm_eos == 0
          then thread_output cs (decoder_of res) r1
          else finishes (decoder_of res) r1) in
    let d1 = decoder_of (decoder_run c.frame c.ok d) in
    subst Next run
      (λ call. elim (Bool-cases (d1.frm_eos == 0)) [
        | inl more ↦ rw (call, thread_output) (rw more refl)
        | inr over ↦ rw (call, thread_output) (rw over refl)
      ])
      call

-- The struct behind a call that hands a frame over.
abbrev with_frame : Frame → DecoderData → DecoderData
with_frame g d = record d {
  frm_eos = g.eos;
  frame_count = u64 (d.frame_count + 1);
  has_frame = false;
}

decoder_run-got_frame :
    (g : Frame) (ok : RunCall → Bool) (d : DecoderData)
    → g.info_change ≡ false
    → decoder_run (some g) ok d ≡ got_frame (with_frame g d)
unfolding decoder_run
decoder_run-got_frame g ok d plain =
    if_false g.info_change (on_info_change ok g (record d { has_frame = true }))
      (got_frame (with_frame g d)) plain

decoder_run-no_frame :
    (ok : RunCall → Bool) (d : DecoderData)
    → decoder_run none ok d ≡ no_frame (record d { has_frame = false })
unfolding decoder_run
decoder_run-no_frame ok d = refl

-- The stream goes on, or has just ended: a frame that has been stored, and what follows.
Stored-frame :
    (c : OutputRound) (cs : List OutputRound) (d : DecoderData) (r r1 : Ring MppFrame) (g : Frame)
    → c.frame ≡ some g
    → g.info_change ≡ false
    → frame_preprocess c.scaled r ≡ some r1
    → IsValid buffer_size r1
    → contents buffer_size r1 ≡ contents buffer_size r ++ c.scaled ∷ []
    → ((g.eos == 0) ≡ true → Stored cs (with_frame g d) r1)
    → Stored (c ∷ cs) d r
unfolding called
Stored-frame c cs d r r1 g came plain put v one more =
    let run = ap (λ f. decoder_run f c.ok d) came ∙ decoder_run-got_frame g c.ok d plain in
    let next = thread_output-next c cs d r r1 (got_frame (with_frame g d)) run put in
    elim (Bool-cases (g.eos == 0)) [
      | inl on ↦
          let later = more on in
          record {
            d' = later.d';
            r' = later.r';
            ended = next ∙ rw on later.ended;
            valid = later.valid;
            in_order =
                rw (came, on)
                  (later.in_order
                    ∙ ap (λ xs. xs ++ frames_until_end cs) one
                    ∙ append_assoc (contents buffer_size r) (c.scaled ∷ []) (frames_until_end cs));
            counted = rw (came, on) (later.counted ∙ omega arith);
          }
      | inr over ↦ record {
        d' = with_frame g d;
        r' = r1;
        ended = next ∙ rw over refl;
        valid = v;
        in_order = rw (came, over) one;
        counted = rw (came, over) refl;
      }
    ]

-- Nothing came.
Stored-nothing :
    (c : OutputRound) (cs : List OutputRound) (d : DecoderData) (r : Ring MppFrame)
    → c.frame ≡ none
    → d.frm_eos ≡ 0
    → Stored cs (record d { has_frame = false }) r
    → Stored (c ∷ cs) d r
unfolding called
Stored-nothing c cs d r came on later =
    let run = ap (λ f. decoder_run f c.ok d) came ∙ decoder_run-no_frame c.ok d in
    let next = thread_output-next c cs d r r (no_frame (record d { has_frame = false })) run refl in
    let goes : (d.frm_eos == 0) ≡ true = rw on refl in
    record {
      d' = later.d';
      r' = later.r';
      ended = next ∙ if_true (d.frm_eos == 0) _ _ goes ∙ later.ended;
      valid = later.valid;
      in_order = rw came later.in_order;
      counted = rw came later.counted;
    }

-- If the ring has room for a frame of each round, the decoder is in the middle of its stream and the size of
-- the picture stays: `thread_output` neither waits nor loses a frame. What is in the ring is followed by the
-- scaled frames, in order, up to the first one with an end mark; the thread ends behind that one, and goes on
-- if there is none; and the frames are counted.
pub thread_output-Stored :
    (cs : List OutputRound) (d : DecoderData) (r : Ring MppFrame)
    → All KeepsSize cs
    → d.frm_eos ≡ 0
    → d.frame_count < 2 ^ 64
    → IsValid buffer_size r
    → length (contents buffer_size r) + length cs ≤ 299
    → Stored cs d r
unfolding thread_output
thread_output-Stored [] d r keep on small v room = record {
  d' = d;
  r' = r;
  ended = rw on refl;
  valid = v;
  in_order = sym (append-nil _);
  counted = omega arith;
}
thread_output-Stored (c ∷ cs) d r keep on small v room = elim (Option-cases c.frame) [
  | inl none_came ↦
      let later =
        thread_output-Stored cs (record d { has_frame = false }) r keep.1 on small v
          (omega arith) in
      Stored-nothing c cs d r none_came on later
  | inr (g, came) ↦
      let plain = subst KeepsFrame came keep.0 in
      let (r1, put, v1, one) = contents-frame_preprocess r v c.scaled (omega arith) in
      Stored-frame c cs d r r1 g came plain put v1 one λ more.
        thread_output-Stored cs (with_frame g d) r1 keep.1 (==→eq _ _ more) (omega arith) v1
          (omega (arith, ap length one, length-append (contents buffer_size r) (c.scaled ∷ [])))
]
