-- ===== src/Decoder/Running.antt =====
-- Calls of `decoder_run`.
use mathlib.Core.Path.{subst}
use dvb_stream_v.Base.{
  ◌+◌, ◌≡◌, refl, sym, ◌∙◌, inl, inr, Bool, true, false, ◌&&◌, not, Option, none, some,
  if◌then◌else◌, Bool-cases, if_true, if_false, not-true, not-false, u64,
}
use dvb_stream_v.Decoder.{
  announce, on_info_change, decoder_run, DecoderData, Frame, RunCall, Run, group_get,
  set_ext_buf_group, group_clear, info_change_ready, group_limit, fails, no_frame, changed,
  got_frame,
}

-- The decoder behind a call.
abbrev pub decoder_of : Run → DecoderData
decoder_of (fails d) = d
decoder_of (no_frame d) = d
decoder_of (changed d) = d
decoder_of (got_frame d) = d

-- Whether the calls succeed that a change of the picture's size takes: those for a new buffer group, or the
-- clearing of the old one, and then the limit of 24 buffers of the frame's size and the announcement.
abbrev pub all_succeed : (RunCall → Bool) → Frame → Bool → Bool
all_succeed ok f has_frm_grp =
    (if has_frm_grp then ok group_clear else ok group_get && ok set_ext_buf_group)
    && ok (group_limit f.buf_size 24)
    && ok info_change_ready

-- What a call means for the frame, the group and the counters.
pub data Ran (f : Option Frame) (ok : RunCall → Bool) (d : DecoderData) (r : Run) : Type 0 where
  nothing_came : f ≡ none → r ≡ no_frame (record d { has_frame = false }) → Ran f ok d r
  frame_came :
      (g : Frame) (d' : DecoderData)
      → f ≡ some g
      → g.info_change ≡ false
      → r ≡ got_frame d'
      → d'.has_frame ≡ false
      → d'.frm_eos ≡ g.eos
      → d'.frame_count ≡ u64 (d.frame_count + 1)
      → d'.has_frm_grp ≡ d.has_frm_grp
      → Ran f ok d r
  size_came :
      (g : Frame) (d' : DecoderData)
      → f ≡ some g
      → g.info_change ≡ true
      → all_succeed ok g d.has_frm_grp ≡ true
      → r ≡ changed d'
      → d'.has_frame ≡ false
      → d'.width ≡ g.frame_width
      → d'.height ≡ g.frame_height
      → d'.has_frm_grp ≡ true
      → d'.frame_count ≡ d.frame_count
      → Ran f ok d r
  call_failed :
      (g : Frame) (d' : DecoderData)
      → f ≡ some g
      → g.info_change ≡ true
      → all_succeed ok g d.has_frm_grp ≡ false
      → r ≡ fails d'
      → d'.has_frame ≡ true
      → d'.frame_count ≡ d.frame_count
      → Ran f ok d r

announce-Ran :
    (ok : RunCall → Bool) (g : Frame) (d e : DecoderData)
    → g.info_change ≡ true
    → e.has_frame ≡ true
    → e.width ≡ g.frame_width
    → e.height ≡ g.frame_height
    → e.has_frm_grp ≡ true
    → e.frame_count ≡ d.frame_count
    → (if d.has_frm_grp then ok group_clear else ok group_get && ok set_ext_buf_group) ≡ true
    → Ran (some g) ok d (announce ok g e)
unfolding announce
announce-Ran ok g d e change held w h grouped same before =
    elim (Bool-cases (ok (group_limit g.buf_size 24))) [
      | inr bad ↦ rw bad (call_failed g e refl change (rw (before, bad) refl) refl held same)
      | inl a ↦ elim (Bool-cases (ok info_change_ready)) [
        | inr bad ↦
            rw (a, bad) (call_failed g e refl change (rw (before, a, bad) refl) refl held same)
        | inl b ↦
            rw (a, b)
              (size_came g (record e { has_frame = false }) refl change (rw (before, a, b) refl)
                refl refl w h grouped same)
      ]
    ]

on_info_change-Ran :
    (ok : RunCall → Bool) (g : Frame) (d : DecoderData)
    → g.info_change ≡ true
    → Ran (some g) ok d (on_info_change ok g (record d { has_frame = true }))
unfolding on_info_change
on_info_change-Ran ok g d change =
    let sized : DecoderData = record d {
      has_frame = true;
      width = g.frame_width;
      height = g.frame_height;
    } in
    let grouped : DecoderData = record sized { has_frm_grp = true } in
    let new =
      if not (ok group_get)
      then fails sized
      else if not (ok set_ext_buf_group)
      then fails grouped
      else announce ok g grouped in
    let old = if not (ok group_clear) then fails sized else announce ok g sized in
    let call = on_info_change ok g (record d { has_frame = true }) in
    let failed : (e : DecoderData)
        → e.has_frame ≡ true
        → e.frame_count ≡ d.frame_count
        → all_succeed ok g d.has_frm_grp ≡ false
        → Ran (some g) ok d (fails e) =
      λ e held same bad. call_failed g e refl change bad refl held same in
    let back : (r : Run) → call ≡ r → Ran (some g) ok d r → Ran (some g) ok d call =
      λ r p q. subst (Ran (some g) ok d) (sym p) q in
    elim (Bool-cases (not d.has_frm_grp)) [
      | inl no_group ↦
          let none_yet : d.has_frm_grp ≡ false = not-true _ no_group in
          let first = if_true (not d.has_frm_grp) new old no_group in
          elim (Bool-cases (not (ok group_get))) [
            | inl bad ↦
                back _ (first ∙ if_true (not (ok group_get)) (fails sized) _ bad)
                  (failed sized refl refl (rw (none_yet, not-true _ bad) refl))
            | inr a ↦
                let second = first ∙ if_false (not (ok group_get)) (fails sized) _ a in
                elim (Bool-cases (not (ok set_ext_buf_group))) [
                  | inl bad ↦
                      back _ (second ∙ if_true (not (ok set_ext_buf_group)) (fails grouped) _ bad) (
                        failed grouped refl refl
                          (rw (none_yet, not-false _ a, not-true _ bad) refl))
                  | inr b ↦
                      back _
                        (second
                          ∙ if_false (not (ok set_ext_buf_group)) (fails grouped)
                              (announce ok g grouped) b)
                        (announce-Ran ok g d grouped change refl refl refl refl refl
                          (rw (none_yet, not-false _ a, not-false _ b) refl))
                ]
          ]
      | inr group ↦
          let has : d.has_frm_grp ≡ true = not-false d.has_frm_grp group in
          let first = if_false (not d.has_frm_grp) new old group in
          elim (Bool-cases (not (ok group_clear))) [
            | inl bad ↦
                back _ (first ∙ if_true (not (ok group_clear)) (fails sized) _ bad)
                  (failed sized refl refl (rw (has, not-true _ bad) refl))
            | inr a ↦
                back _
                  (first ∙ if_false (not (ok group_clear)) (fails sized) (announce ok g sized) a)
                  (announce-Ran ok g d sized change refl refl refl has refl
                    (rw (has, not-false _ a) refl))
          ]
    ]

-- What a call of `decoder_run` does, for every frame and every way in which the library's calls may fail. A
-- frame without a change of size is counted, its end mark is kept, and it is given back. At a change of size,
-- the new size is taken over, the decoder has its buffer group and the frame is given back if all the calls
-- succeed that this takes: for a new group if there was none, else the clearing of the old one, then the limit
-- of 24 buffers and the announcement. If one of them fails, the call returns -1 and the frame is not given back.
pub decoder_run-Ran :
    (f : Option Frame) (ok : RunCall → Bool) (d : DecoderData) → Ran f ok d (decoder_run f ok d)
unfolding decoder_run
decoder_run-Ran none ok d = nothing_came refl refl
decoder_run-Ran (some g) ok d =
    let held : DecoderData = record d { has_frame = true } in
    let after : DecoderData = record held {
      frm_eos = g.eos;
      frame_count = u64 (held.frame_count + 1);
      has_frame = false;
    } in
    elim (Bool-cases g.info_change) [
      | inr no_change ↦
          subst (Ran (some g) ok d)
            (sym (if_false g.info_change (on_info_change ok g held) (got_frame after) no_change))
            (frame_came g after refl no_change refl refl refl refl refl)
      | inl change ↦
          subst (Ran (some g) ok d)
            (sym (if_true g.info_change (on_info_change ok g held) (got_frame after) change))
            (on_info_change-Ran ok g d change)
    ]
