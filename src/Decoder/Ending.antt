-- ===== src/Decoder/Ending.antt =====
-- The end of a decoder that has run: what `decoder_data_deinit` gives back.
use dvb_stream_v.Base.{
  ℕ, ◌<◌, ◌≡◌, refl, ◌∙◌, Bool, true, false, not, Option, none, some, List, [], ◌∷◌, arith, ◌==◌,
  if◌then◌else◌,
}
use dvb_stream_v.Decoder.{
  initial_decoder, release_if, decoder_data_deinit, decoder_set_input, decoder_set_output, announce,
  on_info_change, decoder_run, DecoderData, Frame, RunCall, Run, stream_buffer, packet, context,
  frame, frame_group, output_file, input_file, group_get, set_ext_buf_group, group_clear,
  info_change_ready, group_limit, fails, changed,
}
use dvb_stream_v.Decoder.Running.{decoder_of}

-- Calls of `decoder_run`, each with what the library does in it.
unfoldable pub run_all : List (Option Frame × (RunCall → Bool)) → DecoderData → DecoderData
run_all [] d = d
run_all ((f, ok) ∷ calls) d = run_all calls (decoder_of (decoder_run f ok d))

-- What the initialisation has acquired, and the two files, are there.
record IsAlive (d : DecoderData) : Type 0 where
  has_packet : d.has_packet ≡ true
  has_ctx : d.has_ctx ≡ true
  has_buf : d.has_buf ≡ true
  has_output : d.has_output ≡ true
  has_input : d.has_input ≡ true

-- A change of the other fields.
IsAlive-other :
    (d e : DecoderData)
    → IsAlive d
    → e.has_packet ≡ d.has_packet
    → e.has_ctx ≡ d.has_ctx
    → e.has_buf ≡ d.has_buf
    → e.has_output ≡ d.has_output
    → e.has_input ≡ d.has_input
    → IsAlive e
IsAlive-other d e a p c b o i = record {
  has_packet = p ∙ a.has_packet;
  has_ctx = c ∙ a.has_ctx;
  has_buf = b ∙ a.has_buf;
  has_output = o ∙ a.has_output;
  has_input = i ∙ a.has_input;
}

IsAlive-if :
    (b : Bool) (x y : Run)
    → IsAlive (decoder_of x)
    → IsAlive (decoder_of y)
    → IsAlive (decoder_of (if b then x else y))
IsAlive-if true x y p q = p
IsAlive-if false x y p q = q

announce-IsAlive :
    (ok : RunCall → Bool) (f : Frame) (d : DecoderData)
    → IsAlive d
    → IsAlive (decoder_of (announce ok f d))
unfolding announce
announce-IsAlive ok f d a = IsAlive-if (not (ok (group_limit f.buf_size 24))) (fails d) _ a (
    IsAlive-if (not (ok info_change_ready)) (fails d) (changed (record d { has_frame = false })) a
      (IsAlive-other d _ a refl refl refl refl refl))

on_info_change-IsAlive :
    (ok : RunCall → Bool) (f : Frame) (d : DecoderData)
    → IsAlive d
    → IsAlive (decoder_of (on_info_change ok f d))
unfolding on_info_change
on_info_change-IsAlive ok f d a =
    let sized : DecoderData = record d { width = f.frame_width; height = f.frame_height } in
    let grouped : DecoderData = record sized { has_frm_grp = true } in
    let s = IsAlive-other d sized a refl refl refl refl refl in
    let g = IsAlive-other d grouped a refl refl refl refl refl in
    IsAlive-if (not d.has_frm_grp) _ _
      (IsAlive-if (not (ok group_get)) (fails sized) _ s (
        IsAlive-if (not (ok set_ext_buf_group)) (fails grouped) (announce ok f grouped) g
          (announce-IsAlive ok f grouped g)))
      (IsAlive-if (not (ok group_clear)) (fails sized) (announce ok f sized) s
        (announce-IsAlive ok f sized s))

decoder_run-IsAlive :
    (f : Option Frame) (ok : RunCall → Bool) (d : DecoderData)
    → IsAlive d
    → IsAlive (decoder_of (decoder_run f ok d))
unfolding decoder_run
decoder_run-IsAlive none ok d a = IsAlive-other d _ a refl refl refl refl refl
decoder_run-IsAlive (some f) ok d a =
    let held : DecoderData = record d { has_frame = true } in
    IsAlive-if f.info_change (on_info_change ok f held) _
      (on_info_change-IsAlive ok f held (IsAlive-other d held a refl refl refl refl refl))
      (IsAlive-other d _ a refl refl refl refl refl)

run_all-IsAlive :
    (calls : List (Option Frame × (RunCall → Bool))) (d : DecoderData)
    → IsAlive d
    → IsAlive (run_all calls d)
unfolding run_all
run_all-IsAlive [] d a = a
run_all-IsAlive ((f, ok) ∷ calls) d a = run_all-IsAlive calls _ (decoder_run-IsAlive f ok d a)

-- The decoder with its two files, as `main` starts it.
abbrev pub started : ℕ → DecoderData
started fd = decoder_set_output true (decoder_set_input fd initial_decoder)

-- After any calls of `decoder_run`, with any failures of the library, `decoder_data_deinit` gives back the
-- packet, the context, the buffer and both files, each once, and the frame and the buffer group exactly
-- if the decoder holds them; a second call gives back nothing. The struct is never given back.
pub decoder_data_deinit-run_all :
    (calls : List (Option Frame × (RunCall → Bool))) (fd : ℕ)
    → 0 < fd
    → ((decoder_data_deinit (run_all calls (started fd))).1
        ≡ packet
          ∷ release_if (run_all calls (started fd)).has_frame frame (
              context
              ∷ stream_buffer
              ∷ release_if
                  (run_all calls (started fd)).has_frm_grp
                  frame_group
                  (output_file ∷ input_file ∷ [])))
      × ((decoder_data_deinit (decoder_data_deinit (run_all calls (started fd))).0).1 ≡ [])
unfolding decoder_data_deinit decoder_set_input decoder_set_output
decoder_data_deinit-run_all calls fd pos =
    let set : not (fd == 0) ≡ true = ground arith in
    let begin : IsAlive (started fd) = record {
      has_packet = refl;
      has_ctx = refl;
      has_buf = refl;
      has_output = refl;
      has_input = set;
    } in
    let a = run_all-IsAlive calls (started fd) begin in
    (rw (a.has_packet, a.has_ctx, a.has_buf, a.has_output, a.has_input) refl, refl)
