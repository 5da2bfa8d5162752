-- ===== src/Decoder/Tests.antt =====
-- Decoders whose calls succeed or fail.

use dvb_stream_v.Base.{◌≡◌, refl, Bool, true, false, Option, none, some, List, [], ◌∷◌, arith}
use dvb_stream_v.Decoder.{
  initial_decoder, release_if, decoder_data_deinit, announce, on_info_change, decoder_run, InitCall,
  Frame, RunCall, stream_buffer, packet, context, frame, frame_group, output_file, input_file,
  create, group_limit, fails,
}
use dvb_stream_v.Decoder.Ending.{run_all, started, decoder_data_deinit-run_all}
use dvb_stream_v.Decoder.Running.{decoder_run-Ran, Ran}

abbrev no_context : InitCall → Bool
no_context create = false
no_context other = true

abbrev new_size : Frame
new_size = record {
  info_change = true;
  frame_width = 720;
  frame_height = 576;
  buf_size = 622080;
  eos = 0;
}

abbrev no_limit : RunCall → Bool
no_limit (group_limit size count) = false
no_limit other = true

decoder_run-Ran_example :
    Ran
      (some new_size)
      no_limit
      initial_decoder
      (decoder_run (some new_size) no_limit initial_decoder)
decoder_run-Ran_example = decoder_run-Ran (some new_size) no_limit initial_decoder

-- The group is kept, and the frame is not given back.
failed_run :
    decoder_run (some new_size) no_limit initial_decoder
    ≡ fails
        (record initial_decoder { width = 720; height = 576; has_frm_grp = true; has_frame = true })
unfolding decoder_run on_info_change announce
failed_run = refl

abbrev history : List (Option Frame × (RunCall → Bool))
history = (some new_size, no_limit) ∷ (some new_size, λ c. true) ∷ (none, no_limit) ∷ []

decoder_data_deinit-run_all_example :
    ((decoder_data_deinit (run_all history (started 5))).1
      ≡ packet
        ∷ release_if (run_all history (started 5)).has_frame frame (
            context
            ∷ stream_buffer
            ∷ release_if
                (run_all history (started 5)).has_frm_grp
                frame_group
                (output_file ∷ input_file ∷ [])))
    × ((decoder_data_deinit (decoder_data_deinit (run_all history (started 5))).0).1 ≡ [])
decoder_data_deinit-run_all_example = decoder_data_deinit-run_all history 5 (omega arith)
