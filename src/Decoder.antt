-- ===== src/Decoder.antt =====
-- mycode/mpi_decoder.c: the life of a decoder. The calls of the MPP library enter as their results; a
-- pointer is modelled by whether it is set, and what is acquired and released is kept in lists.
-- `mpp_calloc` of the struct itself, which the code does not check, is taken to succeed.
pub mod Life
pub mod Running
pub mod Ending
mod Tests
use dvb_stream_v.Base.{
  ℕ, ◌+◌, Bool, true, false, not, Option, none, some, List, [], ◌∷◌, ◌==◌, if◌then◌else◌, set, u64,
}
use dvb_stream_v.Cfg.{minus_one}

-- What a decoder holds.
pub data Resource : Type 0 where
  the_struct stream_buffer packet context frame frame_group output_file input_file : Resource

-- The calls of `decoder_data_init` that may fail, in order.
pub data InitCall : Type 0 where
  malloc_buf packet_init create set_split_mode set_output_timeout init : InitCall

-- `DecoderData`; the pointers by whether they are set.
pub record DecoderData : Type 0 where
  pub has_ctx : Bool
  pub width : ℕ
  pub height : ℕ
  pub has_packet : Bool
  pub packet_size : ℕ
  pub packet_count : ℕ
  pub has_frm_grp : Bool
  pub has_frame : Bool
  pub frame_count : ℕ
  pub has_buf : Bool
  pub frm_eos : ℕ
  pub has_input : Bool
  pub has_output : Bool

-- The struct as a successful `decoder_data_init` leaves it.
abbrev pub initial_decoder : DecoderData
initial_decoder = record {
  has_ctx = true;
  width = 0;
  height = 0;
  has_packet = true;
  packet_size = 4096;
  packet_count = 0;
  has_frm_grp = false;
  has_frame = false;
  frame_count = 0;
  has_buf = true;
  frm_eos = 0;
  has_input = false;
  has_output = false;
}

-- `decoder_data_init`, given which calls succeed: its result, `*data` if it is set, and what has been
-- acquired.
unfoldable pub decoder_data_init : (InitCall → Bool) → ℕ × Option DecoderData × List Resource
decoder_data_init ok =
    if not (ok malloc_buf)
    then (minus_one, none, the_struct ∷ [])
    else if not (ok packet_init)
    then (minus_one, none, the_struct ∷ stream_buffer ∷ [])
    else if not (ok create)
    then (minus_one, none, the_struct ∷ stream_buffer ∷ packet ∷ [])
    else if not (ok set_split_mode)
    then (minus_one, none, the_struct ∷ stream_buffer ∷ packet ∷ context ∷ [])
    else if not (ok set_output_timeout)
    then (minus_one, none, the_struct ∷ stream_buffer ∷ packet ∷ context ∷ [])
    else if not (ok init)
    then (minus_one, none, the_struct ∷ stream_buffer ∷ packet ∷ context ∷ [])
    else (1, some initial_decoder, the_struct ∷ stream_buffer ∷ packet ∷ context ∷ [])

-- `if (pointer) { release; pointer = NULL; }`
abbrev pub release_if : Bool → Resource → List Resource → List Resource
release_if set r rest = if set then r ∷ rest else rest

-- `decoder_data_deinit`: the struct after it, and what it releases, in order. The struct is not freed.
unfoldable pub decoder_data_deinit : DecoderData → DecoderData × List Resource
decoder_data_deinit d = (
  record d {
    has_packet = false;
    has_frame = false;
    has_ctx = false;
    has_buf = false;
    has_frm_grp = false;
    has_output = false;
    has_input = false;
  },
  release_if d.has_packet packet (
      release_if d.has_frame frame (
        release_if d.has_ctx context (
          release_if d.has_buf stream_buffer (
            release_if d.has_frm_grp frame_group
              (release_if d.has_output output_file (release_if d.has_input input_file [])))))),
)

unfoldable pub decoder_set_input : ℕ → DecoderData → DecoderData
decoder_set_input fp_input d = record d { has_input = not (fp_input == 0) }

unfoldable pub decoder_set_output : Bool → DecoderData → DecoderData
decoder_set_output set d = record d { has_output = set }

-- What `decode_get_frame` hands over: the fields that `decoder_run` reads.
pub record Frame : Type 0 where
  pub info_change : Bool
  pub frame_width : ℕ
  pub frame_height : ℕ
  pub buf_size : ℕ
  pub eos : ℕ

-- The calls of `decoder_run` that may fail.
pub data RunCall : Type 0 where
  group_get set_ext_buf_group group_clear info_change_ready : RunCall
  group_limit : ℕ → ℕ → RunCall

-- What a call of `decoder_run` comes to: it returns -1, or it ends without a result. Then the callback
-- has been called, if there was a frame.
pub data Run : Type 0 where
  fails : DecoderData → Run
  no_frame : DecoderData → Run
  changed : DecoderData → Run
  got_frame : DecoderData → Run

-- The calls behind the buffer group's.
unfoldable pub announce : (RunCall → Bool) → Frame → DecoderData → Run
announce ok f d =
    if not (ok (group_limit f.buf_size 24))
    then fails d
    else if not (ok info_change_ready)
    then fails d
    else changed (record d { has_frame = false })

-- The branch of `mpp_frame_get_info_change`. A group that was acquired is kept if a later call fails.
unfoldable pub on_info_change : (RunCall → Bool) → Frame → DecoderData → Run
unfolding announce
on_info_change ok f d =
    let sized = record d { width = f.frame_width; height = f.frame_height } in
    let grouped = record sized { has_frm_grp = true } in
    if not d.has_frm_grp
    then if not (ok group_get)
      then fails sized
      else if not (ok set_ext_buf_group)
      then fails grouped
      else announce ok f grouped
    else if not (ok group_clear)
    then fails sized
    else announce ok f sized

-- `decoder_run`, given what `decode_get_frame` stores into `data->frame`, `none` for NULL, and which
-- calls succeed.
unfoldable pub decoder_run : Option Frame → (RunCall → Bool) → DecoderData → Run
unfolding on_info_change
decoder_run none ok d = no_frame (record d { has_frame = false })
decoder_run (some f) ok d =
    let held = record d { has_frame = true } in
    if f.info_change
    then on_info_change ok f held
    else got_frame (record held {
      frm_eos = f.eos;
      frame_count = u64 (held.frame_count + 1);
      has_frame = false;
    })
