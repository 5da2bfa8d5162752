-- ===== src/Program/Tests.antt =====
-- Two frames on their way from the ring to the queue.

use dvb_stream_v.Ring.{Ring}
use dvb_stream_v.Program.Pipeline.{ring_of, decoded-Received}
use dvb_stream_v.Frames.{buffer_size, frame_preprocess}
use dvb_stream_v.Base.{
  ℕ, ◌+◌, ◌≤◌, ◌≡◌, refl, true, false, Option, none, some, List, [], ◌∷◌, ◌++◌, map, arith, length,
  replicate, All,
}
use dvb_stream_v.Ring.Contents.{contents, IsValid}
use dvb_stream_v.FrameInit.{MppFrame}
use dvb_stream_v.Encoder.Config.{sized}
use dvb_stream_v.Encoder.{get_packet}
use dvb_stream_v.Tcp.{tcp_buffer_nums, fresh, Tcp, video_channel}
use dvb_stream_v.Program.{encode_rounds, Coding, Round, finishes, goes_on, waits}
use dvb_stream_v.Program.Input.{put_until_done, thread_input, InputRound}
use dvb_stream_v.Program.Video.{videos, IsWholeRead, thread_input-videos}
use dvb_stream_v.Demux.{decoder_read_ts_packet, Demux}
use dvb_stream_v.Program.Decoding.{
  called, thread_output, thread_output-Stored, OutputRound, Stored, finishes, goes_on, waits,
}
use dvb_stream_v.Decoder.{
  initial_decoder, decoder_data_init, decoder_set_input, decoder_set_output, decoder_run,
  DecoderData, Frame,
}
use dvb_stream_v.Program.Main.{
  create_threads, listen_and_create, main, simple_main, Startup, waits_for_key, null_decoder,
}
use dvb_stream_v.Program.Start.{all_threads}
use dvb_stream_v.Program.Chain.{Encodes, AreUnits, packets_needed, Carries, IsRunning}
use dvb_stream_v.Tcp.Queues.{taken_of, IsShort}
use dvb_stream_v.Output.{rtp_sender}

abbrev scaled : ℕ → MppFrame
scaled i = record {
  width = 1280;
  height = 720;
  hor_stride = 1280;
  ver_stride = 720;
  fmt = 0;
  eos = 0;
  buffer = some i;
}

abbrev ready_coding : Coding
ready_coding = record {
  ring = record { slots = scaled; head = 299; tail = 2 };
  encoder = sized (scaled 299);
  statics = record { count = 0; pts = 0 };
  output = record { file = []; tcp = fresh };
  given = [];
}

abbrev key_unit : List ℕ
key_unit = 0 ∷ 0 ∷ 0 ∷ 1 ∷ 0x25 ∷ 1 ∷ 2 ∷ []

abbrev plain_unit : List ℕ
plain_unit = 0 ∷ 0 ∷ 0 ∷ 1 ∷ 0x21 ∷ 3 ∷ []

abbrev two_units : List (List ℕ)
two_units = key_unit ∷ plain_unit ∷ []

abbrev stream_header : List ℕ
stream_header = 0 ∷ 0 ∷ 0 ∷ 1 ∷ 0x27 ∷ []

-- The encoder's second packet comes at the third call.
abbrev two_rounds : List Round
two_rounds =
    record { init_ret = 0; gets = some (record { bytes = key_unit; eos = 0 }) ∷ [] }
    ∷ record {
      init_ret = 0;
      gets = none ∷ none ∷ some (record { bytes = plain_unit; eos = 0 }) ∷ [];
    }
    ∷ []

rounds_encode : Encodes two_rounds two_units
unfolding get_packet
rounds_encode = (refl, refl, (refl, refl, tt))

ready_coding-IsRunning : IsRunning ready_coding
unfolding fresh
ready_coding-IsRunning = record {
  ring_valid = record { head_in = omega arith; tail_in = omega arith };
  queue_valid = record { head_in = omega arith; tail_in = omega arith };
  counter = omega arith;
}

queue_has_room :
    length (contents tcp_buffer_nums fresh.video) + packets_needed 0 stream_header two_units ≤ 9999
unfolding fresh
queue_has_room = omega arith

-- The thread waits for a frame if the ring is empty.
waits_for_a_frame :
    encode_rounds 7 257 stream_header two_rounds
      (record ready_coding { ring = record { slots = scaled; head = 5; tail = 5 } })
    ≡ waits (record ready_coding { ring = record { slots = scaled; head = 5; tail = 5 } })
unfolding encode_rounds
waits_for_a_frame = refl

-- Two packets of video; the decoder refuses the second one twice.
abbrev video_packet : ℕ → List ℕ
video_packet v = 0x47 ∷ 0x41 ∷ 0x01 ∷ 0x10 ∷ replicate 184 v

abbrev video_rounds : List InputRound
video_rounds =
    record { bytes = video_packet 9; rets = 0 ∷ [] }
    ∷ record { bytes = video_packet 8; rets = 1 ∷ 1 ∷ 0 ∷ [] }
    ∷ []

abbrev empty_demux : Demux
empty_demux = record {
  is_have_video = false;
  is_write_audio = false;
  video_pts = 0;
  audio_counter = 0;
  buf = replicate 188 0;
  packet_count = 0;
  packet_pos = 0;
  packet_length = 0;
  tcp = fresh;
}

video_rounds-whole : All IsWholeRead video_rounds
video_rounds-whole = ((refl, omega arith), ((refl, omega arith), tt))

-- The state behind the rounds.
abbrev read_demux : Demux
read_demux = record empty_demux {
  buf = video_packet 8;
  packet_count = 2;
  packet_pos = 4;
  packet_length = 184;
}

thread_input-videos_example : (replicate 184 9 ∷ replicate 184 8 ∷ []) ≡ videos 257 [] video_rounds
unfolding thread_input decoder_read_ts_packet put_until_done
thread_input-videos_example =
    thread_input-videos 257 [] video_rounds empty_demux read_demux
      (replicate 184 9 ∷ replicate 184 8 ∷ []) tt video_rounds-whole refl refl

-- A frame, a call without one, and the last frame.
abbrev decoded : ℕ → Frame
decoded eos = record {
  info_change = false;
  frame_width = 1920;
  frame_height = 1080;
  buf_size = 0;
  eos = eos;
}

abbrev output_round : Option Frame → ℕ → OutputRound
output_round f i = record { frame = f; ok = λ _. true; scaled = scaled i; made = scaled }

abbrev three_rounds : List OutputRound
three_rounds =
    output_round (some (decoded 0)) 71
    ∷ output_round none 72
    ∷ output_round (some (decoded 1)) 73
    ∷ []

abbrev near_the_end : Ring MppFrame
near_the_end = record { slots = scaled; head = 298; tail = 299 }

near_the_end-IsValid : IsValid buffer_size near_the_end
near_the_end-IsValid = record { head_in = omega arith; tail_in = omega arith }

thread_output-Stored_example : Stored three_rounds initial_decoder near_the_end
thread_output-Stored_example =
    thread_output-Stored three_rounds initial_decoder near_the_end (refl, (tt, (refl, tt))) refl
      (omega arith) near_the_end-IsValid (omega arith)

abbrev no_frames : Ring MppFrame
no_frames = record { slots = scaled; head = 298; tail = 298 }

no_frames-IsValid : IsValid buffer_size no_frames
no_frames-IsValid = record { head_in = omega arith; tail_in = omega arith }

two_units-AreUnits : AreUnits stream_header two_units
two_units-AreUnits = ((omega arith, omega arith), ((omega arith, omega arith), tt))

fresh-IsShort : All IsShort (contents tcp_buffer_nums fresh.video)
unfolding fresh
fresh-IsShort = tt

-- The state in which `thread_encoder` finds what three rounds of `thread_output` have left.
abbrev behind_the_decoder : Coding
behind_the_decoder = record ready_coding {
  ring = ring_of (thread_output three_rounds initial_decoder no_frames);
}

decoded-Received_example :
    (c' : Coding) × (t : Tcp) × (packets : List (List ℕ)) × (encode_rounds 7 257 stream_header
        two_rounds behind_the_decoder
      ≡ goes_on c')
    × (c'.given ≡ [] ++ map some (scaled 71 ∷ scaled 73 ∷ []))
    × (c'.output.file ≡ [] ++ packets)
    × (rtp_sender 9999 c'.output.tcp ≡ some t)
    × (taken_of video_channel t.taken
        ≡ taken_of video_channel fresh.taken ++ (contents tcp_buffer_nums fresh.video ++ packets))
    × (contents tcp_buffer_nums t.video ≡ [])
    × (contents tcp_buffer_nums t.audio ≡ [])
    × Carries 257 stream_header 0 0 two_units packets
unfolding fresh
decoded-Received_example =
    decoded-Received 7 257 stream_header (omega arith) two_units two_units-AreUnits three_rounds
      initial_decoder no_frames two_rounds behind_the_decoder (refl, (tt, (refl, tt))) refl
      (omega arith) no_frames-IsValid refl (omega arith) refl rounds_encode
      ready_coding-IsRunning.queue_valid ready_coding-IsRunning.queue_valid fresh-IsShort
      fresh-IsShort (omega arith) (omega arith) queue_has_room

ends_with_the_last_frame :
    (d : DecoderData) × (r : Ring MppFrame) × (thread_output three_rounds initial_decoder
        near_the_end
      ≡ finishes d r)
    × (r.tail ≡ 1)
unfolding thread_output decoder_run called frame_preprocess
ends_with_the_last_frame = (_, _, refl, refl)

-- All goes well.
abbrev no_failure : Startup
no_failure = record {
  rtp_up = true;
  device_ret = 0;
  set_buffer_ret = 0;
  channel_ret = 0;
  decoder_ok = λ _. true;
  demux_fd = 4;
  output_open = true;
  socket_ok = true;
  bind_ok = true;
  listen_ok = true;
  accept_ok = true;
  create_ret = λ _. 0;
}

-- The decoder's context cannot be made.
abbrev no_decoder : Startup
no_decoder = record no_failure { decoder_ok = λ _. false }

starts_and_does_not :
    (main no_failure
      ≡ waits_for_key (record initial_decoder { has_input = true; has_output = true }) all_threads)
    × (main no_decoder ≡ null_decoder)
    × (simple_main (λ _. false) 1 true (λ _. 0) ≡ null_decoder)
unfolding main simple_main decoder_data_init create_threads listen_and_create decoder_set_input
    decoder_set_output fresh
starts_and_does_not = (refl, refl, refl)
