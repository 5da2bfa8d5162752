-- ===== src/Program.antt =====
-- mycode/main.c: the encoder's thread as a whole, from the ring of frames over the encoder and the
-- multiplexer to the queue of gn_tcp.c.
pub mod Chain
pub mod Input
pub mod Reads
pub mod Video
pub mod Decoding
pub mod Main
pub mod Start
pub mod Pipeline
mod Tests
use dvb_stream_v.Base.{ℕ, Option, none, some, List, [], ◌∷◌, ◌++◌, ◌==◌, if◌then◌else◌}
use dvb_stream_v.Ring.{is_empty, pop, Ring}
use dvb_stream_v.Frames.{buffer_size}
use dvb_stream_v.FrameInit.{MppFrame}
use dvb_stream_v.Encoder.Config.{EncoderData}
use dvb_stream_v.Encoder.{encoder_run, Encoded}
use dvb_stream_v.Mux.{Statics}
use dvb_stream_v.Output.{frame_packet, Output}

-- What the thread works on: the ring, `encoder`, the static variables of h264_to_ts.c, and the file and the
-- queues. `given` are the frames that the encoder has been given, in order.
pub record Coding : Type 0 where
  pub ring : Ring MppFrame
  pub encoder : EncoderData
  pub statics : Statics
  pub output : Output
  pub given : List (Option MppFrame)

-- What the library does in a round: the result of `mpp_frame_init`, and what the calls of
-- `encode_get_packet` store.
pub record Round : Type 0 where
  pub init_ret : ℕ
  pub gets : List (Option Encoded)

-- What the thread comes to: it has ended behind its loop, it would go on, it waits for a frame, or a loop
-- of a callback does not end.
pub data Ends : Type 0 where
  finishes : Coding → Ends
  goes_on : Coding → Ends
  waits : Coding → Ends
  hangs : Ends

module _ (stray video_pid : ℕ) (header : List ℕ) where
  -- The callback of `encoder_run`.
  pub callback : List ℕ → Statics × Output → Option (Statics × Output)
  unfolding frame_packet
  callback packet (s, o) = frame_packet stray video_pid packet header s o

  -- The body of the loop: `encoder_run(encoder,buffer[head],*frame_packet)`, then the step of `head`.
  pub encode_one : Round → Coding → Option Coding
  unfolding encoder_run callback pop
  encode_one r c =
      elim (encoder_run callback r.init_ret r.gets (c.ring.slots c.ring.head) c.encoder
        (c.statics, c.output)) [
          | none ↦ none
          | some (frame, p, (s, o)) ↦ some (record {
            ring = pop buffer_size c.ring;
            encoder = p;
            statics = s;
            output = o;
            given = c.given ++ frame ∷ [];
          })
        ]

  -- `do { ... } while(!encoder->pkt_eos)` of `thread_encoder`, with the other threads at rest: a round is
  -- preceded by the wait for a frame.
  unfoldable pub encode_rounds : List Round → Coding → Ends
  unfolding encode_one is_empty
  encode_rounds [] c = goes_on c
  encode_rounds (r ∷ rs) c = if is_empty c.ring then waits c else elim (encode_one r c) [
    | none ↦ hangs
    | some c' ↦ if c'.encoder.pkt_eos == 0 then encode_rounds rs c' else finishes c'
  ]
