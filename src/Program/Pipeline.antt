-- ===== src/Program/Pipeline.antt =====
-- From the decoder to the client: what `thread_output` stores, `thread_encoder` encodes and puts into the
-- queue, and `rtp_sender` sends.

use dvb_stream_v.Ring.{Ring}
use dvb_stream_v.Ring.Contents.{contents, length-contents, size-lt, IsValid}
use dvb_stream_v.FrameInit.{MppFrame}
use dvb_stream_v.Frames.{buffer_size}
use dvb_stream_v.Decoder.{DecoderData}
use dvb_stream_v.Tcp.{tcp_buffer_nums, Tcp, video_channel}
use dvb_stream_v.Program.Chain.{
  Encodes, AreUnits, packets_needed, Carries, encode_rounds-Delivered, IsRunning, Delivered,
}
use dvb_stream_v.Base.{
  ℕ, ◌+◌, ◌%◌, ◌^◌, ◌≤◌, ◌<◌, ◌≡◌, refl, sym, ap, ◌∙◌, Bool, true, false, some, List, [], ◌∷◌, ◌++◌,
  map, arith, ◌==◌, if◌then◌else◌, length, take, All, take-append, All-append,
}
use dvb_stream_v.Mux.Train.{Train}
use dvb_stream_v.Pts.{advance, video_offset}
use dvb_stream_v.Output.{rtp_sender}
use dvb_stream_v.Output.Sender.{rtp_sender-delivers}
use dvb_stream_v.Tcp.Queues.{taken_of, IsShort}
use dvb_stream_v.Program.Decoding.{
  thread_output, frames_until_end, KeepsSize, thread_output-Stored, OutputRound, OutputEnds,
  finishes, goes_on, waits,
}
use dvb_stream_v.Program.{encode_rounds, Coding, Round, finishes, goes_on, waits}

-- The ring behind the rounds of `thread_output`, if they end by themselves.
abbrev pub ring_of : OutputEnds → Ring MppFrame
ring_of (finishes d r) = r
ring_of (goes_on d r) = r
ring_of (waits r) = r

ring_of-if :
    (b : Bool) (d : DecoderData) (r : Ring MppFrame)
    → ring_of (if b then goes_on d r else finishes d r) ≡ r
ring_of-if true d r = refl
ring_of-if false d r = refl

take_first : (xs ys zs : List MppFrame) → zs ≡ xs ++ ys → xs ≡ take (length xs) zs
take_first xs ys zs e = sym (ap (take (length xs)) e ∙ take-append (length xs) xs ys refl)

at_most_9999 :
    (r : Ring (List ℕ)) → IsValid tcp_buffer_nums r → length (contents tcp_buffer_nums r) ≤ 9999
at_most_9999 r v = omega (arith, length-contents tcp_buffer_nums r, size-lt tcp_buffer_nums r v)

-- What a train is made of fits into a slot of the queue.
Train-IsShort :
    (pid start count : ℕ) (ps : List (List ℕ)) → Train pid start count ps → All IsShort ps
Train-IsShort pid start count [] t = tt
Train-IsShort pid start count (p ∷ ps) t =
    (omega (arith, t.0), Train-IsShort pid 0 ((count + 1) % 16) ps t.6)

Carries-IsShort :
    (pid : ℕ) (header : List ℕ) (count pts : ℕ) (us ps : List (List ℕ))
    → Carries pid header count pts us ps
    → All IsShort ps
Carries-IsShort pid header count pts [] ps none_sent = rw none_sent tt
Carries-IsShort pid header count pts (u ∷ us) ps (first, rest, all, train, bytes, more) = rw all (
    All-append IsShort first rest (Train-IsShort pid 1 count first train) (
      Carries-IsShort pid header ((count + length first) % 16) (advance video_offset pts) us rest
        more))

module _ (stray pid : ℕ) (header : List ℕ) (fits : pid < 2 ^ 13) (us : List (List ℕ))
    (units : AreUnits header us) where
  -- What has become of the frames behind both threads, and of the units that the encoder has made.
  record Encoded (frames : List MppFrame) (rs : List Round) (c : Coding) : Type 0 where
    c' : Coding
    run : encode_rounds stray pid header rs c ≡ goes_on c'
    delivered : Delivered pid header us c c'
    given_first : c'.given ≡ c.given ++ map some (take (length us) frames)

  decoded-Encoded :
      (cs : List OutputRound) (d : DecoderData) (empty : Ring MppFrame) (rs : List Round)
      (c : Coding)
      → All KeepsSize cs
      → d.frm_eos ≡ 0
      → d.frame_count < 2 ^ 64
      → IsValid buffer_size empty
      → contents buffer_size empty ≡ []
      → length cs ≤ 299
      → c.ring ≡ ring_of (thread_output cs d empty)
      → Encodes rs us
      → IsValid tcp_buffer_nums c.output.tcp.video
      → c.statics.count < 16
      → length us ≤ length (frames_until_end cs)
      → length (contents tcp_buffer_nums c.output.tcp.video)
          + packets_needed c.statics.pts header us
        ≤ 9999
      → Encoded (frames_until_end cs) rs c
  decoded-Encoded cs d empty rs c keep on small v nothing few same made q counter enough room =
      let s = thread_output-Stored cs d empty keep on small v (omega (arith, ap length nothing)) in
      let ring : c.ring ≡ s.r' =
        same ∙ ap ring_of s.ended ∙ ring_of-if (s.d'.frm_eos == 0) s.d' s.r' in
      let inside : contents buffer_size c.ring ≡ frames_until_end cs =
        ap (contents buffer_size) ring
        ∙ s.in_order
        ∙ ap (λ xs. xs ++ frames_until_end cs) nothing in
      let running : IsRunning c = record {
        ring_valid = rw ring s.valid;
        queue_valid = q;
        counter = counter;
      } in
      let (c', run, del) =
        encode_rounds-Delivered stray pid header fits rs us c made units running
          (omega (arith, enough, ap length inside)) room in
      let first = take_first del.frames _ _ (sym inside ∙ del.frames_left) in
      record {
        c' = c';
        run = run;
        delivered = del;
        given_first =
            del.frames_given
            ∙ ap (λ xs. c.given ++ map some xs)
                (first ∙ ap (λ n. take n (frames_until_end cs)) del.one_each);
      }

  -- For a PID of 13 bits, units of at least five bytes that with the stream header have fewer than 2^30, a
  -- continuity counter below 16, a decoder in the middle of its stream, an empty ring, queues whose packets
  -- have at most 188 bytes, and all indices in range: let at most 299 rounds of `thread_output` go by, in
  -- which the picture keeps its size, then rounds of `thread_encoder` in which the encoder makes the units
  -- of as many frames, not more than the decoder has stored, with room for the units' packets in the video
  -- queue, and then 9999 rounds of `rtp_sender` in which `send` takes whole packets. Then all of these
  -- rounds come to an end; the encoder has been given the first of the decoded frames, one for each unit, in
  -- order; and the client has been given, behind all it had and all that waited in the video queue, the
  -- packets that carry the units, in order. The same packets are behind what was in the file, and both
  -- queues are empty.
  pub decoded-Received :
      (cs : List OutputRound) (d : DecoderData) (empty : Ring MppFrame) (rs : List Round)
      (c : Coding)
      → All KeepsSize cs
      → d.frm_eos ≡ 0
      → d.frame_count < 2 ^ 64
      → IsValid buffer_size empty
      → contents buffer_size empty ≡ []
      → length cs ≤ 299
      → c.ring ≡ ring_of (thread_output cs d empty)
      → Encodes rs us
      → IsValid tcp_buffer_nums c.output.tcp.video
      → IsValid tcp_buffer_nums c.output.tcp.audio
      → All IsShort (contents tcp_buffer_nums c.output.tcp.video)
      → All IsShort (contents tcp_buffer_nums c.output.tcp.audio)
      → c.statics.count < 16
      → length us ≤ length (frames_until_end cs)
      → length (contents tcp_buffer_nums c.output.tcp.video)
          + packets_needed c.statics.pts header us
        ≤ 9999
      → (c' : Coding) × (t : Tcp) × (packets : List (List ℕ)) × (encode_rounds stray pid header rs c
          ≡ goes_on c')
        × (c'.given ≡ c.given ++ map some (take (length us) (frames_until_end cs)))
        × (c'.output.file ≡ c.output.file ++ packets)
        × (rtp_sender 9999 c'.output.tcp ≡ some t)
        × (taken_of video_channel t.taken
            ≡ taken_of video_channel c.output.tcp.taken
              ++ (contents tcp_buffer_nums c.output.tcp.video ++ packets))
        × (contents tcp_buffer_nums t.video ≡ [])
        × (contents tcp_buffer_nums t.audio ≡ [])
        × Carries pid header c.statics.count c.statics.pts us packets
  decoded-Received cs d empty rs c keep on small v nothing few same made q audio short_v short_a
        counter enough room =
      let e =
        decoded-Encoded cs d empty rs c keep on small v nothing few same made q counter enough
          room in
      let del = e.delivered in
      let other : e.c'.output.tcp.audio ≡ c.output.tcp.audio = ap (λ t. t.audio) del.only_queue in
      let before : e.c'.output.tcp.taken ≡ c.output.tcp.taken = ap (λ t. t.taken) del.only_queue in
      let shorts : All IsShort (contents tcp_buffer_nums e.c'.output.tcp.video) =
        rw del.queue_grown (
          All-append IsShort _ del.packets short_v (
            Carries-IsShort pid header c.statics.count c.statics.pts us del.packets
              del.units_carried)) in
      let (t, sends, no_video, no_audio, video, rest) =
        rtp_sender-delivers 9999 e.c'.output.tcp del.running.queue_valid (rw other audio) shorts
          (rw other short_a) (at_most_9999 _ del.running.queue_valid)
          (at_most_9999 e.c'.output.tcp.audio (rw other audio)) in
      (
        e.c',
        t,
        del.packets,
        e.run,
        e.given_first,
        del.file_grown,
        sends,
        video
            ∙ ap (λ ps. taken_of video_channel ps ++ contents tcp_buffer_nums e.c'.output.tcp.video)
                before
            ∙ ap (λ ps. taken_of video_channel c.output.tcp.taken ++ ps) del.queue_grown,
        no_video,
        no_audio,
        del.units_carried,
      )
