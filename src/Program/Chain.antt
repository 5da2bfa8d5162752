-- ===== src/Program/Chain.antt =====
-- From the frames that wait to the packets in the queue.

use dvb_stream_v.Base.{
  ℕ, suc, ◌+◌, ◌/◌, ◌%◌, ◌^◌, ◌≤◌, ◌<◌, ◌≡◌, refl, sym, ap, ◌∙◌, false, some, List, [], ◌∷◌, ◌++◌,
  map, append-nil, append_assoc, arith, length, All, length-append, u32,
}
use dvb_stream_v.Ring.{is_empty, pop, Ring}
use dvb_stream_v.Ring.Contents.{
  size, contents, length-contents, pop-IsValid, contents-pop, is_empty_lem, IsValid,
}
use dvb_stream_v.Frames.{buffer_size}
use dvb_stream_v.FrameInit.{frame_copy, MppFrame}
use dvb_stream_v.Encoder.{get_packet}
use dvb_stream_v.Mux.Payload.{payloads}
use dvb_stream_v.Mux.Train.{Train}
use dvb_stream_v.Mux.Stream.{access_unit}
use dvb_stream_v.Pts.{advance, video_offset}
use dvb_stream_v.Tcp.{tcp_buffer_nums}
use dvb_stream_v.Output.Units.{with_video, unit_of, frame_packet-Packed, Packed}
use dvb_stream_v.Program.{encode_one, encode_rounds, Coding, Round, goes_on}

-- Rounds in which the encoder makes a packet of each frame, none of them the last of the stream, and
-- `mpp_frame_init` succeeds.
abbrev pub Encodes : List Round → List (List ℕ) → Type 0
Encodes [] [] = Unit
Encodes [] (u ∷ us) = ⊥
Encodes (r ∷ rs) [] = ⊥
Encodes (r ∷ rs) (u ∷ us) =
    (r.init_ret ≡ 0) × (get_packet r.gets ≡ some (record { bytes = u; eos = 0 })) × Encodes rs us

-- Access units that `h264_to_ts` takes.
abbrev pub AreUnits : List ℕ → List (List ℕ) → Type 0
AreUnits header us = All (λ u. (5 ≤ length u) × (length header + length u < 2 ^ 30)) us

-- The packets of 188 bytes that the units take.
abbrev pub packets_needed : ℕ → List ℕ → List (List ℕ) → ℕ
packets_needed pts header [] = 0
packets_needed pts header (u ∷ us) =
    (length (access_unit (advance video_offset pts) u header) + 183) / 184
    + packets_needed (advance video_offset pts) header us

-- Packets that carry the units: a train for each of them, whose counters go on from the train before,
-- and whose payloads are the unit's PES packet with the next time stamp.
abbrev pub Carries : ℕ → List ℕ → ℕ → ℕ → List (List ℕ) → List (List ℕ) → Type 0
Carries pid header count pts [] ps = ps ≡ []
Carries pid header count pts (u ∷ us) ps =
    (first : List (List ℕ)) × (rest : List (List ℕ)) × (ps ≡ first ++ rest)
    × Train pid 1 count first
    × (payloads first ≡ access_unit (advance video_offset pts) u header)
    × Carries pid header ((count + length first) % 16) (advance video_offset pts) us rest

-- What the thread works on is in order.
pub record IsRunning (c : Coding) : Type 0 where
  pub ring_valid : IsValid buffer_size c.ring
  pub queue_valid : IsValid tcp_buffer_nums c.output.tcp.video
  pub counter : c.statics.count < 16

-- What rounds for the units have done: the oldest frames have left the ring, one for each unit, and have
-- been given to the encoder in order; behind what was in the queue and in the file are the packets that
-- carry the units.
pub record Delivered (pid : ℕ) (header : List ℕ) (us : List (List ℕ)) (c c' : Coding) : Type 0 where
  pub running : IsRunning c'
  pub frames : List MppFrame
  pub packets : List (List ℕ)
  pub frames_left : contents buffer_size c.ring ≡ frames ++ contents buffer_size c'.ring
  pub one_each : length frames ≡ length us
  pub frames_given : c'.given ≡ c.given ++ map some frames
  pub queue_grown :
      contents tcp_buffer_nums c'.output.tcp.video
      ≡ contents tcp_buffer_nums c.output.tcp.video ++ packets
  pub file_grown : c'.output.file ≡ c.output.file ++ packets
  pub only_queue : c'.output.tcp ≡ with_video c.output.tcp c'.output.tcp.video
  pub units_carried : Carries pid header c.statics.count c.statics.pts us packets

module _ (stray pid : ℕ) (header : List ℕ) (fits : pid < 2 ^ 13) where
  -- A round.
  record Coded (u : List ℕ) (frame : MppFrame) (ps : List (List ℕ)) (c c' : Coding) : Type 0 where
    runs : IsRunning c'
    taken : contents buffer_size c.ring ≡ frame ∷ contents buffer_size c'.ring
    gave : c'.given ≡ c.given ++ some frame ∷ []
    counted : c'.encoder.frame_count ≡ u32 (c.encoder.frame_count + 1)
    more_to_come : c'.encoder.pkt_eos ≡ 0
    packed : Packed pid u header c.statics c'.statics c.output c'.output ps

  encode_one-Coded :
      (r : Round) (u : List ℕ) (c : Coding)
      → r.init_ret ≡ 0
      → get_packet r.gets ≡ some (record { bytes = u; eos = 0 })
      → 5 ≤ length u
      → length header + length u < 2 ^ 30
      → IsRunning c
      → 0 < size buffer_size c.ring
      → length (contents tcp_buffer_nums c.output.tcp.video)
          + (length (unit_of c.statics u header) + 183) / 184
        ≤ 9999
      → (c' : Coding) × (ps : List (List ℕ)) × (encode_one stray pid header r c ≡ some c')
        × Coded u (c.ring.slots c.ring.head) ps c c'
  unfolding encode_one frame_copy
  encode_one-Coded r u c begun got whole small v some_wait few =
      let (s', o', ps, e, p) =
        frame_packet-Packed stray pid u header c.statics c.output fits whole small v.queue_valid
          few in
      let frame = c.ring.slots c.ring.head in
      (
        record {
          ring = pop buffer_size c.ring;
          encoder = record c.encoder { frame_count = u32 (c.encoder.frame_count + 1); pkt_eos = 0 };
          statics = s';
          output = o';
          given = c.given ++ some frame ∷ [];
        },
        ps,
        rw (got, encode_one) (rw (e, encode_one) (rw begun refl)),
        record {
          runs = record {
            ring_valid = pop-IsValid buffer_size c.ring v.ring_valid;
            queue_valid = p.still_valid;
            counter = omega (arith, p.count_on v.counter);
          };
          taken = contents-pop buffer_size c.ring v.ring_valid some_wait;
          gave = refl;
          counted = refl;
          more_to_come = refl;
          packed = p;
        },
      )

  -- A round in front of rounds.
  Delivered-next :
      (u : List ℕ) (us : List (List ℕ)) (frame : MppFrame) (ps : List (List ℕ)) (c c1 c2 : Coding)
      → c.statics.count < 16
      → Coded u frame ps c c1
      → Delivered pid header us c1 c2
      → Delivered pid header (u ∷ us) c c2
  Delivered-next u us frame ps c c1 c2 small one more =
      let p = one.packed in
      record {
        running = more.running;
        frames = frame ∷ more.frames;
        packets = ps ++ more.packets;
        frames_left = one.taken ∙ ap (◌∷◌ frame) more.frames_left;
        one_each = ap suc more.one_each;
        frames_given =
            more.frames_given
            ∙ ap (λ xs. xs ++ map some more.frames) one.gave
            ∙ append_assoc c.given (some frame ∷ []) (map some more.frames);
        queue_grown =
            more.queue_grown
            ∙ ap (λ xs. xs ++ more.packets) p.put_in_queue
            ∙ append_assoc (contents tcp_buffer_nums c.output.tcp.video) ps more.packets;
        file_grown =
            more.file_grown
            ∙ ap (λ xs. xs ++ more.packets) p.put_in_file
            ∙ append_assoc c.output.file ps more.packets;
        only_queue = more.only_queue ∙ ap (λ t. with_video t c2.output.tcp.video) p.only_video;
        units_carried = (
          ps,
          more.packets,
          refl,
          p.train,
          p.unit_carried,
          rw (← p.count_on small, ← p.pts_on) more.units_carried,
        );
      }

  not_empty :
      (ring : Ring MppFrame)
      → IsValid buffer_size ring
      → 0 < size buffer_size ring
      → is_empty ring ≡ false
  not_empty ring v more = ground (arith, is_empty_lem buffer_size ring v)

  -- For a PID of 13 bits: the encoder's thread, with the other threads at rest, goes through as many rounds
  -- as there are units, if as many frames wait in the ring, the encoder makes a unit of each frame, and the
  -- queue has room for the units' packets. The frames are given to the encoder in the order in which they
  -- were stored, the others stay in the ring, and behind what was in the queue and the file are, in order,
  -- the packets that carry the units.
  pub encode_rounds-Delivered :
      (rs : List Round) (us : List (List ℕ)) (c : Coding)
      → Encodes rs us
      → AreUnits header us
      → IsRunning c
      → length us ≤ length (contents buffer_size c.ring)
      → length (contents tcp_buffer_nums c.output.tcp.video)
          + packets_needed c.statics.pts header us
        ≤ 9999
      → (c' : Coding) × (encode_rounds stray pid header rs c ≡ goes_on c')
        × Delivered pid header us c c'
  unfolding encode_rounds
  encode_rounds-Delivered [] [] c made units v enough few = (
    c,
    refl,
    record {
      running = v;
      frames = [];
      packets = [];
      frames_left = refl;
      one_each = refl;
      frames_given = sym (append-nil _);
      queue_grown = sym (append-nil _);
      file_grown = sym (append-nil _);
      only_queue = refl;
      units_carried = refl;
    },
  )
  encode_rounds-Delivered [] (u ∷ us) c made units v enough few = absurd made
  encode_rounds-Delivered (r ∷ rs) [] c made units v enough few = absurd made
  encode_rounds-Delivered (r ∷ rs) (u ∷ us) c made units v enough few =
      let l = length-contents buffer_size c.ring in
      let (c1, ps, e, one) =
        encode_one-Coded r u c made.0 made.1 units.0.0 units.0.1 v (omega (arith, l))
          (omega arith) in
      let some_wait = not_empty c.ring v.ring_valid (omega (arith, l)) in
      let p = one.packed in
      let grown =
        ap length p.put_in_queue ∙ length-append (contents tcp_buffer_nums c.output.tcp.video) ps in
      let rest : length (contents tcp_buffer_nums c1.output.tcp.video)
            + packets_needed c1.statics.pts header us
          ≤ 9999 =
        rw p.pts_on (omega (arith, grown, p.many)) in
      let (c2, run, more) =
        encode_rounds-Delivered rs us c1 made.2 units.1 one.runs
          (omega (arith, ap length one.taken)) rest in
      (
        c2,
        rw some_wait (rw (e, encode_rounds) (rw one.more_to_come run)),
        Delivered-next u us (c.ring.slots c.ring.head) ps c c1 c2 v.counter one more,
      )
