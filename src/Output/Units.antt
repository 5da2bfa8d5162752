-- ===== src/Output/Units.antt =====
-- An access unit, from `frame_packet` into the video queue.

use dvb_stream_v.Base.{
  ℕ, ◌+◌, ◌/◌, ◌%◌, ◌^◌, ◌≤◌, ◌<◌, ◌≡◌, refl, sym, ap, ◌∙◌, false, some, List, [], ◌∷◌, ◌++◌,
  append-nil, append_assoc, arith, length, take, All, length-append, take_all,
}
use dvb_stream_v.Ring.{is_full, push, Ring}
use dvb_stream_v.Ring.Contents.{
  contents, length-contents, is_full_lem, push-IsValid, contents-push, IsValid,
}
use dvb_stream_v.Mux.{Statics, Emitted}
use dvb_stream_v.Mux.Loop.{packets_in}
use dvb_stream_v.Mux.Payload.{payloads}
use dvb_stream_v.Mux.Train.{Train}
use dvb_stream_v.Mux.Stream.{
  access_unit, h264_to_ts_returns, payloads-h264_to_ts, Train-h264_to_ts, length-h264_to_ts,
  count-h264_to_ts,
}
use dvb_stream_v.Pts.{advance, video_offset}
use dvb_stream_v.Tcp.{tcp_buffer_nums, gn_tcp_put, Tcp}
use dvb_stream_v.Output.{ts, ts_each, frame_packet, Output}

abbrev IsWholePacket : List ℕ → Type 0
IsWholePacket p = length p ≡ 188

Train-whole :
    (pid start count : ℕ) (ps : List (List ℕ)) → Train pid start count ps → All IsWholePacket ps
Train-whole pid start count [] t = tt
Train-whole pid start count (p ∷ ps) t = (t.0, Train-whole pid 0 ((count + 1) % 16) ps t.6)

-- The rest of the state, behind a change of the video queue.
abbrev pub with_video : Tcp → Ring (List ℕ) → Tcp
with_video t r = record t { video = r }

-- What putting packets into the queue has done.
record Put (ps : List (List ℕ)) (o o' : Output) : Type 0 where
  valid : IsValid tcp_buffer_nums o'.tcp.video
  queued : contents tcp_buffer_nums o'.tcp.video ≡ contents tcp_buffer_nums o.tcp.video ++ ps
  filed : o'.file ≡ o.file ++ ps
  kept : o'.tcp ≡ with_video o.tcp o'.tcp.video

ts_lem :
    (p : List ℕ) (o : Output)
    → IsValid tcp_buffer_nums o.tcp.video
    → length p ≡ 188
    → length (contents tcp_buffer_nums o.tcp.video) < 9999
    → (o' : Output) × (ts p o ≡ some o') × Put (p ∷ []) o o'
unfolding ts gn_tcp_put
ts_lem p o v whole few =
    let l = length-contents tcp_buffer_nums o.tcp.video in
    let full = is_full_lem tcp_buffer_nums o.tcp.video v in
    let room : is_full tcp_buffer_nums o.tcp.video ≡ false = ground (arith, l) in
    let same : take 188 p ≡ p = take_all 188 p (omega arith) in
    let pushed = push tcp_buffer_nums o.tcp.video (take 188 p) in
    (
      record { file = o.file ++ take 188 p ∷ []; tcp = record o.tcp { video = pushed } },
      rw (room, ts) refl,
      record {
        valid = push-IsValid tcp_buffer_nums o.tcp.video v (take 188 p);
        queued =
            contents-push tcp_buffer_nums o.tcp.video v (take 188 p) (omega (arith, l))
            ∙ ap (λ (q : List ℕ). contents tcp_buffer_nums o.tcp.video ++ q ∷ []) same;
        filed = ap (λ (q : List ℕ). o.file ++ q ∷ []) same;
        kept = refl;
      },
    )

ts_each_lem :
    (es : List Emitted) (o : Output)
    → IsValid tcp_buffer_nums o.tcp.video
    → All IsWholePacket (packets_in es)
    → length (contents tcp_buffer_nums o.tcp.video) + length (packets_in es) ≤ 9999
    → (o' : Output) × (ts_each es o ≡ some o') × Put (packets_in es) o o'
unfolding ts_each
ts_each_lem [] o v whole few = (
  o,
  refl,
  record { valid = v; queued = sym (append-nil _); filed = sym (append-nil _); kept = refl },
)
ts_each_lem (e ∷ es) o v whole few =
    let (o1, run, first) = ts_lem e.packet o v whole.0 (omega arith) in
    let longer : length (contents tcp_buffer_nums o1.tcp.video)
        ≡ length (contents tcp_buffer_nums o.tcp.video) + 1 =
      ap length first.queued
      ∙ length-append (contents tcp_buffer_nums o.tcp.video) (e.packet ∷ []) in
    let (o2, rest, later) = ts_each_lem es o1 first.valid whole.1 (omega (arith, longer)) in
    (
      o2,
      rw (run, ts_each) rest,
      record {
        valid = later.valid;
        queued =
            later.queued
            ∙ ap (λ (q : List (List ℕ)). q ++ packets_in es) first.queued
            ∙ append_assoc (contents tcp_buffer_nums o.tcp.video) (e.packet ∷ []) (packets_in es);
        filed =
            later.filed
            ∙ ap (λ (q : List (List ℕ)). q ++ packets_in es) first.filed
            ∙ append_assoc o.file (e.packet ∷ []) (packets_in es);
        kept = later.kept ∙ ap (λ t. with_video t o2.tcp.video) first.kept;
      },
    )

-- The PES packet of the next access unit.
abbrev pub unit_of : Statics → List ℕ → List ℕ → List ℕ
unit_of s packet header = access_unit (advance video_offset s.pts) packet header

-- What a call of `frame_packet` has sent, and the static variables behind it.
pub record Packed (pid : ℕ) (packet header : List ℕ) (s s' : Statics) (o o' : Output)
    (ps : List (List ℕ)) : Type 0 where
  pub still_valid : IsValid tcp_buffer_nums o'.tcp.video
  pub put_in_queue :
      contents tcp_buffer_nums o'.tcp.video ≡ contents tcp_buffer_nums o.tcp.video ++ ps
  pub put_in_file : o'.file ≡ o.file ++ ps
  pub only_video : o'.tcp ≡ with_video o.tcp o'.tcp.video
  pub train : Train pid 1 s.count ps
  pub unit_carried : payloads ps ≡ unit_of s packet header
  pub many : length ps ≡ (length (unit_of s packet header) + 183) / 184
  pub pts_on : s'.pts ≡ advance video_offset s.pts
  pub count_on : s.count < 16 → s'.count ≡ (s.count + length ps) % 16

pub frame_packet-Packed :
    (stray pid : ℕ) (packet header : List ℕ) (s : Statics) (o : Output)
    → pid < 2 ^ 13
    → 5 ≤ length packet
    → length header + length packet < 2 ^ 30
    → IsValid tcp_buffer_nums o.tcp.video
    → length (contents tcp_buffer_nums o.tcp.video) + (length (unit_of s packet header) + 183) / 184
      ≤ 9999
    → (s' : Statics) × (o' : Output) × (ps : List (List ℕ)) × (frame_packet stray pid packet header
          s o
        ≡ some (s', o'))
      × Packed pid packet header s s' o o' ps
unfolding frame_packet
frame_packet-Packed stray pid packet header s o fits whole small v few =
    let (es, s', returns) = h264_to_ts_returns stray pid s packet header fits whole small in
    let sent_train = Train-h264_to_ts stray pid s packet header fits whole small es s' returns in
    let (length_lem, pts_lem) =
      length-h264_to_ts stray pid s packet header fits whole small es s' returns in
    let (o', put, done) =
      ts_each_lem es o v (Train-whole pid 1 s.count (packets_in es) sent_train)
        (omega (arith, length_lem)) in
    (
      s',
      o',
      packets_in es,
      rw (returns, frame_packet) (rw (put, frame_packet) refl),
      record {
        still_valid = done.valid;
        put_in_queue = done.queued;
        put_in_file = done.filed;
        only_video = done.kept;
        train = sent_train;
        unit_carried = payloads-h264_to_ts stray pid s packet header fits whole small es s' returns;
        many = length_lem;
        pts_on = pts_lem;
        count_on = count-h264_to_ts stray pid s packet header fits whole small es s' returns;
      },
    )

-- For a PID of 13 bits and an access unit of at least five bytes that with the stream header has
-- fewer than 2^30: if the video queue has room for its packets, `frame_packet` returns, and behind
-- what waits in the queue and in the file come packets of 188 bytes on the PID, with the next
-- counters, whose payloads make up the PES packet of the unit.
pub frame_packet_lem :
    (stray pid : ℕ) (packet header : List ℕ) (s : Statics) (o : Output)
    → pid < 2 ^ 13
    → 5 ≤ length packet
    → length header + length packet < 2 ^ 30
    → IsValid tcp_buffer_nums o.tcp.video
    → length (contents tcp_buffer_nums o.tcp.video) + (length (unit_of s packet header) + 183) / 184
      ≤ 9999
    → (s' : Statics) × (o' : Output) × (ps : List (List ℕ)) × (frame_packet stray pid packet header
          s o
        ≡ some (s', o'))
      × (contents tcp_buffer_nums o'.tcp.video ≡ contents tcp_buffer_nums o.tcp.video ++ ps)
      × (o'.file ≡ o.file ++ ps)
      × Train pid 1 s.count ps
      × (payloads ps ≡ unit_of s packet header)
frame_packet_lem stray pid packet header s o fits whole small v few =
    let (s', o', ps, e, p) =
      frame_packet-Packed stray pid packet header s o fits whole small v few in
    (s', o', ps, e, p.put_in_queue, p.put_in_file, p.train, p.unit_carried)
