-- ===== src/Mux/Stream.antt =====
-- What a call of `h264_to_ts` sends, and what it does to memory.

use mathlib.Core.Option.{some-injective}
use mathlib.Core.Path.{subst}
use dvb_stream_v.Mux.Payload.{payloads, payloads_lem}
use dvb_stream_v.Mux.Train.{Train, Train_lem, length-packets_of}
use dvb_stream_v.Base.{
  ℕ, zero, suc, ◌+◌, ◌/◌, ◌%◌, ◌^◌, ◌≤◌, ◌<◌, ◌≡◌, refl, sym, ap, ◌∙◌, inl, inr, Option, none, some,
  List, [], ◌∷◌, ◌++◌, arith, ◌==◌, if◌then◌else◌, Bool-cases, length, get_or, replicate, All,
  length-append,
}
use dvb_stream_v.Ts.{ts_packet_size, byte_at}
use dvb_stream_v.Pts.{advance, video_offset, pts_bytes, get_pts}
use dvb_stream_v.Pts.Codec.{stamp_layout, pts_bytes_layout}
use dvb_stream_v.Mux.{
  put_pes_header, initial_pes, packets, assemble, send_pes, h264_to_ts, Statics, Emitted, Rounds,
}
use dvb_stream_v.Mux.Loop.{chunks, packets_of, count_after, SpillsOne, packets_in, packets_lem}

-- The access unit as a PES packet: start code, stream 0xe0, length 0, a time stamp alone, an access
-- unit delimiter, the stream header before an IDR slice, the data.
abbrev pub access_unit : ℕ → List ℕ → List ℕ → List ℕ
access_unit pts packet header =
    (0 ∷ 0 ∷ 1 ∷ 0xe0 ∷ 0 ∷ 0 ∷ 0x80 ∷ 0x80 ∷ 5 ∷ [])
    ++ (stamp_layout pts
        ++ ((0 ∷ 0 ∷ 0 ∷ 1 ∷ 9 ∷ 0xf0 ∷ [])
            ++ ((if byte_at packet 4 == 0x25 then header else []) ++ packet)))

get_or_default : (xs : List ℕ) (i d d' : ℕ) → i < length xs → get_or xs i d ≡ get_or xs i d'
get_or_default [] i d d' h = absurd (omega arith)
get_or_default (x ∷ xs) zero d d' h = refl
get_or_default (x ∷ xs) (suc i) d d' h = get_or_default xs i d d' (omega arith)

put_pes_header_lem :
    (pts : ℕ)
    → put_pes_header (initial_pes (pts_bytes pts))
      ≡ (0 ∷ 0 ∷ 1 ∷ 0xe0 ∷ 0 ∷ 0 ∷ 0x80 ∷ 0x80 ∷ 5 ∷ [])
        ++ (stamp_layout pts ++ (0 ∷ 0 ∷ 0 ∷ 1 ∷ 9 ∷ 0xf0 ∷ []))
unfolding put_pes_header
put_pes_header_lem pts = rw (pts_bytes_layout pts) refl

pub assemble_lem :
    (stray pts : ℕ) (packet header : List ℕ)
    → 5 ≤ length packet
    → assemble stray (put_pes_header (initial_pes (pts_bytes pts))) header packet
      ≡ access_unit pts packet header
unfolding assemble
assemble_lem stray pts packet header h =
    rw (put_pes_header_lem pts, get_or_default packet 4 stray 0 h)
      (elim (Bool-cases (byte_at packet 4 == 0x25)) [ inl e ↦ rw e refl | inr e ↦ rw e refl ])

pub length-access_unit :
    (pts : ℕ) (packet header : List ℕ)
    → length (access_unit pts packet header)
      ≡ 20 + (if byte_at packet 4 == 0x25 then length header else 0) + length packet
length-access_unit pts packet header = elim (Bool-cases (byte_at packet 4 == 0x25)) [
  | inl e ↦ rw e (omega (arith, length-append header packet))
  | inr e ↦ rw e (omega arith)
]

pub count_after_lem :
    (pid start count : ℕ) (cs : List (List ℕ))
    → count < 16
    → (count_after count cs ≡ (count + length (packets_of pid start count cs)) % 16)
unfolding count_after packets_of
count_after_lem pid start count [] small = omega arith
count_after_lem pid start count (c ∷ cs) small =
    omega (arith, count_after_lem pid 0 ((count + 1) % 16) cs (omega arith))

module _ (stray : ℕ) (pid : ℕ) (s : Statics) (packet header : List ℕ) where
  -- The counter of the time stamps after the call, and the bytes that the call sends.
  abbrev pub stamp : ℕ
  stamp = advance video_offset s.pts

  abbrev pub unit_bytes : List ℕ
  unit_bytes = access_unit stamp packet header

  -- What a call that returns has done.
  pub record Sent (es : List Emitted) (s' : Statics) : Type 0 where
    pub train : packets_in es ≡ packets_of pid 1 s.count (chunks (length unit_bytes + 1) unit_bytes)
    one_each : All SpillsOne es
    next_pts : s'.pts ≡ stamp
    next_count : s'.count ≡ count_after s.count (chunks (length unit_bytes + 1) unit_bytes)

  module _ (fits : pid < 2 ^ 13) (whole : 5 ≤ length packet)
      (small : length header + length packet < 2 ^ 30) where
    from_start : Rounds
    from_start = record { rounds = 0; p = 0; cells = replicate ts_packet_size 0; count = s.count }

    send_pes_lem :
        send_pes stray pid s.count (pts_bytes stamp) packet header
        ≡ packets stray pid unit_bytes (length unit_bytes + 1) from_start
    unfolding send_pes from_start
    send_pes_lem =
        ap (λ (xs : List ℕ). packets stray pid xs (length xs + 1) from_start)
          (assemble_lem stray stamp packet header whole)

    result_lem :
        (es : List Emitted) (count : ℕ)
        → packets stray pid unit_bytes (length unit_bytes + 1) from_start ≡ some (es, count)
        → h264_to_ts stray pid s packet header ≡ some (es, record { count = count; pts = stamp })
    unfolding h264_to_ts get_pts
    result_lem es count e =
        ap
          (λ (r : Option (List Emitted × ℕ)). elim r as (λ _. Option (List Emitted × Statics)) [
            | none ↦ none
            | some (es, count) ↦ some (es, record { count = count; pts = stamp })
          ])
          (send_pes_lem ∙ e)

    call_lem :
        (es : List Emitted) × (s' : Statics) × (h264_to_ts stray pid s packet header
          ≡ some (es, s'))
        × Sent es s'
    unfolding from_start
    call_lem =
        let short : length unit_bytes < 2 ^ 31 =
          (let l = length-access_unit stamp packet header in ground arith) in
        let (es, e, sends) =
          packets_lem stray pid unit_bytes (length unit_bytes + 1) from_start short fits refl
            (omega arith) (omega arith) in
        let count = count_after s.count (chunks (length unit_bytes + 1) unit_bytes) in
        (
          es,
          record { count = count; pts = stamp },
          result_lem es count e,
          record {
            train = sends.sent;
            one_each = sends.one_each;
            next_pts = refl;
            next_count = refl;
          },
        )

    -- For a PID of 13 bits and an access unit of at least five bytes that with the stream header
    -- has fewer than 2^30: `h264_to_ts` returns, so its loop ends.
    pub h264_to_ts_returns :
        (es : List Emitted) × (s' : Statics) × (h264_to_ts stray pid s packet header
          ≡ some (es, s'))
    h264_to_ts_returns = let (es, s', e, sent) = call_lem in (es, s', e)

    module _ (es : List Emitted) (s' : Statics)
        (result : h264_to_ts stray pid s packet header ≡ some (es, s')) where
      pub sent_lem : Sent es s'
      sent_lem =
          let (es0, s0, e, sent) = call_lem in
          let same : (es0, s0) ≡ (es, s') = some-injective (es0, s0) (es, s') (sym e ∙ result) in
          subst (λ (r : List Emitted × Statics). Sent r.0 r.1) same sent

      -- For a PID of 13 bits and an access unit of at least five bytes that with the stream header
      -- has fewer than 2^30: the payloads of the packets that a call sends, in order, make up the
      -- PES packet of the access unit, with the next time stamp and, before an IDR slice, the
      -- stream header. No byte is lost, added or moved, whatever the bytes behind the buffer are.
      pub payloads-h264_to_ts : payloads (packets_in es) ≡ unit_bytes
      payloads-h264_to_ts =
          ap payloads sent_lem.train
          ∙ payloads_lem (length unit_bytes + 1) pid 1 s.count unit_bytes (omega arith)

      -- For a PID of 13 bits and an access unit of at least five bytes that with the stream header
      -- has fewer than 2^30: every packet that a call sends has 188 bytes, the sync byte, the PID
      -- and no error bit; the first alone has the start bit; the counters go on from that of the
      -- previous call.
      pub Train-h264_to_ts : Train pid 1 s.count (packets_in es)
      Train-h264_to_ts =
          rw sent_lem.train
            (Train_lem (length unit_bytes + 1) pid 1 s.count unit_bytes fits (omega arith))

      -- For a PID of 13 bits and an access unit of at least five bytes that with the stream header
      -- has fewer than 2^30: a call sends one packet for every 184 bytes begun, and advances the
      -- time stamp counter once.
      pub length-h264_to_ts :
          (length (packets_in es) ≡ (length unit_bytes + 183) / 184) × (s'.pts ≡ stamp)
      length-h264_to_ts = (
        ap length sent_lem.train
            ∙ length-packets_of (length unit_bytes + 1) pid 1 s.count unit_bytes (omega arith),
        sent_lem.next_pts,
      )

      -- The static counter goes on by the packets sent.
      pub count-h264_to_ts : s.count < 16 → s'.count ≡ (s.count + length (packets_in es)) % 16
      count-h264_to_ts counter =
          sent_lem.next_count
          ∙ count_after_lem pid 1 s.count (chunks (length unit_bytes + 1) unit_bytes) counter
          ∙ ap (λ (k : ℕ). (s.count + k) % 16) (ap length (sym sent_lem.train))

      -- For a PID of 13 bits and an access unit of at least five bytes that with the stream header
      -- has fewer than 2^30: each round of the loop stores one byte behind its packet buffer, at
      -- index 188.
      pub h264_to_ts_overruns : All SpillsOne es
      h264_to_ts_overruns = sent_lem.one_each
