-- ===== src/Mux/Reread.antt =====
-- The first packet of an access unit that `h264_to_ts` sends, as `ts_packet_init` reads it.

use dvb_stream_v.Ts.Content.{rest_of_packet}
use native.Mathlib.Decide.{dec_lt}
use dvb_stream_v.Base.{
  ℕ, zero, suc, ◌+◌, ◌-◌, ◌*◌, ◌/◌, ◌%◌, ◌^◌, ◌≤◌, ◌<◌, ◌≡◌, refl, sym, ap, ◌∙◌, ◌⊎◌, some, List,
  [], ◌∷◌, ◌++◌, append-nil, append_assoc, arith, ltb, if◌then◌else◌, length, get_or, take, drop,
  length-append, length-take, All-append, All-drop, All-take,
}
use dvb_stream_v.Ts.{
  ts_packet_size, IsByte, IsBytes, byte_at, parse_header, parse_pes, find_pes, payload_start,
  adaptation_of, ts_packet_init, TsPacket, parsed,
}
use dvb_stream_v.Ts.Outcomes.{data_offset, payload_start_cases, loaded, near_payload}
use dvb_stream_v.Pts.Codec.{stamp_layout, tcp_get_pts-stamp_layout}
use dvb_stream_v.Mux.Round.{stuffing_bytes, length-stuffing_bytes, packet_of}
use dvb_stream_v.Ts.Fields.{all_bytes_sound}
use dvb_stream_v.Mux.{h264_to_ts, Statics, Emitted}
use dvb_stream_v.Mux.Loop.{chunks, packets_of, packets_in}
use dvb_stream_v.Mux.Stream.{access_unit, sent_lem}
use dvb_stream_v.Mux.Train.{packet_of-fields}
use dvb_stream_v.Pts.{advance, video_offset, tcp_get_pts}
use dvb_stream_v.Ts.Pes.{find_pes_lem, stamp_lem, five_lem, stored_lem}
use dvb_stream_v.Mux.Bytes.{packet_of-IsBytes, stamp_layout-IsBytes, access_unit-IsBytes}

get_or-append-right :
    (xs ys : List ℕ) (i d : ℕ) → get_or (xs ++ ys) (length xs + i) d ≡ get_or ys i d
get_or-append-right [] ys i d = ap (λ k. get_or ys k d) (omega arith)
get_or-append-right (x ∷ xs) ys i d =
    let e : suc (length xs) + i ≡ suc (length xs + i) = omega arith in
    rw e (get_or-append-right xs ys i d)

-- The length byte of the adaptation field.
first_of_stuffing : (k : ℕ) (xs : List ℕ) → 0 < k → get_or (stuffing_bytes k ++ xs) 0 0 ≡ k - 1
first_of_stuffing zero xs h = absurd (omega arith)
first_of_stuffing (suc zero) xs h = refl
first_of_stuffing (suc (suc k)) xs h = omega arith

-- Where the payload begins, from the bytes that say whether there is an adaptation field and how long.
begins_lem :
    (start b3 b4 n m counter : ℕ)
    → m ≡ 14 + n
    → n ≤ 170
    → counter < 16
    → b3 ≡ (if ltb m 184 then 3 else 1) * 16 + counter
    → (n < 170 → b4 ≡ 169 - n)
    → ((b3 / 32 % 2 ≡ 1) × (start ≡ b4 + 5)) ⊎ ((b3 / 32 % 2 ≡ 0) × (start ≡ 4))
    → start ≡ 174 - n
begins_lem start b3 b4 n m counter long h c three four cases = elim (dec_lt n 170) [
  | yes some_left ↦ let f = four some_left in ground arith
  | no full ↦ ground arith
]

-- The first bytes of a PES packet of the video.
abbrev pub pes_start : ℕ → List ℕ → List ℕ
pes_start pts rest = (0 ∷ 0 ∷ 1 ∷ 0xe0 ∷ 0 ∷ 0 ∷ 0x80 ∷ 0x80 ∷ 5 ∷ []) ++ (stamp_layout pts ++ rest)

module _ (pid counter pts : ℕ) (rest : List ℕ) (fits : pid < 2 ^ 13) (c : counter < 16)
    (short : length rest ≤ 170) (bytes : IsBytes rest) where
  abbrev pub first_packet : List ℕ
  first_packet = packet_of pid 1 counter (pes_start pts rest)

  abbrev begins : ℕ
  begins = 174 - length rest

  first_packet-IsBytes : IsBytes first_packet
  first_packet-IsBytes =
      let front : List ℕ = 0 ∷ 0 ∷ 1 ∷ 0xe0 ∷ 0 ∷ 0 ∷ 0x80 ∷ 0x80 ∷ 5 ∷ [] in
      packet_of-IsBytes pid 1 counter (pes_start pts rest) fits (omega arith) c (
        All-append IsByte front (stamp_layout pts ++ rest) (all_bytes_sound front refl)
          (All-append IsByte (stamp_layout pts) rest (stamp_layout-IsBytes pts) bytes))

  byte_behind : (i : ℕ) → byte_at first_packet (begins + i) ≡ byte_at (pes_start pts rest) i
  byte_behind i =
      let k = 184 - length (pes_start pts rest) in
      let where_to : begins + i ≡ suc (suc (suc (suc (length (stuffing_bytes k) + i)))) =
        omega (arith, length-stuffing_bytes k) in
      rw where_to (get_or-append-right (stuffing_bytes k) (pes_start pts rest) i 0)

  payload_begins :
      payload_start
        (parse_header first_packet)
        (adaptation_of first_packet (parse_header first_packet))
      ≡ begins
  payload_begins =
      let k = 184 - length (pes_start pts rest) in
      begins_lem _ (byte_at first_packet 3) (byte_at first_packet 4) (length rest)
        (length (pes_start pts rest)) counter (omega arith) short c refl
        (λ some_left. first_of_stuffing k (pes_start pts rest) (omega arith) ∙ omega arith)
        (payload_start_cases first_packet first_packet-IsBytes)

  abbrev unit_offset : ℕ
  unit_offset = begins + 14

  pes_found : find_pes first_packet begins ≡ (parse_pes first_packet (begins + 3), unit_offset)
  pes_found =
      find_pes_lem first_packet begins (ap (byte_at first_packet) (omega arith) ∙ byte_behind 0)
        (byte_behind 1) (byte_behind 2) (byte_behind 3)
        (ap (byte_at first_packet) (omega arith) ∙ byte_behind 8)

  offset_lem : data_offset first_packet ≡ unit_offset
  offset_lem = ap (λ k. (find_pes first_packet k).1) payload_begins ∙ ap (λ r. r.1) pes_found

  reads : ts_packet_init first_packet ≡ parsed (loaded first_packet)
  reads =
      near_payload first_packet first_packet-IsBytes (omega arith) (ground arith)
        (omega (arith, offset_lem))

  stored_pes : (loaded first_packet).pes_header ≡ parse_pes first_packet (begins + 3)
  stored_pes = ap (λ k. (find_pes first_packet k).0) payload_begins ∙ ap (λ r. r.0) pes_found

  in_front : List ℕ
  in_front =
      0x47
      ∷ (64 + pid / 256)
      ∷ (pid % 256)
      ∷ ((if ltb (length (pes_start pts rest)) 184 then 3 else 1) * 16 + counter)
      ∷ (stuffing_bytes (184 - length (pes_start pts rest)) ++ pes_start pts [])

  split : first_packet ≡ in_front ++ rest
  unfolding in_front
  split =
      let k = 184 - length (pes_start pts rest) in
      ap (λ xs. take 4 first_packet ++ xs)
        (sym (append_assoc (stuffing_bytes k) (pes_start pts []) rest))

  stored_bytes :
      take (ts_packet_size - unit_offset) (rest_of_packet first_packet unit_offset) ≡ rest
  unfolding in_front
  stored_bytes =
      let k = 184 - length (pes_start pts rest) in
      ap (λ buf. take (ts_packet_size - unit_offset) (rest_of_packet buf unit_offset)) split
      ∙ stored_lem in_front rest unit_offset
          (omega
            (arith, length-append (stuffing_bytes k) (pes_start pts []), length-stuffing_bytes k))
          (omega arith)

  byte_there : (i k : ℕ) → k ≡ begins + i → byte_at first_packet k ≡ byte_at (pes_start pts rest) i
  byte_there i k e = ap (byte_at first_packet) e ∙ byte_behind i

  stamp_read : (parse_pes first_packet (begins + 3)).pts ≡ stamp_layout pts
  stamp_read =
      stamp_lem first_packet (begins + 3) (byte_there 7 _ (omega arith))
      ∙ five_lem first_packet (begins + 3 + 6) (byte_there 9 _ (omega arith))
          (byte_there 10 _ (omega arith)) (byte_there 11 _ (omega arith))
          (byte_there 12 _ (omega arith)) (byte_there 13 _ (omega arith))

  stream_read : (parse_pes first_packet (begins + 3)).stream_id ≡ 0xe0
  unfolding parse_pes
  stream_read = byte_behind 3

  -- What the parser makes of the packet.
  record Reread (q : TsPacket) : Type 0 where
    accepted : ts_packet_init first_packet ≡ parsed q
    same_pid : q.ts_header.pid ≡ pid
    start : q.ts_header.payload_unit_start_indicator ≡ 1
    stream : q.pes_header.stream_id ≡ 0xe0
    time : tcp_get_pts q.pes_header.pts ≡ pts % 2 ^ 33
    content : take q.payload.size q.payload.bytes ≡ rest

  first_packet-Reread : Reread (loaded first_packet)
  first_packet-Reread =
      let f = packet_of-fields pid 1 counter (pes_start pts rest) fits (omega arith) c in
      record {
        accepted = reads;
        same_pid = omega (arith, f.pid_bits);
        start = omega (arith, f.start_bit);
        stream = ap (λ h. h.stream_id) stored_pes ∙ stream_read;
        time =
            ap (λ h. tcp_get_pts h.pts) stored_pes
            ∙ ap tcp_get_pts (stamp_read ∙ sym (append-nil (stamp_layout pts)))
            ∙ tcp_get_pts-stamp_layout pts [];
        content =
            ap (λ k. take (ts_packet_size - k) (rest_of_packet first_packet k)) offset_lem
            ∙ stored_bytes;
      }

-- For a PID of 13 bits, and an access unit of at least five bytes that with the stream header has fewer
-- than 2^30, both of bytes: `ts_packet_init` accepts the first packet that `h264_to_ts` sends and finds the
-- PID, the start bit and the PES header of the video in it; `tcp_get_pts` reads the lowest 33 bits of the
-- unit's time stamp from what is stored; and the payload that is stored is what follows the PES header in
-- the packet.
pub ts_packet_init-h264_to_ts :
    (stray pid : ℕ) (s : Statics) (packet header : List ℕ)
    → pid < 2 ^ 13
    → 5 ≤ length packet
    → length header + length packet < 2 ^ 30
    → IsBytes packet
    → IsBytes header
    → (es : List Emitted) (s' : Statics) → h264_to_ts stray pid s packet header ≡ some (es, s')
    → (p : List ℕ) × (ps : List (List ℕ)) × (q : TsPacket) × (packets_in es ≡ p ∷ ps)
      × (ts_packet_init p ≡ parsed q)
      × (q.ts_header.pid ≡ pid)
      × (q.ts_header.payload_unit_start_indicator ≡ 1)
      × (q.pes_header.stream_id ≡ 0xe0)
      × (tcp_get_pts q.pes_header.pts ≡ advance video_offset s.pts % 2 ^ 33)
      × (take q.payload.size q.payload.bytes
          ≡ take 170 (drop 14 (access_unit (advance video_offset s.pts) packet header)))
unfolding packets_of chunks
ts_packet_init-h264_to_ts stray pid s packet header fits whole small plain sps es s' result =
    let sent = sent_lem stray pid s packet header fits whole small es s' result in
    let pts = advance video_offset s.pts in
    let unit = access_unit pts packet header in
    let counter = (s.count + 1) % 16 in
    let rest = take 170 (drop 14 unit) in
    let bytes =
      All-take IsByte 170 (drop 14 unit)
        (All-drop IsByte 14 unit (access_unit-IsBytes pts packet header plain sps)) in
    let r =
      first_packet-Reread pid counter pts rest fits (omega arith)
        (omega (arith, length-take 170 (drop 14 unit))) bytes in
    let more : length unit + 1 ≡ suc (length unit) = omega arith in
    (
      first_packet pid counter pts rest fits (omega arith)
          (omega (arith, length-take 170 (drop 14 unit))) bytes,
      packets_of pid 0 counter (chunks (length unit) (drop 184 unit)),
      _,
      sent.train ∙ ap (λ n. packets_of pid 1 s.count (chunks n unit)) more,
      r.accepted,
      r.same_pid,
      r.start,
      r.stream,
      r.time,
      r.content,
    )
