-- ===== src/Mux/Round.antt =====
-- One round of the packet loop of `h264_to_ts`, in closed form.
use dvb_stream_v.Ts.{ts_packet_size}
use native.Mathlib.Decide.{dec_lt}
use dvb_stream_v.Base.Bits.{mask_0xfff}
use dvb_stream_v.Mux.Header.{next_count_lem}
use dvb_stream_v.Base.{
  ℕ, zero, suc, ◌+◌, ◌-◌, ◌*◌, ◌/◌, ◌%◌, ◌^◌, ◌≤◌, ◌<◌, min, ◌≡◌, refl, sym, ap, ◌∙◌, true, false,
  List, [], ◌∷◌, ◌++◌, append_assoc, arith, ltb, ◌==◌, if◌then◌else◌, le→ltb, length, get_or,
  replicate, length-append, length-replicate, slice, length-slice, slice_snoc, u8, u16,
}
use dvb_stream_v.Mux.{
  put_ts_header, store, store_all, stuff_nums, is_positive, put_stuffing, copy_bytes, round_header,
  round, Out, Rounds,
}
use dvb_stream_v.Mux.Buffer.{
  out, store_all_inside, store_all-append, stuff-store_all, copy_bytes-store_all, store_all_full,
}

-- The adaptation field that takes `k` bytes of a packet.
abbrev pub stuffing_bytes : ℕ → List ℕ
stuffing_bytes zero = []
stuffing_bytes (suc zero) = 0 ∷ []
stuffing_bytes (suc (suc k)) = (k + 1) ∷ 0 ∷ replicate k 0xff

pub length-stuffing_bytes : (k : ℕ) → length (stuffing_bytes k) ≡ k
length-stuffing_bytes zero = refl
length-stuffing_bytes (suc zero) = refl
length-stuffing_bytes (suc (suc k)) = ap (λ (n : ℕ). suc (suc n)) (length-replicate k 0xff)

-- The bytes of a packet that carries `chunk`, which has at most 184 bytes.
abbrev pub packet_of : ℕ → ℕ → ℕ → List ℕ → List ℕ
packet_of pid start counter chunk =
    (0x47
      ∷ (start * 64 + pid / 256)
      ∷ (pid % 256)
      ∷ ((if ltb (length chunk) 184 then 3 else 1) * 16 + counter)
      ∷ [])
    ++ (stuffing_bytes (184 - length chunk) ++ chunk)

stuff_nums_short : (rest : ℕ) → rest < 184 → stuff_nums rest ≡ 184 - rest
unfolding stuff_nums
stuff_nums_short rest h = omega arith

-- From 184 bytes on the difference is zero or, as an int, negative.
stuff_nums_long : (rest : ℕ) → 184 ≤ rest → rest < 2 ^ 31 → is_positive (stuff_nums rest) ≡ false
unfolding stuff_nums
stuff_nums_long rest h k = ground arith

is_positive_lem : (rest : ℕ) → rest < 2 ^ 31 → is_positive (stuff_nums rest) ≡ ltb rest 184
is_positive_lem rest h = elim (dec_lt rest 184) [
  | yes short ↦ let e = stuff_nums_short rest short in rw e (ground arith)
  | no long ↦ stuff_nums_long rest (omega arith) h ∙ sym (le→ltb rest 184 (omega arith))
]

put_stuffing-store_all :
    (k : ℕ) (o : Out) → k < 256 → 0 < k → put_stuffing k o ≡ store_all o (stuffing_bytes k)
unfolding put_stuffing store_all
put_stuffing-store_all zero o h p = absurd (omega arith)
put_stuffing-store_all (suc zero) o h p = refl
put_stuffing-store_all (suc (suc k)) o h p =
    let first : u8 (suc (suc k) - 1) ≡ k + 1 = omega arith in
    let left : suc (suc k) - 2 ≡ k = omega arith in
    let positive : is_positive (suc (suc k)) ≡ true = ground arith in
    rw (first, left, positive) (ground (arith, stuff-store_all k (store (store o (k + 1)) 0)))

module _ (stray : ℕ) (pid : ℕ) (ptr : List ℕ) (s : Rounds) where
  abbrev pub rest_of : ℕ
  rest_of = length ptr - s.p

  -- How much of the assembled bytes the round sends.
  abbrev pub chunk_of : List ℕ
  chunk_of = slice ptr s.p (min 184 rest_of) stray

  abbrev pub start_of : ℕ
  start_of = if s.rounds == 0 then 1 else 0

  abbrev pub round_packet : List ℕ
  round_packet = packet_of pid start_of ((s.count + 1) % 16) chunk_of

  header_of_round :
      length ptr < 2 ^ 31
      → pid < 2 ^ 13
      → ((put_ts_header s.count (round_header stray pid ptr s)).1
          ≡ 0x47
            ∷ (start_of * 64 + pid / 256)
            ∷ (pid % 256)
            ∷ ((if ltb rest_of 184 then 3 else 1) * 16 + (s.count + 1) % 16)
            ∷ [])
        × ((put_ts_header s.count (round_header stray pid ptr s)).0.continuity_counter
            ≡ (s.count + 1) % 16)
  unfolding round_header put_ts_header
  header_of_round small fits =
      let p = is_positive_lem rest_of (omega arith) in
      let start : (if s.rounds + 1 == 1 then 1 else 0) ≡ start_of = ground arith in
      let a : (if ltb rest_of 184 then 3 else 1) < 4 = ground arith in
      let b : start_of < 2 = ground arith in
      let same : u16 pid ≡ pid = omega arith in
      rw (p, start, mask_0xfff, next_count_lem) (ground (arith, a, b, same), refl)

  pub length-chunk_of : length chunk_of ≡ min 184 rest_of
  length-chunk_of = length-slice ptr s.p (min 184 rest_of) stray

  -- The bytes of the round before its copy loop, and the number of bytes that it copies and keeps.
  abbrev head_of : List ℕ
  head_of =
      (0x47
        ∷ (start_of * 64 + pid / 256)
        ∷ (pid % 256)
        ∷ ((if ltb rest_of 184 then 3 else 1) * 16 + (s.count + 1) % 16)
        ∷ [])
      ++ stuffing_bytes (184 - min 184 rest_of)

  length-head_of : length head_of + min 184 rest_of ≡ ts_packet_size
  length-head_of = omega (arith, length-stuffing_bytes (184 - min 184 rest_of))

  stuffed_lem :
      length ptr < 2 ^ 31
      → pid < 2 ^ 13
      → s.p < length ptr
      → put_stuffing
          (stuff_nums rest_of)
          (store_all (out s.cells 0 []) (put_ts_header s.count (round_header stray pid ptr s)).1)
        ≡ store_all (out s.cells 0 []) head_of
  unfolding put_stuffing
  stuffed_lem small fits more = rw ((header_of_round small fits).0) (elim (dec_lt rest_of 184) [
    | yes short ↦
        let e = stuff_nums_short rest_of short in
        let m : min 184 rest_of ≡ rest_of = omega arith in
        rw (e, m)
          (put_stuffing-store_all (184 - rest_of) _ (omega arith) (omega arith)
            ∙ sym (store_all-append (out s.cells 0 []) _ (stuffing_bytes (184 - rest_of))))
    | no long ↦
        let e = stuff_nums_long rest_of (omega arith) (omega arith) in
        let m : 184 - min 184 rest_of ≡ 0 = omega arith in rw (e, m) refl
  ])

  -- The stray byte: that behind the chunk.
  abbrev pub behind_chunk : ℕ
  behind_chunk = get_or ptr (s.p + min 184 rest_of) stray

  packet_of_round : head_of ++ chunk_of ≡ round_packet
  packet_of_round =
      let short : ltb (min 184 rest_of) 184 ≡ ltb rest_of 184 = ground arith in
      rw (length-chunk_of, short)
        (append_assoc
          (0x47
            ∷ (start_of * 64 + pid / 256)
            ∷ (pid % 256)
            ∷ ((if ltb rest_of 184 then 3 else 1) * 16 + (s.count + 1) % 16)
            ∷ [])
          (stuffing_bytes (184 - min 184 rest_of)) chunk_of)

  num_lem :
      length s.cells ≡ ts_packet_size
      → min (ts_packet_size - (store_all (out s.cells 0 []) head_of).offset) rest_of
        ≡ min 184 rest_of
  num_lem full =
      let at_end =
        ap (λ (o : Out). o.offset)
          (store_all_inside head_of [] s.cells 0 (length head_of) [] refl (omega arith)
            (omega (arith, length-head_of)) (omega (arith, length-head_of))) in
      omega (arith, at_end, length-head_of)

  copy_lem :
      (n : ℕ)
      → n ≡ min 184 rest_of
      → length s.cells ≡ ts_packet_size
      → copy_bytes stray pid ptr s.p (n + 1) (store_all (out s.cells 0 []) head_of)
        ≡ out round_packet (ts_packet_size + 1) ((ts_packet_size, behind_chunk) ∷ [])
  copy_lem n e full =
      let count : n + 1 ≡ suc (min 184 rest_of) = omega arith in
      rw count (
        copy_bytes-store_all stray ptr pid s.p (suc (min 184 rest_of)) _
        ∙ ap (store_all (store_all (out s.cells 0 []) head_of))
            (slice_snoc ptr s.p (min 184 rest_of) stray)
        ∙ sym (store_all-append (out s.cells 0 []) head_of (chunk_of ++ behind_chunk ∷ []))
        ∙ ap (store_all (out s.cells 0 []))
            (sym (append_assoc head_of chunk_of (behind_chunk ∷ [])))
        ∙ store_all_full (head_of ++ chunk_of) s.cells behind_chunk
            (omega (arith, length-append head_of chunk_of, length-chunk_of, length-head_of)) full
        ∙ ap (λ (c : List ℕ). out c (ts_packet_size + 1) ((ts_packet_size, behind_chunk) ∷ []))
            packet_of_round)

  -- A round at a position inside the data sends the next 184 bytes, or all that are left behind a
  -- stuffing adaptation field, and stores one more byte behind the buffer.
  pub round_lem :
      length ptr < 2 ^ 31
      → pid < 2 ^ 13
      → s.p < length ptr
      → length s.cells ≡ ts_packet_size
      → round stray pid ptr s ≡ (
        record { packet = round_packet; spilled = (ts_packet_size, behind_chunk) ∷ [] },
        record {
          rounds = s.rounds + 1;
          p = s.p + min 184 rest_of;
          cells = round_packet;
          count = (s.count + 1) % 16;
        },
      )
  unfolding round
  round_lem small fits more full =
      let stuffed = stuffed_lem small fits more in
      let num = ap (λ (o : Out). min (ts_packet_size - o.offset) rest_of) stuffed ∙ num_lem full in
      let sent =
        ap
          (λ (o : Out).
            copy_bytes stray pid ptr s.p (min (ts_packet_size - o.offset) rest_of + 1) o)
          stuffed
        ∙ copy_lem _ (num_lem full) full in
      λ i. (
        record { packet = (sent i).cells; spilled = (sent i).spilled },
        record {
          rounds = s.rounds + 1;
          p = s.p + num i;
          cells = (sent i).cells;
          count = (header_of_round small fits).1 i;
        },
      )
