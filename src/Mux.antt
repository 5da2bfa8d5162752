-- ===== src/Mux.antt =====
-- mycode/conver_format.c: an H.264 access unit becomes a PES packet and a run of transport stream
-- packets. simple/conver_format.c has the same functions; its `h264_to_ts` fixes the PID.
--
-- `char buffer[188]` is a list of 188 cells. The code also stores behind its end; such a store is
-- recorded in `spilled`, and the cells are as they were (C leaves the store undefined). A read behind
-- the assembled PES packet gives the byte `stray`, of which nothing is assumed.
pub mod Buffer
pub mod Header
pub mod Round
pub mod Loop
pub mod Payload
pub mod Train
pub mod Stream
pub mod Simple
pub mod Bytes
pub mod Reread
mod Tests
use dvb_stream_v.Base.{
  ℕ, zero, suc, ◌+◌, ◌-◌, ◌^◌, min, bit_and, Bool, ◌&&◌, Option, none, some, List, [], ◌∷◌, ◌++◌,
  ltb, ◌==◌, if◌then◌else◌, length, get_or, set, replicate, u8, u16, u32, u64, ◌<<<◌, ◌>>>◌,
}
use dvb_stream_v.Ts.{ts_packet_size, no_bytes, TsHeader, PesHeader}
use dvb_stream_v.Pts.{get_pts, simple_get_pts}

-- The static variables: `count` of `put_ts_header` and `pts` of `get_pts`.
pub record Statics : Type 0 where
  pub count : ℕ
  pub pts : ℕ

-- The counter that `put_ts_header` leaves in its static variable and in the header.
pub next_count : ℕ → ℕ
next_count count = u8 (bit_and (count + 1) 0x0f)

-- `put_ts_header`: the header with its counter, and the four bytes that are stored. The new value of
-- the static `count` is the header's counter.
pub put_ts_header : ℕ → TsHeader → TsHeader × List ℕ
unfolding next_count
put_ts_header count ts =
    let counter = next_count count in
    (
      record ts { continuity_counter = counter },
      u8 ts.sync_byte
          ∷ u8 (
              (ts.transport_error_indicator <<< 7)
              + (ts.payload_unit_start_indicator <<< 6)
              + (ts.transport_priority <<< 5)
              + (ts.pid >>> 8))
          ∷ u8 (bit_and ts.pid 0xfff)
          ∷ u8 (
              (ts.transport_scrambling_control <<< 6)
              + (ts.adaptation_field_control <<< 4)
              + counter)
          ∷ [],
    )

-- `put_pes_header`: the twenty bytes, the last six an access unit delimiter.
pub put_pes_header : PesHeader → List ℕ
put_pes_header pes =
    0x00
    ∷ 0x00
    ∷ 0x01
    ∷ u8 pes.stream_id
    ∷ 0x00
    ∷ 0x00
    ∷ u8 pes.flag_priority
    ∷ 0x80
    ∷ u8 pes.data_length
    ∷ get_or pes.pts 0 0
    ∷ get_or pes.pts 1 0
    ∷ get_or pes.pts 2 0
    ∷ get_or pes.pts 3 0
    ∷ get_or pes.pts 4 0
    ∷ 0x00
    ∷ 0x00
    ∷ 0x00
    ∷ 0x01
    ∷ 0x09
    ∷ 0xf0
    ∷ []

-- The initial `ts_header` of `h264_to_ts`.
abbrev pub initial_header : ℕ → TsHeader
initial_header pid = record {
  sync_byte = 0x47;
  transport_error_indicator = 0;
  payload_unit_start_indicator = 0;
  transport_priority = 0;
  pid = u16 pid;
  transport_scrambling_control = 0;
  adaptation_field_control = 1;
  continuity_counter = 0;
}

-- The `pes_header` of `h264_to_ts`, with the time stamp that `get_pts` stores into it.
abbrev pub initial_pes : List ℕ → PesHeader
initial_pes pts = record {
  flag = 1;
  stream_id = 0xe0;
  packet_length = 0;
  flag_priority = 0x80;
  flag_pts = 1;
  flag_dts = 0;
  data_length = 5;
  pts = pts;
  dts = no_bytes;
}

-- `buffer`, the index `offset` of the next store, and the stores behind the end.
pub record Out : Type 0 where
  pub cells : List ℕ
  pub offset : ℕ
  pub spilled : List (ℕ × ℕ)

-- `buffer[offset++] = v`
pub store : Out → ℕ → Out
store o v =
    if ltb o.offset ts_packet_size
    then record { cells = set o.cells o.offset v; offset = o.offset + 1; spilled = o.spilled }
    else record {
      cells = o.cells;
      offset = o.offset + 1;
      spilled = o.spilled ++ (o.offset, v) ∷ [];
    }

pub store_all : Out → List ℕ → Out
store_all o [] = o
store_all o (v ∷ vs) = store_all (store o v) vs

-- `for (j = 0; j < n; j++) buffer[offset++] = 0xff;`
pub stuff : ℕ → Out → Out
stuff zero o = o
stuff (suc n) o = stuff n (store o 0xff)

-- An int is its bit pattern: `(int)(TS_PACKET_SIZE - 4 - (len - p))`, computed as size_t.
pub stuff_nums : ℕ → ℕ
stuff_nums rest = u32 (u64 (ts_packet_size - 4 + 2 ^ 64 - rest))

-- `stuff_nums > 0`
abbrev pub is_positive : ℕ → Bool
is_positive n = ltb 0 n && ltb n (2 ^ 31)

-- The adaptation field that fills the packet up: the loop over `stuff_nums - 2` makes no round at 1.
pub put_stuffing : ℕ → Out → Out
put_stuffing n o =
    let o' = store o (u8 (n - 1)) in
    let filled = if n == 1 then o' else stuff (n - 2) (store o' 0) in
    if is_positive n then filled else o

-- One packet that is handed to the callback, with what its round stored behind the buffer.
pub record Emitted : Type 0 where
  pub packet : List ℕ
  pub spilled : List (ℕ × ℕ)

-- The variables of the loop of `h264_to_ts`: its `count`, `p`, `buffer` and the static counter.
pub record Rounds : Type 0 where
  pub rounds : ℕ
  pub p : ℕ
  pub cells : List ℕ
  pub count : ℕ

module _ (stray : ℕ) (pid : ℕ) (ptr : List ℕ) where
  -- `for (i = p; ...; i++) buffer[offset++] = ptr[i];` with `n` rounds.
  pub copy_bytes : ℕ → ℕ → Out → Out
  copy_bytes i zero o = o
  copy_bytes i (suc n) o = copy_bytes (i + 1) n (store o (get_or ptr i stray))

  -- The header of the packet at `p`.
  pub round_header : Rounds → TsHeader
  unfolding stuff_nums
  round_header s = record (initial_header pid) {
    payload_unit_start_indicator = if s.rounds + 1 == 1 then 1 else 0;
    adaptation_field_control = if is_positive (stuff_nums (length ptr - s.p)) then 3 else 1;
  }

  -- The body of `while (p < len)`. The copy loop runs from `p` to `p + num`, both included.
  pub round : Rounds → Emitted × Rounds
  unfolding stuff_nums put_stuffing copy_bytes
  round s =
      let (header, bytes) = put_ts_header s.count (round_header s) in
      let start : Out = record { cells = s.cells; offset = 0; spilled = [] } in
      let stuffed = put_stuffing (stuff_nums (length ptr - s.p)) (store_all start bytes) in
      let num = min (ts_packet_size - stuffed.offset) (length ptr - s.p) in
      let full = copy_bytes s.p (num + 1) stuffed in
      (
        record { packet = full.cells; spilled = full.spilled },
        record {
          rounds = s.rounds + 1;
          p = s.p + num;
          cells = full.cells;
          count = header.continuity_counter;
        },
      )

  -- `while (p < len)` on fuel; `none` means that the fuel ran out. The result is the packets in order
  -- and the static counter.
  pub packets : ℕ → Rounds → Option (List Emitted × ℕ)
  packets zero s = none
  packets (suc fuel) s =
      let (e, s') = round s in
      let rest : Option (List Emitted × ℕ) = elim (packets fuel s') [
        | none ↦ none
        | some (es, count) ↦ some (e ∷ es, count)
      ] in
      if ltb s.p (length ptr) then rest else some ([], s.count)

-- The bytes to send: the encoder's stream header stands before the data if the fifth byte of the data
-- marks an IDR slice.
pub assemble : ℕ → List ℕ → List ℕ → List ℕ → List ℕ
assemble stray pes header bytes =
    if get_or bytes 4 stray == 0x25 then pes ++ (header ++ bytes) else pes ++ bytes

-- The part of `h264_to_ts` that follows `get_pts`. A round moves `p` on, so the fuel is enough.
pub send_pes : ℕ → ℕ → ℕ → List ℕ → List ℕ → List ℕ → Option (List Emitted × ℕ)
unfolding put_pes_header assemble
send_pes stray pid count pts packet header =
    let ptr = assemble stray (put_pes_header (initial_pes pts)) header packet in
    packets stray pid ptr (length ptr + 1)
      (record { rounds = 0; p = 0; cells = replicate ts_packet_size 0; count = count })

-- `h264_to_ts` of mycode: what it hands to the callback, and the static variables.
unfoldable pub h264_to_ts : ℕ → ℕ → Statics → List ℕ → List ℕ → Option (List Emitted × Statics)
unfolding send_pes
h264_to_ts stray pid s packet header =
    let (pts, bytes) = get_pts s.pts in
    elim (send_pes stray pid s.count bytes packet header) [
      | none ↦ none
      | some (es, count) ↦ some (es, record { count = count; pts = pts })
    ]

-- `h264_to_ts` of simple.
unfoldable pub simple_h264_to_ts : ℕ → Statics → List ℕ → List ℕ → Option (List Emitted × Statics)
unfolding send_pes
simple_h264_to_ts stray s packet header =
    let (pts, bytes) = simple_get_pts s.pts in
    elim (send_pes stray 4001 s.count bytes packet header) [
      | none ↦ none
      | some (es, count) ↦ some (es, record { count = count; pts = pts })
    ]
