-- ===== src/Rtp.antt =====
-- mycode/gn_rtp.c: queues of RTP datagrams whose headers are written once and whose sequence numbers
-- are written when a datagram is sent.
--
-- The calls of the system enter as their results: `getaddrinfo`, `socket`, the two values of `random`.
-- `sendto` only reports an error; each datagram handed to it is kept in `handed`.
pub mod Datagrams
pub mod Calls
pub mod Sequence
pub mod Start
mod Tests
use dvb_stream_v.Base.{
  ℕ, ◌+◌, Bool, ◌&&◌, Option, none, some, List, [], ◌∷◌, ◌++◌, ltb, if◌then◌else◌, set, take,
  replicate, u8, u16, u32, ◌>>>◌,
}
use dvb_stream_v.Ring.{update, is_empty, is_full, push, pop, Ring}

-- `RTP_BUFFER_NUMS`
abbrev pub rtp_buffer_nums : ℕ
rtp_buffer_nums = 1500

-- `rtp_base`
abbrev pub rtp_base : ℕ
rtp_base = 12

-- The file's variables, with the datagrams handed to `sendto`.
pub record Rtp : Type 0 where
  pub video : Ring (List ℕ)
  pub audio : Ring (List ℕ)
  pub rtpseq : ℕ
  pub ssrc : ℕ
  pub handed : List (List ℕ)

-- The assignments to one array element; `ssrc` is the bit pattern of an int, so that the low byte of
-- an arithmetic shift is that of a logical one.
unfoldable pub init_slot : ℕ → List ℕ → List ℕ
init_slot ssrc slot =
    let a = set (set slot 0x0 0x80) 0x1 0x21 in
    let b = set (set (set (set a 0x4 0x00) 0x5 0x00) 0x6 0x00) 0x7 0x00 in
    let c = set (set b 0x8 (u8 (ssrc >>> 24))) 0x9 (u8 (ssrc >>> 16)) in
    set (set c 0xa (u8 (ssrc >>> 8))) 0xb (u8 ssrc)

-- `for (i = 0; i < RTP_BUFFER_NUMS; i++)` over a static array.
unfoldable pub init_slots : ℕ → (ℕ → List ℕ) → ℕ → List ℕ
unfolding init_slot
init_slots ssrc slots i = if ltb i rtp_buffer_nums then init_slot ssrc (slots i) else slots i

-- Static storage starts as zeros.
abbrev pub zero_slots : ℕ → List ℕ
zero_slots i = replicate (rtp_base + 188) 0

-- `gn_rtp_connect_init` at the start. `named`: neither host nor port is NULL. `none` is `exit(1)`.
unfoldable pub gn_rtp_connect_init : Bool → Bool → Bool → ℕ → ℕ → Option Rtp
unfolding init_slots
gn_rtp_connect_init named resolved opened random_1 random_2 =
    let slots = init_slots (u32 random_2) zero_slots in
    let ready : Option Rtp = some (record {
      video = record { slots = slots; head = 0; tail = 0 };
      audio = record { slots = slots; head = 0; tail = 0 };
      rtpseq = u16 random_1;
      ssrc = u32 random_2;
      handed = [];
    }) in
    if named then (if resolved && opened then ready else none) else ready

-- `memcpy(slot + rtp_base, data, 188)`
abbrev pub with_data : List ℕ → List ℕ → List ℕ
with_data slot bytes = take rtp_base slot ++ take 188 bytes

-- `gn_rtp_put`. On a full queue it prints forever: `none`.
unfoldable pub gn_rtp_put : List ℕ → Rtp → Option Rtp
unfolding is_full push
gn_rtp_put bytes s =
    if is_full rtp_buffer_nums s.video
    then none
    else some (record s {
      video = push rtp_buffer_nums s.video (with_data (s.video.slots s.video.tail) bytes);
    })

-- `gn_rtp_audio_put`. On a full queue the packet is dropped.
unfoldable pub gn_rtp_audio_put : List ℕ → Rtp → Rtp
unfolding is_full push
gn_rtp_audio_put bytes s = if is_full rtp_buffer_nums s.audio then s else record s {
  audio = push rtp_buffer_nums s.audio (with_data (s.audio.slots s.audio.tail) bytes);
}

-- `buffer[head][2] = rtpseq >> 8; buffer[head][3] = rtpseq;`
unfoldable pub with_seq : ℕ → List ℕ → List ℕ
with_seq seq slot = set (set slot 2 (u8 (seq >>> 8))) 3 (u8 seq)

-- `gn_rtp_send`
unfoldable pub gn_rtp_send : Rtp → Rtp
unfolding is_empty with_seq pop
gn_rtp_send s =
    let datagram = with_seq s.rtpseq (s.video.slots s.video.head) in
    if is_empty s.video then s else record s {
      video =
          pop rtp_buffer_nums
            (record s.video { slots = update s.video.slots s.video.head datagram });
      rtpseq = u16 (s.rtpseq + 1);
      handed = s.handed ++ take (rtp_base + 188) datagram ∷ [];
    }

-- `gn_rtp_audio_send`
unfoldable pub gn_rtp_audio_send : Rtp → Rtp
unfolding is_empty with_seq pop
gn_rtp_audio_send s =
    let datagram = with_seq s.rtpseq (s.audio.slots s.audio.head) in
    if is_empty s.audio then s else record s {
      audio =
          pop rtp_buffer_nums
            (record s.audio { slots = update s.audio.slots s.audio.head datagram });
      rtpseq = u16 (s.rtpseq + 1);
      handed = s.handed ++ take (rtp_base + 188) datagram ∷ [];
    }
