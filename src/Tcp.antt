-- ===== src/Tcp.antt =====
-- mycode/gn_tcp.c: the queues of video and audio packets that wait for the TCP client.
--
-- The socket calls enter as their results. What `send` takes of a packet is kept in `taken`, which is
-- the stream that the client has been given.
pub mod Queues
pub mod Delivery
pub mod Stamps
mod Tests
use dvb_stream_v.Base.{
  ℕ, Bool, ◌&&◌, Option, none, some, List, [], ◌∷◌, ◌++◌, ◌==◌, if◌then◌else◌, take, drop,
  replicate,
}
use dvb_stream_v.Ts.{ts_packet_size, byte_at}
use dvb_stream_v.Pts.{tcp_get_pts}
use dvb_stream_v.Ring.{is_empty, is_full, push, pop, Ring}

-- `TCP_BUFFER_NUMS`
abbrev pub tcp_buffer_nums : ℕ
tcp_buffer_nums = 10000

-- The queue that a packet came from.
pub data Channel : Type 0 where
  video_channel audio_channel : Channel

-- The file's variables, with what the client has been given so far.
pub record Tcp : Type 0 where
  pub video : Ring (List ℕ)
  pub audio : Ring (List ℕ)
  pub video_pts : ℕ
  pub audio_pts : ℕ
  pub taken : List (Channel × List ℕ)

-- The part of `gn_tcp_init` that sets the variables; the arrays are static, so they hold zeros.
unfoldable pub fresh : Tcp
fresh = record {
  video = record { slots = λ _. replicate ts_packet_size 0; head = 0; tail = 0 };
  audio = record { slots = λ _. replicate ts_packet_size 0; head = 0; tail = 0 };
  video_pts = 0;
  audio_pts = 0;
  taken = [];
}

-- `gn_tcp_init`, given whether `socket` and `bind` succeed. `none` is `exit(1)`.
unfoldable pub gn_tcp_init : Bool → Bool → Option Tcp
unfolding fresh
gn_tcp_init socket_ok bind_ok = if socket_ok then (if bind_ok then some fresh else none) else none

-- `gn_tcp_listener`, given whether `listen` and `accept` succeed. `none` is `exit(1)`.
unfoldable pub gn_tcp_listener : Bool → Bool → Tcp → Option Tcp
gn_tcp_listener listen_ok accept_ok s =
    if listen_ok then (if accept_ok then some s else none) else none

unfoldable pub gn_tcp_get_video_pts : Tcp → ℕ
gn_tcp_get_video_pts s = s.video_pts

unfoldable pub gn_tcp_get_audio_pts : Tcp → ℕ
gn_tcp_get_audio_pts s = s.audio_pts

-- Bytes 4 to 7 are a start code and the stream's number.
unfoldable pub starts_stream : ℕ → List ℕ → Bool
starts_stream stream pkt =
    byte_at pkt 4 == 0x00
    && byte_at pkt 5 == 0x00
    && byte_at pkt 6 == 0x01
    && byte_at pkt 7 == stream

-- `isVideo`
unfoldable pub is_video : Tcp → Bool
unfolding starts_stream
is_video s = starts_stream 0xe0 (s.video.slots s.video.head)

-- `isAudio`
unfoldable pub is_audio : Tcp → Bool
unfolding starts_stream
is_audio s = starts_stream 0xc0 (s.audio.slots s.audio.head)

-- `isVideoEmpty`
unfoldable pub is_video_empty : Tcp → Bool
unfolding is_empty
is_video_empty s = is_empty s.video

-- `isAudioEmpty`
unfoldable pub is_audio_empty : Tcp → Bool
unfolding is_empty
is_audio_empty s = is_empty s.audio

-- `gn_tcp_put`. On a full queue it prints forever: `none`.
unfoldable pub gn_tcp_put : List ℕ → Tcp → Option Tcp
unfolding is_full push
gn_tcp_put bytes s =
    if is_full tcp_buffer_nums s.video
    then none
    else some (record s { video = push tcp_buffer_nums s.video (take 188 bytes) })

-- `gn_tcp_audio_put`, likewise.
unfoldable pub gn_tcp_audio_put : List ℕ → Tcp → Option Tcp
unfolding is_full push
gn_tcp_audio_put bytes s =
    if is_full tcp_buffer_nums s.audio
    then none
    else some (record s { audio = push tcp_buffer_nums s.audio (take 188 bytes) })

-- What a call of a send function comes to.
pub data Sending : Type 0 where
  -- the queue is empty: it returns no defined value
  idle : Sending
  -- it returns `length`
  sent : ℕ → Tcp → Sending
  -- `send` returned -1: `exit(1)`
  exits : Sending

-- `gn_tcp_send`, given the result of `send`: how many bytes it takes, or -1 as `none`.
unfoldable pub gn_tcp_send : Option ℕ → Tcp → Sending
unfolding is_empty starts_stream pop
gn_tcp_send result s =
    let pkt = s.video.slots s.video.head in
    let pts = if starts_stream 0xe0 pkt then tcp_get_pts (drop 0x0d pkt) else s.video_pts in
    if is_empty s.video then idle else elim result [
      | none ↦ exits
      | some n ↦ sent n (record s {
        video = pop tcp_buffer_nums s.video;
        video_pts = pts;
        taken = s.taken ++ (video_channel, take n pkt) ∷ [];
      })
    ]

-- `gn_tcp_audio_send`
unfoldable pub gn_tcp_audio_send : Option ℕ → Tcp → Sending
unfolding is_empty starts_stream pop
gn_tcp_audio_send result s =
    let pkt = s.audio.slots s.audio.head in
    let pts = if starts_stream 0xc0 pkt then tcp_get_pts (drop 0x0d pkt) else s.audio_pts in
    if is_empty s.audio then idle else elim result [
      | none ↦ exits
      | some n ↦ sent n (record s {
        audio = pop tcp_buffer_nums s.audio;
        audio_pts = pts;
        taken = s.taken ++ (audio_channel, take n pkt) ∷ [];
      })
    ]
