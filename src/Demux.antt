-- ===== src/Demux.antt =====
-- mycode/mpi_decoder.c, `decoder_read_ts_packet`: one packet is read from the demultiplexer; video goes
-- to the decoder, audio and tables to the queue of gn_tcp.c.
--
-- `read` enters as the bytes that it stores at the start of the buffer: none of them for a result of
-- 0 or -1. The MPP packet is the part of the buffer that it points to.
pub mod Branches
pub mod Video
pub mod Stamp
pub mod Plain
pub mod Audio
pub mod Shut
pub mod Gate
pub mod Before
mod Tests
use dvb_stream_v.Base.{
  ℕ, ◌+◌, Bool, true, ◌&&◌, ◌||◌, not, none, some, List, ◌++◌, ltb, ◌==◌, if◌then◌else◌, length,
  get_or, set, take, drop, u64,
}
use dvb_stream_v.Ts.{ts_packet_init, TsPacket, parsed, refused, overrun}
use dvb_stream_v.Pts.{get_audio_pts}
use dvb_stream_v.Tcp.{gn_tcp_audio_put, Tcp}

-- The static variables, the counter of `get_audio_pts`, the fields of `DecoderData` that the function
-- uses, and the queues.
pub record Demux : Type 0 where
  pub is_have_video : Bool
  pub is_write_audio : Bool
  pub video_pts : ℕ
  pub audio_counter : ℕ
  pub buf : List ℕ
  pub packet_count : ℕ
  pub packet_pos : ℕ
  pub packet_length : ℕ
  pub tcp : Tcp

-- What a call comes to.
pub data Reading : Type 0 where
  -- it returns 0: the packet is ready for the decoder
  ready : Demux → Reading
  -- it returns -1
  again : Demux → Reading
  -- `gn_tcp_audio_put` does not return
  stuck : Reading
  -- `free` of a pointer that was not set, or the write past `payload.data`: undefined in C
  undefined : Reading

-- `packet->pes_header.flag_pts == 0x80 || packet->pes_header.flag_pts == 0xc0`
unfoldable pub has_pts : TsPacket → Bool
has_pts p = p.pes_header.flag_pts == 0x80 || p.pes_header.flag_pts == 0xc0

-- `for` the five bytes of a time stamp: `p[0] = ...; ... p[4] = ...;` at `&buf[i]`
unfoldable pub store_five : List ℕ → ℕ → List ℕ → List ℕ
store_five buf i v =
    set
      (set (set (set (set buf i (get_or v 0 0)) (i + 1) (get_or v 1 0)) (i + 2) (get_or v 2 0))
        (i + 3) (get_or v 3 0))
      (i + 4) (get_or v 4 0)

-- The body of `if (packet->pes_header.flag == 1)` for audio: no length, and a time stamp of our own.
unfoldable pub restamp : TsPacket → Demux → Demux
unfolding get_audio_pts store_five
restamp p s =
    let (counter, stamp) = get_audio_pts s.audio_counter in
    if p.pes_header.flag == 1
    then record s {
      buf = store_five (set (set s.buf 0x08 0) 0x09 0) 0x0d stamp;
      audio_counter = counter;
    }
    else s

-- `gn_tcp_audio_put(data->buf)`, and the end of the function behind it.
unfoldable pub put_audio : Demux → Reading
unfolding gn_tcp_audio_put
put_audio s = elim (gn_tcp_audio_put s.buf s.tcp) [
  | none ↦ stuck
  | some t ↦ again (record s { tcp = t })
]

-- The first time stamp of the video is kept.
unfoldable pub note_video : TsPacket → Demux → Demux
unfolding has_pts
note_video p s =
    if has_pts p && not s.is_have_video
    then record s { is_have_video = true; video_pts = get_or p.pes_header.pts 2 0 }
    else s

-- The branch of `packet->ts_header.pid == pid`.
unfoldable pub on_video : TsPacket → Demux → Reading
unfolding note_video
on_video p s =
    let s' = note_video p s in
    ready (record s' {
      packet_count = u64 (s'.packet_count + 1);
      packet_pos = p.payload.payload_offset;
      packet_length = p.payload.size;
    })

-- The branch of `packet->ts_header.pid == pid + 1`.
unfoldable pub on_audio : TsPacket → Demux → Reading
unfolding has_pts restamp put_audio
on_audio p s =
    let opened = record s { is_write_audio = true } in
    if not s.is_have_video
    then again s
    else if s.is_write_audio
    then put_audio (restamp p s)
    else if has_pts p && ltb s.video_pts (get_or p.pes_header.pts 2 0)
    then put_audio (restamp p opened)
    else again s

-- The branches on the packet's PID; `pid` is that of the video.
unfoldable pub on_packet : ℕ → TsPacket → Demux → Reading
unfolding on_video on_audio put_audio
on_packet pid p s =
    if p.ts_header.pid == pid
    then on_video p s
    else if p.ts_header.pid == pid + 1
    then on_audio p s
    else if p.ts_header.pid + 1 == pid || p.ts_header.pid == 0
    then put_audio s
    else again s

-- `read(data->fp_input, data->buf, 188)`
unfoldable pub filled : List ℕ → Demux → Demux
filled bytes s = record s { buf = take 188 bytes ++ drop (length (take 188 bytes)) s.buf }

unfoldable pub decoder_read_ts_packet : ℕ → List ℕ → Demux → Reading
unfolding filled on_packet ts_packet_init
decoder_read_ts_packet pid bytes s =
    let s' = filled bytes s in
    if ltb 0 (length bytes)
    then elim (ts_packet_init s'.buf) [
      | parsed p ↦ on_packet pid p s'
      | refused ↦ undefined
      | overrun ↦ undefined
    ]
    else again s'
