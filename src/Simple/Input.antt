-- ===== src/Simple/Input.antt =====
-- simple/mpi_decoder.c and `thread_input` of simple/main.c: the input file is read in pieces of
-- `packet_size` bytes, over and over, and each piece is offered to the decoder until it is taken.
--
-- The file is a regular one: `fread` comes short, and sets the file's end mark, only at the end.
pub mod Cycle
use dvb_stream_v.Cfg.{minus_one}
use dvb_stream_v.Base.{
  ℕ, ◌+◌, Bool, ◌||◌, not, List, [], ◌∷◌, ltb, ◌==◌, if◌then◌else◌, length, take, drop, u64,
}

-- What the MPP packet holds from its position on, and its end mark.
pub record Packet : Type 0 where
  pub bytes : List ℕ
  pub eos : Bool

-- The fields of `DecoderData` that reading uses; `content` is the file, `unread` the part of it behind
-- the file's position.
pub record Reader : Type 0 where
  pub content : List ℕ
  pub unread : List ℕ
  pub packet : Packet
  pub packet_size : ℕ
  pub packet_count : ℕ
  pub pkt_eos : ℕ

-- `decoder_read_packet`, whose result is `pkt_eos`.
unfoldable pub decoder_read_packet : Reader → Reader
decoder_read_packet r =
    let read = take r.packet_size r.unread in
    let read_size = length read in
    let feof = ltb read_size r.packet_size in
    let ended = not (read_size == r.packet_size) || feof in
    record r {
      unread = if ended then r.content else drop r.packet_size r.unread;
      packet = record { bytes = read; eos = ended };
      packet_count = u64 (r.packet_count + 1);
      pkt_eos = if ended then 1 else 0;
    }

-- `decoder_read_ts_packet` of simple, whose body is commented out.
unfoldable pub decoder_read_ts_packet : Reader → ℕ → ℕ
decoder_read_ts_packet r pid = minus_one

-- `thread_input`, given what `decoder_put_packet` returns in its calls: the packets that the decoder takes,
-- and the reader. A packet that is refused is offered again, one that is taken is followed by the next.
unfoldable pub put_packets : List ℕ → Reader → List Packet × Reader
unfolding decoder_read_packet
put_packets [] r = ([], r)
put_packets (ret ∷ rets) r =
    let (taken, r') = put_packets rets (if ret == 0 then decoder_read_packet r else r) in
    (if ret == 0 then r.packet ∷ taken else taken, r')

unfoldable pub thread_input : List ℕ → Reader → List Packet × Reader
unfolding decoder_read_packet put_packets
thread_input rets r = put_packets rets (decoder_read_packet r)
