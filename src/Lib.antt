-- ===== src/Lib.antt =====
-- Verification of dvb_stream_v1: a DVB-T receiver that decodes one programme, encodes its video anew and
-- streams it, with the received audio, to one network client. There are two programs, mycode/ and the
-- older simple/, which shares several files with it.
--
-- In mycode/, `thread_input` reads transport stream packets from the demultiplexer device
-- (mpi_decoder.c), parses them (ts_packet.c), gives video to the decoder and audio and tables to the
-- queues of gn_tcp.c. `thread_output` takes decoded frames and scales them into a ring of frames
-- (main.c); `thread_encoder` encodes them (mpi_encoder.c) and packs each access unit into transport
-- stream packets with new time stamps (conver_format.c), which go to the video queue; `rtp_sender` sends
-- both queues to the client. gn_rtp.c is an alternative to gn_tcp.c that sends RTP.
--
-- Base and below: lists, Boolean tests, machine words and bit masks that all files share.
-- Ts: mycode/ts_packet.h and ts_packet.c (simple/ has the same text). `ts_packet_init` is a function from
--   the buffer to `Parsed`: the packet, -1, or the write past `payload.data`.
-- Pts: the time stamp counters of conver_format.c (`get_pts`, of mycode and of simple) and mpi_decoder.c
--   (`get_audio_pts`, `get_video_pts`), their five-byte form, and `tcp_get_pts` of gn_tcp.c. The `float`
--   in which the counters are advanced is modelled exactly.
-- Mux: conver_format.c, from an access unit to transport stream packets: `h264_to_ts` with its loop
--   (`packets`), the body of the loop (`round`) and the functions that it calls.
-- Ring: the circular arrays that gn_tcp.c and gn_rtp.c keep for each of their queues.
-- Tcp, Rtp: gn_tcp.c and gn_rtp.c. A state holds the queues, the counters and what has been handed to the
--   socket; a sequence of calls (`Call`, `run`) is any interleaving of the threads' calls.
-- Demux: `decoder_read_ts_packet` of mpi_decoder.c.
-- Cfg, Dvb: dvbcfg_common.c and gn_dvb.c, from the channel file to the tuned device.
-- Frames: the ring of frames of main.c, between the decoder's and the encoder's thread, as calls and, in
--   Frames.Threads, as single stores in any interleaving (`move`, `moves`).
-- Output: `ts`, `frame_packet` and `rtp_sender` of main.c.
-- Decoder: the life of the decoder of mpi_decoder.c, with the calls of the MPP library as results.
-- FrameInit, Encoder: mpi_frame_init.c and mpi_encoder.c, with the calls of the MPP library as results.
-- Program: the threads of mycode/main.c as a whole (`thread_input`, `thread_output`, `thread_encoder`), each
--   over the components that it calls, their chain from the decoder to the client in Program.Pipeline, and
--   the start in `main`.
-- Simple: what differs in simple/: the frames' array with flags of simple/main.c, whose two threads are
--   interleaved step by step (`turn`, `run`), and the file reader of simple/mpi_decoder.c.
--
-- Conventions. The programs are built for AArch64 Linux: `char` is unsigned, `long` and `size_t` have 64
-- bits, and floats are not computed in excess precision. A byte is a natural number, with `IsByte` as a
-- hypothesis where the bound matters; wrap-around is written out (`u8`, `u16`, `u32`, `u64`). Results of
-- system calls and of the MPP, RGA and socket libraries are arguments. A call that ends the process or
-- never returns gives `none`. A store outside an array is recorded or ends the call with a result of its
-- own, and a read outside an array gives an arbitrary byte. Calls of the threads are taken to be atomic.
--
-- In Simple and in Frames.Threads the two threads may stop between any two accesses to what they share; the
-- accesses take place in the order in which the code has them.
--
-- Not modelled: calculate_fps and the log of the frame rate, in `float`, which nothing else reads; what the
-- libraries do with the memory of frames and packets; read_file, put_data and decoder_read_packet of mycode/,
-- which nothing calls or which are empty; the opening of the files that the packets and
-- the encoder's output go to, whose results are not tested.
-- include/ and lib/ are other projects' code.
--
-- Fuel. `packets` has one unit more than the access unit has bytes, and each round moves on by at least
-- one byte; `copy_payload` has as many units as `payload.data` has bytes, and reports a write past them;
-- `excess_bits` has 80, for numbers below 2^77.
pub mod Base
pub mod Ts
pub mod Pts
pub mod Mux
pub mod Ring
pub mod Tcp
pub mod Rtp
pub mod Demux
pub mod Cfg
pub mod Dvb
pub mod FrameInit
pub mod Frames
pub mod Output
pub mod Decoder
pub mod Encoder
pub mod Program
pub mod Simple
