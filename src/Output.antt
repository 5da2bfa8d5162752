-- ===== src/Output.antt =====
-- mycode/main.c: from the encoder to the client. `frame_packet` turns an access unit into packets, `ts`
-- takes each of them to the file and to the queue of gn_tcp.c, `rtp_sender` sends both queues.
pub mod Units
pub mod Sender
mod Tests
use dvb_stream_v.Base.{ℕ, zero, suc, Option, none, some, List, [], ◌∷◌, ◌++◌, take}
use dvb_stream_v.Mux.{h264_to_ts, Statics, Emitted}
use dvb_stream_v.Tcp.{gn_tcp_put, gn_tcp_send, gn_tcp_audio_send, Tcp}
use dvb_stream_v.Tcp.Queues.{after_send}

-- The packets that `fwrite` has been given, and the queues.
pub record Output : Type 0 where
  pub file : List (List ℕ)
  pub tcp : Tcp

-- `ts`, the callback of `h264_to_ts`. `none`: `gn_tcp_put` does not return.
unfoldable pub ts : List ℕ → Output → Option Output
unfolding gn_tcp_put
ts packet o = elim (gn_tcp_put packet o.tcp) [
  | none ↦ none
  | some t ↦ some (record { file = o.file ++ take 188 packet ∷ []; tcp = t })
]

-- The calls of the callback, in order.
unfoldable pub ts_each : List Emitted → Output → Option Output
unfolding ts
ts_each [] o = some o
ts_each (e ∷ es) o = elim (ts e.packet o) [ none ↦ none | some o' ↦ ts_each es o' ]

-- `frame_packet`: `video_pid` is `program[channel].video_pid`, `header` is `encoder->packet_header`.
unfoldable pub frame_packet : ℕ → ℕ → List ℕ → List ℕ → Statics → Output → Option (Statics × Output)
unfolding h264_to_ts ts_each
frame_packet stray video_pid packet header s o = elim (h264_to_ts stray video_pid s packet header) [
  | none ↦ none
  | some (es, s') ↦ elim (ts_each es o) [ none ↦ none | some o' ↦ some (s', o') ]
]

-- A round of `rtp_sender`, given what `send` returns in its two calls. `none`: the process ends.
unfoldable pub rtp_sender_round : Option ℕ → Option ℕ → Tcp → Option Tcp
unfolding after_send gn_tcp_send gn_tcp_audio_send
rtp_sender_round video_result audio_result s = elim (after_send s (gn_tcp_send video_result s)) [
  | none ↦ none
  | some t ↦ after_send t (gn_tcp_audio_send audio_result t)
]

-- Rounds in which `send` takes whole packets.
unfoldable pub rtp_sender : ℕ → Tcp → Option Tcp
unfolding rtp_sender_round
rtp_sender zero s = some s
rtp_sender (suc n) s = elim (rtp_sender_round (some 188) (some 188) s) [
  | none ↦ none
  | some t ↦ rtp_sender n t
]
