-- ===== src/Program/Input.antt =====
-- mycode/main.c, `thread_input`: packets are read from the demultiplexer, and a packet that is ready is offered
-- to the decoder until it is taken.
use dvb_stream_v.Base.{
  ℕ, Bool, true, false, ◌||◌, Option, none, some, List, [], ◌∷◌, ◌==◌, take, drop,
}
use dvb_stream_v.Demux.{decoder_read_ts_packet, Demux, ready, again, stuck, undefined}

-- A round of the loop: the bytes that `read` stores, and what the calls of `decoder_put_packet` return.
pub record InputRound : Type 0 where
  pub bytes : List ℕ
  pub rets : List ℕ

-- `do { ... } while (!pkt_done)`: whether a call succeeds. If none does, the loop goes on.
unfoldable pub put_until_done : List ℕ → Bool
put_until_done [] = false
put_until_done (ret ∷ rets) = ret == 0 || put_until_done rets

-- What the MPP packet holds when it is handed over.
abbrev pub packet_bytes : Demux → List ℕ
packet_bytes d = take d.packet_length (drop d.packet_pos d.buf)

-- The rounds of `thread_input`; `pid` is that of the video. The result is what the decoder has taken, and the
-- state. `none`: a round does not return, runs into undefined behaviour, or is still offering its packet.
unfoldable pub thread_input : ℕ → List InputRound → Demux → Option (List (List ℕ) × Demux)
thread_input pid [] d = some ([], d)
thread_input pid (r ∷ rs) d = elim (decoder_read_ts_packet pid r.bytes d) [
  | ready d' ↦ elim (put_until_done r.rets) [
    | false ↦ none
    | true ↦ elim (thread_input pid rs d') [
      | none ↦ none
      | some (taken, last) ↦ some (packet_bytes d' ∷ taken, last)
    ]
  ]
  | again d' ↦ thread_input pid rs d'
  | stuck ↦ none
  | undefined ↦ none
]
