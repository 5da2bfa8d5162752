-- ===== src/Demux/Gate.antt =====
-- The gate for audio of `decoder_read_ts_packet`, over any sequence of reads.

use mathlib.Core.Option.{some-injective}
use dvb_stream_v.Base.{
  ℕ, ◌≡◌, sym, ap, ◌∙◌, ◌⊎◌, inl, inr, false, Option, none, some, List, [], ◌∷◌, Option-cases, All,
}
use dvb_stream_v.Tcp.{gn_tcp_audio_put, Tcp}
use dvb_stream_v.Demux.{filled, decoder_read_ts_packet, Demux}
use dvb_stream_v.Demux.Shut.{after_reading, IsTable, Shut-read}

-- Calls of `decoder_read_ts_packet` one after the other, each with what `read` stores.
unfoldable pub read_all : ℕ → List (List ℕ) → Demux → Option Demux
unfolding after_reading
read_all pid [] s = some s
read_all pid (bytes ∷ more) s = elim (after_reading (decoder_read_ts_packet pid bytes s)) [
  | none ↦ none
  | some s' ↦ read_all pid more s'
]

-- Packets that are put into the audio queue one after the other.
unfoldable pub put_all : List (List ℕ) → Tcp → Option Tcp
put_all [] t = some t
put_all (q ∷ qs) t = elim (gn_tcp_audio_put q t) [ none ↦ none | some t' ↦ put_all qs t' ]

-- The gate never shuts again.
stays_shut :
    (pid : ℕ) (reads : List (List ℕ)) (s s' : Demux)
    → read_all pid reads s ≡ some s'
    → s'.is_write_audio ≡ false
    → s.is_write_audio ≡ false
unfolding read_all filled
stays_shut pid [] s s' e shut = ap (λ (t : Demux). t.is_write_audio) (some-injective s s' e) ∙ shut
stays_shut pid (bytes ∷ more) s s' e shut =
    elim (Option-cases (after_reading (decoder_read_ts_packet pid bytes s))) [
      | inl stops ↦ absurd (cc (rw (stops, read_all) at e))
      | inr (t, goes) ↦
          let rest : read_all pid more t ≡ some s' = rw (goes, read_all) at e in
          (Shut-read pid bytes s t (stays_shut pid more t s' rest shut) goes).was_shut
    ]

-- What one step has queued, in front of what the others have.
queue_step :
    (pid : ℕ) (s t : Demux) (qs : List (List ℕ)) (end : Tcp)
    → (t.tcp ≡ s.tcp) ⊎ (IsTable pid t.buf × (gn_tcp_audio_put t.buf s.tcp ≡ some t.tcp))
    → All (IsTable pid) qs
    → put_all qs t.tcp ≡ some end
    → (rs : List (List ℕ)) × All (IsTable pid) rs × (put_all rs s.tcp ≡ some end)
unfolding put_all
queue_step pid s t qs end (inl same) tables puts = (qs, tables, rw same at puts)
queue_step pid s t qs end (inr (table, put)) tables puts =
    (t.buf ∷ qs, (table, tables), rw (put, put_all) puts)

-- As long as the gate is shut, only packets of the tables have gone into the audio queue, in order, and
-- no audio time stamp has been given out: for every sequence of reads that returns.
pub read_all-tables :
    (pid : ℕ) (reads : List (List ℕ)) (s s' : Demux)
    → read_all pid reads s ≡ some s'
    → s'.is_write_audio ≡ false
    → (s'.audio_counter ≡ s.audio_counter)
      × ((qs : List (List ℕ)) × All (IsTable pid) qs × (put_all qs s.tcp ≡ some s'.tcp))
unfolding read_all put_all filled
read_all-tables pid [] s s' e shut =
    let same : s ≡ s' = some-injective s s' e in
    (ap (λ (t : Demux). t.audio_counter) (sym same), ([], tt, ap (λ (t : Demux). some t.tcp) same))
read_all-tables pid (bytes ∷ more) s s' e shut =
    elim (Option-cases (after_reading (decoder_read_ts_packet pid bytes s))) [
      | inl stops ↦ absurd (cc (rw (stops, read_all) at e))
      | inr (t, goes) ↦
          let rest : read_all pid more t ≡ some s' = rw (goes, read_all) at e in
          let closed = stays_shut pid more t s' rest shut in
          let first = Shut-read pid bytes s t closed goes in
          let (counter, (qs, tables, puts)) = read_all-tables pid more t s' rest shut in
          (counter ∙ first.counter, queue_step pid s t qs s'.tcp first.queued tables puts)
    ]
