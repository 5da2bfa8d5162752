-- ===== src/Program/Video.antt =====
-- What the decoder is given of the packets that are read.
use mathlib.Core.Option.{some-injective}
use dvb_stream_v.Base.{
  ℕ, ◌≤◌, ◌<◌, ◌≡◌, refl, sym, ap, ap₂, ◌∙◌, inl, inr, true, none, some, List, [], ◌∷◌, ◌++◌, ◌==◌,
  if◌then◌else◌, eq→==, Bool-cases, Option-cases, length, drop, All, All-append,
}
use dvb_stream_v.Ts.{IsByte, IsBytes, byte_at, parse_header}
use dvb_stream_v.Ts.Outcomes.{data_offset, HasPayload}
use dvb_stream_v.Demux.Video.{filled_lem, decoder_read_ts_packet-video}
use dvb_stream_v.Demux.{filled, decoder_read_ts_packet, Demux, ready, again, stuck, undefined}
use dvb_stream_v.Program.Input.{put_until_done, packet_bytes, thread_input, InputRound}
use dvb_stream_v.Program.Reads.{
  video_part, read-Reads, passes, sticks, breaks, not_video, is_video, ends_here,
}

-- The video in the packets on the PID, packet by packet.
abbrev pub videos : ℕ → List ℕ → List InputRound → List (List ℕ)
videos pid stale [] = []
videos pid stale (r ∷ rs) =
    if (parse_header (r.bytes ++ stale)).pid == pid
    then video_part stale r.bytes ∷ videos pid stale rs
    else videos pid stale rs

abbrev pub IsWholeRead : InputRound → Type 0
IsWholeRead r = (length r.bytes ≡ 188) × IsBytes r.bytes

-- The rounds of `thread_input`, by what the first of them does.
module _ (pid : ℕ) (r : InputRound) (rs : List InputRound) (d : Demux) where
  thread_input-again :
      (d1 : Demux)
      → decoder_read_ts_packet pid r.bytes d ≡ again d1
      → thread_input pid (r ∷ rs) d ≡ thread_input pid rs d1
  unfolding thread_input
  thread_input-again d1 e = rw (e, thread_input) refl

  thread_input-ready :
      (d1 d' : Demux) (taken : List (List ℕ))
      → decoder_read_ts_packet pid r.bytes d ≡ ready d1
      → thread_input pid (r ∷ rs) d ≡ some (taken, d')
      → (later : List (List ℕ)) × (thread_input pid rs d1 ≡ some (later, d'))
        × (taken ≡ packet_bytes d1 ∷ later)
  unfolding thread_input
  thread_input-ready d1 d' taken e result = elim (Bool-cases (put_until_done r.rets)) [
    | inr offered ↦ absurd (cc (rw (e, offered, thread_input) at result))
    | inl done ↦ elim (Option-cases (thread_input pid rs d1)) [
      | inl ends ↦ absurd (cc (rw (e, done, ends, thread_input) at result))
      | inr ((later, last), more) ↦
          let same : (packet_bytes d1 ∷ later, last) ≡ (taken, d') =
            some-injective (packet_bytes d1 ∷ later, last) (taken, d')
              (rw (e, done, more, thread_input) at result) in
          (
            later,
            more ∙ ap (λ (q : List (List ℕ) × Demux). some (later, q.1)) same,
            ap (λ (q : List (List ℕ) × Demux). q.0) (sym same),
          )
    ]
  ]

  thread_input-stuck :
      decoder_read_ts_packet pid r.bytes d ≡ stuck → thread_input pid (r ∷ rs) d ≡ none
  unfolding thread_input
  thread_input-stuck e = rw (e, thread_input) refl

  thread_input-undefined :
      decoder_read_ts_packet pid r.bytes d ≡ undefined → thread_input pid (r ∷ rs) d ≡ none
  unfolding thread_input
  thread_input-undefined e = rw (e, thread_input) refl

thread_input-nil : (pid : ℕ) (d : Demux) → thread_input pid [] d ≡ some ([], d)
unfolding thread_input
thread_input-nil pid d = refl

-- Whatever calls of `decoder_put_packet` fail: if all the rounds come to an end, and the packets that are
-- read are whole and made of bytes, the decoder has taken the video of the packets on the video's PID, from
-- the payload's start on, packet by packet in the order in which they were read, and nothing else. `stale` is
-- what the buffer holds behind its first 188 bytes.
pub thread_input-videos :
    (pid : ℕ) (stale : List ℕ) (rs : List InputRound) (d d' : Demux) (taken : List (List ℕ))
    → IsBytes stale
    → All IsWholeRead rs
    → drop 188 d.buf ≡ stale
    → thread_input pid rs d ≡ some (taken, d')
    → taken ≡ videos pid stale rs
thread_input-videos pid stale [] d d' taken h whole tail result =
    ap (λ (q : List (List ℕ) × Demux). q.0)
      (sym (some-injective ([], d) (taken, d') (sym (thread_input-nil pid d) ∙ result)))
thread_input-videos pid stale (r ∷ rs) d d' taken h whole tail result =
    let bytes_lem = All-append IsByte r.bytes stale whole.0.1 h in
    elim (read-Reads pid r.bytes stale whole.0.0 d tail bytes_lem) [
      | ends_here e ↦ absurd (cc (sym (thread_input-undefined pid r rs d e) ∙ result))
      | is_video d1 same e given tail1 ↦
          let (later, more, eq) = thread_input-ready pid r rs d d1 d' taken e result in
          let ih = thread_input-videos pid stale rs d1 d' later h whole.1 tail1 more in
          rw same (eq ∙ ap₂ ◌∷◌ given ih)
      | not_video other way ↦ elim way [
        | sticks e ↦ absurd (cc (sym (thread_input-stuck pid r rs d e) ∙ result))
        | breaks e ↦ absurd (cc (sym (thread_input-undefined pid r rs d e) ∙ result))
        | passes d1 e tail1 ↦ rw other (
            thread_input-videos pid stale rs d1 d' taken h whole.1 tail1
              (sym (thread_input-again pid r rs d d1 e) ∙ result))
      ]
    ]

-- A read of video whose packet the decoder takes sooner or later.
pub record IsVideoRead (pid : ℕ) (stale : List ℕ) (r : InputRound) : Type 0 where
  pub whole : IsWholeRead r
  pub on_pid : (parse_header (r.bytes ++ stale)).pid ≡ pid
  pub no_error : byte_at (r.bytes ++ stale) 1 < 128
  pub has_payload : HasPayload (r.bytes ++ stale)
  pub near : data_offset (r.bytes ++ stale) ≤ 188
  pub taken_at_last : put_until_done r.rets ≡ true

-- Rounds of video all come to an end.
pub thread_input-returns :
    (pid : ℕ) (stale : List ℕ) (rs : List InputRound) (d : Demux)
    → IsBytes stale
    → All (IsVideoRead pid stale) rs
    → drop 188 d.buf ≡ stale
    → (d' : Demux) × (thread_input pid rs d ≡ some (videos pid stale rs, d'))
unfolding thread_input
thread_input-returns pid stale [] d h good tail = (d, refl)
thread_input-returns pid stale (r ∷ rs) d h good tail =
    let g = good.0 in
    let filled_up : (filled r.bytes d).buf ≡ r.bytes ++ stale =
      filled_lem r.bytes d g.whole.0 ∙ ap (◌++◌ r.bytes) tail in
    let bytes_lem = All-append IsByte r.bytes stale g.whole.1 h in
    let (d0, is_ready, _) =
      decoder_read_ts_packet-video pid r.bytes d g.whole.0 (rw filled_up bytes_lem)
        (rw filled_up g.on_pid) (rw filled_up g.no_error) (rw filled_up g.has_payload)
        (rw filled_up g.near) in
    elim (read-Reads pid r.bytes stale g.whole.0 d tail bytes_lem) [
      | ends_here e ↦ absurd (cc (sym is_ready ∙ e))
      | not_video other way ↦ absurd (cc (sym (eq→== _ _ g.on_pid) ∙ other))
      | is_video d1 same e given tail1 ↦
          let (d', more) = thread_input-returns pid stale rs d1 h good.1 tail1 in
          (d', rw (e, g.taken_at_last, more, same, given, thread_input) refl)
    ]
