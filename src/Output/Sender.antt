-- ===== src/Output/Sender.antt =====
-- The rounds of `rtp_sender` of mycode/main.c, and what the client is given in them.
use dvb_stream_v.Base.{
  ℕ, zero, suc, ◌-◌, ◌≤◌, ◌<◌, ◌≡◌, refl, sym, ◌∙◌, inl, inr, true, false, some, List, [], ◌∷◌,
  ◌++◌, append-nil, arith, Bool-cases, Option-cases, length, All,
}
use dvb_stream_v.Ring.{is_empty, pop, Ring}
use dvb_stream_v.Ring.Contents.{
  size, contents, length-contents, pop-IsValid, size-pop, is_empty_lem, IsValid,
}
use dvb_stream_v.Tcp.{
  tcp_buffer_nums, gn_tcp_send, gn_tcp_audio_send, Channel, Tcp, Sending, video_channel,
  audio_channel, sent,
}
use dvb_stream_v.Tcp.Queues.{
  after_send, step, run, puts, taken_of, IsWhole, IsShort, Call, send_video, send_audio,
}
use dvb_stream_v.Tcp.Delivery.{run-FlowsBoth}
use dvb_stream_v.Output.{rtp_sender_round, rtp_sender}

-- What one send has done to a queue: an element less, if there was one.
record Shorter (r r' : Ring (List ℕ)) : Type 0 where
  valid : IsValid tcp_buffer_nums r'
  less : size tcp_buffer_nums r' ≡ size tcp_buffer_nums r - 1

Shorter-pop :
    (r : Ring (List ℕ))
    → IsValid tcp_buffer_nums r
    → is_empty r ≡ false
    → Shorter r (pop tcp_buffer_nums r)
Shorter-pop r v more =
    let empty = is_empty_lem tcp_buffer_nums r v in
    let some_left : 0 < size tcp_buffer_nums r = ground arith in
    let fewer = size-pop tcp_buffer_nums r v some_left in
    record { valid = pop-IsValid tcp_buffer_nums r v; less = omega (arith, fewer) }

Shorter-empty : (r : Ring (List ℕ)) → IsValid tcp_buffer_nums r → is_empty r ≡ true → Shorter r r
Shorter-empty r v e =
    let empty = is_empty_lem tcp_buffer_nums r v in
    let nothing : size tcp_buffer_nums r ≡ 0 = ground arith in
    record { valid = v; less = omega (arith, nothing) }

abbrev state_of : Tcp → Sending → Tcp
state_of s (sent n s') = s'
state_of s other = s

video_turn :
    (s : Tcp)
    → IsValid tcp_buffer_nums s.video
    → (t : Tcp) × (after_send s (gn_tcp_send (some 188) s) ≡ some t)
      × Shorter s.video t.video
      × (t.audio ≡ s.audio)
unfolding after_send gn_tcp_send
video_turn s v = elim (Bool-cases (is_empty s.video)) [
  | inl e ↦ (s, rw e refl, Shorter-empty s.video v e, refl)
  | inr more ↦ (
    state_of s (gn_tcp_send (some 188) s),
    rw more refl,
    rw more (Shorter-pop s.video v more),
    rw more refl,
  )
]

audio_turn :
    (s : Tcp)
    → IsValid tcp_buffer_nums s.audio
    → (t : Tcp) × (after_send s (gn_tcp_audio_send (some 188) s) ≡ some t)
      × Shorter s.audio t.audio
      × (t.video ≡ s.video)
unfolding after_send gn_tcp_audio_send
audio_turn s v = elim (Bool-cases (is_empty s.audio)) [
  | inl e ↦ (s, rw e refl, Shorter-empty s.audio v e, refl)
  | inr more ↦ (
    state_of s (gn_tcp_audio_send (some 188) s),
    rw more refl,
    rw more (Shorter-pop s.audio v more),
    rw more refl,
  )
]

-- A round.
round_lem :
    (s : Tcp)
    → IsValid tcp_buffer_nums s.video
    → IsValid tcp_buffer_nums s.audio
    → (t : Tcp) × (rtp_sender_round (some 188) (some 188) s ≡ some t)
      × Shorter s.video t.video
      × Shorter s.audio t.audio
unfolding rtp_sender_round
round_lem s v a =
    let (t, first, video, same) = video_turn s v in
    let (u, second, audio, kept) = audio_turn t (rw same a) in
    (u, rw (first, rtp_sender_round) second, rw kept video, rw same at audio)

-- As many rounds of `rtp_sender` as packets wait in the longer queue empty both, if `send` takes whole
-- packets and nothing is put in between; further rounds leave them empty.
rtp_sender-empties :
    (n : ℕ) (s : Tcp)
    → IsValid tcp_buffer_nums s.video
    → IsValid tcp_buffer_nums s.audio
    → length (contents tcp_buffer_nums s.video) ≤ n
    → length (contents tcp_buffer_nums s.audio) ≤ n
    → (t : Tcp) × (rtp_sender n s ≡ some t)
      × (length (contents tcp_buffer_nums t.video) ≡ 0)
      × (length (contents tcp_buffer_nums t.audio) ≡ 0)
unfolding rtp_sender
rtp_sender-empties zero s v a hv ha = (s, refl, omega arith, omega arith)
rtp_sender-empties (suc n) s v a hv ha =
    let (t, run, video, audio) = round_lem s v a in
    let lv = length-contents tcp_buffer_nums s.video in
    let la = length-contents tcp_buffer_nums s.audio in
    let lv' = length-contents tcp_buffer_nums t.video in
    let la' = length-contents tcp_buffer_nums t.audio in
    let (u, rest, no_video, no_audio) =
      rtp_sender-empties n t video.valid audio.valid (omega (arith, lv, lv', video.less))
        (omega (arith, la, la', audio.less)) in
    (u, rw (run, rtp_sender) rest, no_video, no_audio)

-- A round is a call of each of the two functions.
abbrev round_calls : List Call
round_calls = send_video (some 188) ∷ send_audio (some 188) ∷ []

abbrev sender_calls : ℕ → List Call
sender_calls zero = []
sender_calls (suc n) = round_calls ++ sender_calls n

sender_calls-IsWhole : (n : ℕ) → All IsWhole (sender_calls n)
sender_calls-IsWhole zero = tt
sender_calls-IsWhole (suc n) = (omega arith, (omega arith, sender_calls-IsWhole n))

puts-sender_calls : (n : ℕ) (c : Channel) → puts c (sender_calls n) ≡ []
puts-sender_calls zero c = refl
puts-sender_calls (suc n) video_channel = puts-sender_calls n video_channel
puts-sender_calls (suc n) audio_channel = puts-sender_calls n audio_channel

rtp_sender-eq-run : (n : ℕ) (s : Tcp) → rtp_sender n s ≡ run s (sender_calls n)
unfolding rtp_sender run step rtp_sender_round
rtp_sender-eq-run zero s = refl
rtp_sender-eq-run (suc n) s = elim (Option-cases (after_send s (gn_tcp_send (some 188) s))) [
  | inl ends ↦ rw (ends, rtp_sender, run) refl
  | inr (t, first) ↦ elim (Option-cases (after_send t (gn_tcp_audio_send (some 188) t))) [
    | inl ends ↦ rw (first, rtp_sender, run) (rw (ends, rtp_sender, run) refl)
    | inr (u, second) ↦
        rw (first, rtp_sender, run) (rw (second, rtp_sender, run) (rtp_sender-eq-run n u))
  ]
]

none_left : (xs : List (List ℕ)) → length xs ≡ 0 → xs ≡ []
none_left [] e = refl
none_left (x ∷ xs) e = absurd (omega arith)

all_out :
    (out left given new : List (List ℕ))
    → left ≡ []
    → new ≡ []
    → out ++ left ≡ given ++ new
    → out ≡ given
all_out out left given new none_stays none_comes e =
    rw (none_stays, none_comes, append-nil out, append-nil given) at e

-- As many rounds of `rtp_sender` as packets wait in the longer queue, with nothing put in between: if
-- `send` takes whole packets, the client is given all that waits in each queue, in order, and both
-- queues are empty.
pub rtp_sender-delivers :
    (n : ℕ) (s : Tcp)
    → IsValid tcp_buffer_nums s.video
    → IsValid tcp_buffer_nums s.audio
    → All IsShort (contents tcp_buffer_nums s.video)
    → All IsShort (contents tcp_buffer_nums s.audio)
    → length (contents tcp_buffer_nums s.video) ≤ n
    → length (contents tcp_buffer_nums s.audio) ≤ n
    → (t : Tcp) × (rtp_sender n s ≡ some t)
      × (contents tcp_buffer_nums t.video ≡ [])
      × (contents tcp_buffer_nums t.audio ≡ [])
      × (taken_of video_channel t.taken
          ≡ taken_of video_channel s.taken ++ contents tcp_buffer_nums s.video)
      × (taken_of audio_channel t.taken
          ≡ taken_of audio_channel s.taken ++ contents tcp_buffer_nums s.audio)
rtp_sender-delivers n s v a short_v short_a few_v few_a =
    let (t, sends, no_video, no_audio) = rtp_sender-empties n s v a few_v few_a in
    let (video, audio) =
      run-FlowsBoth (sender_calls n) s t _ _ (sender_calls-IsWhole n)
        (sym (rtp_sender-eq-run n s) ∙ sends)
        (
          record { valid = v; short = short_v; all_there = refl },
          record { valid = a; short = short_a; all_there = refl },
        ) in
    let left = none_left _ no_video in
    let left' = none_left _ no_audio in
    (
      t,
      sends,
      left,
      left',
      all_out _ _ _ _ left (puts-sender_calls n video_channel) video.all_there,
      all_out _ _ _ _ left' (puts-sender_calls n audio_channel) audio.all_there,
    )
