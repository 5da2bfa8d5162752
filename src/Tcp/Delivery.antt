-- ===== src/Tcp/Delivery.antt =====
-- What the TCP client is given, over any sequence of calls.
use mathlib.Core.Option.{some-injective}
use dvb_stream_v.Base.{
  ℕ, ◌≤◌, ◌≡◌, refl, sym, ap, ◌⊎◌, inl, inr, false, Option, none, some, List, [], ◌∷◌, ◌++◌,
  append-nil, append_assoc, arith, Bool-cases, Option-cases, take, All,
}
use dvb_stream_v.Ring.{is_empty, is_full, push, pop}
use dvb_stream_v.Ring.Contents.{contents}
use dvb_stream_v.Tcp.{
  tcp_buffer_nums, fresh, gn_tcp_put, gn_tcp_audio_put, gn_tcp_send, gn_tcp_audio_send, Channel,
  Tcp, video_channel, audio_channel,
}
use dvb_stream_v.Tcp.Queues.{
  step, run, puts, taken_of, IsWhole, taken_of-append, Flows-push, Flows-pop, Call, Flows,
  put_video, put_audio, send_video, send_audio,
}

-- What a call that returns has done to the state.
put_video_lem :
    (p : List ℕ) (s s' : Tcp)
    → gn_tcp_put p s ≡ some s'
    → (is_full tcp_buffer_nums s.video ≡ false)
      × (s' ≡ record s { video = push tcp_buffer_nums s.video (take 188 p) })
unfolding gn_tcp_put
put_video_lem p s s' h = elim (Bool-cases (is_full tcp_buffer_nums s.video)) [
  | inl full ↦ absurd (cc (rw full at h))
  | inr room ↦ (room, sym (some-injective _ _ (rw room at h)))
]

put_audio_lem :
    (p : List ℕ) (s s' : Tcp)
    → gn_tcp_audio_put p s ≡ some s'
    → (is_full tcp_buffer_nums s.audio ≡ false)
      × (s' ≡ record s { audio = push tcp_buffer_nums s.audio (take 188 p) })
unfolding gn_tcp_audio_put
put_audio_lem p s s' h = elim (Bool-cases (is_full tcp_buffer_nums s.audio)) [
  | inl full ↦ absurd (cc (rw full at h))
  | inr room ↦ (room, sym (some-injective _ _ (rw room at h)))
]

-- A send function's effect on the fields that the queues are about.
abbrev video_sent : Tcp → ℕ → ℕ → Tcp
video_sent s n pts = record s {
  video = pop tcp_buffer_nums s.video;
  video_pts = pts;
  taken = s.taken ++ (video_channel, take n (s.video.slots s.video.head)) ∷ [];
}

abbrev audio_sent : Tcp → ℕ → ℕ → Tcp
audio_sent s n pts = record s {
  audio = pop tcp_buffer_nums s.audio;
  audio_pts = pts;
  taken = s.taken ++ (audio_channel, take n (s.audio.slots s.audio.head)) ∷ [];
}

send_video_lem :
    (r : Option ℕ) (s s' : Tcp)
    → step s (send_video r) ≡ some s'
    → (s' ≡ s)
      ⊎ ((n : ℕ) × (pts : ℕ) × (r ≡ some n)
          × (is_empty s.video ≡ false)
          × (s' ≡ video_sent s n pts))
unfolding step gn_tcp_send
send_video_lem none s s' h = elim (Bool-cases (is_empty s.video)) [
  | inl empty ↦ inl (sym (some-injective _ _ (rw empty at h)))
  | inr more ↦ absurd (cc (rw more at h))
]
send_video_lem (some n) s s' h = elim (Bool-cases (is_empty s.video)) [
  | inl empty ↦ inl (sym (some-injective _ _ (rw empty at h)))
  | inr more ↦ inr (n, _, refl, more, sym (some-injective _ _ (rw more at h)))
]

send_audio_lem :
    (r : Option ℕ) (s s' : Tcp)
    → step s (send_audio r) ≡ some s'
    → (s' ≡ s)
      ⊎ ((n : ℕ) × (pts : ℕ) × (r ≡ some n)
          × (is_empty s.audio ≡ false)
          × (s' ≡ audio_sent s n pts))
unfolding step gn_tcp_audio_send
send_audio_lem none s s' h = elim (Bool-cases (is_empty s.audio)) [
  | inl empty ↦ inl (sym (some-injective _ _ (rw empty at h)))
  | inr more ↦ absurd (cc (rw more at h))
]
send_audio_lem (some n) s s' h = elim (Bool-cases (is_empty s.audio)) [
  | inl empty ↦ inl (sym (some-injective _ _ (rw empty at h)))
  | inr more ↦ inr (n, _, refl, more, sym (some-injective _ _ (rw more at h)))
]

-- Both queues, against what was given to them.
abbrev pub FlowsBoth : Tcp → List (List ℕ) → List (List ℕ) → Type 0
FlowsBoth s v a =
    Flows s.video (taken_of video_channel s.taken) v
    × Flows s.audio (taken_of audio_channel s.taken) a

step-FlowsBoth :
    (s s' : Tcp) (c : Call) (v a : List (List ℕ))
    → IsWhole c
    → step s c ≡ some s'
    → FlowsBoth s v a
    → FlowsBoth s' (v ++ puts video_channel (c ∷ [])) (a ++ puts audio_channel (c ∷ []))
unfolding step
step-FlowsBoth s s' (put_video p) v a w h f =
    let (room, e) = put_video_lem p s s' h in
    rw (e, append-nil a) (Flows-push s.video _ v p room f.0, f.1)
step-FlowsBoth s s' (put_audio p) v a w h f =
    let (room, e) = put_audio_lem p s s' h in
    rw (e, append-nil v) (f.0, Flows-push s.audio _ a p room f.1)
step-FlowsBoth s s' (send_video none) v a w h f = elim (send_video_lem none s s' h) [
  | inl e ↦ rw (e, append-nil v, append-nil a) f
  | inr (n, pts, none_some, more, e) ↦ absurd (cc)
]
step-FlowsBoth s s' (send_video (some m)) v a w h f = elim (send_video_lem (some m) s s' h) [
  | inl e ↦ rw (e, append-nil v, append-nil a) f
  | inr (n, pts, same, more, e) ↦
      let whole : 188 ≤ n = omega (arith, some-injective m n same) in
      rw
        (
          e,
          append-nil v,
          append-nil a,
          taken_of-append video_channel s.taken _,
          taken_of-append audio_channel s.taken _,
          append-nil,
        )
        (Flows-pop s.video _ v n more whole f.0, f.1)
]
step-FlowsBoth s s' (send_audio none) v a w h f = elim (send_audio_lem none s s' h) [
  | inl e ↦ rw (e, append-nil v, append-nil a) f
  | inr (n, pts, none_some, more, e) ↦ absurd (cc)
]
step-FlowsBoth s s' (send_audio (some m)) v a w h f = elim (send_audio_lem (some m) s s' h) [
  | inl e ↦ rw (e, append-nil v, append-nil a) f
  | inr (n, pts, same, more, e) ↦
      let whole : 188 ≤ n = omega (arith, some-injective m n same) in
      rw
        (
          e,
          append-nil v,
          append-nil a,
          taken_of-append video_channel s.taken _,
          taken_of-append audio_channel s.taken _,
          append-nil,
        )
        (f.0, Flows-pop s.audio _ a n more whole f.1)
]

puts-append : (c : Channel) (xs ys : List Call) → puts c (xs ++ ys) ≡ puts c xs ++ puts c ys
puts-append c [] ys = refl
puts-append video_channel (put_video p ∷ xs) ys =
    ap (◌∷◌ (take 188 p)) (puts-append video_channel xs ys)
puts-append audio_channel (put_audio p ∷ xs) ys =
    ap (◌∷◌ (take 188 p)) (puts-append audio_channel xs ys)
puts-append audio_channel (put_video p ∷ xs) ys = puts-append audio_channel xs ys
puts-append video_channel (put_audio p ∷ xs) ys = puts-append video_channel xs ys
puts-append video_channel (send_video r ∷ xs) ys = puts-append video_channel xs ys
puts-append audio_channel (send_video r ∷ xs) ys = puts-append audio_channel xs ys
puts-append video_channel (send_audio r ∷ xs) ys = puts-append video_channel xs ys
puts-append audio_channel (send_audio r ∷ xs) ys = puts-append audio_channel xs ys

pub run-FlowsBoth :
    (cs : List Call) (s s' : Tcp) (v a : List (List ℕ))
    → All IsWhole cs
    → run s cs ≡ some s'
    → FlowsBoth s v a
    → FlowsBoth s' (v ++ puts video_channel cs) (a ++ puts audio_channel cs)
unfolding run
run-FlowsBoth [] s s' v a w h f =
    let e : s' ≡ s = sym (some-injective _ _ h) in rw (e, append-nil v, append-nil a) f
run-FlowsBoth (c ∷ cs) s s' v a w h f = elim (Option-cases (step s c)) [
  | inl stuck ↦ absurd (cc (rw (stuck, run) at h))
  | inr (t, e) ↦
      let later =
        run-FlowsBoth cs t s' (v ++ puts video_channel (c ∷ [])) (a ++ puts audio_channel (c ∷ []))
          w.1 (rw (e, run) at h) (step-FlowsBoth s t c v a w.0 e f) in
      rw
        (
          puts-append video_channel (c ∷ []) cs,
          puts-append audio_channel (c ∷ []) cs,
          ← append_assoc,
          ← append_assoc,
        )
        later
]

fresh-FlowsBoth : FlowsBoth fresh [] []
unfolding fresh
fresh-FlowsBoth = (
  record { valid = omega arith; short = tt; all_there = refl },
  record { valid = omega arith; short = tt; all_there = refl },
)

-- For every sequence of puts and sends from the start, in any interleaving, that all return, with
-- sends that take whole packets: what the client has been given of a queue, followed by what is still
-- in the queue, is what was put into the queue, in order. No packet is lost, doubled or overtaken.
pub fifo :
    (cs : List Call) {s : Tcp}
    → All IsWhole cs
    → run fresh cs ≡ some s
    → (taken_of video_channel s.taken ++ contents tcp_buffer_nums s.video ≡ puts video_channel cs)
      × (taken_of audio_channel s.taken ++ contents tcp_buffer_nums s.audio ≡ puts audio_channel cs)
fifo cs {s} w h =
    let f = run-FlowsBoth cs fresh s [] [] w h fresh-FlowsBoth in (f.0.all_there, f.1.all_there)
