-- ===== src/Tcp/Queues.antt =====
-- The two packet queues of mycode/gn_tcp.c over any sequence of calls.

use dvb_stream_v.Base.{
  ℕ, ◌+◌, ◌≤◌, ◌<◌, ◌≡◌, refl, sym, ap, ◌∙◌, false, Option, none, some, List, [], ◌∷◌, ◌++◌,
  append_assoc, arith, length, take, All, length-take, take_all, All-append,
}
use dvb_stream_v.Ring.{is_empty, is_full, push, pop, Ring}
use dvb_stream_v.Ring.Contents.{
  size, contents, is_full_lem, size-lt, push-IsValid, pop-IsValid, contents-push, contents-pop,
  is_empty_lem, IsValid,
}
use dvb_stream_v.Tcp.{
  tcp_buffer_nums, gn_tcp_put, gn_tcp_audio_put, gn_tcp_send, gn_tcp_audio_send, Channel, Tcp,
  Sending, video_channel, audio_channel, idle, sent, exits,
}

-- A call of one of the four functions, with what `send` returns in it.
pub data Call : Type 0 where
  put_video put_audio : List ℕ → Call
  send_video send_audio : Option ℕ → Call

unfoldable pub after_send : Tcp → Sending → Option Tcp
after_send s idle = some s
after_send s (sent n s') = some s'
after_send s exits = none

-- `none`: the call does not return.
unfoldable pub step : Tcp → Call → Option Tcp
unfolding after_send
step s (put_video p) = gn_tcp_put p s
step s (put_audio p) = gn_tcp_audio_put p s
step s (send_video r) = after_send s (gn_tcp_send r s)
step s (send_audio r) = after_send s (gn_tcp_audio_send r s)

unfoldable pub run : Tcp → List Call → Option Tcp
unfolding step
run s [] = some s
run s (c ∷ cs) = elim (step s c) [ none ↦ none | some s' ↦ run s' cs ]

-- The packets given to a queue, in order.
abbrev pub puts : Channel → List Call → List (List ℕ)
puts c [] = []
puts video_channel (put_video p ∷ cs) = take 188 p ∷ puts video_channel cs
puts audio_channel (put_audio p ∷ cs) = take 188 p ∷ puts audio_channel cs
puts c (d ∷ cs) = puts c cs

-- The packets of a queue that the client has been given, in order.
abbrev pub taken_of : Channel → List (Channel × List ℕ) → List (List ℕ)
taken_of c [] = []
taken_of video_channel ((video_channel, p) ∷ ps) = p ∷ taken_of video_channel ps
taken_of audio_channel ((audio_channel, p) ∷ ps) = p ∷ taken_of audio_channel ps
taken_of c (d ∷ ps) = taken_of c ps

-- `send` takes the whole packet whenever it returns.
abbrev pub IsWhole : Call → Type 0
IsWhole (send_video (some n)) = 188 ≤ n
IsWhole (send_audio (some n)) = 188 ≤ n
IsWhole c = Unit

abbrev pub IsShort : List ℕ → Type 0
IsShort p = length p ≤ 188

pub taken_of-append :
    (c : Channel) (ps qs : List (Channel × List ℕ))
    → taken_of c (ps ++ qs) ≡ taken_of c ps ++ taken_of c qs
taken_of-append c [] qs = refl
taken_of-append video_channel ((video_channel, p) ∷ ps) qs =
    ap (◌∷◌ p) (taken_of-append video_channel ps qs)
taken_of-append audio_channel ((audio_channel, p) ∷ ps) qs =
    ap (◌∷◌ p) (taken_of-append audio_channel ps qs)
taken_of-append audio_channel ((video_channel, p) ∷ ps) qs = taken_of-append audio_channel ps qs
taken_of-append video_channel ((audio_channel, p) ∷ ps) qs = taken_of-append video_channel ps qs

-- One queue: what has gone out of it and what is in it make up what was given to it.
pub record Flows (r : Ring (List ℕ)) (out given : List (List ℕ)) : Type 0 where
  pub valid : IsValid tcp_buffer_nums r
  pub short : All IsShort (contents tcp_buffer_nums r)
  pub all_there : out ++ contents tcp_buffer_nums r ≡ given

pub Flows-push :
    (r : Ring (List ℕ)) (out given : List (List ℕ)) (p : List ℕ)
    → is_full tcp_buffer_nums r ≡ false
    → Flows r out given
    → Flows (push tcp_buffer_nums r (take 188 p)) out (given ++ take 188 p ∷ [])
Flows-push r out given p room f =
    let full = is_full_lem tcp_buffer_nums r f.valid in
    let small = size-lt tcp_buffer_nums r f.valid in
    let more : size tcp_buffer_nums r + 1 < tcp_buffer_nums = ground arith in
    let longer = contents-push tcp_buffer_nums r f.valid (take 188 p) more in
    record {
      valid = push-IsValid tcp_buffer_nums r f.valid (take 188 p);
      short = rw longer (
          All-append IsShort (contents tcp_buffer_nums r) (take 188 p ∷ []) f.short
            (omega (arith, length-take 188 p), tt));
      all_there =
          ap (◌++◌ out) longer
          ∙ sym (append_assoc out (contents tcp_buffer_nums r) (take 188 p ∷ []))
          ∙ ap (λ (xs : List (List ℕ)). xs ++ take 188 p ∷ []) f.all_there;
    }

pub Flows-pop :
    (r : Ring (List ℕ)) (out given : List (List ℕ)) (n : ℕ)
    → is_empty r ≡ false
    → 188 ≤ n
    → Flows r out given
    → Flows (pop tcp_buffer_nums r) (out ++ take n (r.slots r.head) ∷ []) given
Flows-pop r out given n some_left whole f =
    let empty = is_empty_lem tcp_buffer_nums r f.valid in
    let more : 0 < size tcp_buffer_nums r = ground arith in
    let split = contents-pop tcp_buffer_nums r f.valid more in
    let shorts : All IsShort (r.slots r.head ∷ contents tcp_buffer_nums (pop tcp_buffer_nums r)) =
      rw split at f.short in
    record {
      valid = pop-IsValid tcp_buffer_nums r f.valid;
      short = shorts.1;
      all_there =
          append_assoc out (take n (r.slots r.head) ∷ [])
            (contents tcp_buffer_nums (pop tcp_buffer_nums r))
          ∙ ap (λ (p : List ℕ). out ++ p ∷ contents tcp_buffer_nums (pop tcp_buffer_nums r))
              (take_all n (r.slots r.head) (omega (arith, shorts.0)))
          ∙ ap (◌++◌ out) (sym split)
          ∙ f.all_there;
    }
