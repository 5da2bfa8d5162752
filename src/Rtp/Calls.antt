-- ===== src/Rtp/Calls.antt =====
-- What one call of mycode/gn_rtp.c does to the queues and to the datagrams that are handed on.
use mathlib.Core.Option.{some-injective}
use mathlib.Core.Path.{subst}
use dvb_stream_v.Base.{
  ℕ, ◌+◌, ◌%◌, ◌^◌, ◌≤◌, ◌<◌, ◌≡◌, refl, ap, ◌∙◌, ◌⊎◌, inl, inr, Option, none, some, List, [], ◌∷◌,
  ◌++◌, arith, ◌==◌, Bool-cases, length, take, take_all,
}
use dvb_stream_v.Ring.{update, is_empty, is_full, push, pop, Ring}
use dvb_stream_v.Ring.Contents.{push-IsValid, pop-IsValid, IsValid}
use dvb_stream_v.Rtp.{
  rtp_buffer_nums, rtp_base, with_data, gn_rtp_put, gn_rtp_audio_put, with_seq, gn_rtp_send,
  gn_rtp_audio_send, Rtp,
}
use dvb_stream_v.Rtp.Datagrams.{datagram, with_data-IsSlot, with_seq-datagram, IsSlot, IsReady}

pub data Call : Type 0 where
  put_video put_audio : List ℕ → Call
  send_video send_audio : Call

-- `none`: the call does not return.
unfoldable pub step : Rtp → Call → Option Rtp
step s (put_video p) = gn_rtp_put p s
step s (put_audio p) = some (gn_rtp_audio_put p s)
step s send_video = some (gn_rtp_send s)
step s send_audio = some (gn_rtp_audio_send s)

unfoldable pub run : Rtp → List Call → Option Rtp
unfolding step
run s [] = some s
run s (c ∷ cs) = elim (step s c) [ none ↦ none | some s' ↦ run s' cs ]

-- A put is given a whole transport stream packet.
abbrev pub HasPacket : Call → Type 0
HasPacket (put_video p) = 188 ≤ length p
HasPacket (put_audio p) = 188 ≤ length p
HasPacket c = Unit

-- What one call may do: keep the numbers, or hand one datagram on.
pub record Moves (s s' : Rtp) : Type 0 where
  pub ready : IsReady s'
  pub source : s'.ssrc ≡ s.ssrc
  pub handed_on :
      ((s'.handed ≡ s.handed) × (s'.rtpseq ≡ s.rtpseq))
      ⊎ ((bytes : List ℕ) × (length bytes ≡ 188)
          × (s'.handed ≡ s.handed ++ datagram s.rtpseq s.ssrc bytes ∷ [])
          × (s'.rtpseq ≡ (s.rtpseq + 1) % 2 ^ 16))

-- Replacing one slot by a datagram of the source leaves all slots datagrams of the source.
slots-update :
    (ssrc : ℕ) (slots : ℕ → List ℕ) (j : ℕ) (slot : List ℕ)
    → IsSlot ssrc slot
    → ((i : ℕ) → i < rtp_buffer_nums → IsSlot ssrc (slots i))
    → (i : ℕ) → i < rtp_buffer_nums
    → IsSlot ssrc (update slots j slot i)
slots-update ssrc slots j slot h all i lt = elim (Bool-cases (j == i)) [
  | inl here ↦ rw here h
  | inr there ↦ rw there (all i lt)
]

Moves-self : (s : Rtp) → IsReady s → Moves s s
Moves-self s r = record { ready = r; source = refl; handed_on = inl (refl, refl) }

put_video-Moves :
    (p : List ℕ) (s s' : Rtp) → 188 ≤ length p → IsReady s → gn_rtp_put p s ≡ some s' → Moves s s'
unfolding gn_rtp_put
put_video-Moves p s s' h r e = elim (Bool-cases (is_full rtp_buffer_nums s.video)) [
  | inl full ↦ absurd (cc (rw full at e))
  | inr room ↦
      let slot = with_data (s.video.slots s.video.tail) p in
      let after : Rtp = record s { video = push rtp_buffer_nums s.video slot } in
      let same : after ≡ s' = some-injective after s' (rw room at e) in
      subst (Moves s) same (record {
        ready = record {
          video_valid = push-IsValid rtp_buffer_nums s.video r.video_valid slot;
          audio_valid = r.audio_valid;
          video_slots =
              unfold push in
              slots-update s.ssrc s.video.slots s.video.tail slot
                (with_data-IsSlot s.ssrc _ p h (r.video_slots s.video.tail r.video_valid.tail_in))
                r.video_slots;
          audio_slots = r.audio_slots;
          seq_fits = r.seq_fits;
          ssrc_fits = r.ssrc_fits;
        };
        source = refl;
        handed_on = inl (refl, refl);
      })
]

put_audio-Moves :
    (p : List ℕ) (s : Rtp) → 188 ≤ length p → IsReady s → Moves s (gn_rtp_audio_put p s)
unfolding gn_rtp_audio_put
put_audio-Moves p s h r = elim (Bool-cases (is_full rtp_buffer_nums s.audio)) [
  | inl full ↦ rw full (Moves-self s r)
  | inr room ↦
      let slot = with_data (s.audio.slots s.audio.tail) p in
      rw room (record {
        ready = record {
          video_valid = r.video_valid;
          audio_valid = push-IsValid rtp_buffer_nums s.audio r.audio_valid slot;
          video_slots = r.video_slots;
          audio_slots =
              unfold push in
              slots-update s.ssrc s.audio.slots s.audio.tail slot
                (with_data-IsSlot s.ssrc _ p h (r.audio_slots s.audio.tail r.audio_valid.tail_in))
                r.audio_slots;
          seq_fits = r.seq_fits;
          ssrc_fits = r.ssrc_fits;
        };
        source = refl;
        handed_on = inl (refl, refl);
      })
]

-- Handing the slot at the head on, for either queue.
sends_one :
    (r : Ring (List ℕ)) (seq ssrc : ℕ)
    → IsValid rtp_buffer_nums r
    → ((i : ℕ) → i < rtp_buffer_nums → IsSlot ssrc (r.slots i))
    → seq < 2 ^ 16
    → (bytes : List ℕ) × (length bytes ≡ 188)
      × (with_seq seq (r.slots r.head) ≡ datagram seq ssrc bytes)
      × (take (rtp_base + 188) (with_seq seq (r.slots r.head)) ≡ datagram seq ssrc bytes)
sends_one r seq ssrc v all h =
    let slot = all r.head v.head_in in
    let e = with_seq-datagram seq ssrc (r.slots r.head) slot h in
    (
      slot.bytes,
      slot.whole,
      e,
      ap (take (rtp_base + 188)) e
          ∙ take_all (rtp_base + 188) (datagram seq ssrc slot.bytes) (omega (arith, slot.whole)),
    )

abbrev with_head : Ring (List ℕ) → List ℕ → Ring (List ℕ)
with_head r d = pop rtp_buffer_nums (record r { slots = update r.slots r.head d })

with_head-IsValid :
    (r : Ring (List ℕ)) (d : List ℕ)
    → IsValid rtp_buffer_nums r
    → IsValid rtp_buffer_nums (with_head r d)
with_head-IsValid r d v =
    pop-IsValid rtp_buffer_nums (record r { slots = update r.slots r.head d })
      (record { head_in = v.head_in; tail_in = v.tail_in })

with_head-slots :
    (r : Ring (List ℕ)) (ssrc : ℕ) (d : List ℕ)
    → IsSlot ssrc d
    → ((i : ℕ) → i < rtp_buffer_nums → IsSlot ssrc (r.slots i))
    → (i : ℕ) → i < rtp_buffer_nums
    → IsSlot ssrc ((with_head r d).slots i)
unfolding pop
with_head-slots r ssrc d h all i lt = slots-update ssrc r.slots r.head d h all i lt

send_video-Moves : (s : Rtp) → IsReady s → Moves s (gn_rtp_send s)
unfolding gn_rtp_send
send_video-Moves s r = elim (Bool-cases (is_empty s.video)) [
  | inl empty ↦ rw empty (Moves-self s r)
  | inr more ↦
      let (bytes, whole, d, t) =
        sends_one s.video s.rtpseq s.ssrc r.video_valid r.video_slots r.seq_fits in
      rw (more, t)
        (record {
          ready = record {
            video_valid =
                with_head-IsValid s.video (with_seq s.rtpseq (s.video.slots s.video.head))
                  r.video_valid;
            audio_valid = r.audio_valid;
            video_slots =
                with_head-slots s.video s.ssrc (with_seq s.rtpseq (s.video.slots s.video.head))
                  (record { number = s.rtpseq; bytes = bytes; form = d; whole = whole })
                  r.video_slots;
            audio_slots = r.audio_slots;
            seq_fits = omega arith;
            ssrc_fits = r.ssrc_fits;
          };
          source = refl;
          handed_on = inr (bytes, whole, refl, refl);
        })
]

send_audio-Moves : (s : Rtp) → IsReady s → Moves s (gn_rtp_audio_send s)
unfolding gn_rtp_audio_send
send_audio-Moves s r = elim (Bool-cases (is_empty s.audio)) [
  | inl empty ↦ rw empty (Moves-self s r)
  | inr more ↦
      let (bytes, whole, d, t) =
        sends_one s.audio s.rtpseq s.ssrc r.audio_valid r.audio_slots r.seq_fits in
      rw (more, t)
        (record {
          ready = record {
            video_valid = r.video_valid;
            audio_valid =
                with_head-IsValid s.audio (with_seq s.rtpseq (s.audio.slots s.audio.head))
                  r.audio_valid;
            video_slots = r.video_slots;
            audio_slots =
                with_head-slots s.audio s.ssrc (with_seq s.rtpseq (s.audio.slots s.audio.head))
                  (record { number = s.rtpseq; bytes = bytes; form = d; whole = whole })
                  r.audio_slots;
            seq_fits = omega arith;
            ssrc_fits = r.ssrc_fits;
          };
          source = refl;
          handed_on = inr (bytes, whole, refl, refl);
        })
]

pub step-Moves : (s s' : Rtp) (c : Call) → HasPacket c → IsReady s → step s c ≡ some s' → Moves s s'
unfolding step
step-Moves s s' (put_video p) h r e = put_video-Moves p s s' h r e
step-Moves s s' (put_audio p) h r e =
    subst (Moves s) (some-injective (gn_rtp_audio_put p s) s' e) (put_audio-Moves p s h r)
step-Moves s s' send_video h r e =
    subst (Moves s) (some-injective (gn_rtp_send s) s' e) (send_video-Moves s r)
step-Moves s s' send_audio h r e =
    subst (Moves s) (some-injective (gn_rtp_audio_send s) s' e) (send_audio-Moves s r)
