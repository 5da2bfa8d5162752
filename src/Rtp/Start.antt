-- ===== src/Rtp/Start.antt =====
-- What `gn_rtp_connect_init` of mycode/gn_rtp.c leaves in the queues.

use mathlib.Core.Option.{some-injective}
use mathlib.Core.Path.{subst}
use dvb_stream_v.Base.{
  ℕ, ◌%◌, ◌^◌, ◌<◌, ◌≡◌, refl, Bool, true, false, ◌&&◌, not, Option, none, some, List, [], arith,
  ltb, lt→ltb, u32,
}
use dvb_stream_v.Ring.Contents.{IsValid}
use dvb_stream_v.Rtp.{rtp_buffer_nums, init_slots, zero_slots, gn_rtp_connect_init, Rtp}
use dvb_stream_v.Rtp.Datagrams.{init_slot-IsSlot, IsSlot, IsReady}

pub ready_lem :
    (r1 r2 : ℕ) (s : Rtp)
    → gn_rtp_connect_init false false false r1 r2 ≡ some s
    → IsReady s × (s.video.head ≡ s.video.tail) × (s.audio.head ≡ s.audio.tail)
unfolding gn_rtp_connect_init init_slots
ready_lem r1 r2 s e =
    let fits : u32 r2 < 2 ^ 32 = omega arith in
    let valid : (f : ℕ → List ℕ)
        → IsValid rtp_buffer_nums (record { slots = f; head = 0; tail = 0 }) =
      λ f. record { head_in = omega arith; tail_in = omega arith } in
    let each : (i : ℕ) → i < rtp_buffer_nums → IsSlot (u32 r2) (init_slots (u32 r2) zero_slots i) =
      λ i h.
        let t : ltb i rtp_buffer_nums ≡ true = lt→ltb i rtp_buffer_nums h in
        rw t (init_slot-IsSlot (u32 r2) fits) in
    subst (λ (s : Rtp). IsReady s × (s.video.head ≡ s.video.tail) × (s.audio.head ≡ s.audio.tail))
      (some-injective _ s e)
      (
        record {
          video_valid = valid _;
          audio_valid = valid _;
          video_slots = each;
          audio_slots = each;
          seq_fits = omega arith;
          ssrc_fits = fits;
        },
        refl,
        refl,
      )

-- What a call comes to: the state, or `exit(1)`.
pub data Connected (named resolved opened : Bool) (random_1 random_2 : ℕ) (r : Option Rtp)
    : Type 0 where
  comes_up :
      (s : Rtp)
      → (named && not (resolved && opened)) ≡ false
      → r ≡ some s
      → IsReady s
      → s.video.head ≡ s.video.tail
      → s.audio.head ≡ s.audio.tail
      → s.rtpseq ≡ random_1 % 2 ^ 16
      → s.ssrc ≡ random_2 % 2 ^ 32
      → s.handed ≡ []
      → Connected named resolved opened random_1 random_2 r
  exits :
      named ≡ true
      → (resolved && opened) ≡ false
      → r ≡ none
      → Connected named resolved opened random_1 random_2 r

-- If a host and a port are named, and the address cannot be resolved or the socket not be opened, the call ends
-- the process; in every other case it comes up with two empty queues whose 1500 slots all carry the RTP header
-- of the source, whatever `random` returned: the source is the lowest 32 bits of the second random number, the
-- first sequence number the lowest 16 bits of the first, and nothing has been handed on.
pub gn_rtp_connect_init-IsReady :
    (named resolved opened : Bool) (random_1 random_2 : ℕ)
    → Connected named resolved opened random_1 random_2
        (gn_rtp_connect_init named resolved opened random_1 random_2)
unfolding gn_rtp_connect_init
gn_rtp_connect_init-IsReady false resolved opened r1 r2 =
    let (ready, video, audio) = ready_lem r1 r2 _ refl in
    comes_up _ refl refl ready video audio refl refl refl
gn_rtp_connect_init-IsReady true true true r1 r2 =
    let (ready, video, audio) = ready_lem r1 r2 _ refl in
    comes_up _ refl refl ready video audio refl refl refl
gn_rtp_connect_init-IsReady true true false r1 r2 = exits refl refl refl
gn_rtp_connect_init-IsReady true false opened r1 r2 = exits refl refl refl
