-- ===== src/Rtp/Datagrams.antt =====
-- The datagrams of mycode/gn_rtp.c: their form and their sequence numbers, over any calls.

use dvb_stream_v.Base.{
  ℕ, ◌/◌, ◌%◌, ◌^◌, ◌≤◌, ◌<◌, ◌≡◌, refl, List, ◌∷◌, arith, length, take, replicate, length-take, u8,
  ◌>>>◌,
}
use dvb_stream_v.Ring.Contents.{IsValid}
use dvb_stream_v.Rtp.{rtp_buffer_nums, init_slot, zero_slots, with_data, with_seq, Rtp}

-- An RTP datagram: version 2, payload type 33, the sequence number, a zero time stamp, the source, data.
abbrev pub datagram : ℕ → ℕ → List ℕ → List ℕ
datagram seq ssrc bytes =
    0x80
    ∷ 0x21
    ∷ (seq / 256)
    ∷ (seq % 256)
    ∷ 0
    ∷ 0
    ∷ 0
    ∷ 0
    ∷ (ssrc / 2 ^ 24)
    ∷ (ssrc / 2 ^ 16 % 256)
    ∷ (ssrc / 2 ^ 8 % 256)
    ∷ (ssrc % 256)
    ∷ bytes

-- A slot is a datagram under some number.
pub record IsSlot (ssrc : ℕ) (slot : List ℕ) : Type 0 where
  pub number : ℕ
  pub bytes : List ℕ
  pub form : slot ≡ datagram number ssrc bytes
  pub whole : length bytes ≡ 188

-- The slots of both arrays are datagrams of the source, the number and the source fit their widths, and
-- the indices lie in the arrays.
pub record IsReady (s : Rtp) : Type 0 where
  pub video_valid : IsValid rtp_buffer_nums s.video
  pub audio_valid : IsValid rtp_buffer_nums s.audio
  pub video_slots : (i : ℕ) → i < rtp_buffer_nums → IsSlot s.ssrc (s.video.slots i)
  pub audio_slots : (i : ℕ) → i < rtp_buffer_nums → IsSlot s.ssrc (s.audio.slots i)
  pub seq_fits : s.rtpseq < 2 ^ 16
  pub ssrc_fits : s.ssrc < 2 ^ 32

pub init_slot-IsSlot : (ssrc : ℕ) → ssrc < 2 ^ 32 → IsSlot ssrc (init_slot ssrc (zero_slots 0))
unfolding init_slot
init_slot-IsSlot ssrc h = record {
  number = 0;
  bytes = replicate 188 0;
  form = ground arith;
  whole = refl;
}

pub with_data-IsSlot :
    (ssrc : ℕ) (slot bytes : List ℕ)
    → 188 ≤ length bytes
    → IsSlot ssrc slot
    → IsSlot ssrc (with_data slot bytes)
with_data-IsSlot ssrc slot bytes h v = record {
  number = v.number;
  bytes = take 188 bytes;
  form = rw (v.form) refl;
  whole = omega (arith, length-take 188 bytes);
}

-- The datagram that goes out carries the current number and the slot's data.
pub with_seq-datagram :
    (seq ssrc : ℕ) (slot : List ℕ) (v : IsSlot ssrc slot)
    → seq < 2 ^ 16
    → with_seq seq slot ≡ datagram seq ssrc v.bytes
unfolding with_seq
with_seq-datagram seq ssrc slot v h =
    let high : u8 (seq >>> 8) ≡ seq / 256 = omega arith in rw (v.form, high) refl
