-- ===== src/Demux/Video.antt =====
-- What `decoder_read_ts_packet` hands to the decoder, and the packets on which it goes wrong.

use mathlib.Core.Logic.{◌↔◌}
use dvb_stream_v.Tcp.{gn_tcp_audio_put}
use dvb_stream_v.Base.{
  ℕ, zero, suc, ◌+◌, ◌-◌, ◌≤◌, ◌<◌, ◌≡◌, refl, sym, ap, ◌∙◌, ◌⊎◌, inl, inr, ◌&&◌, not, List, [],
  ◌∷◌, ◌++◌, arith, ltb, Bool-cases, Option-cases, length, get_or, take, drop, take_all,
  take-append, u64,
}
use dvb_stream_v.Ts.{IsBytes, byte_at, parse_header, ts_packet_init, TsPacket, parsed}
use dvb_stream_v.Ts.Outcomes.{
  data_offset, HasError, HasPayload, bare, loaded, near_payload, ts_packet_init-Outcome, on_error,
  on_no_payload, on_far_payload, on_payload,
}
use dvb_stream_v.Demux.Branches.{
  read-parsed, read-refused, read-overrun, on_packet-Way, on_packet-video, video_way, audio_way,
  table_way, other_way,
}
use dvb_stream_v.Demux.{
  has_pts, put_audio, note_video, on_video, on_audio, on_packet, filled, decoder_read_ts_packet,
  Demux, ready, undefined,
}

pub take-drop-append :
    (d n : ℕ) (xs ys : List ℕ) → d + n ≡ length xs → take n (drop d (xs ++ ys)) ≡ drop d xs
take-drop-append zero n xs ys h = take-append n xs ys (omega arith)
take-drop-append (suc d) n [] ys h = absurd (omega arith)
take-drop-append (suc d) n (x ∷ xs) ys h = take-drop-append d n xs ys (omega arith)

-- A whole packet takes the place of the buffer's first 188 bytes.
pub filled_lem :
    (bytes : List ℕ) (s : Demux)
    → length bytes ≡ 188
    → (filled bytes s).buf ≡ bytes ++ drop 188 s.buf
unfolding filled
filled_lem bytes s whole =
    let same : take 188 bytes ≡ bytes = take_all 188 bytes (omega arith) in rw (same, whole) refl

payload_in_buffer :
    (bytes : List ℕ) (s : Demux)
    → length bytes ≡ 188
    → data_offset (filled bytes s).buf ≤ 188
    → take
        (188 - data_offset (filled bytes s).buf)
        (drop (data_offset (filled bytes s).buf) (filled bytes s).buf)
      ≡ drop (data_offset (filled bytes s).buf) bytes
payload_in_buffer bytes s whole near =
    let d = data_offset (filled bytes s).buf in
    let all_of = filled_lem bytes s whole in
    ap (λ (b : List ℕ). take (188 - d) (drop d b)) all_of
    ∙ take-drop-append d (188 - d) bytes (drop 188 s.buf) (omega arith)

-- A state behind a video packet.
pub record GivesPayload (bytes : List ℕ) (s s' : Demux) : Type 0 where
  pub given :
      take s'.packet_length (drop s'.packet_pos s'.buf)
      ≡ drop (data_offset (filled bytes s).buf) bytes
  pub counted : s'.packet_count ≡ u64 (s.packet_count + 1)
  pub queues : s'.tcp ≡ s.tcp
  pub gate : s'.is_write_audio ≡ s.is_write_audio

pub note_video_keeps :
    (p : TsPacket) (s : Demux)
    → ((note_video p s).buf ≡ s.buf)
      × ((note_video p s).tcp ≡ s.tcp)
      × ((note_video p s).is_write_audio ≡ s.is_write_audio)
      × ((note_video p s).packet_count ≡ s.packet_count)
unfolding note_video
note_video_keeps p s = elim (Bool-cases (has_pts p && not s.is_have_video)) [
  | inl e ↦ rw (e, note_video) (refl, refl, refl, refl)
  | inr e ↦ rw (e, note_video) (refl, refl, refl, refl)
]

on_video-GivesPayload :
    (p : TsPacket) (bytes : List ℕ) (s : Demux)
    → length bytes ≡ 188
    → data_offset (filled bytes s).buf ≤ 188
    → p.payload.payload_offset ≡ data_offset (filled bytes s).buf
    → p.payload.size ≡ 188 - data_offset (filled bytes s).buf
    → (s' : Demux) × (on_video p (filled bytes s) ≡ ready s') × GivesPayload bytes s s'
unfolding on_video filled
on_video-GivesPayload p bytes s whole near pos size =
    let noted = note_video p (filled bytes s) in
    let (buf, tcp, gate, count) = note_video_keeps p (filled bytes s) in
    let s' : Demux = record noted {
      packet_count = u64 (noted.packet_count + 1);
      packet_pos = p.payload.payload_offset;
      packet_length = p.payload.size;
    } in
    (
      s',
      refl,
      record {
        given = rw (buf, pos, size) (payload_in_buffer bytes s whole near);
        counted = rw count refl;
        queues = tcp;
        gate = gate;
      },
    )

-- A whole packet on the video's PID, without error bit and with a payload that begins in the packet, is
-- ready for the decoder: what the decoder is given is the packet from its payload's offset on, and the
-- queues are as before.
pub decoder_read_ts_packet-video :
    (pid : ℕ) (bytes : List ℕ) (s : Demux)
    → length bytes ≡ 188
    → IsBytes (filled bytes s).buf
    → (parse_header (filled bytes s).buf).pid ≡ pid
    → byte_at (filled bytes s).buf 1 < 128
    → HasPayload (filled bytes s).buf
    → data_offset (filled bytes s).buf ≤ 188
    → (s' : Demux) × (decoder_read_ts_packet pid bytes s ≡ ready s') × GivesPayload bytes s s'
decoder_read_ts_packet-video pid bytes s whole h same ok pay near =
    let buf = (filled bytes s).buf in
    let parse = near_payload buf h ok pay near in
    let (s', e, gives) = on_video-GivesPayload (loaded buf) bytes s whole near refl refl in
    let way : on_packet pid (loaded buf) (filled bytes s) ≡ on_video (loaded buf) (filled bytes s) =
      on_packet-video pid (loaded buf) (filled bytes s) same in
    (s', read-parsed pid bytes s (loaded buf) (omega arith) parse ∙ way ∙ e, gives)

put_audio-ne-undefined : (s : Demux) → put_audio s ≡ undefined → ⊥
unfolding put_audio
put_audio-ne-undefined s e = elim (Option-cases (gn_tcp_audio_put s.buf s.tcp)) [
  | inl full ↦ cc (rw (full, put_audio) at e)
  | inr (t, room) ↦ cc (rw (room, put_audio) at e)
]

on_audio-ne-undefined : (p : TsPacket) (s : Demux) → on_audio p s ≡ undefined → ⊥
unfolding on_audio
on_audio-ne-undefined p s e = elim (Bool-cases (not s.is_have_video)) [
  | inl early ↦ cc (rw early at e)
  | inr seen ↦ elim (Bool-cases s.is_write_audio) [
    | inl open_gate ↦ put_audio-ne-undefined _ (rw (seen, open_gate) at e)
    | inr shut ↦ elim (Bool-cases (has_pts p && ltb s.video_pts (get_or p.pes_header.pts 2 0))) [
      | inl late ↦ put_audio-ne-undefined _ (rw (seen, shut, late) at e)
      | inr soon ↦ cc (rw (seen, shut, soon) at e)
    ]
  ]
]

on_packet-ne-undefined : (pid : ℕ) (p : TsPacket) (s : Demux) → on_packet pid p s ≡ undefined → ⊥
unfolding on_video
on_packet-ne-undefined pid p s e = elim (on_packet-Way pid p s) [
  | video_way same r ↦ cc
  | audio_way same r ↦ on_audio-ne-undefined p s (sym r ∙ e)
  | table_way same r ↦ put_audio-ne-undefined s (sym r ∙ e)
  | other_way r ↦ cc
]

-- A read of at least one byte runs into undefined behaviour exactly when the buffer's packet has its
-- error bit set, or has a payload that the parser takes to begin behind the packet's 188 bytes: in the
-- first case it frees a pointer that was never set, in the second it writes past an array.
pub decoder_read_ts_packet-undefined :
    (pid : ℕ) (bytes : List ℕ) (s : Demux)
    → 0 < length bytes
    → IsBytes (filled bytes s).buf
    → (decoder_read_ts_packet pid bytes s ≡ undefined) ↔ (
        HasError (filled bytes s).buf
        ⊎ (HasPayload (filled bytes s).buf × (188 < data_offset (filled bytes s).buf)))
decoder_read_ts_packet-undefined pid bytes s some_read h =
    let buf = (filled bytes s).buf in
    let defined : (p : TsPacket)
        → ts_packet_init buf ≡ parsed p
        → decoder_read_ts_packet pid bytes s ≡ undefined
        → ⊥ =
      λ p e u.
        on_packet-ne-undefined pid p (filled bytes s)
          (sym (read-parsed pid bytes s p some_read e) ∙ u) in
    elim (ts_packet_init-Outcome buf h) [
      | on_error bad e ↦ (λ u. inl bad, λ c. read-refused pid bytes s some_read e)
      | on_no_payload ok empty e ↦ (λ u. absurd (defined (bare buf) e u), λ c. absurd (omega arith))
      | on_far_payload ok pay far e ↦
          (λ u. inr (pay, far), λ c. read-overrun pid bytes s some_read e)
      | on_payload ok pay near e ↦
          (λ u. absurd (defined (loaded buf) e u), λ c. absurd (omega arith))
    ]
