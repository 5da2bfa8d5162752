-- ===== src/Demux/Shut.antt =====
-- One call of `decoder_read_ts_packet` behind which the gate for audio is shut.
use mathlib.Core.Option.{some-injective}
use dvb_stream_v.Base.{
  ℕ, ◌+◌, ◌≡◌, refl, sym, ap, ◌∙◌, ◌⊎◌, inl, inr, true, false, ◌&&◌, not, Option, none, some, List,
  [], ◌∷◌, arith, ltb, ◌==◌, if◌then◌else◌, Bool-cases, Option-cases, if_true, if_false, not-false,
  get_or,
}
use dvb_stream_v.Ts.{parse_header, ts_packet_init, TsPacket, Parsed, parsed, refused, overrun}
use dvb_stream_v.Ts.Outcomes.{parsed_header}
use dvb_stream_v.Tcp.{gn_tcp_audio_put, Tcp}
use dvb_stream_v.Demux.{
  has_pts, restamp, put_audio, note_video, on_video, on_audio, on_packet, filled,
  decoder_read_ts_packet, Demux, Reading, ready, again,
}
use dvb_stream_v.Demux.Branches.{
  read-parsed, read-refused, read-overrun, read-nothing, on_packet-Way, video_way, audio_way,
  table_way, other_way,
}
use dvb_stream_v.Demux.Video.{note_video_keeps}

unfoldable pub after_reading : Reading → Option Demux
after_reading (ready s) = some s
after_reading (again s) = some s
after_reading other = none

-- A packet of the programme's tables: PID 0, or the one before the video's.
abbrev pub IsTable : ℕ → List ℕ → Type 0
IsTable pid q = ((parse_header q).pid + 1 ≡ pid) ⊎ ((parse_header q).pid ≡ 0)

-- A step behind which the gate is shut: it was shut before, no time stamp has been given out, and only
-- a table may have been queued.
pub record Shut (pid : ℕ) (s s' : Demux) : Type 0 where
  pub was_shut : s.is_write_audio ≡ false
  pub counter : s'.audio_counter ≡ s.audio_counter
  pub queued :
      (s'.tcp ≡ s.tcp) ⊎ (IsTable pid s'.buf × (gn_tcp_audio_put s'.buf s.tcp ≡ some s'.tcp))

pub parsed-cases :
    (r : Parsed) → ((p : TsPacket) × (r ≡ parsed p)) ⊎ ((r ≡ refused) ⊎ (r ≡ overrun))
parsed-cases (parsed p) = inl (p, refl)
parsed-cases refused = inr (inl refl)
parsed-cases overrun = inr (inr refl)

pub again_same : (s s' : Demux) → after_reading (again s) ≡ some s' → s' ≡ s
unfolding after_reading
again_same s s' e = sym (some-injective s s' e)

Shut-again :
    (pid : ℕ) (s s' : Demux)
    → s'.is_write_audio ≡ false
    → after_reading (again s) ≡ some s'
    → Shut pid s s'
Shut-again pid s s' shut e =
    let same = again_same s s' e in
    record {
      was_shut = cc;
      counter = ap (λ (s : Demux). s.audio_counter) same;
      queued = inl (ap (λ (s : Demux). s.tcp) same);
    }

-- What `put_audio` leaves.
pub put_audio_lem :
    (s s' : Demux)
    → after_reading (put_audio s) ≡ some s'
    → (t : Tcp) × (gn_tcp_audio_put s.buf s.tcp ≡ some t) × (s' ≡ record s { tcp = t })
unfolding put_audio after_reading
put_audio_lem s s' e = elim (Option-cases (gn_tcp_audio_put s.buf s.tcp)) [
  | inl full ↦ absurd (cc (rw (full, put_audio) at e))
  | inr (t, room) ↦ (t, room, sym (some-injective _ s' (rw (room, put_audio) at e)))
]

Shut-put_audio :
    (pid : ℕ) (s s' : Demux)
    → IsTable pid s.buf
    → s'.is_write_audio ≡ false
    → after_reading (put_audio s) ≡ some s'
    → Shut pid s s'
Shut-put_audio pid s s' table shut e =
    let (t, put, same) = put_audio_lem s s' e in
    rw same (record { was_shut = rw same at shut; counter = refl; queued = inr (table, put) })

restamp_gate : (p : TsPacket) (s : Demux) → (restamp p s).is_write_audio ≡ s.is_write_audio
unfolding restamp
restamp_gate p s = elim (Bool-cases (p.pes_header.flag == 1)) [
  | inl e ↦ rw (e, restamp) refl
  | inr e ↦ rw (e, restamp) refl
]

put_open :
    (s s' : Demux)
    → s.is_write_audio ≡ true
    → after_reading (put_audio s) ≡ some s'
    → s'.is_write_audio ≡ true
put_open s s' open_gate e =
    let (t, put, same) = put_audio_lem s s' e in
    ap (λ (s : Demux). s.is_write_audio) same ∙ open_gate

-- Audio is dropped, or queued through the gate that is open or opens.
pub on_audio-cases :
    (p : TsPacket) (s : Demux)
    → (on_audio p s ≡ again s)
      ⊎ ((t : Demux) × (t.is_write_audio ≡ true)
          × (t.is_have_video ≡ true)
          × (on_audio p s ≡ put_audio (restamp p t)))
unfolding on_audio
on_audio-cases p s =
    let opened : Demux = record s { is_write_audio = true } in
    let late = has_pts p && ltb s.video_pts (get_or p.pes_header.pts 2 0) in
    let gated = if late then put_audio (restamp p opened) else again s in
    let whole = if s.is_write_audio then put_audio (restamp p s) else gated in
    elim (Bool-cases (not s.is_have_video)) [
      | inl early ↦ inl (if_true (not s.is_have_video) (again s) whole early)
      | inr seen ↦
          let has = not-false s.is_have_video seen in
          let past = if_false (not s.is_have_video) (again s) whole seen in
          elim (Bool-cases s.is_write_audio) [
            | inl open_gate ↦
                inr (s, open_gate, has, past ∙ if_true s.is_write_audio _ gated open_gate)
            | inr closed ↦
                let more =
                  past ∙ if_false s.is_write_audio (put_audio (restamp p s)) gated closed in
                elim (Bool-cases late) [
                  | inl yes_late ↦ inr (opened, refl, has, more ∙ if_true late _ (again s) yes_late)
                  | inr soon ↦ inl (more ∙ if_false late (put_audio (restamp p opened)) _ soon)
                ]
          ]
    ]

Shut-on_audio :
    (pid : ℕ) (p : TsPacket) (s s' : Demux)
    → s'.is_write_audio ≡ false
    → after_reading (on_audio p s) ≡ some s'
    → Shut pid s s'
Shut-on_audio pid p s s' shut e = elim (on_audio-cases p s) [
  | inl kept ↦ Shut-again pid s s' shut (rw kept at e)
  | inr (t, open_gate, has, put) ↦
      let o = put_open (restamp p t) s' (restamp_gate p t ∙ open_gate) (rw put at e) in absurd (cc)
]

note_video_counter : (p : TsPacket) (s : Demux) → (note_video p s).audio_counter ≡ s.audio_counter
unfolding note_video
note_video_counter p s = elim (Bool-cases (has_pts p && not s.is_have_video)) [
  | inl e ↦ rw (e, note_video) refl
  | inr e ↦ rw (e, note_video) refl
]

Shut-on_video :
    (pid : ℕ) (p : TsPacket) (s s' : Demux)
    → s'.is_write_audio ≡ false
    → after_reading (on_video p s) ≡ some s'
    → Shut pid s s'
unfolding on_video after_reading
Shut-on_video pid p s s' shut e =
    let (buf, tcp, gate, count) = note_video_keeps p s in
    let same = sym (some-injective _ s' e) in
    record {
      was_shut = sym gate ∙ sym (ap (λ (s : Demux). s.is_write_audio) same) ∙ shut;
      counter = ap (λ (s : Demux). s.audio_counter) same ∙ note_video_counter p s;
      queued = inl (ap (λ (s : Demux). s.tcp) same ∙ tcp);
    }

Shut-on_packet :
    (pid : ℕ) (p : TsPacket) (s s' : Demux)
    → p.ts_header ≡ parse_header s.buf
    → s'.is_write_audio ≡ false
    → after_reading (on_packet pid p s) ≡ some s'
    → Shut pid s s'
Shut-on_packet pid p s s' header shut e = elim (on_packet-Way pid p s) [
  | video_way same r ↦ Shut-on_video pid p s s' shut (rw r at e)
  | audio_way same r ↦ Shut-on_audio pid p s s' shut (rw r at e)
  | table_way same r ↦ Shut-put_audio pid s s' (rw header at same) shut (rw r at e)
  | other_way r ↦ Shut-again pid s s' shut (rw r at e)
]

pub Shut-read :
    (pid : ℕ) (bytes : List ℕ) (s s' : Demux)
    → s'.is_write_audio ≡ false
    → after_reading (decoder_read_ts_packet pid bytes s) ≡ some s'
    → Shut pid (filled bytes s) s'
unfolding after_reading
Shut-read pid [] s s' shut e =
    Shut-again pid (filled [] s) s' shut (rw (read-nothing pid [] s refl) at e)
Shut-read pid (b ∷ bs) s s' shut e =
    let buf = (filled (b ∷ bs) s).buf in
    elim (parsed-cases (ts_packet_init buf)) [
      | inl (p, known) ↦
          Shut-on_packet pid p (filled (b ∷ bs) s) s' (parsed_header buf p known) shut
            (rw (read-parsed pid (b ∷ bs) s p (omega arith) known) at e)
      | inr (inl known) ↦ absurd (cc (rw (read-refused pid (b ∷ bs) s (omega arith) known) at e))
      | inr (inr known) ↦ absurd (cc (rw (read-overrun pid (b ∷ bs) s (omega arith) known) at e))
    ]
