-- ===== src/Demux/Before.antt =====
-- `decoder_read_ts_packet` before the first time stamp of the video.
use mathlib.Core.Option.{some-injective}
use mathlib.Core.Path.{subst}
use dvb_stream_v.Base.{
  ℕ, ◌≡◌, refl, sym, ap, ◌∙◌, inl, inr, true, false, ◌&&◌, not, some, List, [], ◌∷◌, arith, ◌==◌,
  Bool-cases, Option-cases, if_true, if_false, All,
}
use dvb_stream_v.Ts.{ts_packet_init, TsPacket}
use dvb_stream_v.Demux.{
  has_pts, restamp, note_video, on_video, on_packet, filled, decoder_read_ts_packet, Demux,
}
use dvb_stream_v.Demux.Branches.{
  read-parsed, read-refused, read-overrun, read-nothing, on_packet-Way, video_way, audio_way,
  table_way, other_way,
}
use dvb_stream_v.Demux.Shut.{
  after_reading, IsTable, parsed-cases, again_same, put_audio_lem, on_audio-cases,
}
use dvb_stream_v.Demux.Gate.{read_all, put_all, read_all-tables}

-- The gate is open only if the video has had a time stamp.
abbrev pub IsGated : Demux → Type 0
IsGated s = s.is_write_audio ≡ true → s.is_have_video ≡ true

IsGated-on_video :
    (p : TsPacket) (s s' : Demux) → IsGated s → after_reading (on_video p s) ≡ some s' → IsGated s'
unfolding on_video after_reading note_video
IsGated-on_video p s s' g e =
    let noted : IsGated (note_video p s) = elim (Bool-cases (has_pts p && not s.is_have_video)) [
      | inl new ↦
          subst IsGated (sym (if_true (has_pts p && not s.is_have_video) _ s new)) (λ w. refl)
      | inr old ↦ subst IsGated (sym (if_false (has_pts p && not s.is_have_video) _ s old)) g
    ] in
    subst IsGated (some-injective _ s' e) noted

restamp_video : (p : TsPacket) (s : Demux) → (restamp p s).is_have_video ≡ s.is_have_video
unfolding restamp
restamp_video p s = elim (Bool-cases (p.pes_header.flag == 1)) [
  | inl e ↦ rw (e, restamp) refl
  | inr e ↦ rw (e, restamp) refl
]

IsGated-on_packet :
    (pid : ℕ) (p : TsPacket) (s s' : Demux)
    → IsGated s
    → after_reading (on_packet pid p s) ≡ some s'
    → IsGated s'
IsGated-on_packet pid p s s' g e = elim (on_packet-Way pid p s) [
  | video_way same r ↦ IsGated-on_video p s s' g (rw r at e)
  | audio_way same r ↦ elim (on_audio-cases p s) [
    | inl kept ↦ subst IsGated (sym (again_same s s' (rw (r, kept) at e))) g
    | inr (t, open_gate, has, put) ↦
        let (u, done, after) = put_audio_lem (restamp p t) s' (rw (r, put) at e) in
        λ w. ap (λ (d : Demux). d.is_have_video) after ∙ restamp_video p t ∙ has
  ]
  | table_way same r ↦
      let (u, done, after) = put_audio_lem s s' (rw r at e) in subst IsGated (sym after) g
  | other_way r ↦ subst IsGated (sym (again_same s s' (rw r at e))) g
]

IsGated-read :
    (pid : ℕ) (bytes : List ℕ) (s s' : Demux)
    → IsGated s
    → after_reading (decoder_read_ts_packet pid bytes s) ≡ some s'
    → IsGated s'
unfolding after_reading filled
IsGated-read pid [] s s' g e =
    subst IsGated (sym (again_same (filled [] s) s' (rw (read-nothing pid [] s refl) at e))) g
IsGated-read pid (b ∷ bs) s s' g e = elim (parsed-cases (ts_packet_init (filled (b ∷ bs) s).buf)) [
  | inl (p, known) ↦
      IsGated-on_packet pid p (filled (b ∷ bs) s) s' g
        (rw (read-parsed pid (b ∷ bs) s p (omega arith) known) at e)
  | inr (inl known) ↦ absurd (cc (rw (read-refused pid (b ∷ bs) s (omega arith) known) at e))
  | inr (inr known) ↦ absurd (cc (rw (read-overrun pid (b ∷ bs) s (omega arith) known) at e))
]

read_all-IsGated :
    (pid : ℕ) (reads : List (List ℕ)) (s s' : Demux)
    → IsGated s
    → read_all pid reads s ≡ some s'
    → IsGated s'
unfolding read_all
read_all-IsGated pid [] s s' g e = subst IsGated (some-injective s s' e) g
read_all-IsGated pid (bytes ∷ more) s s' g e =
    elim (Option-cases (after_reading (decoder_read_ts_packet pid bytes s))) [
      | inl stops ↦ absurd (cc (rw (stops, read_all) at e))
      | inr (t, goes) ↦
          read_all-IsGated pid more t s' (IsGated-read pid bytes s t g goes)
            (rw (goes, read_all) at e)
    ]

-- Before the first time stamp of the video, only packets of the tables go into the audio queue: for every
-- sequence of reads that returns, from a state whose gate is open only if the video has had a time
-- stamp, to one in which it has had none.
pub read_all-before_video :
    (pid : ℕ) (reads : List (List ℕ)) (s s' : Demux)
    → IsGated s
    → read_all pid reads s ≡ some s'
    → s'.is_have_video ≡ false
    → (qs : List (List ℕ)) × All (IsTable pid) qs × (put_all qs s.tcp ≡ some s'.tcp)
read_all-before_video pid reads s s' g e before =
    let gated = read_all-IsGated pid reads s s' g e in
    let shut : s'.is_write_audio ≡ false = elim (Bool-cases s'.is_write_audio) [
      | inl open_gate ↦ let has = gated open_gate in absurd (cc)
      | inr closed ↦ closed
    ] in
    (read_all-tables pid reads s s' e shut).1
