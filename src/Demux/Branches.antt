-- ===== src/Demux/Branches.antt =====
-- The branches of `decoder_read_ts_packet`, by what the parser returns and by the packet's PID.
use dvb_stream_v.Base.{
  ℕ, ◌+◌, ◌<◌, ◌≡◌, refl, ◌⊎◌, inl, inr, true, false, List, ltb, ◌==◌, lt→ltb, ==→eq, eq→==,
  Bool-cases, length,
}
use dvb_stream_v.Ts.{ts_packet_init, TsPacket, parsed, refused, overrun}
use dvb_stream_v.Demux.{
  put_audio, on_video, on_audio, on_packet, filled, decoder_read_ts_packet, Demux, Reading, again,
  undefined,
}

module _ (pid : ℕ) (bytes : List ℕ) (s : Demux) where
  pub read-parsed :
      (p : TsPacket)
      → 0 < length bytes
      → ts_packet_init (filled bytes s).buf ≡ parsed p
      → decoder_read_ts_packet pid bytes s ≡ on_packet pid p (filled bytes s)
  unfolding decoder_read_ts_packet
  read-parsed p some_read e =
      let t : ltb 0 (length bytes) ≡ true = lt→ltb 0 (length bytes) some_read in rw (t, e) refl

  pub read-refused :
      0 < length bytes
      → ts_packet_init (filled bytes s).buf ≡ refused
      → decoder_read_ts_packet pid bytes s ≡ undefined
  unfolding decoder_read_ts_packet
  read-refused some_read e =
      let t : ltb 0 (length bytes) ≡ true = lt→ltb 0 (length bytes) some_read in rw (t, e) refl

  pub read-overrun :
      0 < length bytes
      → ts_packet_init (filled bytes s).buf ≡ overrun
      → decoder_read_ts_packet pid bytes s ≡ undefined
  unfolding decoder_read_ts_packet
  read-overrun some_read e =
      let t : ltb 0 (length bytes) ≡ true = lt→ltb 0 (length bytes) some_read in rw (t, e) refl

  pub read-nothing : length bytes ≡ 0 → decoder_read_ts_packet pid bytes s ≡ again (filled bytes s)
  unfolding decoder_read_ts_packet
  read-nothing e = let t : ltb 0 (length bytes) ≡ false = rw e refl in rw t refl

-- The four ways of a parsed packet.
pub data Way (pid : ℕ) (p : TsPacket) (s : Demux) (r : Reading) : Type 0 where
  video_way : p.ts_header.pid ≡ pid → r ≡ on_video p s → Way pid p s r
  audio_way : p.ts_header.pid ≡ pid + 1 → r ≡ on_audio p s → Way pid p s r
  table_way : (p.ts_header.pid + 1 ≡ pid) ⊎ (p.ts_header.pid ≡ 0) → r ≡ put_audio s → Way pid p s r
  other_way : r ≡ again s → Way pid p s r

pub on_packet-Way : (pid : ℕ) (p : TsPacket) (s : Demux) → Way pid p s (on_packet pid p s)
unfolding on_packet
on_packet-Way pid p s = elim (Bool-cases (p.ts_header.pid == pid)) [
  | inl v ↦ rw v (video_way (==→eq _ _ v) refl)
  | inr nv ↦ elim (Bool-cases (p.ts_header.pid == pid + 1)) [
    | inl a ↦ rw (nv, a) (audio_way (==→eq _ _ a) refl)
    | inr na ↦ elim (Bool-cases (p.ts_header.pid + 1 == pid)) [
      | inl t ↦ rw (nv, na, t) (table_way (inl (==→eq _ _ t)) refl)
      | inr nt ↦ elim (Bool-cases (p.ts_header.pid == 0)) [
        | inl z ↦ rw (nv, na, nt, z) (table_way (inr (==→eq _ _ z)) refl)
        | inr nz ↦ rw (nv, na, nt, nz) (other_way refl)
      ]
    ]
  ]
]

pub on_packet-video :
    (pid : ℕ) (p : TsPacket) (s : Demux) → p.ts_header.pid ≡ pid → on_packet pid p s ≡ on_video p s
unfolding on_packet
on_packet-video pid p s e = let t : (p.ts_header.pid == pid) ≡ true = eq→== _ _ e in rw t refl
