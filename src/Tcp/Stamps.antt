-- ===== src/Tcp/Stamps.antt =====
-- When a put blocks for good, and the video time stamp that `gn_tcp_send` picks up.

use dvb_stream_v.Pts.{tcp_get_pts}
use dvb_stream_v.Pts.Codec.{stamp_layout, tcp_get_pts-stamp_layout}
use mathlib.Core.Logic.{◌↔◌}
use dvb_stream_v.Base.{
  ℕ, ◌-◌, ◌%◌, ◌^◌, ◌≤◌, ◌≡◌, refl, sym, ap, ◌∙◌, inl, inr, true, false, none, some, List, [], ◌∷◌,
  ◌++◌, arith, ltb, Bool-cases, length, take, drop, length-take,
}
use dvb_stream_v.Mux.Round.{packet_of}
use dvb_stream_v.Mux.Stream.{access_unit}
use dvb_stream_v.Ring.{is_empty, is_full, pop}
use dvb_stream_v.Ring.Contents.{contents, length-contents, is_full_lem, IsValid}
use dvb_stream_v.Tcp.{
  tcp_buffer_nums, gn_tcp_get_video_pts, starts_stream, gn_tcp_put, gn_tcp_send, Tcp, Sending,
  video_channel, sent,
}

-- With the indices of the video queue in its array, `gn_tcp_put` never returns exactly when 9999
-- packets wait.
pub gn_tcp_put-eq-none :
    (p : List ℕ) (s : Tcp)
    → IsValid tcp_buffer_nums s.video
    → (gn_tcp_put p s ≡ none) ↔ (length (contents tcp_buffer_nums s.video) ≡ 9999)
unfolding gn_tcp_put
gn_tcp_put-eq-none p s v =
    let full = is_full_lem tcp_buffer_nums s.video v in
    let l = length-contents tcp_buffer_nums s.video in
    elim (Bool-cases (is_full tcp_buffer_nums s.video)) [
      | inl e ↦ (λ h. ground arith, λ h. rw e refl)
      | inr e ↦ (λ h. absurd (cc (rw e at h)), λ h. absurd (ground arith))
    ]

abbrev pts_of : Sending → ℕ
pts_of (sent n s) = s.video_pts
pts_of other = 0

-- If the head of the video queue is the first packet of an access unit of at least 184 bytes as PES
-- packet, a `gn_tcp_send` that returns sets the video time stamp to that of the unit, modulo 2^33.
pub video_pts-gn_tcp_send :
    (n pid counter pts : ℕ) (packet header : List ℕ) (s s' : Tcp)
    → 184 ≤ length (access_unit pts packet header)
    → is_empty s.video ≡ false
    → s.video.slots s.video.head
      ≡ packet_of pid 1 counter (take 184 (access_unit pts packet header))
    → gn_tcp_send (some n) s ≡ sent n s'
    → gn_tcp_get_video_pts s' ≡ pts % 2 ^ 33
unfolding gn_tcp_send gn_tcp_get_video_pts starts_stream
video_pts-gn_tcp_send n pid counter pts packet header s s' long more first h =
    let l : length (take 184 (access_unit pts packet header)) ≡ 184 =
      omega (arith, length-take 184 (access_unit pts packet header)) in
    let k : ltb (length (take 184 (access_unit pts packet header))) 184 ≡ false = rw l refl in
    let z : 184 - length (take 184 (access_unit pts packet header)) ≡ 0 = omega (arith, l) in
    let known : Sending = sent n (record s {
      video = pop tcp_buffer_nums s.video;
      video_pts = tcp_get_pts (drop 0x0d (s.video.slots s.video.head));
      taken = s.taken ++ (video_channel, take n (s.video.slots s.video.head)) ∷ [];
    }) in
    let starts : starts_stream 0xe0 (s.video.slots s.video.head) ≡ true = rw (first, k, z) refl in
    let run : known ≡ sent n s' = rw (more, starts) at h in
    let stamp : drop 0x0d (s.video.slots s.video.head)
        ≡ stamp_layout pts ++ drop 14 (take 184 (access_unit pts packet header)) =
      rw (first, k, z) refl in
    sym (ap pts_of run) ∙ ap tcp_get_pts stamp ∙ tcp_get_pts-stamp_layout pts _
