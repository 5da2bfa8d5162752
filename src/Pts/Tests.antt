-- ===== src/Pts/Tests.antt =====
-- Time stamps of concrete counters.
use dvb_stream_v.Base.{◌+◌, ◌^◌, ◌≡◌, refl, [], ◌∷◌, ◌++◌, arith}
use dvb_stream_v.Pts.{
  advance, video_offset, pts_bytes, get_pts, get_audio_pts, get_video_pts, tcp_get_pts,
}
use dvb_stream_v.Pts.Codec.{tcp_get_pts-pts_bytes}
use dvb_stream_v.Pts.Rounding.{advance_exact}

first_stamp : get_pts 0 ≡ (3003, 0x21 ∷ 0 ∷ 1 ∷ 23 ∷ 119 ∷ [])
unfolding get_pts advance pts_bytes
first_stamp = refl

first_audio_stamp : get_audio_pts 0 ≡ (0x5a00, 0x21 ∷ 0 ∷ 1 ∷ 180 ∷ 1 ∷ [])
unfolding get_audio_pts advance pts_bytes
first_audio_stamp = refl

first_video_counter : get_video_pts 3003 ≡ 6006
unfolding get_video_pts advance
first_video_counter = refl

tcp_get_pts-pts_bytes_example : tcp_get_pts (pts_bytes (2 ^ 33 + 3003) ++ 0 ∷ []) ≡ 3003
tcp_get_pts-pts_bytes_example = tcp_get_pts-pts_bytes (2 ^ 33 + 3003) (0 ∷ [])

advance_exact_example : advance video_offset 9009 ≡ 12012
advance_exact_example = advance_exact 9009 (omega arith)
