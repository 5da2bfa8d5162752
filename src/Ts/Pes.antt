-- ===== src/Ts/Pes.antt =====
-- What `ts_packet_init` stores of a packet with a PES header, in any buffer.
use dvb_stream_v.Base.{
  ℕ, ◌+◌, ◌-◌, ◌≡◌, refl, ap, ◌∙◌, true, ◌&&◌, some, List, [], ◌∷◌, ◌++◌, arith, leb, length, take,
  replicate, length-append, take_all, take-append, drop-append, slice, length-slice,
  slice-take-drop,
}
use dvb_stream_v.Ts.{ts_packet_size, byte_at, five_bytes, is_continuous_zero, parse_pes, find_pes}
use dvb_stream_v.Ts.Content.{rest_of_packet}

-- A start code of a video stream with a PES header of five bytes of data.
pub find_pes_lem :
    (buf : List ℕ) (o : ℕ)
    → byte_at buf o ≡ 0
    → byte_at buf (o + 1) ≡ 0
    → byte_at buf (o + 2) ≡ 1
    → byte_at buf (o + 3) ≡ 0xe0
    → byte_at buf (o + 3 + 5) ≡ 5
    → find_pes buf o ≡ (parse_pes buf (o + 3), o + 14)
unfolding find_pes is_continuous_zero
find_pes_lem buf o h0 h1 h2 h3 h8 =
    let zeros : is_continuous_zero buf o ≡ some (o + 3) = rw (h0, h1, h2) refl in
    let stream : (leb 0xc0 (byte_at buf (o + 3)) && leb (byte_at buf (o + 3)) 0xef) ≡ true =
      rw h3 refl in
    let after : o + 3 + 5 + byte_at buf (o + 3 + 5) + 1 ≡ o + 14 = omega (arith, h8) in
    rw (zeros, find_pes) (rw stream (ap (λ k. (parse_pes buf (o + 3), k)) after))

pub stamp_lem :
    (buf : List ℕ) (z : ℕ)
    → byte_at buf (z + 4) ≡ 0x80
    → (parse_pes buf z).pts ≡ five_bytes buf (z + 6)
unfolding parse_pes
stamp_lem buf z h = rw h refl

pub five_lem :
    (buf : List ℕ) (i : ℕ) {a b c d e : ℕ}
    → byte_at buf i ≡ a
    → byte_at buf (i + 1) ≡ b
    → byte_at buf (i + 2) ≡ c
    → byte_at buf (i + 3) ≡ d
    → byte_at buf (i + 4) ≡ e
    → five_bytes buf i ≡ a ∷ b ∷ c ∷ d ∷ e ∷ []
five_lem buf i ha hb hc hd he = rw (ha, hb, hc, hd, he) refl

-- What follows the first bytes of a packet, as the parser stores it.
pub stored_lem :
    (front rest : List ℕ) (offset : ℕ)
    → length front ≡ offset
    → length rest + offset ≡ ts_packet_size
    → take (ts_packet_size - offset) (rest_of_packet (front ++ rest) offset) ≡ rest
stored_lem front rest offset starts whole =
    let buf = front ++ rest in
    let n = ts_packet_size - offset in
    let full = length-append front rest in
    take-append n (slice buf offset n 0) (replicate offset 0) (length-slice buf offset n 0)
    ∙ slice-take-drop buf offset n 0 (omega arith)
    ∙ ap (take n) (drop-append offset front rest starts)
    ∙ take_all n rest (omega arith)
