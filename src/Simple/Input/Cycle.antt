-- ===== src/Simple/Input/Cycle.antt =====
-- What the decoder is given of the input file of simple/.
use native.Mathlib.Decide.{dec_lt}
use dvb_stream_v.Base.{
  ℕ, zero, suc, ◌+◌, ◌/◌, ◌≤◌, ◌<◌, ◌≡◌, refl, sym, ap, ap₂, ◌∙◌, ◌⊎◌, inl, inr, true, false, List,
  [], ◌∷◌, ◌++◌, append-nil, append_assoc, arith, ◌==◌, if◌then◌else◌, Bool-cases, length, take,
  drop, length-append, length-take, take-append-drop, take_all, u64,
}
use dvb_stream_v.Simple.Input.{decoder_read_packet, put_packets, thread_input, Packet, Reader}

-- The bytes of the packets, one packet behind the other.
abbrev pub joined : List Packet → List ℕ
joined [] = []
joined (p ∷ ps) = p.bytes ++ joined ps

-- The packets that carry the end mark.
abbrev pub count_eos : List Packet → ℕ
count_eos [] = 0
count_eos (p ∷ ps) = if p.eos then suc (count_eos ps) else count_eos ps

-- The calls of `decoder_put_packet` that succeed.
abbrev pub count_ok : List ℕ → ℕ
count_ok [] = 0
count_ok (ret ∷ rets) = if ret == 0 then suc (count_ok rets) else count_ok rets

abbrev pub copies : ℕ → List ℕ → List ℕ
copies zero xs = []
copies (suc k) xs = xs ++ copies k xs

-- What is left of the file in this pass, from the packet on that is offered.
abbrev pub remaining : Reader → List ℕ
remaining r = r.packet.bytes ++ (if r.packet.eos then [] else r.unread)

-- A packet of 4096 bytes has no end mark; a shorter one has it, and the file has been rewound.
pub record IsRead (r : Reader) : Type 0 where
  pub size : r.packet_size ≡ 4096
  pub full : r.packet.eos ≡ false → length r.packet.bytes ≡ 4096
  pub short : r.packet.eos ≡ true → length r.packet.bytes < 4096
  pub rewound : r.packet.eos ≡ true → r.unread ≡ r.content

-- A file that `decoder_data_init` has set the reader up for, at its start.
pub record IsOpen (r : Reader) : Type 0 where
  pub size : r.packet_size ≡ 4096
  pub at_start : r.unread ≡ r.content

module _ (r : Reader) (size : r.packet_size ≡ 4096) where
  ended_lem :
      ((length r.unread < 4096)
        × (decoder_read_packet r ≡ record r {
          unread = r.content;
          packet = record { bytes = r.unread; eos = true };
          packet_count = u64 (r.packet_count + 1);
          pkt_eos = 1;
        }))
      ⊎ ((4096 ≤ length r.unread)
          × (decoder_read_packet r ≡ record r {
            unread = drop 4096 r.unread;
            packet = record { bytes = take 4096 r.unread; eos = false };
            packet_count = u64 (r.packet_count + 1);
            pkt_eos = 0;
          }))
  unfolding decoder_read_packet
  ended_lem = elim (dec_lt (length r.unread) 4096) [
    | yes less ↦
        let all : take 4096 r.unread ≡ r.unread = take_all 4096 r.unread (omega arith) in
        let short : (length r.unread == 4096) ≡ false = ground arith in
        inl (less, rw (size, all, short) refl)
    | no more ↦
        let many : length (take 4096 r.unread) ≡ 4096 = length-take 4096 r.unread ∙ omega arith in
        inr (omega arith, rw (size, many) refl)
  ]

  decoder_read_packet-IsRead : IsRead (decoder_read_packet r)
  decoder_read_packet-IsRead = elim ended_lem [
    | inl (less, e) ↦
        rw e
          (record { size = size; full = λ f. absurd (cc); short = λ _. less; rewound = λ _. refl })
    | inr (more, e) ↦ rw e (record {
      size = size;
      full = λ _. length-take 4096 r.unread ∙ omega arith;
      short = λ f. absurd (cc);
      rewound = λ f. absurd (cc);
    })
  ]

  remaining-decoder_read_packet : remaining (decoder_read_packet r) ≡ r.unread
  remaining-decoder_read_packet = elim ended_lem [
    | inl (less, e) ↦ rw e (append-nil r.unread)
    | inr (more, e) ↦ rw e (take-append-drop 4096 r.unread)
  ]

  content-decoder_read_packet : (decoder_read_packet r).content ≡ r.content
  unfolding decoder_read_packet
  content-decoder_read_packet = refl

-- A packet that is taken, and what is left of the file in this pass behind it.
next_lem :
    (r : Reader)
    → IsRead r
    → r.packet.bytes ++ remaining (decoder_read_packet r)
      ≡ remaining r ++ (if r.packet.eos then r.content else [])
next_lem r v =
    let rest = remaining-decoder_read_packet r v.size in
    elim (Bool-cases r.packet.eos) [
      | inl e ↦ rw (rest, e, v.rewound e) (rw (append-nil r.packet.bytes) refl)
      | inr e ↦ rw (rest, e) (sym (append-nil (r.packet.bytes ++ r.unread)))
    ]

one_more :
    (p : Packet) (ps : List Packet) (c : List ℕ)
    → (if p.eos then c else []) ++ copies (count_eos ps) c ≡ copies (count_eos (p ∷ ps)) c
one_more p ps c = elim (Bool-cases p.eos) [ inl e ↦ rw e refl | inr e ↦ rw e refl ]

put_packets-cycle :
    (rets : List ℕ) (r : Reader)
    → IsRead r
    → joined (put_packets rets r).0 ++ remaining (put_packets rets r).1
      ≡ remaining r ++ copies (count_eos (put_packets rets r).0) r.content
unfolding put_packets
put_packets-cycle [] r v = sym (append-nil (remaining r))
put_packets-cycle (ret ∷ rets) r v = elim (Bool-cases (ret == 0)) [
  | inr refused ↦ rw refused (put_packets-cycle rets r v)
  | inl ok ↦
      let r' = decoder_read_packet r in
      let ih = put_packets-cycle rets r' (decoder_read_packet-IsRead r v.size) in
      let ps = (put_packets rets r').0 in
      let left = remaining (put_packets rets r').1 in
      let same : remaining r' ++ copies (count_eos ps) r'.content
          ≡ remaining r' ++ copies (count_eos ps) r.content =
        ap (λ c. remaining r' ++ copies (count_eos ps) c) (content-decoder_read_packet r v.size) in
      rw ok (
        append_assoc r.packet.bytes (joined ps) left
        ∙ ap (◌++◌ r.packet.bytes) (ih ∙ same)
        ∙ sym (append_assoc r.packet.bytes (remaining r') (copies (count_eos ps) r.content))
        ∙ ap (λ xs. xs ++ copies (count_eos ps) r.content) (next_lem r v)
        ∙ append_assoc (remaining r) (if r.packet.eos then r.content else [])
            (copies (count_eos ps) r.content)
        ∙ ap (◌++◌ (remaining r)) (one_more r.packet ps r.content))
]

length-put_packets : (rets : List ℕ) (r : Reader) → length (put_packets rets r).0 ≡ count_ok rets
unfolding put_packets
length-put_packets [] r = refl
length-put_packets (ret ∷ rets) r = elim (Bool-cases (ret == 0)) [
  | inr refused ↦ rw refused (length-put_packets rets r)
  | inl ok ↦ rw ok (ap suc (length-put_packets rets (decoder_read_packet r)))
]

put_packets-refused : (rets : List ℕ) (r : Reader) → count_ok rets ≡ 0 → (put_packets rets r).0 ≡ []
unfolding put_packets
put_packets-refused [] r e = refl
put_packets-refused (ret ∷ rets) r e = elim (Bool-cases (ret == 0)) [
  | inr refused ↦ rw refused (put_packets-refused rets r (rw refused at e))
  | inl ok ↦ absurd (omega (arith, rw ok at e))
]

-- As many packets as the rest of the file has, its end included, carry just this rest.
put_packets-pass :
    (rets : List ℕ) (r : Reader)
    → IsRead r
    → count_ok rets ≡ length (remaining r) / 4096 + 1
    → (joined (put_packets rets r).0 ≡ remaining r) × (count_eos (put_packets rets r).0 ≡ 1)
unfolding put_packets
put_packets-pass [] r v e = absurd (omega (arith, e))
put_packets-pass (ret ∷ rets) r v e = elim (Bool-cases (ret == 0)) [
  | inr refused ↦ rw refused (put_packets-pass rets r v (rw refused at e))
  | inl ok ↦ elim (Bool-cases r.packet.eos) [
    | inl last ↦
        let few = v.short last in
        let none_left : (put_packets rets (decoder_read_packet r)).0 ≡ [] =
          put_packets-refused rets (decoder_read_packet r)
            (omega (arith, rw (ok, last) at e, ap length (append-nil r.packet.bytes))) in
        rw (ok, none_left, last) (refl, refl)
    | inr more ↦
        let many = v.full more in
        let rest = remaining-decoder_read_packet r v.size in
        let (all, one) =
          put_packets-pass rets (decoder_read_packet r) (decoder_read_packet-IsRead r v.size)
            (rw rest (omega (arith, rw (ok, more) at e, length-append r.packet.bytes r.unread))) in
        rw (ok, more) (ap (◌++◌ r.packet.bytes) (all ∙ rest), one)
  ]
]

module _ (rets : List ℕ) (r : Reader) (v : IsOpen r) where
  -- Whatever calls of `decoder_put_packet` fail: one packet is taken for each call that succeeds, and the
  -- bytes of the packets taken, with what is left of the file in the pass at which they end, are the file,
  -- over and over, once more than there were end marks. Nothing is left out, sent twice or reordered.
  pub thread_input-copies :
      (joined (thread_input rets r).0 ++ remaining (thread_input rets r).1
        ≡ copies (suc (count_eos (thread_input rets r).0)) r.content)
      × (length (thread_input rets r).0 ≡ count_ok rets)
  unfolding thread_input
  thread_input-copies =
      let read = decoder_read_packet r in
      let start = remaining-decoder_read_packet r v.size ∙ v.at_start in
      (
        put_packets-cycle rets read (decoder_read_packet-IsRead r v.size)
            ∙ ap₂ (λ xs c. xs ++ copies (count_eos (put_packets rets read).0) c) start
                (content-decoder_read_packet r v.size),
        length-put_packets rets read,
      )

  -- With as many calls of `decoder_put_packet` that succeed as the file has whole pieces of 4096 bytes, and
  -- one more, the packets taken carry the file, and the end mark once; the number of calls that fail before
  -- or between them does not matter.
  pub thread_input-eq-content :
      count_ok rets ≡ length r.content / 4096 + 1
      → (joined (thread_input rets r).0 ≡ r.content) × (count_eos (thread_input rets r).0 ≡ 1)
  unfolding thread_input
  thread_input-eq-content enough =
      let start = remaining-decoder_read_packet r v.size ∙ v.at_start in
      let (all, one) =
        put_packets-pass rets (decoder_read_packet r) (decoder_read_packet-IsRead r v.size)
          (rw start enough) in
      (all ∙ start, one)
