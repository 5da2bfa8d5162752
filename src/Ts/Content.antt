-- ===== src/Ts/Content.antt =====
-- The copy loop of `ts_packet_init`: when it stays inside `payload.data`, and what it copies.
use dvb_stream_v.Base.{
  ℕ, zero, suc, ◌+◌, ◌-◌, ◌≤◌, ◌<◌, ◌≡◌, sym, ap, ap₂, ◌∙◌, inl, inr, none, some, List, [], ◌∷◌,
  ◌++◌, append_assoc, arith, ltb, ltb→lt, ltb→le, lt→ltb, le→ltb, Bool-cases, set, replicate,
  set-append, slice, length-slice, slice_snoc,
}
use dvb_stream_v.Ts.{ts_packet_size, byte_at, no_payload, payload_size, copy_payload}

module _ (size : ℕ) (buf : List ℕ) (offset : ℕ) where
  -- With `i + room` bytes of array the loop is in bounds exactly if `size` is at most that.
  copy_payload-overrun :
      (room i : ℕ) (bytes : List ℕ)
      → i + room < size
      → copy_payload room size i buf offset bytes ≡ none
  unfolding copy_payload
  copy_payload-overrun zero i bytes h = rw (lt→ltb i size (omega arith))
  copy_payload-overrun (suc room) i bytes h =
      rw (lt→ltb i size (omega arith)) (copy_payload-overrun room (i + 1) _ (omega arith))

  -- The array after `i` rounds, with `room` cells still zero.
  abbrev filled : ℕ → ℕ → List ℕ
  filled i room = slice buf offset i 0 ++ replicate room 0

  filled_next :
      (i room : ℕ) → set (filled i (suc room)) i (byte_at buf (offset + i)) ≡ filled (suc i) room
  filled_next i room =
      set-append (slice buf offset i 0) i 0 (byte_at buf (offset + i)) (replicate room 0)
        (length-slice buf offset i 0)
      ∙ sym (
          ap (λ xs. xs ++ replicate room 0) (slice_snoc buf offset i 0)
          ∙ append_assoc (slice buf offset i 0) (byte_at buf (offset + i) ∷ []) (replicate room 0))

  copy_payload-filled :
      (room i left : ℕ)
      → i ≤ size
      → i + room ≡ size + left
      → copy_payload room size i buf offset (filled i room) ≡ some (filled size left)
  unfolding copy_payload
  copy_payload-filled zero i left h e =
      let same : i ≡ size = omega arith in
      let full : 0 ≡ left = omega arith in
      rw (le→ltb i size (omega arith)) (ap₂ (λ a b. some (filled a b)) same full)
  copy_payload-filled (suc room) i left h e = elim (Bool-cases (ltb i size)) [
    | inl more ↦
        let next : suc i ≡ i + 1 = omega arith in
        rw more (
          ap (λ xs. copy_payload room size (i + 1) buf offset xs)
            (filled_next i room ∙ ap (λ k. filled k room) next)
          ∙ copy_payload-filled room (i + 1) left (omega (arith, ltb→lt i size more)) (omega arith))
    | inr done ↦
        let same : i ≡ size = omega (arith, ltb→le i size done) in
        let full : suc room ≡ left = omega arith in
        rw done (ap₂ (λ a b. some (filled a b)) same full)
  ]

module _ (buf : List ℕ) (offset : ℕ) where
  -- `payload.size` is the rest of the packet if the payload begins inside it.
  pub payload_size_inside : offset ≤ ts_packet_size → payload_size offset ≡ ts_packet_size - offset
  unfolding payload_size
  payload_size_inside h = omega arith

  payload_size_outside :
      ts_packet_size < offset → offset < 4096 → ts_packet_size < payload_size offset
  unfolding payload_size
  payload_size_outside h k = omega arith

  pub copy_outside :
      ts_packet_size < offset
      → offset < 4096
      → copy_payload ts_packet_size (payload_size offset) 0 buf offset no_payload.bytes ≡ none
  copy_outside h k =
      copy_payload-overrun (payload_size offset) buf offset ts_packet_size 0 no_payload.bytes
        (omega (arith, payload_size_outside h k))

  -- The array's content: the bytes up to the packet's end, then zeros.
  abbrev pub rest_of_packet : List ℕ
  rest_of_packet = slice buf offset (ts_packet_size - offset) 0 ++ replicate offset 0

  pub copy_inside :
      offset ≤ ts_packet_size
      → copy_payload ts_packet_size (payload_size offset) 0 buf offset no_payload.bytes
        ≡ some rest_of_packet
  unfolding slice
  copy_inside h = rw (payload_size_inside h) (
      copy_payload-filled (ts_packet_size - offset) buf offset ts_packet_size 0 offset (omega arith)
        (omega arith))
