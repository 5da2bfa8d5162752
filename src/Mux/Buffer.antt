-- ===== src/Mux/Buffer.antt =====
-- Stores into the packet buffer: inside it they lay bytes down one behind the other.
use dvb_stream_v.Base.{
  ℕ, zero, suc, ◌+◌, ◌≤◌, ◌<◌, ◌≡◌, refl, ap, ◌∙◌, List, [], ◌∷◌, ◌++◌, append-nil, append_assoc,
  arith, lt→ltb, le→ltb, length, get_or, drop, replicate, length-append, drop_all, set-append,
  slice,
}
use dvb_stream_v.Ts.{ts_packet_size}
use dvb_stream_v.Mux.{store, store_all, stuff, copy_bytes, Out}

abbrev pub out : List ℕ → ℕ → List (ℕ × ℕ) → Out
out cells offset spilled = record { cells = cells; offset = offset; spilled = spilled }

store_inside :
    (pre : List ℕ) (z v : ℕ) (rest : List ℕ) (i : ℕ) (sp : List (ℕ × ℕ))
    → length pre ≡ i
    → i < ts_packet_size
    → store (out (pre ++ z ∷ rest) i sp) v ≡ out ((pre ++ v ∷ []) ++ rest) (i + 1) sp
unfolding store
store_inside pre z v rest i sp h lt =
    rw (lt→ltb i ts_packet_size lt, set-append pre i z v rest h, append_assoc) refl

-- Bytes that fit behind a written prefix are all there afterwards, in order.
pub store_all_inside :
    (vs pre old : List ℕ) (i j : ℕ) (sp : List (ℕ × ℕ))
    → length pre ≡ i
    → i + length vs ≡ j
    → j ≤ ts_packet_size
    → length vs ≤ length old
    → store_all (out (pre ++ old) i sp) vs ≡ out (pre ++ (vs ++ drop (length vs) old)) j sp
unfolding store_all
store_all_inside [] pre old i j sp h e le fits =
    ap (λ (k : ℕ). out (pre ++ old) k sp) (let same : i ≡ j = omega arith in same)
store_all_inside (v ∷ vs) pre [] i j sp h e le fits = absurd (omega arith)
store_all_inside (v ∷ vs) pre (z ∷ old) i j sp h e le fits =
    rw (store_inside pre z v old i sp h (omega arith)) (
      store_all_inside vs (pre ++ v ∷ []) old (i + 1) j sp
        (omega (arith, length-append pre (v ∷ []))) (omega arith) le (omega arith)
      ∙ ap (λ (c : List ℕ). out c j sp) (append_assoc pre (v ∷ []) (vs ++ drop (length vs) old)))

-- A store behind the end leaves the buffer alone and is recorded.
pub store_outside :
    (cells : List ℕ) (v : ℕ) (i : ℕ) (sp : List (ℕ × ℕ))
    → ts_packet_size ≤ i
    → store (out cells i sp) v ≡ out cells (i + 1) (sp ++ (i, v) ∷ [])
unfolding store
store_outside cells v i sp h = rw (le→ltb i ts_packet_size h) refl

pub store_all-append :
    (o : Out) (xs ys : List ℕ) → store_all o (xs ++ ys) ≡ store_all (store_all o xs) ys
unfolding store_all
store_all-append o [] ys = refl
store_all-append o (x ∷ xs) ys = store_all-append (store o x) xs ys

pub stuff-store_all : (n : ℕ) (o : Out) → stuff n o ≡ store_all o (replicate n 0xff)
unfolding stuff store_all
stuff-store_all zero o = refl
stuff-store_all (suc n) o = stuff-store_all n (store o 0xff)

module _ (stray : ℕ) (ptr : List ℕ) where
  pub copy_bytes-store_all :
      (pid i n : ℕ) (o : Out) → copy_bytes stray pid ptr i n o ≡ store_all o (slice ptr i n stray)
  unfolding copy_bytes store_all slice
  copy_bytes-store_all pid i zero o = refl
  copy_bytes-store_all pid i (suc n) o =
      ap (λ (k : ℕ). copy_bytes stray pid ptr k n (store o (get_or ptr i stray)))
        (let e : i + 1 ≡ suc i = omega arith in e)
      ∙ copy_bytes-store_all pid (suc i) n (store o (get_or ptr i stray))

-- A whole buffer's worth of bytes and one more: the buffer holds the former, the latter is spilled.
pub store_all_full :
    (vs cells : List ℕ) (v : ℕ)
    → length vs ≡ ts_packet_size
    → length cells ≡ ts_packet_size
    → store_all (out cells 0 []) (vs ++ v ∷ [])
      ≡ out vs (ts_packet_size + 1) ((ts_packet_size, v) ∷ [])
unfolding store_all
store_all_full vs cells v h c =
    store_all-append (out cells 0 []) vs (v ∷ [])
    ∙ ap (λ (o : Out). store_all o (v ∷ []))
        (store_all_inside vs [] cells 0 ts_packet_size [] refl (omega arith) (omega arith)
            (omega arith)
          ∙ ap (λ (c : List ℕ). out c ts_packet_size [])
              (ap (◌++◌ vs) (drop_all (length vs) cells (omega arith)) ∙ append-nil vs))
    ∙ store_outside vs v ts_packet_size [] (omega arith)
