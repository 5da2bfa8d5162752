-- ===== src/Decoder/Life.antt =====
-- The beginning and the end of a decoder's life.
use dvb_stream_v.Base.{
  ℕ, ◌<◌, ◌≡◌, refl, ◌⊎◌, inl, inr, Bool, true, Option, none, some, List, arith, Bool-cases, length,
}
use dvb_stream_v.Cfg.{minus_one}
use dvb_stream_v.Decoder.{
  initial_decoder, decoder_data_init, Resource, InitCall, DecoderData, malloc_buf, packet_init,
  create, set_split_mode, set_output_timeout, init,
}

-- Every call of `decoder_data_init` succeeds.
abbrev pub AllSucceed : (InitCall → Bool) → Type 0
AllSucceed ok = (c : InitCall) → ok c ≡ true

-- What a failed initialisation leaves behind: the pointer is not set, though the struct at least has
-- been acquired, and the result is -1, which a test for 0 takes for success.
abbrev pub IsLost : ℕ × Option DecoderData × List Resource → Type 0
IsLost (result, data_pointer, acquired) =
    (result ≡ minus_one) × (data_pointer ≡ none) × (0 < length acquired)

all_calls :
    (ok : InitCall → Bool)
    → ok malloc_buf ≡ true
    → ok packet_init ≡ true
    → ok create ≡ true
    → ok set_split_mode ≡ true
    → ok set_output_timeout ≡ true
    → ok init ≡ true
    → AllSucceed ok
all_calls ok a b c d e f malloc_buf = a
all_calls ok a b c d e f packet_init = b
all_calls ok a b c d e f create = c
all_calls ok a b c d e f set_split_mode = d
all_calls ok a b c d e f set_output_timeout = e
all_calls ok a b c d e f init = f

-- `decoder_data_init` returns 1 and sets the pointer if all of its calls succeed. In every other case it
-- returns -1, not 0, and what it has acquired is lost: no pointer to it is left.
pub decoder_data_init_lem :
    (ok : InitCall → Bool)
    → (AllSucceed ok
        × ((decoder_data_init ok).0 ≡ 1)
        × ((decoder_data_init ok).1 ≡ some initial_decoder))
      ⊎ IsLost (decoder_data_init ok)
unfolding decoder_data_init
decoder_data_init_lem ok = elim (Bool-cases (ok malloc_buf)) [
  | inr e ↦ rw e (inr (refl, refl, omega arith))
  | inl a ↦ elim (Bool-cases (ok packet_init)) [
    | inr e ↦ rw (a, e) (inr (refl, refl, omega arith))
    | inl b ↦ elim (Bool-cases (ok create)) [
      | inr e ↦ rw (a, b, e) (inr (refl, refl, omega arith))
      | inl c ↦ elim (Bool-cases (ok set_split_mode)) [
        | inr e ↦ rw (a, b, c, e) (inr (refl, refl, omega arith))
        | inl d ↦ elim (Bool-cases (ok set_output_timeout)) [
          | inr e ↦ rw (a, b, c, d, e) (inr (refl, refl, omega arith))
          | inl t ↦ elim (Bool-cases (ok init)) [
            | inr e ↦ rw (a, b, c, d, t, e) (inr (refl, refl, omega arith))
            | inl i ↦
                inl
                  (all_calls ok a b c d t i, rw (a, b, c, d, t, i) refl, rw (a, b, c, d, t, i) refl)
          ]
        ]
      ]
    ]
  ]
]
