-- ===== src/Dvb/Text.antt =====
-- The text of a line of the channel list, and where it ends.

use dvb_stream_v.Base.{
  ℕ, ◌≡◌, refl, sym, ap, ◌∙◌, ◌≢◌, ◌⊎◌, inl, inr, true, false, ◌||◌, List, [], ◌∷◌, ◌++◌,
  append-nil, append_assoc, arith, ◌==◌, All,
}
use dvb_stream_v.Dvb.{trim}
use dvb_stream_v.Dvb.Stages.{field}

-- The thirteen texts of a line, and the numbers that they stand for.
pub record Line : Type 0 where
  pub name : List ℕ
  pub frequency_text : List ℕ
  pub inversion_text : List ℕ
  pub bandwidth_text : List ℕ
  pub fec_text : List ℕ
  pub low_fec_text : List ℕ
  pub constellation_text : List ℕ
  pub mode_text : List ℕ
  pub guard_text : List ℕ
  pub hierarchy_text : List ℕ
  pub video_text : List ℕ
  pub audio_text : List ℕ
  pub service_text : List ℕ
  pub frequency : ℕ
  pub inversion : ℕ
  pub bandwidth : ℕ
  pub fec : ℕ
  pub low_fec : ℕ
  pub constellation : ℕ
  pub mode : ℕ
  pub guard : ℕ
  pub hierarchy : ℕ
  pub video : ℕ
  pub audio : ℕ
  pub service : ℕ

-- The line behind its frequency, up to the terminator.
abbrev pub settings_of : Line → List ℕ → List ℕ
settings_of l rest = field l.inversion_text (
    field l.bandwidth_text (
      field l.fec_text (
        field l.low_fec_text (
          field l.constellation_text (
            field l.mode_text (
              field l.guard_text (
                field l.hierarchy_text
                  (field l.video_text (field l.audio_text (l.service_text ++ rest))))))))))

-- The line, with what ends it.
abbrev pub text_of : Line → List ℕ → List ℕ
text_of l rest = field l.name (field l.frequency_text (settings_of l rest))

-- A character that ends no line: not the terminator, a newline or a hash.
abbrev pub StaysIn : ℕ → Type 0
StaysIn c = (c ≢ 0) × (c ≢ 0x0a) × (c ≢ b'#')

not_same : (a b : ℕ) → a ≢ b → (a == b) ≡ false
not_same a b h = ground arith

-- What ends a line: the terminator, a newline or the hash of a comment.
abbrev pub EndsLine : ℕ → Type 0
EndsLine c = (c ≡ 0) ⊎ ((c ≡ 0x0a) ⊎ (c ≡ b'#'))

pub trim_lem :
    (xs : List ℕ) (e : ℕ) (rest : List ℕ)
    → EndsLine e
    → All StaysIn xs
    → trim (xs ++ e ∷ rest) ≡ xs ++ 0 ∷ rest
unfolding trim
trim_lem [] e rest ends h =
    let ended : (e == 0 || e == 0x0a || e == b'#') ≡ true = elim ends [
      | inl zero_there ↦ rw zero_there refl
      | inr (inl newline) ↦ rw newline refl
      | inr (inr hash) ↦ rw hash refl
    ] in
    rw ended refl
trim_lem (c ∷ cs) e rest ends h =
    let not_end : (c == 0) ≡ false = not_same c 0 h.0.0 in
    let not_newline : (c == 0x0a) ≡ false = not_same c 0x0a h.0.1 in
    let not_hash : (c == b'#') ≡ false = not_same c b'#' h.0.2 in
    rw (not_end, not_newline, not_hash) (ap (◌∷◌ c) (trim_lem cs e rest ends h.1))

field_next : (xs ws zs : List ℕ) {ys : List ℕ} → ys ≡ ws ++ zs → field xs ys ≡ field xs ws ++ zs
field_next xs ws zs {ys} e = ap (field xs) e ∙ sym (append_assoc xs (b':' ∷ ws) zs)

pub text_of-append : (l : Line) (rest : List ℕ) → text_of l rest ≡ text_of l [] ++ rest
text_of-append l rest = field_next l.name _ rest (
    field_next l.frequency_text _ rest (
      field_next l.inversion_text _ rest (
        field_next l.bandwidth_text _ rest (
          field_next l.fec_text _ rest (
            field_next l.low_fec_text _ rest (
              field_next l.constellation_text _ rest (
                field_next l.mode_text _ rest (
                  field_next l.guard_text _ rest (
                    field_next l.hierarchy_text _ rest (
                      field_next l.video_text _ rest (
                        field_next l.audio_text (l.service_text ++ []) rest
                          (ap (λ xs. xs ++ rest) (sym (append-nil l.service_text))))))))))))))
