-- ===== src/Cfg/Settings.antt =====
-- Fields of a configuration line: how far the parsers of mycode/dvbcfg_common.c read, and what they find.
use mathlib.Core.Option.{some-injective}
use mathlib.Core.Path.{subst}
use dvb_stream_v.Base.{
  ℕ, ◌+◌, ◌≡◌, refl, sym, ap, ◌∙◌, inl, inr, true, false, ◌||◌, none, some, List, [], ◌∷◌, ◌++◌,
  leb, ◌==◌, if◌then◌else◌, ==→eq, eq→==, Bool-cases, length, All,
}
use dvb_stream_v.Cfg.{
  same_text, contains, scan, minus_one, Field, find_name, dvbcfg_parse_setting, scan_string,
  dvbcfg_parse_string, dvbcfg_lookup_setting, DvbcfgSetting,
}

-- A cell that ends neither a field nor the text.
abbrev pub IsPlain : List ℕ → ℕ → Type 0
IsPlain tokens c = ((c == 0) ≡ false) × (contains tokens c ≡ false)

-- The parsers stop at the first token.
pub scan-append :
    (tokens field : List ℕ) (c : ℕ) (rest : List ℕ)
    → All (IsPlain tokens) field
    → (c == 0) ≡ false
    → contains tokens c ≡ true
    → scan tokens (field ++ c ∷ rest) ≡ (field, rest)
unfolding scan
scan-append tokens [] c rest plain nonzero token = rw (nonzero, token) refl
scan-append tokens (x ∷ xs) c rest plain nonzero token =
    rw (plain.0.0, plain.0.1, scan-append tokens xs c rest plain.1 nonzero token) refl

-- They also stop at the text's terminator, and do not pass it.
pub scan-terminated :
    (tokens field rest : List ℕ)
    → All (IsPlain tokens) field
    → scan tokens (field ++ 0 ∷ rest) ≡ (field, 0 ∷ rest)
unfolding scan
scan-terminated tokens [] rest plain = refl
scan-terminated tokens (x ∷ xs) rest plain =
    rw (plain.0.0, plain.0.1, scan-terminated tokens xs rest plain.1) refl

scan_string-append :
    (tokens field : List ℕ) (c : ℕ) (rest : List ℕ)
    → All (IsPlain tokens) field
    → (c == 0 || contains tokens c) ≡ true
    → scan_string tokens (field ++ c ∷ rest) ≡ (field, c ∷ rest)
unfolding scan_string
scan_string-append tokens [] c rest plain ends = rw ends refl
scan_string-append tokens (x ∷ xs) c rest plain ends =
    rw (plain.0.0, plain.0.1, scan_string-append tokens xs c rest plain.1 ends) refl

-- `dvbcfg_parse_string` takes a field that ends with a token or with the text, if it fits `dest` with
-- its terminator, and moves the pointer to the cell behind the end. So at the end of the text the
-- pointer is left behind the text's terminator; a field that does not fit sets it to NULL.
pub dvbcfg_parse_string_lem :
    (tokens field : List ℕ) (c : ℕ) (rest : List ℕ) (size : ℕ)
    → All (IsPlain tokens) field
    → (c == 0 || contains tokens c) ≡ true
    → dvbcfg_parse_string (field ++ c ∷ rest) tokens size
      ≡ (if leb (length field + 1) size then (some rest, some (field ++ 0 ∷ [])) else (none, none))
unfolding dvbcfg_parse_string
dvbcfg_parse_string_lem tokens field c rest size plain ends =
    rw (scan_string-append tokens field c rest plain ends) refl

same_text_refl : (xs : List ℕ) → same_text xs xs ≡ true
same_text_refl [] = refl
same_text_refl (x ∷ xs) = rw (eq→== x x refl) (same_text_refl xs)

-- A table of settings whose names are plain and differ from each other.
abbrev pub IsSettings : List ℕ → List DvbcfgSetting → Type 0
IsSettings tokens [] = Unit
IsSettings tokens (s ∷ ss) =
    All (IsPlain tokens) s.name
    × All (λ t. same_text t.name s.name ≡ false) ss
    × IsSettings tokens ss

-- A name that is looked up has what all names have.
lookup-All :
    (P : List ℕ → Type 0) (v : ℕ) (ss : List DvbcfgSetting) (name : List ℕ)
    → All (λ t. P t.name) ss
    → dvbcfg_lookup_setting v ss ≡ some name
    → P name
unfolding dvbcfg_lookup_setting
lookup-All P v [] name all e = absurd (cc)
lookup-All P v (s ∷ ss) name all e = elim (Bool-cases (v == s.value)) [
  | inl here ↦ subst P (some-injective s.name name (rw here at e)) all.0
  | inr later ↦ lookup-All P v ss name all.1 (rw later at e)
]

lookup-IsPlain :
    (tokens : List ℕ) (v : ℕ) (ss : List DvbcfgSetting) (name : List ℕ)
    → IsSettings tokens ss
    → dvbcfg_lookup_setting v ss ≡ some name
    → All (IsPlain tokens) name
unfolding dvbcfg_lookup_setting
lookup-IsPlain tokens v [] name table e = absurd (cc)
lookup-IsPlain tokens v (s ∷ ss) name table e = elim (Bool-cases (v == s.value)) [
  | inl here ↦ subst (All (IsPlain tokens)) (some-injective s.name name (rw here at e)) table.0
  | inr later ↦ lookup-IsPlain tokens v ss name table.2 (rw later at e)
]

find_name-lookup :
    (tokens : List ℕ) (v : ℕ) (ss : List DvbcfgSetting) (name : List ℕ)
    → IsSettings tokens ss
    → dvbcfg_lookup_setting v ss ≡ some name
    → find_name name ss ≡ some v
unfolding dvbcfg_lookup_setting find_name
find_name-lookup tokens v [] name table e = absurd (cc)
find_name-lookup tokens v (s ∷ ss) name table e = elim (Bool-cases (v == s.value)) [
  | inl here ↦
      let same : s.name ≡ name = some-injective s.name name (rw here at e) in
      let v_is : v ≡ s.value = ==→eq v s.value here in
      rw (← same, same_text_refl s.name) (ap some (sym v_is))
  | inr later ↦
      let found : dvbcfg_lookup_setting v ss ≡ some name = rw later at e in
      let other : same_text name s.name ≡ false =
        lookup-All (λ n. same_text n s.name ≡ false) v ss name table.1 found in
      rw other (find_name-lookup tokens v ss name table.2 found)
]

-- Every value that `dvbcfg_lookup_setting` names, `dvbcfg_parse_setting` reads back from that name and a
-- token behind it, whatever follows, for a table whose names are plain and differ from each other.
pub dvbcfg_parse_setting-lookup :
    (tokens : List ℕ) (v : ℕ) (ss : List DvbcfgSetting) (name : List ℕ) (c : ℕ) (rest : List ℕ)
    → IsSettings tokens ss
    → dvbcfg_lookup_setting v ss ≡ some name
    → (c == 0) ≡ false
    → contains tokens c ≡ true
    → dvbcfg_parse_setting (name ++ c ∷ rest) tokens ss ≡ (some rest, v)
unfolding dvbcfg_parse_setting
dvbcfg_parse_setting-lookup tokens v ss name c rest table e nonzero token =
    let read =
      scan-append tokens name c rest (lookup-IsPlain tokens v ss name table e) nonzero token in
    let found = find_name-lookup tokens v ss name table e in
    ap
      (λ (r : List ℕ × List ℕ). elim (find_name r.0 ss) as (λ _. Field) [
        | none ↦ (none, minus_one)
        | some value ↦ (some r.1, value)
      ])
      read
    ∙ rw found refl
