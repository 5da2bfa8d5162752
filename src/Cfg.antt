-- ===== src/Cfg.antt =====
-- mycode/dvbcfg_common.h and dvbcfg_common.c: the parsers for one field of a configuration line.
--
-- `char *` is a list of cells, from the pointer to the end of the buffer, with the terminators in it;
-- the end of the list stands for a terminator. A parser that moves the caller's pointer returns the new
-- one, `none` for NULL. The terminator that it writes behind its field is not kept in the cells, since
-- no later parser reads before its pointer. An int is its bit pattern.
pub mod Settings
mod Tests
use Prim.Native.Char.{code}
use Prim.Native.String.{String}
use mathlib.Core.Option
use dvb_stream_v.Base.{
  ℕ, ◌+◌, ◌-◌, ◌*◌, ◌^◌, min, Bool, true, false, ◌&&◌, ◌||◌, Option, none, some, List, [], ◌∷◌,
  ◌++◌, map, ltb, leb, ◌==◌, if◌then◌else◌, length, drop, u32,
}

-- The codes of an ASCII text.
abbrev pub codes : String → List ℕ
codes String.[] = []
codes (String.◌∷◌ c s) = code c ∷ codes s

-- `strcmp(a, b) == 0`, for two texts without terminators in them.
abbrev pub same_text : List ℕ → List ℕ → Bool
same_text [] [] = true
same_text (x ∷ xs) (y ∷ ys) = x == y && same_text xs ys
same_text xs ys = false

-- `strchr(tokens, c) != NULL` for a `c` that is not 0.
unfoldable pub contains : List ℕ → ℕ → Bool
contains [] c = false
contains (t ∷ ts) c = t == c || contains ts c

-- The loop that looks for the end of a field: the field, and the cells from `stop` on, behind the token
-- if there is one.
unfoldable pub scan : List ℕ → List ℕ → List ℕ × List ℕ
unfolding contains
scan tokens [] = ([], [])
scan tokens (c ∷ cs) =
    let (field, stop) = scan tokens cs in
    if c == 0 then ([], c ∷ cs) else if contains tokens c then ([], cs) else (c ∷ field, stop)

-- `isspace` of the C locale.
unfoldable pub is_space : ℕ → Bool
is_space c = c == b' ' || (leb 9 c && leb c 13)

-- The value of a digit, if it is one of the base.
unfoldable pub digit_of : ℕ → ℕ → Option ℕ
digit_of base c =
    let v =
      if leb b'0' c && leb c b'9'
      then c - b'0'
      else if leb b'a' c && leb c b'f'
      then c - b'a' + 10
      else if leb b'A' c && leb c b'F'
      then c - b'A' + 10
      else 16 in
    if ltb v base then some v else none

-- The number that the digits at the front make, behind `acc`.
unfoldable pub read_digits : ℕ → ℕ → List ℕ → ℕ
unfolding digit_of
read_digits base acc [] = acc
read_digits base acc (c ∷ cs) = elim (digit_of base c) [
  | none ↦ acc
  | some d ↦ read_digits base (acc * base + d) cs
]

-- At least one digit.
unfoldable pub read_number : ℕ → List ℕ → Option ℕ
unfolding digit_of read_digits
read_number base [] = none
read_number base (c ∷ cs) = elim (digit_of base c) [
  | none ↦ none
  | some d ↦ some (read_digits base d cs)
]

-- The base by the prefix, as `%i` has it.
unfoldable pub read_prefixed : List ℕ → Option ℕ
unfolding read_number
read_prefixed (c ∷ x ∷ cs) =
    if c == b'0'
    then if x == b'x' || x == b'X' then read_number 16 cs else read_number 8 (c ∷ x ∷ cs)
    else read_number 10 (c ∷ x ∷ cs)
read_prefixed cs = read_number 10 cs

unfoldable pub skip_space : List ℕ → List ℕ
unfolding is_space
skip_space [] = []
skip_space (c ∷ cs) = let rest = skip_space cs in if is_space c then rest else c ∷ cs

-- `sscanf(start, "%i", &value)`: the value is read as a long, which stops at its bounds, and stored as
-- an int. `none`: no conversion.
unfoldable pub scan_int : List ℕ → Option ℕ
unfolding read_prefixed skip_space
scan_int start = elim (skip_space start) [
  | [] ↦ none
  | c ∷ cs ↦
      if c == b'-'
      then Option.map (λ v. u32 (2 ^ 64 - min v (2 ^ 63))) (read_prefixed cs)
      else Option.map (λ v. u32 (min v (2 ^ 63 - 1)))
          (if c == b'+' then read_prefixed cs else read_prefixed (c ∷ cs))
]

-- The int -1.
abbrev pub minus_one : ℕ
minus_one = 2 ^ 32 - 1

-- What a parser leaves in `*text`, and its value.
abbrev pub Field : Type 0
Field = Option (List ℕ) × ℕ

unfoldable pub dvbcfg_parse_int : List ℕ → List ℕ → Field
unfolding scan scan_int
dvbcfg_parse_int text tokens =
    let (start, stop) = scan tokens text in
    elim (scan_int start) [ none ↦ (none, minus_one) | some value ↦ (some stop, value) ]

unfoldable pub dvbcfg_parse_char : List ℕ → List ℕ → Field
unfolding scan
dvbcfg_parse_char text tokens =
    let (start, stop) = scan tokens text in
    elim start [ [] ↦ (none, minus_one) | c ∷ cs ↦ (some stop, c) ]

-- `struct dvbcfg_setting`
pub record DvbcfgSetting : Type 0 where
  pub name : List ℕ
  pub value : ℕ

-- The loop over the settings of `dvbcfg_parse_setting`.
unfoldable pub find_name : List ℕ → List DvbcfgSetting → Option ℕ
find_name start [] = none
find_name start (s ∷ settings) =
    if same_text start s.name then some s.value else find_name start settings

unfoldable pub dvbcfg_parse_setting : List ℕ → List ℕ → List DvbcfgSetting → Field
unfolding scan find_name
dvbcfg_parse_setting text tokens settings =
    let (start, stop) = scan tokens text in
    elim (find_name start settings) [ none ↦ (none, minus_one) | some value ↦ (some stop, value) ]

-- The loop of `dvbcfg_parse_string`, with the cells from `stop` on.
unfoldable pub scan_string : List ℕ → List ℕ → List ℕ × List ℕ
unfolding contains
scan_string tokens [] = ([], [])
scan_string tokens (c ∷ cs) =
    let (field, stop) = scan_string tokens cs in
    if c == 0 || contains tokens c then ([], c ∷ cs) else (c ∷ field, stop)

-- `dvbcfg_parse_string`: `*text`, and what is copied to `dest`, with a terminator. `strchr` finds the
-- terminator of `tokens` too, so its test holds at the end of the text as well: `*text` is then one
-- cell behind the text's terminator.
unfoldable pub dvbcfg_parse_string : List ℕ → List ℕ → ℕ → Option (List ℕ) × Option (List ℕ)
unfolding scan_string
dvbcfg_parse_string text tokens size =
    let (field, stop) = scan_string tokens text in
    if leb (length field + 1) size
    then (some (drop 1 stop), some (field ++ 0 ∷ []))
    else (none, none)

unfoldable pub dvbcfg_lookup_setting : ℕ → List DvbcfgSetting → Option (List ℕ)
dvbcfg_lookup_setting setting [] = none
dvbcfg_lookup_setting setting (s ∷ settings) =
    if setting == s.value then some s.name else dvbcfg_lookup_setting setting settings
