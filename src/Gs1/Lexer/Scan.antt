-- ===== src/Gs1/Lexer/Scan.antt =====
-- reborn_protocol/gs1/lexer.py: searches in the text that is left. A character that is neither a
-- word character nor listed below is treated alike by every mode, so `isalpha` and `isdigit` are
-- tests for ASCII letters and digits.
use Prim.Native.Char.{code as char_code}
use Prim.Native.String.{String}
use reborn_protocol.Base.{
  ℕ, zero, suc, [], ◌∷◌, ◌++◌, Bool, true, false, ◌&&◌, ◌||◌, Option, none, some, length, leb, ◌==◌,
  if◌then◌else◌,
}
use reborn_protocol.Gs1.Csv.{Text, quote, next_is, rest_of}

abbrev pub codes : String → Text
codes String.[] = []
codes (String.◌∷◌ c s) = char_code c ∷ codes s

-- `c == d`, on characters.
infix 50 ◌is◌
unfoldable pub ◌is◌ : ℕ → ℕ → Bool
c is d = c == d

unfoldable pub between : ℕ → ℕ → ℕ → Bool
between lo hi c = leb lo c && leb c hi

unfoldable pub is_digit : ℕ → Bool
unfolding between
is_digit = between b'0' b'9'

-- `c.isalpha() or c == "_"`
unfoldable pub is_word_start : ℕ → Bool
unfolding between
is_word_start c = between b'a' b'z' c || between b'A' b'Z' c || c == b'_'

-- `[a-zA-Z0-9_]`
unfoldable pub is_word_char : ℕ → Bool
unfolding is_word_start is_digit
is_word_char c = is_word_start c || is_digit c

unfoldable pub is_hex : ℕ → Bool
unfolding is_digit between
is_hex c = is_digit c || between b'a' b'f' c || between b'A' b'F' c

unfoldable pub is_blank : ℕ → Bool
is_blank c = c == b' ' || c == b'\t' || c == b'\r' || c == b'\n'

-- `c in chars`
unfoldable pub is_one_of : Text → ℕ → Bool
is_one_of [] c = false
is_one_of (d ∷ chars) c = c == d || is_one_of chars c

unfoldable pub take_while : (ℕ → Bool) → Text → Text
take_while p [] = []
take_while p (c ∷ rest) = if p c then c ∷ take_while p rest else []

unfoldable pub drop_while : (ℕ → Bool) → Text → Text
drop_while p [] = []
drop_while p (c ∷ rest) = if p c then drop_while p rest else c ∷ rest

-- What follows a prefix.
unfoldable pub after_prefix : Text → Text → Option Text
after_prefix [] rest = some rest
after_prefix (d ∷ prefix) [] = none
after_prefix (d ∷ prefix) (c ∷ rest) = if c == d then after_prefix prefix rest else none

-- What follows the next "*/".
unfoldable pub after_comment : Text → Text
after_comment [] = []
after_comment (c ∷ rest) =
    if c == b'*' && next_is rest b'/' then rest_of rest else after_comment rest

-- `_skip_ws`; each round takes a character, so the length of the text is enough fuel.
unfoldable pub skip_rounds : ℕ → Text → Text
skip_rounds zero t = t
skip_rounds (suc fuel) [] = []
skip_rounds (suc fuel) (c ∷ rest) =
    let blank = skip_rounds fuel rest in
    let line = skip_rounds fuel (drop_while (λ d. if d == b'\n' then false else true) rest) in
    let comment = skip_rounds fuel (after_comment (rest_of rest)) in
    if is_blank c
    then blank
    else if c == b'/' && next_is rest b'/'
    then line
    else if c == b'/' && next_is rest b'*'
    then comment
    else c ∷ rest

unfoldable pub skip_ws : Text → Text
skip_ws t = skip_rounds (length t) t

-- `_next_nonspace`, as a test.
unfoldable pub next_nonspace_is : Text → ℕ → Bool
next_nonspace_is t d = next_is (drop_while is_blank t) d

-- `_REAL.match`: the number and what follows it.
unfoldable pub digits : Text → Option (Text × Text)
digits [] = none
digits (c ∷ rest) =
    if is_digit c then some (c ∷ take_while is_digit rest, drop_while is_digit rest) else none

-- `\.[0-9]+`
unfoldable pub fraction : Text → Option (Text × Text)
fraction [] = none
fraction (c ∷ rest) =
    if c == b'.'
    then elim (digits rest) [ none ↦ none | some (d, after) ↦ some (c ∷ d, after) ]
    else none

-- `0x[0-9a-fA-F]+`
unfoldable pub hexadecimal : Text → Option (Text × Text)
hexadecimal (zero_digit ∷ x ∷ h ∷ rest) =
    if zero_digit == b'0' && x == b'x' && is_hex h
    then some (zero_digit ∷ x ∷ h ∷ take_while is_hex rest, drop_while is_hex rest)
    else none
hexadecimal t = none

unfoldable pub with_fraction : Text × Text → Text × Text
with_fraction (whole, rest) = elim (fraction rest) [
  | none ↦ (whole, rest)
  | some (d, after) ↦ (whole ++ d, after)
]

unfoldable pub match_real : Text → Option (Text × Text)
unfolding digits fraction hexadecimal with_fraction
match_real t = elim (hexadecimal t) [
  | some found ↦ some found
  | none ↦ elim (digits t) [ some found ↦ some (with_fraction found) | none ↦ fraction t ]
]

-- A code of one letter or digit.
unfoldable pub short_code : ℕ → Text → Option (Text × Text)
short_code c rest =
    if is_one_of (codes "angcmWw1235678NDLFfpbESptKkGsvIeiTURQ") c
    then some (c ∷ [], rest)
    else none

-- `_MC.match` behind a '#': the code without it, and what follows. All digits behind a P belong to it.
unfoldable pub match_messagecode : Text → Option (Text × Text)
unfolding short_code
match_messagecode [] = none
match_messagecode (c ∷ []) = short_code c []
match_messagecode (c ∷ d ∷ rest) =
    if c == b'C' && is_digit d
    then some (c ∷ d ∷ [], rest)
    else if c == b'P' && is_digit d
    then some (c ∷ d ∷ take_while is_digit rest, drop_while is_digit rest)
    else if c == b'P' && d == b'('
    then some (c ∷ [], d ∷ rest)
    else short_code c (d ∷ rest)

-- `_scan_quoted_string` behind the opening quote: the string and what follows the closing quote.
unfoldable pub quoted_string : Text → Text × Text
quoted_string [] = ([], [])
quoted_string (c ∷ []) = if c == quote then ([], []) else (c ∷ [], [])
quoted_string (c ∷ d ∷ rest) =
    let doubled = quoted_string rest in
    let on = quoted_string (d ∷ rest) in
    if c == quote
    then (if d == quote then (quote ∷ doubled.0, doubled.1) else ([], d ∷ rest))
    else (c ∷ on.0, on.1)
