-- ===== src/Gs1/Csv.antt =====
-- reborn_protocol/gs1/csv.py: the CSV dialect of string lists. A text is the list of its code
-- points; the values are texts already, so `str` changes nothing.
pub mod Scan
pub mod Rounds
pub mod RoundTrip
use reborn_protocol.Base.{
  ℕ, zero, suc, List, [], ◌∷◌, ◌++◌, map, Bool, true, false, ◌&&◌, ◌||◌, Option, none, some, length,
  ◌==◌, if◌then◌else◌,
}

abbrev pub Text : Type 0
Text = List ℕ

abbrev pub quote : ℕ
quote = b'"'

abbrev pub backslash : ℕ
backslash = b'\\'

abbrev pub comma : ℕ
comma = b','

-- `any(char in value for char in '"\\,')`
pub has_special : Text → Bool
has_special [] = false
has_special (c ∷ value) = (c == quote || c == backslash || c == comma) || has_special value

-- `value.replace(c, c + c)`
unfoldable pub double : ℕ → Text → Text
double d [] = []
double d (c ∷ value) = let rest = double d value in if c == d then c ∷ c ∷ rest else c ∷ rest

pub escape : Text → Text
escape value = double quote (double backslash value)

pub field : Bool → Text → Text
field force_quoted value =
    if force_quoted || has_special value then quote ∷ (escape value ++ quote ∷ []) else value

-- `",".join(fields)`
pub join : List Text → Text
join [] = []
join (f ∷ []) = f
join (f ∷ g ∷ fields) = f ++ comma ∷ join (g ∷ fields)

unfoldable pub gs1_csv_join : List Text → Bool → Text
unfolding join field
gs1_csv_join values force_quoted = join (map (field force_quoted) values)

-- The variables of the loop of `gs1_csv_split`.
pub record Splitter : Type 0 where
  pub tokens : List Text
  pub token : Text
  pub word_start : Bool
  pub word_quoted : Bool

-- One round of the loop goes on with the rest of the value, or leaves the loop.
pub data Round : Type 0 where
  go : Splitter → Text → Round
  stop : Splitter → Round

-- `next_char == d`
unfoldable pub next_is : Text → ℕ → Bool
next_is [] d = false
next_is (c ∷ rest) d = c == d

abbrev pub rest_of : Text → Text
rest_of [] = []
rest_of (c ∷ rest) = rest

-- What follows the next comma.
pub after_comma : Text → Option Text
after_comma [] = none
after_comma (c ∷ rest) = if c == comma then some rest else after_comma rest

-- `tokens.append("".join(token))`, `token.clear()` and a new word.
abbrev pub push : Splitter → Splitter
push s = record s { tokens = s.tokens ++ s.token ∷ []; token = []; word_start = true }

abbrev pub keep : ℕ → Splitter → Splitter
keep c s = record s { token = s.token ++ c ∷ [] }

abbrev resume : Splitter → Option Text → Round
resume s none = stop s
resume s (some rest) = go s rest

-- The branch `if word_quoted`.
pub scan_quoted : Splitter → ℕ → Text → Round
scan_quoted s c rest =
    if c == backslash && next_is rest backslash
    then go (keep backslash s) (rest_of rest)
    else if c == quote && next_is rest quote
    then go (keep quote s) (rest_of rest)
    else if c == quote
    then resume (record (push s) { word_quoted = false }) (after_comma rest)
    else go (keep c s) rest

pub scan : Bool → Splitter → ℕ → Text → Round
scan ignore_leading_whitespace s c rest =
    if ignore_leading_whitespace && s.word_start && (c == b' ' || c == 9)
    then go s rest
    else if s.word_start && c == quote
    then go (record s { word_start = false; word_quoted = true }) rest
    else if s.word_quoted
    then scan_quoted s c rest
    else if c == comma
    then go (push s) rest
    else go (record (keep c s) { word_start = false }) rest

-- `if token: tokens.append("".join(token))`
pub finish : Splitter → List Text
finish s = elim s.token [ [] ↦ s.tokens | c ∷ r ↦ s.tokens ++ s.token ∷ [] ]

pub split_loop : ℕ → Bool → Splitter → Text → List Text
split_loop fuel ignore s [] = finish s
split_loop zero ignore s (c ∷ rest) = finish s
split_loop (suc fuel) ignore s (c ∷ rest) = elim (scan ignore s c rest) [
  | go s' rest' ↦ split_loop fuel ignore s' rest'
  | stop s' ↦ finish s'
]

-- Each round takes at least one character, so the length of the value is enough fuel.
pub split_from : Bool → Splitter → Text → List Text
split_from ignore s value = split_loop (length value) ignore s value

abbrev pub at_word : List Text → Splitter
at_word tokens = record { tokens = tokens; token = []; word_start = true; word_quoted = false }

unfoldable pub gs1_csv_split : Text → Bool → List Text
unfolding split_from
gs1_csv_split value ignore_leading_whitespace =
    split_from ignore_leading_whitespace (at_word []) value
