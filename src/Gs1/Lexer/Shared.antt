-- ===== src/Gs1/Lexer/Shared.antt =====
-- reborn_protocol/gs1/lexer.py: the tables of operators and the tokens that several modes share. The
-- text at the position is `c ∷ rest`; a method that may return `None` for "no match" gives an Option.
use Prim.Native.String.{String}
use reborn_protocol.Base.{
  ℕ, List, [], ◌∷◌, Bool, true, false, not, ◌&&◌, ◌||◌, Option, none, some, ◌==◌, if◌then◌else◌,
}
use reborn_protocol.Gs1.Csv.{Text, next_is, rest_of}
use reborn_protocol.Gs1.Tokens.{
  TokenType, same_text, end, identifier, string, literal, messagecode, op_assign, op_assign_add,
  op_assign_sub, op_assign_mul, op_assign_div, op_assign_mod, op_assign_pow, op_equal, op_noteq,
  op_less_eq, op_great_eq, op_inc, op_dec, op_logicaland, op_logicalor, op_concat, op_add, op_sub,
  op_mul, op_div, op_mod, op_pow, op_less, op_great, op_logicalnot, op_in, token_bracket_left,
  token_bracket_right, token_brace_left, token_brace_right, token_paren_left, token_paren_right,
  token_comma, token_pipe, token_question, token_colon, token_period,
}
use reborn_protocol.Gs1.Lexer.Scan.{
  ◌is◌, codes, is_digit, after_prefix, match_real, match_messagecode, quoted_string,
}
use reborn_protocol.Gs1.Lexer.State.{
  LexState, Scan, found, nothing, Tables, in_command_call, has_pending_ternary, emit_before,
  pop_next_mode, push_command,
}

-- OPERATORS, each with its spelling in `_OP_CANON`.
pub record Operator : Type 0 where
  pub lit : Text
  pub ttype : TokenType
  pub canon : Text

abbrev operator : String → TokenType → Operator
operator lit t = record { lit = codes lit; ttype = t; canon = codes lit }

abbrev pub operators : List Operator
operators =
    record { lit = codes ":="; ttype = op_assign; canon = codes "=" }
    ∷ operator "+=" op_assign_add
    ∷ operator "-=" op_assign_sub
    ∷ operator "*=" op_assign_mul
    ∷ operator "/=" op_assign_div
    ∷ operator "%=" op_assign_mod
    ∷ operator "^=" op_assign_pow
    ∷ operator "==" op_equal
    ∷ operator "!=" op_noteq
    ∷ record { lit = codes "<>"; ttype = op_noteq; canon = codes "!=" }
    ∷ operator "<=" op_less_eq
    ∷ record { lit = codes "=<"; ttype = op_less_eq; canon = codes "<=" }
    ∷ operator ">=" op_great_eq
    ∷ record { lit = codes "=>"; ttype = op_great_eq; canon = codes ">=" }
    ∷ operator "++" op_inc
    ∷ operator "--" op_dec
    ∷ operator "&&" op_logicaland
    ∷ operator "||" op_logicalor
    ∷ operator "=" op_assign
    ∷ operator "@" op_concat
    ∷ operator "+" op_add
    ∷ operator "-" op_sub
    ∷ operator "*" op_mul
    ∷ operator "/" op_div
    ∷ operator "%" op_mod
    ∷ operator "^" op_pow
    ∷ operator "<" op_less
    ∷ operator ">" op_great
    ∷ operator "!" op_logicalnot
    ∷ []

-- The types that start with "OP_".
abbrev pub op_types : List TokenType
op_types =
    op_assign ∷ op_assign_add ∷ op_assign_sub ∷ op_assign_mul ∷ op_assign_div ∷ op_assign_mod
    ∷ op_assign_pow ∷ op_equal ∷ op_noteq ∷ op_less_eq ∷ op_great_eq ∷ op_inc ∷ op_dec
    ∷ op_logicaland ∷ op_logicalor ∷ op_concat ∷ op_add ∷ op_sub ∷ op_mul ∷ op_div ∷ op_mod ∷ op_pow
    ∷ op_less ∷ op_great ∷ op_logicalnot ∷ op_in ∷ []

-- PUNCT
unfoldable pub punct : ℕ → Option TokenType
punct c =
    if c == b'['
    then some token_bracket_left
    else if c == b']'
    then some token_bracket_right
    else if c == b'{'
    then some token_brace_left
    else if c == b'}'
    then some token_brace_right
    else if c == b'('
    then some token_paren_left
    else if c == b')'
    then some token_paren_right
    else if c == b','
    then some token_comma
    else if c == b'|'
    then some token_pipe
    else if c == b'?'
    then some token_question
    else if c == b':'
    then some token_colon
    else if c == b'.'
    then some token_period
    else none

-- `self.pos` moves on.
abbrev pub at : Text → LexState → LexState
at rest s = record s { rest = rest }

-- Return a token with the text in front of `rest`, or `None` there.
unfoldable pub give : TokenType → Text → Text → LexState → Scan
give t text rest s = found (record { type = t; text = text }) (at rest s)

unfoldable pub hide : Text → LexState → Scan
hide rest s = nothing (at rest s)

-- `if m: return m`
unfoldable pub or_else : Option Scan → Scan → Scan
or_else none other = other
or_else (some scan) other = scan

-- `_match_hash_escape`, behind a '#'.
unfoldable pub hash_escape : TokenType → Text → LexState → Option Scan
hash_escape t rest s =
    if next_is rest b'#' then some (give t (b'#' ∷ []) (rest_of rest) s) else none

-- `_try_operator`
unfoldable pub try_operator : List Operator → Text → LexState → Option Scan
try_operator [] t s = none
try_operator (o ∷ ops) t s = elim (after_prefix o.lit t) [
  | some rest ↦ some (give o.ttype o.canon rest s)
  | none ↦ try_operator ops t s
]

unfoldable pub is_digit_next : Text → Bool
is_digit_next [] = false
is_digit_next (c ∷ rest) = is_digit c

-- `_try_real`, where a digit or a period and a digit stand.
unfoldable pub try_real : ℕ → Text → LexState → Option Scan
unfolding is_digit_next
try_real c rest s =
    if is_digit c || (c is b'.' && is_digit_next rest)
    then elim (match_real (c ∷ rest)) [
      | some (number, after) ↦ some (give literal number after s)
      | none ↦ none
    ]
    else none

unfoldable pub scan_quoted_string : Text → LexState → Scan
scan_quoted_string rest s = let found = quoted_string rest in give string found.0 found.1 s

-- Outside of a pending ternary ':' is an IDENTIFIER, but not the one of ":=".
unfoldable pub is_flag_colon : ℕ → Text → LexState → Bool
is_flag_colon c rest s = c is b':' && not (has_pending_ternary s.out) && not (next_is rest b'=')

-- A '}' or ';' that ends a command, and a ')' that ends a call.
unfoldable pub end_by_brace : Text → LexState → Scan
end_by_brace rest s =
    give token_brace_right (b'}' ∷ []) rest (pop_next_mode true (emit_before end s))

unfoldable pub end_by_semicolon : Text → LexState → Scan
end_by_semicolon rest s = give end (b';' ∷ []) rest (pop_next_mode true s)

unfoldable pub end_by_paren : Text → LexState → Scan
end_by_paren rest s =
    if in_command_call s.frames
    then hide rest (pop_next_mode true s)
    else give token_paren_right (b')' ∷ []) rest (pop_next_mode true s)

unfoldable pub next_by_comma : Text → LexState → Scan
next_by_comma rest s = give token_comma (b',' ∷ []) rest (pop_next_mode false s)

module _ (tables : Tables) where
  -- The arguments of a message code, of which #P is the dynamic form of #P<n>.
  unfoldable pub messagecode_args : Text → Text → Text
  messagecode_args code rest =
      if same_text code (codes "#P") then codes "(E)" else elim (tables.messagecodes code) [
        | some args ↦ args
        | none ↦ if next_is rest b'(' then codes "(P)" else []
      ]

  unfoldable pub open_messagecode : Text → LexState → LexState
  open_messagecode [] s = s
  open_messagecode (a ∷ args) s = push_command (a ∷ args) true false s

  -- `_match_messagecode`, behind a '#'.
  unfoldable pub try_messagecode : Text → LexState → Option Scan
  unfolding messagecode_args open_messagecode
  try_messagecode rest s = elim (match_messagecode rest) [
    | none ↦ none
    | some (code, after) ↦ some (
        give messagecode (b'#' ∷ code) after
          (open_messagecode (messagecode_args (b'#' ∷ code) after) s))
  ]

  -- `if c == "#":` an escape or a message code.
  unfoldable pub try_hash : ℕ → Text → LexState → Option Scan
  try_hash c rest s =
      if c is b'#'
      then elim (hash_escape identifier rest s) [
        | some scan ↦ some scan
        | none ↦ try_messagecode rest s
      ]
      else none
