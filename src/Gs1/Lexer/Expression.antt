-- ===== src/Gs1/Lexer/Expression.antt =====
-- reborn_protocol/gs1/lexer.py: the top level and the modes of expressions, E, D, M and V. The text at
-- the position is `c ∷ rest`, with no space in front of it.
use reborn_protocol.Base.{
  ℕ, suc, ◌-◌, [], ◌∷◌, Bool, true, false, not, ◌&&◌, ◌||◌, none, some, ltb, ℤ, pos, negsuc, ◌+ℤ◌,
  ◌==◌, if◌then◌else◌, length,
}
use reborn_protocol.Gs1.Csv.{Text, quote}
use reborn_protocol.Gs1.Tokens.{
  end, identifier, direction, op_in, token_bracket_left, token_bracket_right, token_brace_left,
  token_brace_right, token_paren_left, token_paren_right, token_comma, same_text,
}
use reborn_protocol.Gs1.Lexer.Scan.{◌is◌, codes, is_word_start, is_word_char, after_prefix, skip_ws}
use reborn_protocol.Gs1.Lexer.State.{
  LexState, Scan, at_end, Tables, can_func_pop, can_cmd_pop, can_array_pop, can_comma_pop,
  pop_next_mode, push_array_access,
}
use reborn_protocol.Gs1.Lexer.Shared.{
  operators, punct, at, give, hide, or_else, try_operator, try_real, scan_quoted_string,
  is_flag_colon, end_by_brace, end_by_semicolon, end_by_paren, next_by_comma, try_hash,
}
use reborn_protocol.Gs1.Lexer.Words.{word_from, after_word, expr_word, default_word}

-- `self.brace_count == 0`
unfoldable pub is_zero : ℤ → Bool
is_zero (pos n) = n == 0
is_zero (negsuc n) = false

-- A mode at the character of the position.
unfoldable pub on_char : (ℕ → Text → LexState → Scan) → Text → LexState → Scan
on_char mode [] s = at_end (at [] s)
on_char mode (c ∷ rest) s = mode c rest s

-- A mode behind the `_skip_ws` that it starts with.
unfoldable pub after_ws : (ℕ → Text → LexState → Scan) → LexState → Scan
unfolding on_char
after_ws mode s =
    if ltb (length (skip_ws s.rest)) (length s.rest)
    then hide (skip_ws s.rest) s
    else on_char mode (skip_ws s.rest) s

-- `_expr_in_op` before the spaces are skipped.
unfoldable pub in_op_or : (LexState → Scan) → LexState → Scan
in_op_or mode s = elim (after_prefix (codes " in ") s.rest) [
  | some rest ↦ give op_in (codes " in ") rest s
  | none ↦ mode s
]

-- A character that is one token in PUNCT, and any other is an IDENTIFIER.
unfoldable pub punct_or_junk : ℕ → Text → LexState → Scan
punct_or_junk c rest s = elim (punct c) [
  | some t ↦ give t (c ∷ []) rest s
  | none ↦ give identifier (c ∷ []) rest s
]

-- A string, an operator, punctuation, or a character that is none of these.
unfoldable pub symbol : (ℕ → Text → LexState → Scan) → ℕ → Text → LexState → Scan
symbol last c rest s =
    if c is quote
    then scan_quoted_string rest s
    else or_else (try_operator operators (c ∷ rest) s) (last c rest s)

unfoldable pub default_punct : ℕ → Text → LexState → Scan
default_punct c rest s =
    if c is b'['
    then give token_bracket_left (c ∷ []) rest (push_array_access s)
    else punct_or_junk c rest s

unfoldable pub open_literal : LexState → LexState
open_literal s = record s { array_lit_depth = suc s.array_lit_depth }

unfoldable pub close_literal : LexState → LexState
close_literal s = record s { array_lit_depth = s.array_lit_depth - 1 }

-- `self.brace_count += d`, where the mode counts parentheses.
unfoldable pub count_brace : Bool → ℤ → LexState → LexState
count_brace track_braces d s =
    if track_braces then record s { brace_count = s.brace_count +ℤ d } else s

module _ (tables : Tables) where
  unfoldable pub default_char : ℕ → Text → LexState → Scan
  default_char c rest s = or_else (try_hash tables c rest s) (
      if is_flag_colon c rest s
      then give identifier (c ∷ []) rest s
      else if c is b';'
      then give end (c ∷ []) rest s
      else if c is b'}'
      then give token_brace_right (c ∷ []) rest s
      else if c is b'{'
      then give token_brace_left (c ∷ []) rest s
      else if is_word_start c
      then default_word tables (word_from c rest) (after_word rest) s
      else or_else (try_real c rest s) (symbol default_punct c rest s))

  -- `_mode_DEFAULT`
  unfoldable pub scan_default : LexState → Scan
  unfolding default_char
  scan_default = in_op_or (after_ws default_char)

  -- `_expr_mode` behind its brackets and commas.
  unfoldable pub expr_operand : ℕ → Text → LexState → Scan
  expr_operand c rest s = or_else (try_hash tables c rest s) (
      if is_flag_colon c rest s
      then give identifier (c ∷ []) rest s
      else if is_word_start c
      then expr_word tables (word_from c rest) (after_word rest) s
      else or_else (try_real c rest s) (symbol punct_or_junk c rest s))

  unfoldable pub expr_paren : Bool → Bool → Text → LexState → Scan
  expr_paren track_braces plain_parens rest s =
      if not plain_parens
        && (s.array_lit_depth is 0)
        && can_func_pop s.frames
        && is_zero s.brace_count
      then end_by_paren rest s
      else give token_paren_right (b')' ∷ []) rest (count_brace track_braces (negsuc 0) s)

  unfoldable pub expr_comma : Text → LexState → Scan
  expr_comma rest s =
      if (s.array_lit_depth is 0) && can_comma_pop s.frames
      then next_by_comma rest s
      else give token_comma (b',' ∷ []) rest s

  unfoldable pub expr_bracket : Text → LexState → Scan
  expr_bracket rest s =
      if can_array_pop s.frames
      then give token_bracket_right (b']' ∷ []) rest (pop_next_mode false s)
      else give token_bracket_right (b']' ∷ []) rest s

  unfoldable pub expr_char : Bool → Bool → ℕ → Text → LexState → Scan
  unfolding expr_operand expr_paren expr_comma expr_bracket
  expr_char track_braces plain_parens c rest s =
      if c is b'{'
      then give token_brace_left (c ∷ []) rest (open_literal s)
      else if c is b'}' && ltb 0 s.array_lit_depth
      then give token_brace_right (c ∷ []) rest (close_literal s)
      else if c is b'}' && can_cmd_pop s.frames
      then end_by_brace rest s
      else if c is b';' && can_cmd_pop s.frames
      then end_by_semicolon rest s
      else if c is b')'
      then expr_paren track_braces plain_parens rest s
      else if c is b','
      then expr_comma rest s
      else if c is b'('
      then give token_paren_left (c ∷ []) rest (count_brace track_braces (pos 1) s)
      else if c is b']'
      then expr_bracket rest s
      else if c is b'['
      then give token_bracket_left (c ∷ []) rest (push_array_access s)
      else expr_operand c rest s

  -- `_mode_E` and `_mode_M`
  unfoldable pub scan_e : LexState → Scan
  scan_e = in_op_or (after_ws (expr_char true false))

  unfoldable pub scan_m : LexState → Scan
  scan_m = in_op_or (after_ws (expr_char false true))

  -- DIR_NAMES
  unfoldable pub is_direction : Text → Bool
  is_direction word =
      same_text word (codes "up")
      || same_text word (codes "left")
      || same_text word (codes "down")
      || same_text word (codes "right")

  unfoldable pub direction_char : ℕ → Text → LexState → Scan
  direction_char c rest s =
      if is_word_char c && is_direction (word_from c rest)
      then give direction (word_from c rest) (after_word rest) s
      else expr_char false false c rest s

  -- `_mode_D`, which goes on behind the spaces.
  unfoldable pub scan_d : LexState → Scan
  unfolding on_char direction_char is_direction
  scan_d s = on_char direction_char (skip_ws s.rest) s
