-- ===== src/Gs1/Lexer/Literals.antt =====
-- reborn_protocol/gs1/lexer.py: the mode V of variables, the literals of B, I, C, G and U, the storage
-- X, the code body Z, and the parentheses P1, P2, P3 and F of a function.
use reborn_protocol.Base.{
  ℕ, [], ◌∷◌, Bool, true, false, not, ◌&&◌, none, some, ℤ, pos, negsuc, ◌+ℤ◌, if◌then◌else◌,
}
use reborn_protocol.Gs1.Csv.{Text}
use reborn_protocol.Gs1.Tokens.{
  TokenType, end, identifier, string, token_bracket_left, token_paren_left, token_paren_right,
  token_comma, token_period,
}
use reborn_protocol.Gs1.Lexer.Scan.{
  ◌is◌, codes, is_word_start, is_word_char, is_one_of, take_while, drop_while,
}
use reborn_protocol.Gs1.Lexer.State.{
  LexState, Scan, lex_error, index_error, Tables, pop_function, can_func_pop, can_cmd_pop,
  is_next_arg_left_paren, emit_before, pop_next_mode, push_array_access,
}
use reborn_protocol.Gs1.Lexer.Shared.{
  punct, give, hide, or_else, try_real, end_by_brace, end_by_semicolon, end_by_paren, next_by_comma,
  try_messagecode, try_hash,
}
use reborn_protocol.Gs1.Lexer.Words.{word_from, after_word, plain_word}
use reborn_protocol.Gs1.Lexer.Expression.{is_zero, on_char, after_ws}

-- One of '|', '?' and '.', by its name in PUNCT.
unfoldable pub flag_punct : ℕ → Text → LexState → Scan
flag_punct c rest s = elim (punct c) [ some t ↦ give t (c ∷ []) rest s | none ↦ lex_error ]

module _ (tables : Tables) where
  unfoldable pub variable_char : ℕ → Text → LexState → Scan
  variable_char c rest s = or_else (try_hash tables c rest s) (
      if c is b'['
      then give token_bracket_left (c ∷ []) rest (push_array_access s)
      else if is_one_of (codes "*!:-") c
      then give identifier (c ∷ []) rest s
      else if is_one_of (codes "|?.") c
      then flag_punct c rest s
      else or_else (try_real c rest s) (
          if is_word_start c then plain_word (word_from c rest) (after_word rest) s else lex_error))

  unfoldable pub variable_end : ℕ → Text → LexState → Scan
  variable_end c rest s =
      if c is b'}' && can_cmd_pop s.frames
      then end_by_brace rest s
      else if c is b'(' && is_next_arg_left_paren s.frames
      then give token_paren_left (c ∷ []) rest (pop_next_mode false (pop_next_mode false s))
      else if c is b')' && can_func_pop s.frames
      then end_by_paren rest s
      else if c is b';' && can_cmd_pop s.frames
      then end_by_semicolon rest s
      else if c is b','
      then next_by_comma rest s
      else variable_char c rest s

  -- `_mode_V`
  unfoldable pub scan_v : LexState → Scan
  unfolding flag_punct variable_char variable_end
  scan_v = after_ws variable_end

  unfoldable pub storage_word : ℕ → Text → LexState → Scan
  storage_word c rest s =
      if is_word_char c
      then give identifier (word_from c rest) (after_word rest) (pop_next_mode false s)
      else lex_error

  unfoldable pub storage_char : ℕ → Text → LexState → Scan
  storage_char c rest s =
      if c is b'#'
      then or_else (try_messagecode tables rest s) (storage_word c rest s)
      else storage_word c rest s

  -- `_mode_X`
  unfoldable pub scan_x : LexState → Scan
  unfolding storage_word storage_char
  scan_x = after_ws storage_char

unfoldable pub special_char : TokenType → ℕ → Text → LexState → Scan
special_char t c rest s =
    if c is b'}' && can_cmd_pop s.frames
    then end_by_brace rest s
    else if c is b')' && can_func_pop s.frames
    then give token_paren_right (c ∷ []) rest (pop_next_mode true s)
    else if c is b';' && can_cmd_pop s.frames
    then end_by_semicolon rest s
    else if c is b','
    then next_by_comma rest s
    else if is_word_char c
    then give t (word_from c rest) (after_word rest) s
    else lex_error

-- `_special_mode`
unfoldable pub scan_special : TokenType → LexState → Scan
unfolding special_char
scan_special t = after_ws (special_char t)

-- `t[self.pos] not in "{};"`
unfoldable pub is_body_char : ℕ → Bool
is_body_char c = not (is_one_of (codes "{};") c)

unfoldable pub add_brace : ℤ → LexState → LexState
add_brace d s = record s { brace_count = s.brace_count +ℤ d }

unfoldable pub body_char : ℕ → Text → LexState → Scan
body_char c rest s =
    if c is b'{' && is_zero s.brace_count
    then hide rest (add_brace (pos 1) s)
    else if c is b';' && is_zero s.brace_count
    then give end (c ∷ []) rest (pop_next_mode false s)
    else if c is b'}' && is_zero (s.brace_count +ℤ negsuc 0)
    then hide rest (emit_before end (pop_next_mode false (add_brace (negsuc 0) s)))
    else if c is b'{'
    then give string (c ∷ []) rest (add_brace (pos 1) s)
    else if c is b'}'
    then give string (c ∷ []) rest (add_brace (negsuc 0) s)
    else if c is b';'
    then give string (c ∷ []) rest s
    else give string (c ∷ take_while is_body_char rest) (drop_while is_body_char rest) s

-- `_mode_Z`
unfoldable pub scan_z : LexState → Scan
unfolding on_char body_char is_body_char add_brace
scan_z s = on_char body_char s.rest s

-- `check_if_next_mode_optional`: whether a ')' stands before any comma.
unfoldable pub optional_skipped : Text → Bool
optional_skipped [] = false
optional_skipped (c ∷ rest) =
    if c is b')' then true else if c is b',' then false else optional_skipped rest

unfoldable pub check_if_next_mode_optional : Text → LexState → LexState
check_if_next_mode_optional t s =
    if optional_skipped t
    then pop_next_mode false (pop_next_mode false s)
    else pop_next_mode false s

-- `self.states[-1].pop_mode = POP_FUNCTION` and the '(', with what follows them.
unfoldable pub open_paren : (LexState → LexState) → Text → LexState → Scan
open_paren then_pop rest s = elim s.frames [
  | [] ↦ index_error
  | f ∷ fs ↦
      give token_paren_left (b'(' ∷ []) rest
        (then_pop (record s { frames = (record f { pop_mode = pop_function }) ∷ fs }))
]

unfoldable pub param_open : ℕ → Text → LexState → Scan
param_open c rest s = if c is b'(' then open_paren (pop_next_mode false) rest s else lex_error

unfoldable pub param_optional : ℕ → Text → LexState → Scan
param_optional c rest s =
    if c is b'(' then open_paren (check_if_next_mode_optional (c ∷ rest)) rest s else lex_error

unfoldable pub param_close : ℕ → Text → LexState → Scan
param_close c rest s =
    if c is b')' then give token_paren_right (c ∷ []) rest (pop_next_mode false s) else lex_error

-- `_mode_P1`, `_mode_P2` and `_mode_P3`
unfoldable pub scan_p1 : LexState → Scan
unfolding param_open open_paren
scan_p1 = after_ws param_open

unfoldable pub scan_p2 : LexState → Scan
unfolding param_close
scan_p2 = after_ws param_close

unfoldable pub scan_p3 : LexState → Scan
unfolding param_optional open_paren check_if_next_mode_optional optional_skipped
scan_p3 = after_ws param_optional

unfoldable pub declared_char : ℕ → Text → LexState → Scan
declared_char c rest s =
    if c is b')'
    then give token_paren_right (c ∷ []) rest (pop_next_mode true s)
    else if c is b','
    then give token_comma (c ∷ []) rest s
    else if c is b'.'
    then give token_period (c ∷ []) rest s
    else if is_word_char c
    then give identifier (word_from c rest) (after_word rest) s
    else lex_error

-- `_mode_F`
unfoldable pub scan_f : LexState → Scan
unfolding declared_char
scan_f = after_ws declared_char
