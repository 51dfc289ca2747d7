-- ===== src/Gs1/Lexer/Sound/Literals.antt =====
-- reborn_protocol/gs1/lexer.py: variables, literals and code bodies.
use reborn_protocol.Base.{
  ℕ, ◌<◌, List, [], ◌∷◌, true, false, ◌&&◌, Option, none, some, length, arith, ℤ, pos, negsuc, ◌+ℤ◌,
}
use reborn_protocol.Gs1.Csv.{Text}
use reborn_protocol.Gs1.Tokens.{Token, TokenType, end}
use reborn_protocol.Gs1.Lexer.Scan.{codes, ◌is◌, is_one_of, is_word_start, is_word_char}
use reborn_protocol.Gs1.Lexer.State.{
  LexState, lex_error, Tables, can_cmd_pop, can_func_pop, is_next_arg_left_paren,
}
use reborn_protocol.Gs1.Lexer.Shared.{punct, give}
use reborn_protocol.Gs1.Lexer.Words.{word_from, after_word}
use reborn_protocol.Gs1.Lexer.Expression.{is_zero}
use reborn_protocol.Gs1.Lexer.Literals.{
  flag_punct, variable_char, variable_end, scan_v, storage_word, storage_char, scan_x, special_char,
  scan_special, is_body_char, add_brace, body_char, scan_z,
}
use reborn_protocol.Gs1.Lexer.Sound.{
  IsLive, IsLiveOrNone, IsSound, emit_before-IsSound, push_array_access-IsSound,
  pop_next_mode-IsSound, recount-IsSound,
}
use reborn_protocol.Gs1.Lexer.Sound.Lengths.{length-drop_while}
use reborn_protocol.Gs1.Lexer.Sound.Rules.{
  Advances, raises, give-Advances, hide-Advances, if-Advances, or_else-Advances,
}
use reborn_protocol.Gs1.Lexer.Sound.Shared.{
  try_real-MayAdvance, end_by_brace-Advances, end_by_semicolon-Advances, end_by_paren-Advances,
  next_by_comma-Advances, try_messagecode-MayAdvance, try_hash-MayAdvance,
}
use reborn_protocol.Gs1.Lexer.Sound.Words.{length-after_word, plain_word-Advances}
use reborn_protocol.Gs1.Lexer.Sound.Modes.{
  AdvancesAt, AdvancesFrom, punct-IsLiveOrNone, on_char-AdvancesFrom, after_ws-AdvancesFrom,
}

flag_punct-AdvancesAt : AdvancesAt flag_punct
unfolding flag_punct
flag_punct-AdvancesAt = record {
  at = λ c rest s h i. by_type c rest s h i (punct c) (punct-IsLiveOrNone c);
}
  where
    by_type :
        {n : ℕ} {q : List Token} (c : ℕ) (rest : Text) (s : LexState)
        → length rest < n
        → IsSound s
        → (t : Option TokenType) → IsLiveOrNone t
        → Advances n q (elim t [ some u ↦ give u (c ∷ []) rest s | none ↦ lex_error ])
    by_type c rest s h i none l = raises
    by_type c rest s h i (some u) l = give-Advances u _ _ s l h i

module _ (tables : Tables) where
  variable_char-AdvancesAt : AdvancesAt (variable_char tables)
  unfolding variable_char
  variable_char-AdvancesAt = record {
    at = λ c rest s h i.
        let word =
          plain_word-Advances (word_from c rest) (after_word rest) s (length-after_word rest h) i in
        or_else-Advances _ _ (try_hash-MayAdvance c rest s h i tables) (
          if-Advances (c is b'[') (give-Advances _ _ _ _ tt h (push_array_access-IsSound s i)) (
            if-Advances (is_one_of (codes "*!:-") c) (give-Advances _ _ _ s tt h i) (
              if-Advances (is_one_of (codes "|?.") c) (flag_punct-AdvancesAt.at c rest s h i) (
                or_else-Advances _ _ (try_real-MayAdvance c rest s h i)
                  (if-Advances (is_word_start c) word raises)))));
  }

  variable_end-AdvancesAt : AdvancesAt (variable_end tables)
  unfolding variable_end
  variable_end-AdvancesAt = record {
    at = λ c rest s h i.
        if-Advances (c is b'}' && can_cmd_pop s.frames) (end_by_brace-Advances c rest s h i) (
          if-Advances (c is b'(' && is_next_arg_left_paren s.frames)
            (give-Advances _ _ _ _ tt h
              (pop_next_mode-IsSound false _ (pop_next_mode-IsSound false s i)))
            (if-Advances (c is b')' && can_func_pop s.frames) (end_by_paren-Advances c rest s h i) (
              if-Advances (c is b';' && can_cmd_pop s.frames)
                (end_by_semicolon-Advances c rest s h i)
                (if-Advances (c is b',') (next_by_comma-Advances c rest s h i)
                  (variable_char-AdvancesAt.at c rest s h i)))));
  }

  -- The mode V.
  pub scan_v-AdvancesFrom : AdvancesFrom (scan_v tables)
  unfolding scan_v
  scan_v-AdvancesFrom = after_ws-AdvancesFrom variable_end-AdvancesAt

  storage_word-AdvancesAt : AdvancesAt (storage_word tables)
  unfolding storage_word
  storage_word-AdvancesAt = record {
    at = λ c rest s h i.
        if-Advances (is_word_char c)
          (give-Advances _ _ _ _ tt (length-after_word rest h) (pop_next_mode-IsSound false s i))
          raises;
  }

  storage_char-AdvancesAt : AdvancesAt (storage_char tables)
  unfolding storage_char
  storage_char-AdvancesAt = record {
    at = λ c rest s h i.
        let word = storage_word-AdvancesAt.at c rest s h i in
        if-Advances (c is b'#')
          (or_else-Advances _ _ (try_messagecode-MayAdvance c rest s h i tables) word) word;
  }

  -- The mode X.
  pub scan_x-AdvancesFrom : AdvancesFrom (scan_x tables)
  unfolding scan_x
  scan_x-AdvancesFrom = after_ws-AdvancesFrom storage_char-AdvancesAt

special_char-AdvancesAt : (t : TokenType) → IsLive t → AdvancesAt (special_char t)
unfolding special_char
special_char-AdvancesAt t l = record {
  at = λ c rest s h i.
      if-Advances (c is b'}' && can_cmd_pop s.frames) (end_by_brace-Advances c rest s h i) (
        if-Advances (c is b')' && can_func_pop s.frames)
          (give-Advances _ _ _ _ tt h (pop_next_mode-IsSound true s i))
          (if-Advances (c is b';' && can_cmd_pop s.frames) (end_by_semicolon-Advances c rest s h i)
            (if-Advances (c is b',') (next_by_comma-Advances c rest s h i) (
              if-Advances (is_word_char c) (give-Advances t _ _ s l (length-after_word rest h) i)
                raises))));
}

-- The modes B, I, C, G and U.
pub scan_special-AdvancesFrom : (t : TokenType) → IsLive t → AdvancesFrom (scan_special t)
unfolding scan_special
scan_special-AdvancesFrom t l = after_ws-AdvancesFrom (special_char-AdvancesAt t l)

add_brace-IsSound : (d : ℤ) (s : LexState) → IsSound s → IsSound (add_brace d s)
unfolding add_brace
add_brace-IsSound d s i = recount-IsSound s.rest _ _ s i

body_char-AdvancesAt : AdvancesAt body_char
unfolding body_char
body_char-AdvancesAt = record {
  at = λ c rest s h i.
      let up = add_brace-IsSound (pos 1) s i in
      let down = add_brace-IsSound (negsuc 0) s i in
      if-Advances (c is b'{' && is_zero s.brace_count) (hide-Advances _ _ h up) (
        if-Advances (c is b';' && is_zero s.brace_count)
          (give-Advances _ _ _ _ tt h (pop_next_mode-IsSound false s i))
          (if-Advances (c is b'}' && is_zero (s.brace_count +ℤ negsuc 0))
            (hide-Advances _ _ h
              (emit_before-IsSound end _ tt (pop_next_mode-IsSound false _ down)))
            (if-Advances (c is b'{') (give-Advances _ _ _ _ tt h up) (
              if-Advances (c is b'}') (give-Advances _ _ _ _ tt h down) (
                if-Advances (c is b';') (give-Advances _ _ _ s tt h i) (
                  give-Advances _ _ _ s tt (omega (arith, length-drop_while is_body_char rest))
                    i))))));
}

-- The mode Z.
pub scan_z-AdvancesFrom : AdvancesFrom scan_z
unfolding scan_z
scan_z-AdvancesFrom = on_char-AdvancesFrom body_char-AdvancesAt
