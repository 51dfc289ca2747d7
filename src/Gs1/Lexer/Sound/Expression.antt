-- ===== src/Gs1/Lexer/Sound/Expression.antt =====
-- reborn_protocol/gs1/lexer.py: the top level and the modes of expressions.
use reborn_protocol.Base.{ℕ, ◌<◌, List, Bool, true, false, ◌&&◌, length, ltb, ℤ, pos, negsuc}
use reborn_protocol.Gs1.Csv.{Text}
use reborn_protocol.Gs1.Tokens.{Token}
use reborn_protocol.Gs1.Lexer.Scan.{◌is◌, is_word_start}
use reborn_protocol.Gs1.Lexer.State.{LexState, Scan, Tables, can_cmd_pop}
use reborn_protocol.Gs1.Lexer.Shared.{is_flag_colon}
use reborn_protocol.Gs1.Lexer.Words.{word_from, after_word}
use reborn_protocol.Gs1.Lexer.Expression.{
  symbol, default_punct, open_literal, close_literal, count_brace, default_char, scan_default,
  expr_operand, expr_paren, expr_comma, expr_bracket, expr_char, scan_e, scan_m, direction_char,
  scan_d,
}
use reborn_protocol.Gs1.Lexer.Sound.{
  IsSound, push_array_access-IsSound, pop_next_mode-IsSound, recount-IsSound, if-IsSound,
}
use reborn_protocol.Gs1.Lexer.Sound.Rules.{Advances, give-Advances, if-Advances, or_else-Advances}
use reborn_protocol.Gs1.Lexer.Sound.Shared.{
  try_operator-MayAdvance, try_real-MayAdvance, scan_quoted_string-Advances, end_by_brace-Advances,
  end_by_semicolon-Advances, end_by_paren-Advances, next_by_comma-Advances, try_hash-MayAdvance,
}
use reborn_protocol.Gs1.Lexer.Sound.Words.{
  length-after_word, expr_word-Advances, default_word-Advances,
}
use reborn_protocol.Gs1.Lexer.Sound.Modes.{
  AdvancesAt, AdvancesFrom, punct_or_junk-AdvancesAt, skipped-AdvancesFrom, after_ws-AdvancesFrom,
  in_op_or-AdvancesFrom,
}

default_punct-AdvancesAt : AdvancesAt default_punct
unfolding default_punct
default_punct-AdvancesAt = record {
  at = λ c rest s h i.
      if-Advances _ (give-Advances _ _ _ _ tt h (push_array_access-IsSound s i))
        (punct_or_junk-AdvancesAt.at c rest s h i);
}

symbol-AdvancesAt : {last : ℕ → Text → LexState → Scan} → AdvancesAt last → AdvancesAt (symbol last)
unfolding symbol
symbol-AdvancesAt m = record {
  at = λ c rest s h i.
      if-Advances _ (scan_quoted_string-Advances c rest s h i)
        (or_else-Advances _ _ (try_operator-MayAdvance c rest s h i) (m.at c rest s h i));
}

count_brace-IsSound :
    (track : Bool) (d : ℤ) (s : LexState) → IsSound s → IsSound (count_brace track d s)
unfolding count_brace
count_brace-IsSound track d s i = if-IsSound _ (recount-IsSound s.rest _ _ s i) i

module _ (tables : Tables) where
  default_char-AdvancesAt : AdvancesAt (default_char tables)
  unfolding default_char
  default_char-AdvancesAt = record {
    at = λ c rest s h i. or_else-Advances _ _ (try_hash-MayAdvance c rest s h i tables) (
        if-Advances (is_flag_colon c rest s) (give-Advances _ _ _ s tt h i) (
          if-Advances (c is b';') (give-Advances _ _ _ s tt h i) (
            if-Advances (c is b'}') (give-Advances _ _ _ s tt h i) (
              if-Advances (c is b'{') (give-Advances _ _ _ s tt h i) (
                if-Advances (is_word_start c)
                  (default_word-Advances tables (word_from c rest) (after_word rest) s
                    (length-after_word rest h) i)
                  (or_else-Advances _ _ (try_real-MayAdvance c rest s h i)
                    ((symbol-AdvancesAt default_punct-AdvancesAt).at c rest s h i)))))));
  }

  -- The top level.
  pub scan_default-AdvancesFrom : AdvancesFrom (scan_default tables)
  unfolding scan_default
  scan_default-AdvancesFrom = in_op_or-AdvancesFrom (after_ws-AdvancesFrom default_char-AdvancesAt)

  expr_operand-AdvancesAt : AdvancesAt (expr_operand tables)
  unfolding expr_operand
  expr_operand-AdvancesAt = record {
    at = λ c rest s h i. or_else-Advances _ _ (try_hash-MayAdvance c rest s h i tables) (
        if-Advances _ (give-Advances _ _ _ s tt h i) (
          if-Advances _
            (expr_word-Advances (word_from c rest) (after_word rest) s (length-after_word rest h) i
              tables)
            (or_else-Advances _ _ (try_real-MayAdvance c rest s h i)
              ((symbol-AdvancesAt punct_or_junk-AdvancesAt).at c rest s h i))));
  }

  module _ {n : ℕ} {q : List Token} (rest : Text) (s : LexState) (h : length rest < n)
      (i : IsSound s) where
    expr_paren-Advances : (track plain : Bool) → Advances n q (expr_paren tables track plain rest s)
    unfolding expr_paren
    expr_paren-Advances track plain =
        if-Advances _ (end_by_paren-Advances 0 rest s h i)
          (give-Advances _ _ _ _ tt h (count_brace-IsSound track (negsuc 0) s i))

    expr_comma-Advances : Advances n q (expr_comma tables rest s)
    unfolding expr_comma
    expr_comma-Advances =
        if-Advances _ (next_by_comma-Advances 0 rest s h i) (give-Advances _ _ _ s tt h i)

    expr_bracket-Advances : Advances n q (expr_bracket tables rest s)
    unfolding expr_bracket
    expr_bracket-Advances =
        if-Advances _ (give-Advances _ _ _ _ tt h (pop_next_mode-IsSound false s i))
          (give-Advances _ _ _ s tt h i)

  expr_char-AdvancesAt : (track plain : Bool) → AdvancesAt (expr_char tables track plain)
  unfolding expr_char open_literal close_literal
  expr_char-AdvancesAt track plain = record {
    at = λ c rest s h i.
        if-Advances (c is b'{') (give-Advances _ _ _ _ tt h (recount-IsSound s.rest _ _ s i)) (
          if-Advances (c is b'}' && ltb 0 s.array_lit_depth)
            (give-Advances _ _ _ _ tt h (recount-IsSound s.rest _ _ s i))
            (if-Advances (c is b'}' && can_cmd_pop s.frames) (end_by_brace-Advances c rest s h i) (
              if-Advances (c is b';' && can_cmd_pop s.frames)
                (end_by_semicolon-Advances c rest s h i)
                (if-Advances (c is b')') (expr_paren-Advances rest s h i track plain) (
                  if-Advances (c is b',') (expr_comma-Advances rest s h i) (
                    if-Advances (c is b'(')
                      (give-Advances _ _ _ _ tt h (count_brace-IsSound track (pos 1) s i))
                      (if-Advances (c is b']') (expr_bracket-Advances rest s h i) (
                        if-Advances (c is b'[')
                          (give-Advances _ _ _ _ tt h (push_array_access-IsSound s i))
                          (expr_operand-AdvancesAt.at c rest s h i)))))))));
  }

  -- The modes E, M and D.
  pub scan_e-AdvancesFrom : AdvancesFrom (scan_e tables)
  unfolding scan_e
  scan_e-AdvancesFrom =
      in_op_or-AdvancesFrom (after_ws-AdvancesFrom (expr_char-AdvancesAt true false))

  pub scan_m-AdvancesFrom : AdvancesFrom (scan_m tables)
  unfolding scan_m
  scan_m-AdvancesFrom =
      in_op_or-AdvancesFrom (after_ws-AdvancesFrom (expr_char-AdvancesAt false true))

  direction_char-AdvancesAt : AdvancesAt (direction_char tables)
  unfolding direction_char
  direction_char-AdvancesAt = record {
    at = λ c rest s h i.
        if-Advances _ (give-Advances _ _ _ s tt (length-after_word rest h) i)
          ((expr_char-AdvancesAt false false).at c rest s h i);
  }

  pub scan_d-AdvancesFrom : AdvancesFrom (scan_d tables)
  unfolding scan_d
  scan_d-AdvancesFrom = skipped-AdvancesFrom direction_char-AdvancesAt
