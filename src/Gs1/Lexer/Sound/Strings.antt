-- ===== src/Gs1/Lexer/Sound/Strings.antt =====
-- reborn_protocol/gs1/lexer.py: the string modes.
use reborn_protocol.Base.{
  ℕ, ◌<◌, ◌≤◌, List, [], ◌∷◌, Bool, true, false, not, ◌&&◌, ◌||◌, Option, none, some, length, arith,
  ℤ,
}
use reborn_protocol.Gs1.Csv.{Text, quote}
use reborn_protocol.Gs1.Tokens.{Token, string}
use reborn_protocol.Gs1.Lexer.Scan.{◌is◌}
use reborn_protocol.Gs1.Lexer.State.{
  LexState, Scan, Tables, can_cmd_pop, can_func_pop, can_comma_pop, in_command_call, in_messagecode,
}
use reborn_protocol.Gs1.Lexer.Words.{word_from, after_word, expr_word, try_function, last_is}
use reborn_protocol.Gs1.Lexer.Expression.{is_zero}
use reborn_protocol.Gs1.Lexer.Strings.{
  Delimiters, count_paren, delimiters, ends_run, string_run, consume_string_run, after_item,
  consume_item, ends_item, drop_string, last_is_empty, take_back, call_ws, try_call_word,
  string_hash, string_text, string_end, string_char, scan_string, list_text, list_end, list_char,
  scan_l,
}
use reborn_protocol.Gs1.Lexer.Sound.{
  AreLive, IsSound, emit_after-IsSound, pop_next_mode-IsSound, recount-IsSound, if-IsSound,
}
use reborn_protocol.Gs1.Lexer.Sound.Rules.{
  MayAdvance, misses, hits, give-Advances, hide-Advances, if-Advances, if-MayAdvance,
  or_else-Advances, then-MayAdvance,
}
use reborn_protocol.Gs1.Lexer.Sound.Shared.{
  scan_quoted_string-Advances, hash_escape-MayAdvance, end_by_brace-Advances,
  end_by_semicolon-Advances, end_by_paren-Advances, next_by_comma-Advances,
  try_messagecode-MayAdvance,
}
use reborn_protocol.Gs1.Lexer.Sound.Words.{length-after_word, expr_word-Advances}
use reborn_protocol.Gs1.Lexer.Sound.Modes.{
  AdvancesAt, AdvancesFrom, on_char-AdvancesFrom, after_ws-AdvancesFrom,
}

length-string_run :
    (d : Delimiters) (braces : ℤ) (t : Text) → length (string_run d braces t).rest ≤ length t
unfolding string_run
length-string_run d braces [] = omega arith
length-string_run d braces (c ∷ t) = ground (arith, length-string_run d (count_paren d braces c) t)

length-after_item : (ends : ℕ → Bool) (t : Text) → length (after_item ends t) ≤ length t
unfolding after_item
length-after_item ends [] = omega arith
length-after_item ends (c ∷ t) = ground (arith, length-after_item ends t)

consume_string_run-AdvancesAt : (raw : Bool) → AdvancesAt (consume_string_run raw)
unfolding consume_string_run
consume_string_run-AdvancesAt raw = record {
  at = λ c rest s h i.
      let d = delimiters raw s.frames in
      if-Advances (ends_run d s.brace_count c rest) (give-Advances _ _ _ s tt h i) (
        give-Advances _ _ _ _ tt
          (omega (arith, length-string_run d (count_paren d s.brace_count c) rest))
          (recount-IsSound s.rest _ _ s i));
}

consume_item-AdvancesAt : AdvancesAt consume_item
unfolding consume_item
consume_item-AdvancesAt = record {
  at = λ c rest s h i.
      let ends =
        ends_item (in_command_call s.frames) (can_cmd_pop s.frames) (can_func_pop s.frames) in
      if-Advances (ends c) (give-Advances _ _ _ s tt h i)
        (give-Advances _ _ _ s tt (omega (arith, length-after_item ends rest)) i);
}

drop_string-AreLive : (ts : List Token) → AreLive ts → AreLive (drop_string ts)
unfolding drop_string
drop_string-AreLive [] l = l
drop_string-AreLive (t ∷ ts) l = l.1

take_back-IsSound : (s : LexState) → IsSound s → IsSound (take_back s)
unfolding take_back
take_back-IsSound s i =
    if-IsSound (last_is (string ∷ []) s.after)
      (record {
        grounded = i.grounded;
        before = i.before;
        after = drop_string-AreLive s.after i.after;
        out = i.out;
      })
      (if-IsSound (last_is_empty s.out)
        (record {
          grounded = i.grounded;
          before = i.before;
          after = i.after;
          out = drop_string-AreLive s.out i.out;
        })
        i)

call_ws-AdvancesFrom :
    {mode : ℕ → Text → LexState → Scan} → AdvancesAt mode → AdvancesFrom (call_ws mode)
unfolding call_ws
call_ws-AdvancesFrom m = record {
  from =
      λ s i. if-Advances _ ((after_ws-AdvancesFrom m).from s i) ((on_char-AdvancesFrom m).from s i);
}

module _ (tables : Tables) where
  module _ {n : ℕ} {q : List Token} (c : ℕ) (rest : Text) (s : LexState) (h : length rest < n)
      (i : IsSound s) where
    try_call_word-MayAdvance : MayAdvance n q (try_call_word tables c rest s)
    unfolding try_call_word
    try_call_word-MayAdvance =
        if-MayAdvance _ (by_function (try_function tables (word_from c rest) (after_word rest) s))
          misses
      where
        by_function :
            (found : Option Scan)
            → MayAdvance n q (elim found [
              | some scan ↦
                  some (expr_word tables (word_from c rest) (after_word rest) (take_back s))
              | none ↦ none
            ])
        by_function none = misses
        by_function (some scan) = hits _ (
            expr_word-Advances (word_from c rest) (after_word rest) (take_back s)
              (length-after_word rest h) (take_back-IsSound s i) tables)

    string_hash-MayAdvance : (raw : Bool) → MayAdvance n q (string_hash tables raw c rest s)
    unfolding string_hash
    string_hash-MayAdvance raw =
        if-MayAdvance _
          (then-MayAdvance _ _ (hash_escape-MayAdvance c rest s h i string tt)
            (if-MayAdvance _ misses (try_messagecode-MayAdvance c rest s h i tables)))
          misses

  string_text-AdvancesAt : (raw : Bool) → AdvancesAt (string_text tables raw)
  unfolding string_text
  string_text-AdvancesAt raw = record {
    at = λ c rest s h i.
        if-Advances (c is quote && in_command_call s.frames)
          (scan_quoted_string-Advances c rest s h i)
          (or_else-Advances _ _ (string_hash-MayAdvance c rest s h i raw)
            ((consume_string_run-AdvancesAt raw).at c rest s h i));
  }

  string_end-AdvancesAt : (raw : Bool) → AdvancesAt (string_end tables raw)
  unfolding string_end
  string_end-AdvancesAt raw = record {
    at = λ c rest s h i.
        let popped = pop_next_mode-IsSound true s i in
        if-Advances
          (c is b')' && can_func_pop s.frames && is_zero s.brace_count && in_command_call s.frames)
          (hide-Advances _ _ h popped)
          (if-Advances (c is b'}' && can_cmd_pop s.frames) (end_by_brace-Advances c rest s h i) (
            if-Advances
              (c is b')'
                && not raw
                && can_func_pop s.frames
                && (is_zero s.brace_count || in_messagecode s.frames))
              (give-Advances _ _ _ _ tt h popped)
              (if-Advances (c is b';' && can_cmd_pop s.frames)
                (end_by_semicolon-Advances c rest s h i)
                (if-Advances (c is b',' && can_comma_pop s.frames)
                  (next_by_comma-Advances c rest s h i)
                  ((string_text-AdvancesAt raw).at c rest s h i)))));
  }

  string_char-AdvancesAt : (raw : Bool) → AdvancesAt (string_char tables raw)
  unfolding string_char
  string_char-AdvancesAt raw = record {
    at = λ c rest s h i.
        let on = (string_end-AdvancesAt raw).at c rest s h i in
        if-Advances raw on (or_else-Advances _ _ (try_call_word-MayAdvance c rest s h i) on);
  }

  -- The modes S and R.
  pub scan_string-AdvancesFrom : (raw : Bool) → AdvancesFrom (scan_string tables raw)
  unfolding scan_string
  scan_string-AdvancesFrom raw = call_ws-AdvancesFrom (string_char-AdvancesAt raw)

  list_text-AdvancesAt : AdvancesAt (list_text tables)
  unfolding list_text
  list_text-AdvancesAt = record {
    at = λ c rest s h i.
        if-Advances (c is quote && in_command_call s.frames)
          (scan_quoted_string-Advances c rest s h i)
          (or_else-Advances _ _ (string_hash-MayAdvance c rest s h i false)
            (consume_item-AdvancesAt.at c rest s h i));
  }

  list_end-AdvancesAt : AdvancesAt (list_end tables)
  unfolding list_end
  list_end-AdvancesAt = record {
    at = λ c rest s h i.
        if-Advances (c is b'}' && can_cmd_pop s.frames) (end_by_brace-Advances c rest s h i) (
          if-Advances (c is b')' && can_func_pop s.frames) (end_by_paren-Advances c rest s h i) (
            if-Advances (c is b';' && can_cmd_pop s.frames) (end_by_semicolon-Advances c rest s h i)
              (if-Advances (c is b',')
                (give-Advances _ _ _ _ tt h (emit_after-IsSound string s tt i))
                (list_text-AdvancesAt.at c rest s h i))));
  }

  list_char-AdvancesAt : AdvancesAt (list_char tables)
  unfolding list_char
  list_char-AdvancesAt = record {
    at = λ c rest s h i.
        or_else-Advances _ _ (try_call_word-MayAdvance c rest s h i)
          (list_end-AdvancesAt.at c rest s h i);
  }

  -- The mode L.
  pub scan_l-AdvancesFrom : AdvancesFrom (scan_l tables)
  unfolding scan_l
  scan_l-AdvancesFrom = call_ws-AdvancesFrom list_char-AdvancesAt
