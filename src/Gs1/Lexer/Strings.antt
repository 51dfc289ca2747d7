-- ===== src/Gs1/Lexer/Strings.antt =====
-- reborn_protocol/gs1/lexer.py: the string modes S, R and L.
use reborn_protocol.Base.{
  ℕ, List, [], ◌∷◌, Bool, true, false, not, ◌&&◌, ◌||◌, Option, none, some, ℤ, pos, negsuc, ◌+ℤ◌,
  if◌then◌else◌,
}
use reborn_protocol.Gs1.Csv.{Text, quote, next_is}
use reborn_protocol.Gs1.Tokens.{Token, among, string, token_comma, token_paren_right}
use reborn_protocol.Gs1.Lexer.Scan.{◌is◌, is_word_start}
use reborn_protocol.Gs1.Lexer.State.{
  LexState, Frame, Scan, Tables, can_func_pop, can_cmd_pop, can_comma_pop, in_command_call,
  in_messagecode, emit_after, pop_next_mode,
}
use reborn_protocol.Gs1.Lexer.Shared.{
  give, hide, or_else, hash_escape, scan_quoted_string, end_by_brace, end_by_semicolon,
  end_by_paren, next_by_comma, try_messagecode,
}
use reborn_protocol.Gs1.Lexer.Words.{word_from, after_word, expr_word, last_is, try_function}
use reborn_protocol.Gs1.Lexer.Expression.{is_zero, on_char, after_ws}

-- What ends a run of plain text: the flags that `_consume_string_run` and `_mode_L` compute first.
pub record Delimiters : Type 0 where
  pub raw : Bool
  pub call : Bool
  pub comma_pop : Bool
  pub cmd_pop : Bool
  pub func_pop : Bool
  pub balance : Bool

unfoldable pub delimiters : Bool → List Frame → Delimiters
delimiters raw frames = record {
  raw = raw;
  call = in_command_call frames;
  comma_pop = can_comma_pop frames;
  cmd_pop = can_cmd_pop frames;
  func_pop = can_func_pop frames;
  balance = can_func_pop frames && not raw && not (in_messagecode frames);
}

-- Whether the run ends in front of `c`, which `rest` follows, at a count of parentheses.
unfoldable pub ends_run : Delimiters → ℤ → ℕ → Text → Bool
ends_run d braces c rest =
    (c is quote && d.call)
    || (not d.raw && c is b'#')
    || (d.raw && c is b'#' && next_is rest b'#')
    || (c is b'}' && d.cmd_pop)
    || (c is b';' && d.cmd_pop)
    || (c is b')' && not d.raw && d.func_pop && (not d.balance || is_zero braces))
    || (c is b',' && d.comma_pop)

-- The count behind `c`.
unfoldable pub count_paren : Delimiters → ℤ → ℕ → ℤ
count_paren d braces c =
    if c is b')' && not d.raw && d.func_pop
    then braces +ℤ negsuc 0
    else if c is b'(' && d.balance
    then braces +ℤ pos 1
    else braces

-- The run, what follows it, and the count behind it.
pub record StringRun : Type 0 where
  pub text : Text
  pub rest : Text
  pub braces : ℤ

unfoldable pub string_run : Delimiters → ℤ → Text → StringRun
unfolding ends_run count_paren
string_run d braces [] = record { text = []; rest = []; braces = braces }
string_run d braces (c ∷ rest) =
    let on = string_run d (count_paren d braces c) rest in
    if ends_run d braces c rest
    then record { text = []; rest = c ∷ rest; braces = braces }
    else record on { text = c ∷ on.text }

-- A run takes its first character in any case.
unfoldable pub consume_string_run : Bool → ℕ → Text → LexState → Scan
unfolding delimiters
consume_string_run raw c rest s =
    let d = delimiters raw s.frames in
    let on = string_run d (count_paren d s.brace_count c) rest in
    if ends_run d s.brace_count c rest
    then give string (c ∷ []) rest s
    else give string (c ∷ on.text) on.rest (record s { brace_count = on.braces })

-- The run of `_mode_L`.
unfoldable pub ends_item : Bool → Bool → Bool → ℕ → Bool
ends_item call cmd_pop func_pop c =
    c is b'#'
    || c is b','
    || (c is quote && call)
    || (c is b'}' && cmd_pop)
    || (c is b';' && cmd_pop)
    || (c is b')' && func_pop)

unfoldable pub item_run : (ℕ → Bool) → Text → Text
item_run ends [] = []
item_run ends (c ∷ rest) = if ends c then [] else c ∷ item_run ends rest

unfoldable pub after_item : (ℕ → Bool) → Text → Text
after_item ends [] = []
after_item ends (c ∷ rest) = if ends c then c ∷ rest else after_item ends rest

unfoldable pub consume_item : ℕ → Text → LexState → Scan
unfolding ends_item item_run after_item
consume_item c rest s =
    let ends =
      ends_item (in_command_call s.frames) (can_cmd_pop s.frames) (can_func_pop s.frames) in
    if ends c
    then give string (c ∷ []) rest s
    else give string (c ∷ item_run ends rest) (after_item ends rest) s

-- The empty STRING in front of a function's name is taken back.
unfoldable pub drop_string : List Token → List Token
drop_string [] = []
drop_string (t ∷ ts) = ts

unfoldable pub is_empty : Text → Bool
is_empty [] = true
is_empty (c ∷ rest) = false

unfoldable pub last_is_empty : List Token → Bool
last_is_empty [] = false
last_is_empty (t ∷ out) = among t.type (string ∷ []) && is_empty t.text

unfoldable pub take_back : LexState → LexState
unfolding drop_string is_empty last_is_empty
take_back s =
    if last_is (string ∷ []) s.after
    then record s { after = drop_string s.after }
    else if last_is_empty s.out
    then record s { out = drop_string s.out }
    else s

-- `_skip_ws` in the argument of a command's call, and nowhere else.
unfoldable pub call_ws : (ℕ → Text → LexState → Scan) → LexState → Scan
call_ws mode s = if in_command_call s.frames then after_ws mode s else on_char mode s.rest s

module _ (tables : Tables) where
  -- A function as the argument of a command's call.
  unfoldable pub try_call_word : ℕ → Text → LexState → Option Scan
  try_call_word c rest s =
      if in_command_call s.frames && is_word_start c
      then elim (try_function tables (word_from c rest) (after_word rest) s) [
        | some scan ↦ some (expr_word tables (word_from c rest) (after_word rest) (take_back s))
        | none ↦ none
      ]
      else none

  -- `##` and message codes, which raw text does not have.
  unfoldable pub string_hash : Bool → ℕ → Text → LexState → Option Scan
  string_hash raw c rest s =
      if c is b'#'
      then elim (hash_escape string rest s) [
        | some scan ↦ some scan
        | none ↦ if raw then none else try_messagecode tables rest s
      ]
      else none

  unfoldable pub string_text : Bool → ℕ → Text → LexState → Scan
  string_text raw c rest s =
      if c is quote && in_command_call s.frames
      then scan_quoted_string rest s
      else or_else (string_hash raw c rest s) (consume_string_run raw c rest s)

  unfoldable pub string_end : Bool → ℕ → Text → LexState → Scan
  string_end raw c rest s =
      if c is b')' && can_func_pop s.frames && is_zero s.brace_count && in_command_call s.frames
      then hide rest (pop_next_mode true s)
      else if c is b'}' && can_cmd_pop s.frames
      then end_by_brace rest s
      else if c is b')'
          && not raw
          && can_func_pop s.frames
          && (is_zero s.brace_count || in_messagecode s.frames)
      then give token_paren_right (c ∷ []) rest (pop_next_mode true s)
      else if c is b';' && can_cmd_pop s.frames
      then end_by_semicolon rest s
      else if c is b',' && can_comma_pop s.frames
      then next_by_comma rest s
      else string_text raw c rest s

  unfoldable pub string_char : Bool → ℕ → Text → LexState → Scan
  string_char raw c rest s =
      if raw
      then string_end raw c rest s
      else or_else (try_call_word c rest s) (string_end raw c rest s)

  -- `_mode_S` and `_mode_R`
  unfoldable pub scan_string : Bool → LexState → Scan
  unfolding string_text string_end string_char
  scan_string raw = call_ws (string_char raw)

  unfoldable pub list_text : ℕ → Text → LexState → Scan
  list_text c rest s =
      if c is quote && in_command_call s.frames
      then scan_quoted_string rest s
      else or_else (string_hash false c rest s) (consume_item c rest s)

  unfoldable pub list_end : ℕ → Text → LexState → Scan
  list_end c rest s =
      if c is b'}' && can_cmd_pop s.frames
      then end_by_brace rest s
      else if c is b')' && can_func_pop s.frames
      then end_by_paren rest s
      else if c is b';' && can_cmd_pop s.frames
      then end_by_semicolon rest s
      else if c is b','
      then give token_comma (c ∷ []) rest (emit_after string s)
      else list_text c rest s

  unfoldable pub list_char : ℕ → Text → LexState → Scan
  list_char c rest s = or_else (try_call_word c rest s) (list_end c rest s)

  -- `_mode_L`
  unfoldable pub scan_l : LexState → Scan
  unfolding list_text list_end list_char
  scan_l = call_ws list_char
