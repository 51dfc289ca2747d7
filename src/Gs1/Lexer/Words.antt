-- ===== src/Gs1/Lexer/Words.antt =====
-- reborn_protocol/gs1/lexer.py: words, in expressions and at the start of a statement. A word starts
-- at a word character, so `_scan_word` finds it.
use reborn_protocol.Base.{
  ℕ, List, [], ◌∷◌, Bool, true, false, not, ◌&&◌, ◌||◌, Option, none, some, if◌then◌else◌,
}
use reborn_protocol.Gs1.Csv.{Text, next_is, rest_of}
use reborn_protocol.Gs1.Tokens.{
  TokenType, Token, among, same_text, command, function, identifier, literal, kw_with, kw_function,
  kw_if, kw_else, kw_elseif, kw_for, kw_while, kw_switch, kw_return, kw_break, kw_continue,
  token_period, token_paren_left,
}
use reborn_protocol.Gs1.Lexer.Scan.{
  codes, is_word_char, is_one_of, take_while, drop_while, next_nonspace_is,
}
use reborn_protocol.Gs1.Lexer.State.{LexState, Scan, Tables, CommandEntry, push_command}
use reborn_protocol.Gs1.Lexer.Shared.{give, or_else, op_types}

-- KW
unfoldable pub keyword : Text → Option TokenType
keyword word =
    if same_text word (codes "with")
    then some kw_with
    else if same_text word (codes "function")
    then some kw_function
    else if same_text word (codes "if")
    then some kw_if
    else if same_text word (codes "else")
    then some kw_else
    else if same_text word (codes "elseif")
    then some kw_elseif
    else if same_text word (codes "for")
    then some kw_for
    else if same_text word (codes "while")
    then some kw_while
    else if same_text word (codes "switch")
    then some kw_switch
    else if same_text word (codes "return")
    then some kw_return
    else if same_text word (codes "break")
    then some kw_break
    else if same_text word (codes "continue")
    then some kw_continue
    else none

abbrev is_some : {A : Type 0} → Option A → Bool
is_some (some a) = true
is_some none = false

-- `self.out and self.out[-1].type in types`
unfoldable pub last_is : List TokenType → List Token → Bool
last_is types [] = false
last_is types (t ∷ out) = among t.type types

-- The word from the character `c` on, and what follows it.
unfoldable pub word_from : ℕ → Text → Text
word_from c rest = c ∷ take_while is_word_char rest

unfoldable pub after_word : Text → Text
after_word rest = drop_while is_word_char rest

-- A word is an IDENTIFIER, but `true` and `false`.
unfoldable pub plain_word : Text → Text → LexState → Scan
plain_word word rest s =
    if same_text word (codes "true") || same_text word (codes "false")
    then give literal word rest s
    else give identifier word rest s

module _ (tables : Tables) where
  -- A function's name with its parenthesis behind it.
  unfoldable pub try_function : Text → Text → LexState → Option Scan
  try_function word rest s = elim (tables.functions word) [
    | none ↦ none
    | some args ↦
        if next_nonspace_is rest b'('
        then some (give function word rest (push_command args false false s))
        else none
  ]

  -- `_expr_word`, on a word and what follows it.
  unfoldable pub expr_word : Text → Text → LexState → Scan
  expr_word word rest s =
      if last_is (token_period ∷ []) s.out
      then plain_word word rest s
      else or_else (try_function word rest s) (plain_word word rest s)

  -- A command with its parenthesis; an empty pair of them is taken whole.
  unfoldable pub command_call : Text → Text → Text → LexState → Scan
  command_call word args rest s =
      let inside = drop_while (is_one_of (codes " \t")) rest in
      if next_is inside b')'
      then give command word (rest_of inside) (push_command args false false s)
      else give command word rest (push_command args false true s)

  unfoldable pub command_word : CommandEntry → Text → Text → LexState → Option Scan
  command_word entry word rest s =
      if entry.needs_space
      then (if next_is rest b' '
          then some (give command word (rest_of rest) (push_command entry.args false false s))
          else none)
      else if next_is rest b'('
      then some (command_call word entry.args (rest_of rest) s)
      else some (give command word rest (push_command entry.args false false s))

  unfoldable pub try_command : Text → Text → LexState → Option Scan
  try_command word rest s = elim (tables.commands word) [
    | none ↦ none
    | some entry ↦ command_word entry word rest s
  ]

  -- `word in KW`; a function's header has a name, a '(' and parameters.
  unfoldable pub keyword_word : TokenType → Text → Text → LexState → Scan
  keyword_word k word rest s =
      if same_text word (codes "switch") && not (next_nonspace_is rest b'(')
      then give identifier word rest s
      else if same_text word (codes "function")
      then give k word rest (push_command (codes "V(F") false false s)
      else give k word rest s

  unfoldable pub try_keyword : Text → Text → LexState → Option Scan
  try_keyword word rest s = elim (keyword word) [
    | none ↦ none
    | some k ↦ some (keyword_word k word rest s)
  ]

  -- Behind a parenthesis or an operator, a command's name is a variable.
  unfoldable pub is_variable_read : Text → List Token → Bool
  is_variable_read word out =
      last_is (token_paren_left ∷ op_types) out
      && is_some (tables.commands word)
      && not (is_some (tables.functions word))
      && not (is_some (keyword word))

  -- `_default_word`
  unfoldable pub default_word : Text → Text → LexState → Scan
  default_word word rest s =
      if last_is (token_period ∷ []) s.out
      then plain_word word rest s
      else if is_variable_read word s.out
      then give identifier word rest s
      else or_else (try_command word rest s) (
          or_else (try_function word rest s)
            (or_else (try_keyword word rest s) (plain_word word rest s)))
