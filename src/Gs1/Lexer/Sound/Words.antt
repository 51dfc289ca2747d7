-- ===== src/Gs1/Lexer/Sound/Words.antt =====
-- reborn_protocol/gs1/lexer.py: words, which end in front of a text of fewer than `n` characters.
use reborn_protocol.Base.{
  ℕ, ◌<◌, List, true, false, Option, none, some, length, arith, if◌then◌else◌,
}
use reborn_protocol.Gs1.Csv.{Text, rest_of}
use reborn_protocol.Gs1.Tokens.{Token, TokenType, function}
use reborn_protocol.Gs1.Lexer.Scan.{codes, is_one_of, is_word_char, drop_while, next_nonspace_is}
use reborn_protocol.Gs1.Lexer.State.{LexState, Tables, CommandEntry, push_command}
use reborn_protocol.Gs1.Lexer.Shared.{give}
use reborn_protocol.Gs1.Lexer.Words.{
  keyword, after_word, plain_word, try_function, expr_word, command_call, command_word, try_command,
  keyword_word, try_keyword, default_word,
}
use reborn_protocol.Gs1.Lexer.Sound.{IsLive, IsLiveOrNone, IsSound, push_command-IsSound}
use reborn_protocol.Gs1.Lexer.Sound.Lengths.{length-rest_of, length-drop_while}
use reborn_protocol.Gs1.Lexer.Sound.Rules.{
  Advances, MayAdvance, misses, hits, give-Advances, if-Advances, if-MayAdvance, or_else-Advances,
}

keyword-IsLiveOrNone : (word : Text) → IsLiveOrNone (keyword word)
unfolding keyword
keyword-IsLiveOrNone word = ground arith

pub length-after_word : {n : ℕ} (rest : Text) → length rest < n → length (after_word rest) < n
unfolding after_word
length-after_word rest h = omega (arith, length-drop_while is_word_char rest)

module _ {n : ℕ} {q : List Token} (word rest : Text) (s : LexState) (h : length rest < n)
    (i : IsSound s) where
  pub plain_word-Advances : Advances n q (plain_word word rest s)
  unfolding plain_word
  plain_word-Advances = if-Advances _ (give-Advances _ _ _ s tt h i) (give-Advances _ _ _ s tt h i)

  module _ (tables : Tables) where
    pub try_function-MayAdvance : MayAdvance n q (try_function tables word rest s)
    unfolding try_function
    try_function-MayAdvance = by_entry (tables.functions word)
      where
        by_entry :
            (args : Option Text)
            → MayAdvance n q (elim args [
              | none ↦ none
              | some a ↦
                  if next_nonspace_is rest b'('
                  then some (give function word rest (push_command a false false s))
                  else none
            ])
        by_entry none = misses
        by_entry (some a) =
            if-MayAdvance _
              (hits _ (give-Advances _ _ _ _ tt h (push_command-IsSound a false false s i))) misses

    pub expr_word-Advances : Advances n q (expr_word tables word rest s)
    unfolding expr_word
    expr_word-Advances =
        if-Advances _ plain_word-Advances
          (or_else-Advances _ _ try_function-MayAdvance plain_word-Advances)

    command_call-Advances : (args : Text) → Advances n q (command_call tables word args rest s)
    unfolding command_call
    command_call-Advances args =
        let inside = drop_while (is_one_of (codes " \t")) rest in
        if-Advances _
          (give-Advances _ _ _ _ tt
            (omega (arith, length-rest_of inside, length-drop_while (is_one_of (codes " \t")) rest))
            (push_command-IsSound args false false s i))
          (give-Advances _ _ _ _ tt h (push_command-IsSound args false true s i))

    pub keyword_word-Advances :
        (k : TokenType) → IsLive k → Advances n q (keyword_word tables k word rest s)
    unfolding keyword_word
    keyword_word-Advances k l = if-Advances _ (give-Advances _ _ _ s tt h i) (
        if-Advances _
          (give-Advances _ _ _ _ l h (push_command-IsSound (codes "V(F") false false s i))
          (give-Advances _ _ _ s l h i))

    try_keyword-MayAdvance : MayAdvance n q (try_keyword tables word rest s)
    unfolding try_keyword
    try_keyword-MayAdvance = by_keyword (keyword word) (keyword-IsLiveOrNone word)
      where
        by_keyword :
            (k : Option TokenType)
            → IsLiveOrNone k
            → MayAdvance n q
                (elim k [ none ↦ none | some t ↦ some (keyword_word tables t word rest s) ])
        by_keyword none l = misses
        by_keyword (some t) l = hits _ (keyword_word-Advances t l)

module _ {n : ℕ} {q : List Token} (tables : Tables) (word rest : Text) (s : LexState)
    (h : length rest < n) (i : IsSound s) where
  command_word-MayAdvance :
      (entry : CommandEntry) → MayAdvance n q (command_word tables entry word rest s)
  unfolding command_word
  command_word-MayAdvance entry =
      let short : length (rest_of rest) < n = omega (arith, length-rest_of rest) in
      let sound = push_command-IsSound entry.args false false s i in
      if-MayAdvance _ (if-MayAdvance _ (hits _ (give-Advances _ _ _ _ tt short sound)) misses) (
        if-MayAdvance _
          (hits _ (command_call-Advances word (rest_of rest) s short i tables entry.args))
          (hits _ (give-Advances _ _ _ _ tt h sound)))

  try_command-MayAdvance : MayAdvance n q (try_command tables word rest s)
  unfolding try_command
  try_command-MayAdvance = by_entry (tables.commands word)
    where
      by_entry :
          (entry : Option CommandEntry)
          → MayAdvance n q (elim entry [ none ↦ none | some e ↦ command_word tables e word rest s ])
      by_entry none = misses
      by_entry (some e) = command_word-MayAdvance e

  pub default_word-Advances : Advances n q (default_word tables word rest s)
  unfolding default_word
  default_word-Advances =
      let plain = plain_word-Advances word rest s h i in
      if-Advances _ plain (
        if-Advances _ (give-Advances _ _ _ s tt h i) (
          or_else-Advances _ _ try_command-MayAdvance (
            or_else-Advances _ _ (try_function-MayAdvance word rest s h i tables)
              (or_else-Advances _ _ (try_keyword-MayAdvance word rest s h i tables) plain))))
