-- ===== src/Gs1/Lexer/Sound/Shared.antt =====
-- reborn_protocol/gs1/lexer.py: the tokens that several modes share, at a character with fewer than
-- `n` behind it.
use reborn_protocol.Base.{
  ℕ, suc, ◌<◌, ◌≤◌, ◌≡◌, refl, List, [], ◌∷◌, true, false, Option, none, some, length, All, arith,
}
use reborn_protocol.Gs1.Csv.{Text}
use reborn_protocol.Gs1.Tokens.{Token, TokenType, end, literal, messagecode}
use reborn_protocol.Gs1.Lexer.Scan.{after_prefix, match_real, match_messagecode}
use reborn_protocol.Gs1.Lexer.State.{LexState, Tables}
use reborn_protocol.Gs1.Lexer.Shared.{
  Operator, operators, give, hash_escape, try_operator, try_real, scan_quoted_string, end_by_brace,
  end_by_semicolon, end_by_paren, next_by_comma, try_messagecode, try_hash, messagecode_args,
  open_messagecode,
}
use reborn_protocol.Gs1.Lexer.Sound.{
  IsLive, IsSound, emit_before-IsSound, pop_next_mode-IsSound, push_command-IsSound,
}
use reborn_protocol.Gs1.Lexer.Sound.Lengths.{
  IsShort, length-rest_of, length-after_prefix, length-quoted_string, match_real-IsShort,
  match_messagecode-IsShort,
}
use reborn_protocol.Gs1.Lexer.Sound.Rules.{
  Advances, MayAdvance, misses, hits, give-Advances, hide-Advances, if-Advances, if-MayAdvance,
  then-MayAdvance,
}

-- An operator has a character, and its type is none of EOF's.
abbrev IsOperator : Operator → Type 0
IsOperator o = (0 < length o.lit) × IsLive o.ttype

operators-IsOperator : All IsOperator operators
operators-IsOperator = omega arith

open_messagecode-IsSound :
    (tables : Tables) (args : Text) (s : LexState)
    → IsSound s
    → IsSound (open_messagecode tables args s)
unfolding open_messagecode
open_messagecode-IsSound tables [] s i = i
open_messagecode-IsSound tables (a ∷ args) s i = push_command-IsSound _ true false s i

module _ {n : ℕ} {q : List Token} where
  operator-MayAdvance :
      (ops : List Operator) (t : Text) (s : LexState)
      → All IsOperator ops
      → length t ≤ n
      → IsSound s
      → MayAdvance n q (try_operator ops t s)
  unfolding try_operator
  operator-MayAdvance [] t s l h i = misses
  operator-MayAdvance (o ∷ ops) t s l h i =
      by_match (after_prefix o.lit t) refl (operator-MayAdvance ops t s l.1 h i)
    where
      by_match :
          (m : Option Text)
          → after_prefix o.lit t ≡ m
          → MayAdvance n q (try_operator ops t s)
          → MayAdvance n q (elim m [
            | some rest ↦ some (give o.ttype o.canon rest s)
            | none ↦ try_operator ops t s
          ])
      by_match none e later = later
      by_match (some rest) e later =
          hits _
            (give-Advances _ _ _ s l.0.1 (omega (arith, length-after_prefix o.lit t e, l.0.0)) i)

  module _ (c : ℕ) (rest : Text) (s : LexState) (h : length rest < n) (i : IsSound s) where
    pub try_operator-MayAdvance : MayAdvance n q (try_operator operators (c ∷ rest) s)
    try_operator-MayAdvance =
        operator-MayAdvance operators (c ∷ rest) s operators-IsOperator (omega arith) i

    pub try_real-MayAdvance : MayAdvance n q (try_real c rest s)
    unfolding try_real
    try_real-MayAdvance =
        if-MayAdvance _ (by_match (match_real (c ∷ rest)) (match_real-IsShort (c ∷ rest))) misses
      where
        by_match :
            (m : Option (Text × Text))
            → IsShort (suc (length rest)) m
            → MayAdvance n q
                (elim m [ some (number, after) ↦ some (give literal number after s) | none ↦ none ])
        by_match none k = misses
        by_match (some (number, after)) k = hits _ (give-Advances _ _ _ s tt (omega arith) i)

    pub scan_quoted_string-Advances : Advances n q (scan_quoted_string rest s)
    unfolding scan_quoted_string
    scan_quoted_string-Advances =
        give-Advances _ _ _ s tt (omega (arith, length-quoted_string rest)) i

    pub hash_escape-MayAdvance : (t : TokenType) → IsLive t → MayAdvance n q (hash_escape t rest s)
    unfolding hash_escape
    hash_escape-MayAdvance t l =
        if-MayAdvance _ (hits _ (give-Advances t _ _ s l (omega (arith, length-rest_of rest)) i))
          misses

    pub end_by_brace-Advances : Advances n q (end_by_brace rest s)
    unfolding end_by_brace
    end_by_brace-Advances =
        give-Advances _ _ _ _ tt h (pop_next_mode-IsSound true _ (emit_before-IsSound end s tt i))

    pub end_by_semicolon-Advances : Advances n q (end_by_semicolon rest s)
    unfolding end_by_semicolon
    end_by_semicolon-Advances = give-Advances _ _ _ _ tt h (pop_next_mode-IsSound true s i)

    pub end_by_paren-Advances : Advances n q (end_by_paren rest s)
    unfolding end_by_paren
    end_by_paren-Advances =
        if-Advances _ (hide-Advances _ _ h (pop_next_mode-IsSound true s i))
          (give-Advances _ _ _ _ tt h (pop_next_mode-IsSound true s i))

    pub next_by_comma-Advances : Advances n q (next_by_comma rest s)
    unfolding next_by_comma
    next_by_comma-Advances = give-Advances _ _ _ _ tt h (pop_next_mode-IsSound false s i)

    pub try_messagecode-MayAdvance :
        (tables : Tables) → MayAdvance n q (try_messagecode tables rest s)
    unfolding try_messagecode
    try_messagecode-MayAdvance tables =
        by_match (match_messagecode rest) (match_messagecode-IsShort rest)
      where
        by_match :
            (m : Option (Text × Text))
            → IsShort (length rest) m
            → MayAdvance n q (elim m [
              | none ↦ none
              | some (code, after) ↦ some (
                  give messagecode
                    (b'#' ∷ code)
                    after
                    (open_messagecode tables (messagecode_args tables (b'#' ∷ code) after) s))
            ])
        by_match none k = misses
        by_match (some (code, after)) k =
            hits _ (give-Advances _ _ _ _ tt (omega arith) (open_messagecode-IsSound tables _ s i))

    pub try_hash-MayAdvance : (tables : Tables) → MayAdvance n q (try_hash tables c rest s)
    unfolding try_hash
    try_hash-MayAdvance tables =
        if-MayAdvance _
          (then-MayAdvance _ _ (hash_escape-MayAdvance _ tt) (try_messagecode-MayAdvance tables))
          misses
