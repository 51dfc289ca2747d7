-- ===== src/Gs1/Lexer/Sound/Rules.antt =====
-- reborn_protocol/gs1/lexer.py: what a scan leaves, with one rule for each way to return.
use reborn_protocol.Base.{
  ℕ, ◌<◌, ◌≡◌, List, [], Bool, true, false, if◌then◌else◌, Option, none, some, length,
}
use reborn_protocol.Gs1.Csv.{Text}
use reborn_protocol.Gs1.Tokens.{TokenType, Token}
use reborn_protocol.Gs1.Lexer.State.{LexState, Scan, found, nothing, at_end, lex_error}
use reborn_protocol.Gs1.Lexer.Shared.{give, hide, or_else}
use reborn_protocol.Gs1.Lexer.Sound.{IsLive, IsSound}

-- Fewer than `n` characters are left and the state is sound; there is no IndexError, and EOF is given
-- only at the end of the text, with the queue `q` of later tokens as it was.
pub data Advances (n : ℕ) (q : List Token) : Scan → Type 0 where
  gives :
      (t : Token) (s : LexState)
      → IsLive t.type
      → length s.rest < n
      → IsSound s
      → Advances n q (found t s)
  hides : (s : LexState) → length s.rest < n → IsSound s → Advances n q (nothing s)
  ends : (s : LexState) → s.rest ≡ [] → s.after ≡ q → IsSound s → Advances n q (at_end s)
  raises : Advances n q lex_error

pub data MayAdvance (n : ℕ) (q : List Token) : Option Scan → Type 0 where
  misses : MayAdvance n q none
  hits : (scan : Scan) → Advances n q scan → MayAdvance n q (some scan)

module _ {n : ℕ} {q : List Token} where
  pub give-Advances :
      (t : TokenType) (text rest : Text) (s : LexState)
      → IsLive t
      → length rest < n
      → IsSound s
      → Advances n q (give t text rest s)
  unfolding give
  give-Advances t text rest s l h i =
      gives _ _ l h
        (record { grounded = i.grounded; before = i.before; after = i.after; out = i.out })

  pub hide-Advances :
      (rest : Text) (s : LexState) → length rest < n → IsSound s → Advances n q (hide rest s)
  unfolding hide
  hide-Advances rest s h i =
      hides _ h (record { grounded = i.grounded; before = i.before; after = i.after; out = i.out })

  pub if-Advances :
      (b : Bool) {x y : Scan} → Advances n q x → Advances n q y → Advances n q (if b then x else y)
  if-Advances true h k = h
  if-Advances false h k = k

  pub if-MayAdvance :
      (b : Bool) {x y : Option Scan}
      → MayAdvance n q x
      → MayAdvance n q y
      → MayAdvance n q (if b then x else y)
  if-MayAdvance true h k = h
  if-MayAdvance false h k = k

  pub or_else-Advances :
      (x : Option Scan) (y : Scan) → MayAdvance n q x → Advances n q y → Advances n q (or_else x y)
  unfolding or_else
  or_else-Advances _ y misses k = k
  or_else-Advances _ y (hits x h) k = h

  -- `elim` on one attempt, with another behind it.
  pub then-MayAdvance :
      (x y : Option Scan)
      → MayAdvance n q x
      → MayAdvance n q y
      → MayAdvance n q (elim x [ some scan ↦ some scan | none ↦ y ])
  then-MayAdvance _ y misses k = k
  then-MayAdvance _ y (hits x h) k = hits x h
