-- ===== src/Gs1/Lexer/Munch.antt =====
-- reborn_protocol/gs1/lexer.py: the order of OPERATORS makes the first match the longest.
use reborn_protocol.Base.{
  ℕ, ◌≤◌, ◌≡◌, ◌≢◌, refl, List, [], ◌∷◌, All, ◌⊎◌, inl, inr, Option, none, some, length, arith,
}
use reborn_protocol.Gs1.Csv.{Text}
use reborn_protocol.Gs1.Lexer.Scan.{after_prefix}
use reborn_protocol.Gs1.Lexer.State.{LexState, Scan}
use reborn_protocol.Gs1.Lexer.Shared.{Operator, operators, give, try_operator}

abbrev IsOneOf : Operator → List Operator → Type 0
IsOneOf o [] = ⊥
IsOneOf o (p ∷ ops) = (o ≡ p) ⊎ IsOneOf o ops

-- The text starts with the operator only if that is no longer than `n`.
abbrev NoLonger : Text → ℕ → Operator → Type 0
NoLonger t n p = after_prefix p.lit t ≢ none → length p.lit ≤ n

-- Of the operators with which the text starts, a longest one is taken, and none only if there is none.
pub IsLongest : List Operator → Text → LexState → Option Scan → Type 0
IsLongest ops t s none = All (λ p. after_prefix p.lit t ≡ none) ops
IsLongest ops t s (some scan) =
    (o : Operator) × (rest : Text) × IsOneOf o ops
    × (after_prefix o.lit t ≡ some rest)
    × (scan ≡ give o.ttype o.canon rest s)
    × All (NoLonger t (length o.lit)) ops

abbrev IsDescending : List Operator → Type 0
IsDescending [] = Unit
IsDescending (o ∷ ops) = All (λ p. length p.lit ≤ length o.lit) ops × IsDescending ops

operators-IsDescending : IsDescending operators
operators-IsDescending = omega arith

All-NoLonger :
    (t : Text) (n : ℕ) (ops : List Operator)
    → All (λ p. length p.lit ≤ n) ops
    → All (NoLonger t n) ops
All-NoLonger t n [] h = tt
All-NoLonger t n (p ∷ ops) h = (λ m. h.0, All-NoLonger t n ops h.1)

module _ (t : Text) (s : LexState) where
  longest : (ops : List Operator) → IsDescending ops → IsLongest ops t s (try_operator ops t s)
  unfolding try_operator IsLongest
  longest [] d = tt
  longest (o ∷ ops) d =
      by_match (after_prefix o.lit t) refl (try_operator ops t s) (longest ops d.1)
    where
      by_match :
          (m : Option Text)
          → after_prefix o.lit t ≡ m
          → (later : Option Scan) → IsLongest ops t s later
          → IsLongest
              (o ∷ ops)
              t
              s
              (elim m [ some rest ↦ some (give o.ttype o.canon rest s) | none ↦ later ])
      by_match none e none h = (e, h)
      by_match none e (some scan) (p, rest, i, m, g, l) =
          (p, rest, inr i, m, g, (λ k. absurd (k e), l))
      by_match (some rest) e later h =
          (o, rest, inl refl, e, refl, (λ k. omega arith, All-NoLonger t (length o.lit) ops d.0))

  -- `_try_operator` takes, of the operators with which the text starts, one that no other of them is
  -- longer than, with its own type and canonical spelling; it finds none only where the text starts
  -- with no operator.
  pub try_operator-IsLongest : IsLongest operators t s (try_operator operators t s)
  try_operator-IsLongest = longest operators operators-IsDescending
