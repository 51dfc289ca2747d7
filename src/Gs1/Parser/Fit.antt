-- ===== src/Gs1/Parser/Fit.antt =====
-- reborn_protocol/gs1/parser.py: the tokens on which the parser ends, and the states that it is in.
use reborn_protocol.Base.{
  ◌+◌, ◌≤◌, ◌<◌, ◌≡◌, refl, sym, ◌∙◌, List, [], ◌∷◌, Bool, true, false, ◌&&◌, ◌||◌, length, arith,
  Bool-cases, inl, inr, ◌⊎◌, ◌==◌, ==_iff,
}
use reborn_protocol.Gs1.Tokens.{
  TokenType, Token, among, code, same_text, eof, identifier, token_brace_left, token_period,
}
use reborn_protocol.Gs1.Parser.State.{ParserState, first_of, rest_of, after_next, advance, is_word}
use reborn_protocol.Gs1.Parser.Primary.{colon_text}
use reborn_protocol.Gs1.Parser.Program.{case_word}

pub true_false : {A : Type 0} → true ≡ false → A
true_false e = absurd (ground arith)

-- The name that is a colon.
abbrev pub is_colon : Token → Bool
is_colon t = among t.type (identifier ∷ []) && same_text t.text colon_text

-- No brace is opened before the next such name.
abbrev pub IsCalm : List Token → Type 0
IsCalm [] = Unit
IsCalm (t ∷ ts) = (is_colon t ≡ true) ⊎ ((among t.type (token_brace_left ∷ []) ≡ false) × IsCalm ts)

-- No EOF before the end; behind the word `case` no brace is opened before a name that is a colon, and
-- no such name follows a period.
abbrev pub IsFit : List Token → Type 0
IsFit [] = Unit
IsFit (t ∷ ts) =
    (among t.type (eof ∷ []) ≡ false)
    × (is_word (case_word ∷ []) t ≡ true → IsCalm ts)
    × (among t.type (token_period ∷ []) ≡ true → is_colon (first_of ts) ≡ false)
    × IsFit ts

-- In a case label or not, `c`.
pub record IsGood (c : Bool) (s : ParserState) : Type 0 where
  pub fits : IsFit s.rest
  pub label : s.parsing_case_label ≡ c
  pub calm : c ≡ true → IsCalm s.rest

-- Tokens of these types can be taken: there is no EOF and no name among them.
abbrev pub IsTakable : List TokenType → Type 0
IsTakable types = (among eof types || among identifier types) ≡ false

or_left : (a b : Bool) → (a || b) ≡ false → a ≡ false
or_left true b e = e
or_left false b e = refl

or_right : (a b : Bool) → (a || b) ≡ false → b ≡ false
or_right true b e = true_false e
or_right false b e = e

among-same :
    (t u : TokenType) (types : List TokenType) → code t ≡ code u → among t types ≡ among u types
unfolding among
among-same t u [] e = refl
among-same t u (v ∷ vs) e = rw (e, among-same t u vs e) refl

-- A token of such a type is no name.
no_name :
    (t : TokenType) (types : List TokenType)
    → IsTakable types
    → among t types ≡ true
    → among t (identifier ∷ []) ≡ false
unfolding among
no_name t types h q = elim (Bool-cases (code t == code identifier)) [
  | inl e ↦ true_false (
      sym q
      ∙ among-same t identifier types ((==_iff (code t) (code identifier)).0 e)
      ∙ or_right _ _ h)
  | inr e ↦ rw e refl
]

IsCalm-rest_of : (t : Token) (ts : List Token) → is_colon t ≡ false → IsCalm (t ∷ ts) → IsCalm ts
IsCalm-rest_of t ts q (inl e) = true_false (sym e ∙ q)
IsCalm-rest_of t ts q (inr (b, h)) = h

taken :
    (c : Bool) (ts : List Token)
    → IsFit ts
    → (c ≡ true → IsCalm ts)
    → (c ≡ true → is_colon (first_of ts) ≡ false)
    → 0 < length ts
    → (length (after_next ts) + 1 ≤ length ts)
      × IsFit (after_next ts)
      × (c ≡ true → IsCalm (after_next ts))
taken c [] f g q h = absurd (omega arith)
taken c (t ∷ ts) (e, w, d, f) g q h = rw e (omega arith, f, λ x. IsCalm-rest_of t ts (q x) (g x))

-- A token can be taken that is no colon in a case label.
pub take-IsGood :
    {c : Bool} (s : ParserState)
    → 0 < length s.rest
    → (c ≡ true → is_colon (first_of s.rest) ≡ false)
    → IsGood c s
    → (length (advance s).rest + 1 ≤ length s.rest) × IsGood c (advance s)
take-IsGood {c} s h q g =
    let (less, f, k) = taken c s.rest g.fits g.calm q h in
    (less, record { fits = f; label = g.label; calm = k })

pub some_token :
    (types : List TokenType) (ts : List Token)
    → among eof types ≡ false
    → among (first_of ts).type types ≡ true
    → 0 < length ts
some_token types [] h q = true_false (sym q ∙ h)
some_token types (t ∷ ts) h q = omega arith

-- So a token of takable types can be taken.
pub advance-IsGood :
    {c : Bool} (s : ParserState) (types : List TokenType)
    → IsTakable types
    → among (first_of s.rest).type types ≡ true
    → IsGood c s
    → (length (advance s).rest + 1 ≤ length s.rest) × IsGood c (advance s)
advance-IsGood s types h q g =
    take-IsGood s (some_token types s.rest (or_left _ _ h) q)
      (λ _. rw (no_name (first_of s.rest).type types h q) refl) g

pub after_next-IsFit :
    (ts : List Token) → IsFit ts → (length (after_next ts) ≤ length ts) × IsFit (after_next ts)
after_next-IsFit [] f = (omega arith, f)
after_next-IsFit (t ∷ ts) (e, w, d, f) = rw e (omega arith, f)

pub after_next-eq-rest_of : (ts : List Token) → IsFit ts → after_next ts ≡ rest_of ts
after_next-eq-rest_of [] f = refl
after_next-eq-rest_of (t ∷ ts) f = rw (f.0) refl

-- What follows a period is no colon.
pub period_no_colon :
    (ts : List Token)
    → IsFit ts
    → among (first_of ts).type (token_period ∷ []) ≡ true
    → is_colon (first_of (rest_of ts)) ≡ false
unfolding among code
period_no_colon [] f q = true_false (sym q)
period_no_colon (t ∷ ts) (e, w, d, f) q = d q

-- In a case label no brace can be taken.
pub calm_no_brace :
    (ts : List Token) → IsCalm ts → among (first_of ts).type (token_brace_left ∷ []) ≡ false
unfolding among code
calm_no_brace [] k = refl
calm_no_brace (t ∷ ts) (inr (b, k)) = b
calm_no_brace (t ∷ ts) (inl x) = elim (Bool-cases (among t.type (token_brace_left ∷ []))) [
  | inl q ↦ true_false (sym x ∙ (rw (no_name t.type (token_brace_left ∷ []) refl q) refl))
  | inr q ↦ q
]
