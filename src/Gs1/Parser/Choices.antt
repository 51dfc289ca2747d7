-- ===== src/Gs1/Parser/Choices.antt =====
-- reborn_protocol/gs1/parser.py: what the tests on the next token leave, and the parts of a parse that may give up.
use reborn_protocol.Base.{
  ℕ, suc, ◌<◌, ◌≡◌, refl, List, [], ◌∷◌, Bool, false, Option, none, some, length, arith, Bool-cases,
  inl, inr,
}
use reborn_protocol.Gs1.Tokens.{TokenType, Token, among}
use reborn_protocol.Gs1.Parser.State.{
  ParserState, Outcome, ok, raised, stuck, overflow, Parse, pure, raise, advance, first_of, if_at,
  if_next, attempt, eat, expected,
}
use reborn_protocol.Gs1.Parser.Fit.{IsGood, IsTakable, advance-IsGood}
use reborn_protocol.Gs1.Parser.Ends.{Ends, Leaves, Leaves-lt, always, never, pure-Ends, raise-Ends}

module _ {A : Type 0} {c : Bool} (P : A → Bool) where
  pub if_next-Leaves :
      {k : ℕ} (types : List TokenType) (hit : Token → Parse A) (miss : Parse A)
      → IsTakable types
      → ((t : Token) → Ends c k never (hit t))
      → (s : ParserState) → IsGood c s
      → length s.rest < suc k
      → Leaves c s.recover P (length s.rest) (miss s)
      → Leaves c s.recover P (length s.rest) (if_next types hit miss s)
  unfolding if_next
  if_next-Leaves types hit miss h g s p l m =
      elim (Bool-cases (among (first_of s.rest).type types)) [
        | inl e ↦
            let (less, plain) = advance-IsGood s types h e p in
            rw e (
              Leaves-lt _ _ P (hit (first_of s.rest) (advance s)) (omega arith)
                ((g (first_of s.rest)).at (advance s) plain (omega arith)))
        | inr e ↦ rw e m
      ]

module _ {A : Type 0} {c : Bool} {P : A → Bool} where
  pub if_next-Ends :
      {k : ℕ} (types : List TokenType) (hit : Token → Parse A) (miss : Parse A)
      → IsTakable types
      → ((t : Token) → Ends c k never (hit t))
      → Ends c (suc k) P miss
      → Ends c (suc k) P (if_next types hit miss)
  if_next-Ends types hit miss h g m = record {
    at = λ s p l. if_next-Leaves P types hit miss h g s p l (m.at s p l);
  }

  -- At the same number of tokens.
  pub same_next-Ends :
      {n : ℕ} (types : List TokenType) (hit : Token → Parse A) (miss : Parse A)
      → IsTakable types
      → ((t : Token) → Ends c n never (hit t))
      → Ends c n P miss
      → Ends c n P (if_next types hit miss)
  same_next-Ends types hit miss h g m = record {
    at = λ s p l. if_next-Leaves P types hit miss h g s p (omega arith) (m.at s p l);
  }

  pub if_at-Ends :
      {n : ℕ} (types : List TokenType) (hit miss : Parse A)
      → Ends c n P hit
      → Ends c n P miss
      → Ends c n P (if_at types hit miss)
  unfolding if_at
  if_at-Ends types hit miss h m = record {
    at = λ s p l. elim (Bool-cases (among (first_of s.rest).type types)) [
      | inl e ↦ rw e (h.at s p l)
      | inr e ↦ rw e (m.at s p l)
    ];
  }

pub eat-Ends : {c : Bool} {n : ℕ} (t : TokenType) → IsTakable (t ∷ []) → Ends c n always (eat t)
unfolding eat
eat-Ends t h =
    same_next-Ends (t ∷ []) pure (raise (expected t)) h (λ u. pure-Ends u refl)
      (raise-Ends (expected t))

module _ {A : Type 0} {c : Bool} (P : Option A → Bool) (h : P none ≡ false) where
  attempted :
      (s : ParserState) (o : Outcome (Option A))
      → IsGood c s
      → Leaves c s.recover P (length s.rest) o
      → Leaves c s.recover P (length s.rest) (elim o [
        | ok r s' ↦ elim r [
          | some a ↦ ok (some a) s'
          | none ↦ ok none (record s' { rest = s.rest })
        ]
        | raised e s' ↦ ok none (record s' { rest = s.rest })
        | stuck ↦ stuck
        | overflow t ↦ overflow t
      ])
  unfolding Leaves
  attempted s (ok (some a) s') p l = l
  attempted s (ok none s') p l =
      rw h (omega arith, (record { fits = p.fits; label = l.1.0.label; calm = p.calm }, l.1.1))
  attempted s (raised e s') p l =
      rw h (omega arith, (record { fits = p.fits; label = l.1.0.label; calm = p.calm }, l.1.1))
  attempted s stuck p l = l
  attempted s (overflow t) p l = l

  pub attempt-Leaves :
      (m : Parse (Option A)) (s : ParserState)
      → IsGood c s
      → Leaves c s.recover P (length s.rest) (m s)
      → Leaves c s.recover P (length s.rest) (attempt m s)
  unfolding attempt
  attempt-Leaves m s p l = attempted s (m s) p l

pub attempt-Ends :
    {A : Type 0} {c : Bool} {P : Option A → Bool} {n : ℕ} (m : Parse (Option A))
    → P none ≡ false
    → Ends c n P m
    → Ends c n P (attempt m)
attempt-Ends {P = P} m h e = record { at = λ s p l. attempt-Leaves P h m s p (e.at s p l) }
