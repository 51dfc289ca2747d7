-- ===== src/Gs1/Parser/Loops.antt =====
-- reborn_protocol/gs1/parser.py: what the loops of the parser leave.
use mathlib.Core.Path.{subst}
use reborn_protocol.Base.{
  Bool, ℕ, zero, suc, ◌≤◌, ◌<◌, refl, [], ◌∷◌, Option, none, some, length, arith,
}
use reborn_protocol.Gs1.Tokens.{TokenType}
use reborn_protocol.Gs1.Parser.State.{
  ParserState, Outcome, ok, raised, stuck, overflow, Parse, bind, pure, repeat, skip,
}
use reborn_protocol.Gs1.Parser.Fit.{IsGood, IsTakable}
use reborn_protocol.Gs1.Parser.Ends.{
  Leaves, Ends, always, never, is_some, Leaves-le, Leaves-lt, Ends-le, pure-Ends,
}
use reborn_protocol.Gs1.Parser.Choices.{same_next-Ends}

module _ {A : Type 0} {c : Bool} (body : A → Parse (Option A)) where
  loop-Leaves :
      (fuel : ℕ) (a : A) (s : ParserState)
      → ((b : A) → Ends c (suc (length s.rest)) is_some (body b))
      → IsGood c s
      → length s.rest < fuel
      → Leaves c s.recover never (length s.rest) (repeat fuel body a s)
  unfolding Leaves repeat
  loop-Leaves zero a s e p l = absurd (omega arith)
  loop-Leaves (suc fuel) a s e p l =
      after (λ b s'. loop-Leaves fuel b s') (body a s) ((e a).at s p (omega arith))
    where
      after :
          ((b : A) (s' : ParserState)
            → ((x : A) → Ends c (suc (length s'.rest)) is_some (body x))
            → IsGood c s'
            → length s'.rest < fuel
            → Leaves c s'.recover never (length s'.rest) (repeat fuel body b s'))
          → (o : Outcome (Option A)) → Leaves c s.recover is_some (length s.rest) o
          → Leaves c s.recover never (length s.rest) (elim o [
            | ok r s' ↦ elim r [ some a' ↦ repeat fuel body a' s' | none ↦ ok a s' ]
            | raised e s' ↦ raised e s'
            | stuck ↦ stuck
            | overflow t ↦ overflow t
          ])
      after again (ok (some b) s') (less, plain) =
          Leaves-le _ _ never {m = length s'.rest} (repeat fuel body b s') (omega arith) (
            subst (λ r. Leaves c r never (length s'.rest) (repeat fuel body b s')) (plain.1)
              (again b s' (λ x. Ends-le (body x) (omega arith) (e x)) plain.0 (omega arith)))
      after again (ok none s') h = (omega arith, h.1)
      after again (raised x s') h = h
      after again stuck h = h
      after again (overflow t) h = h

  pub repeat-Ends :
      {n : ℕ} (fuel : ℕ) (a : A)
      → n ≤ fuel
      → ((b : A) → Ends c n is_some (body b))
      → Ends c n never (repeat fuel body a)
  repeat-Ends fuel a h e = record {
    at = λ s p l. loop-Leaves fuel a s (λ b. Ends-le (body b) (omega arith) (e b)) p (omega arith);
  }

-- A round that does not leave the loop.
unfoldable pub GoesOn : {A : Type 0} → Outcome (Option A) → Type 0
GoesOn (ok (some a) s) = Unit
GoesOn (ok none s) = ⊥
GoesOn (raised e s) = Unit
GoesOn stuck = Unit
GoesOn (overflow t) = Unit

module _ {A : Type 0} where
  pub bind-GoesOn :
      {B : Type 0} (o : Outcome B) (f : B → A) → GoesOn (bind o (λ b. pure (some (f b))))
  unfolding GoesOn bind pure
  bind-GoesOn (ok b s) f = tt
  bind-GoesOn (raised e s) f = tt
  bind-GoesOn stuck f = tt
  bind-GoesOn (overflow t) f = tt

  -- A loop whose first round goes on takes a token.
  pub repeat-eats :
      {c : Bool} {k : ℕ} (body : A → Parse (Option A)) (fuel : ℕ) (a : A) (s : ParserState)
      → suc k ≤ fuel
      → ((b : A) → Ends c (suc k) is_some (body b))
      → IsGood c s
      → length s.rest < suc k
      → GoesOn (body a s)
      → Leaves c s.recover always (length s.rest) (repeat fuel body a s)
  unfolding Leaves repeat GoesOn
  repeat-eats body zero a s h e p l g = absurd (omega arith)
  repeat-eats {c} {k} body (suc fuel) a s h e p l g = after (body a s) ((e a).at s p l) g
    where
      after :
          (o : Outcome (Option A))
          → Leaves c s.recover is_some (length s.rest) o
          → GoesOn o
          → Leaves c s.recover always (length s.rest) (elim o [
            | ok r s' ↦ elim r [ some a' ↦ repeat fuel body a' s' | none ↦ ok a s' ]
            | raised e s' ↦ raised e s'
            | stuck ↦ stuck
            | overflow t ↦ overflow t
          ])
      after (ok (some b) s') (less, plain) g' =
          Leaves-lt _ _ always {m = length s'.rest} (repeat fuel body b s') (omega arith) (
            subst (λ r. Leaves c r never (length s'.rest) (repeat fuel body b s')) (plain.1)
              ((repeat-Ends body {n = k} fuel b (omega arith)
                  (λ x. Ends-le (body x) (omega arith) (e x))).at
                s' plain.0 (omega arith)))
      after (ok none s') h' g' = absurd g'
      after (raised x s') h' g' = h'
      after stuck h' g' = h'
      after (overflow t) h' g' = h'

pub skip-Ends :
    {c : Bool} {n : ℕ} (fuel : ℕ) (t : TokenType)
    → n ≤ fuel
    → IsTakable (t ∷ [])
    → Ends c n never (skip fuel t)
unfolding skip
skip-Ends fuel t h e = repeat-Ends _ fuel tt h (λ u.
    same_next-Ends (t ∷ []) (λ _. pure (some tt)) (pure none) e (λ v. pure-Ends (some tt) refl)
      (pure-Ends none refl))
