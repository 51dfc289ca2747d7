-- ===== src/Gs1/Parser/Ends.antt =====
-- reborn_protocol/gs1/parser.py: how much a method of the parser leaves, for the helpers on tokens.
use mathlib.Core.Path.{subst}
use reborn_protocol.Base.{
  ℕ, zero, suc, ◌+◌, ◌≤◌, ◌<◌, ◌≡◌, refl, Bool, true, false, not, Option, none, some, length, arith,
  Bool-cases, inl, inr, sym,
}
use reborn_protocol.Gs1.Csv.{Text}
use reborn_protocol.Gs1.Parser.Literal.{too_long, parse_literal}
use reborn_protocol.Gs1.Parser.State.{
  ParserState, Outcome, ok, raised, stuck, overflow, Parse, bind, ◌>>=◌, pure, raise, Message,
}
use reborn_protocol.Gs1.Parser.Fit.{IsGood, true_false}

abbrev pub fee : Bool → ℕ
fee true = 1
fee false = 0

-- At most `n` tokens are left, one fewer where `P` holds of the value; `recover` is `r`, and the state
-- is good for a case label or not, `c`.
unfoldable pub Leaves : {A : Type 0} → Bool → Bool → (A → Bool) → ℕ → Outcome A → Type 0
Leaves c r P n (ok a s) = (length s.rest + fee (P a) ≤ n) × (IsGood c s × (s.recover ≡ r))
Leaves c r P n (raised e s) = (length s.rest ≤ n) × (IsGood c s × (s.recover ≡ r))
Leaves c r P n stuck = ⊥
Leaves c r P n (overflow t) = too_long t ≡ true

-- In a good state with fewer than `n` tokens `m` does not run out of fuel and takes no token back.
pub record Ends {A : Type 0} (c : Bool) (n : ℕ) (P : A → Bool) (m : Parse A) : Type 0 where
  pub at :
      (s : ParserState)
      → IsGood c s
      → length s.rest < n
      → Leaves c s.recover P (length s.rest) (m s)

abbrev pub always : {A : Type 0} → A → Bool
always a = true

abbrev pub never : {A : Type 0} → A → Bool
never a = false

-- Not in a case label.
abbrev pub full : {A : Type 0} → Bool → A → Bool
full c a = not c

abbrev pub is_some : {A : Type 0} → Option A → Bool
is_some (some a) = true
is_some none = false

fee-le : (b : Bool) → fee b ≤ 1
fee-le true = omega arith
fee-le false = omega arith

module _ {A : Type 0} where
  pub Leaves-le :
      (c r : Bool) (P : A → Bool) {m n : ℕ} (o : Outcome A)
      → m ≤ n
      → Leaves c r P m o
      → Leaves c r P n o
  unfolding Leaves
  Leaves-le c r P (ok a s) h l = (omega arith, l.1)
  Leaves-le c r P (raised e s) h l = (omega arith, l.1)
  Leaves-le c r P stuck h l = l
  Leaves-le c r P (overflow t) h l = l

  -- Whoever has taken a token satisfies any demand.
  pub Leaves-lt :
      (c r : Bool) (P : A → Bool) {m n : ℕ} (o : Outcome A)
      → m < n
      → Leaves c r never m o
      → Leaves c r P n o
  unfolding Leaves
  Leaves-lt c r P (ok a s) h l = (omega (arith, fee-le (P a)), l.1)
  Leaves-lt c r P (raised e s) h l = (omega arith, l.1)
  Leaves-lt c r P stuck h l = l
  Leaves-lt c r P (overflow t) h l = l

  pub Leaves-never :
      (c r : Bool) (P : A → Bool) (n : ℕ) (o : Outcome A) → Leaves c r P n o → Leaves c r never n o
  unfolding Leaves
  Leaves-never c r P n (ok a s) l = (omega arith, l.1)
  Leaves-never c r P n (raised e s) l = l
  Leaves-never c r P n stuck l = l
  Leaves-never c r P n (overflow t) l = l

module _ {A : Type 0} {c : Bool} {P : A → Bool} where
  pub Ends-zero : (m : Parse A) → Ends c 0 P m
  Ends-zero m = record { at = λ s p l. absurd (omega arith) }

  pub Ends-le : {n k : ℕ} (m : Parse A) → n ≤ k → Ends c k P m → Ends c n P m
  Ends-le m h e = record { at = λ s p l. e.at s p (omega arith) }

  pub Ends-never : {n : ℕ} (m : Parse A) → Ends c n P m → Ends c n never m
  Ends-never m e = record { at = λ s p l. Leaves-never _ _ P _ (m s) (e.at s p l) }

  pub pure-Ends : {n : ℕ} (a : A) → P a ≡ false → Ends c n P (pure a)
  unfolding Leaves pure
  pure-Ends a e = record { at = λ s p l. rw e (omega arith, (p, refl)) }

  pub raise-Ends : {n : ℕ} (m : Message) → Ends c n P (raise m)
  unfolding Leaves raise
  raise-Ends m = record { at = λ s p l. (omega arith, (p, refl)) }

-- A literal is a number or the OverflowError.
pub parse_literal-Ends : {c : Bool} {n : ℕ} (t : Text) → Ends c n never (parse_literal t)
unfolding parse_literal pure
parse_literal-Ends t = record {
  at = λ s p l. elim (Bool-cases (too_long t)) [
    | inl e ↦ rw e (unfold Leaves in e)
    | inr e ↦ rw e (unfold Leaves in (omega arith, (p, refl)))
  ];
}

pub bind-Leaves :
    {A B : Type 0} (c r : Bool) (P : A → Bool) (Q : B → Bool) {n k : ℕ} (o : Outcome A)
    (f : A → Parse B)
    → n < suc k
    → Leaves c r P n o
    → ((a : A) → P a ≡ true → Ends c k never (f a))
    → ((a : A) → P a ≡ false → Ends c (suc k) Q (f a))
    → Leaves c r Q n (bind o f)
unfolding Leaves bind
bind-Leaves c r P Q {n} (ok a s) f h l eaten kept = elim (Bool-cases (P a)) [
  | inl e ↦
      let less : length s.rest + 1 ≤ n = subst (λ b. length s.rest + fee b ≤ n) e (l.0) in
      Leaves-lt c r Q {m = length s.rest} (f a s) (omega arith) (
        subst (λ b. Leaves c b never (length s.rest) (f a s)) (l.1.1)
          ((eaten a e).at s l.1.0 (omega arith)))
  | inr e ↦ Leaves-le c r Q {m = length s.rest} (f a s) (omega arith) (
      subst (λ b. Leaves c b Q (length s.rest) (f a s)) (l.1.1)
        ((kept a e).at s l.1.0 (omega arith)))
]
bind-Leaves c r P Q (raised e s) f h l eaten kept = l
bind-Leaves c r P Q stuck f h l eaten kept = l
bind-Leaves c r P Q (overflow t) f h l eaten kept = l

-- Behind a parser that takes a token, with the rest of the block below it.
module _ {A B : Type 0} {c : Bool} {Q : B → Bool} {k : ℕ} (m : Parse A) (f : A → Parse B) where
  pub after-Ends :
      Ends c (suc k) always m → ((a : A) → Ends c k never (f a)) → Ends c (suc k) Q (m >>= f)
  unfolding ◌>>=◌
  after-Ends e g = record {
    at =
        λ s p l. bind-Leaves _ _ always Q (m s) f l (e.at s p l) (λ a _. g a) (λ a q. true_false q);
  }

  -- Behind any parser.
  pub then-Ends :
      Ends c (suc k) never m → ((a : A) → Ends c (suc k) Q (f a)) → Ends c (suc k) Q (m >>= f)
  unfolding ◌>>=◌
  then-Ends e g = record {
    at = λ s p l.
        bind-Leaves _ _ never Q (m s) f l (e.at s p l) (λ a q. true_false (sym q)) (λ a _. g a);
  }

-- The same, whatever the number of tokens.
pub bind-Ends :
    {A B : Type 0} {c : Bool} {Q : B → Bool} {n : ℕ} (m : Parse A) (f : A → Parse B)
    → Ends c n never m
    → ((a : A) → Ends c n Q (f a))
    → Ends c n Q (m >>= f)
bind-Ends {n = zero} m f e g = Ends-zero (m >>= f)
bind-Ends {n = suc k} m f e g = then-Ends m f e g

-- Behind a parser that takes a token, at the same number of tokens.
pub eaten-Ends :
    {A B : Type 0} {c : Bool} {Q : B → Bool} {n : ℕ} (m : Parse A) (f : A → Parse B)
    → Ends c n always m
    → ((a : A) → Ends c n never (f a))
    → Ends c n Q (m >>= f)
eaten-Ends {n = zero} m f e g = Ends-zero (m >>= f)
eaten-Ends {n = suc k} m f e g = after-Ends m f e (λ a. Ends-le (f a) (omega arith) (g a))

-- In a case label the parser of expressions may take no token.
pub full-Ends :
    {A B : Type 0} {c : Bool} {n : ℕ} (m : Parse A) (f : A → Parse B)
    → Ends c n (full c) m
    → ((a : A) → Ends c n never (f a))
    → Ends c n (full c) (m >>= f)
full-Ends {c = true} m f e g = bind-Ends m f e g
full-Ends {c = false} m f e g = eaten-Ends m f e g

pub always-full :
    {A : Type 0} {c : Bool} {n : ℕ} (m : Parse A) → Ends c n always m → Ends c n (full c) m
always-full {c = true} m e = Ends-never m e
always-full {c = false} m e = e

-- Behind a parser that takes a token or gives `none`.
pub option-Ends :
    {A B : Type 0} {c : Bool} {Q : B → Bool} {n : ℕ} (m : Parse (Option A)) (f : Option A → Parse B)
    → Ends c n is_some m
    → ((a : A) → Ends c n never (f (some a)))
    → Ends c n Q (f none)
    → Ends c n Q (m >>= f)
option-Ends {n = zero} m f e g h = Ends-zero (m >>= f)
option-Ends {A} {c = c} {Q = Q} {n = suc k} m f e g h = record {
  at = λ s p l. unfold ◌>>=◌ in bind-Leaves _ _ is_some Q (m s) f l (e.at s p l) eaten kept;
}
  where
    eaten : (r : Option A) → is_some r ≡ true → Ends c k never (f r)
    eaten (some a) q = Ends-le (f (some a)) (omega arith) (g a)
    eaten none q = true_false (sym q)

    kept : (r : Option A) → is_some r ≡ false → Ends c (suc k) Q (f r)
    kept (some a) q = true_false q
    kept none q = h
