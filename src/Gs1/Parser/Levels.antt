-- ===== src/Gs1/Parser/Levels.antt =====
-- reborn_protocol/gs1/parser.py: what the levels of precedence leave.
use reborn_protocol.Base.{Bool, ℕ, zero, suc, ◌≤◌, refl, List, [], ◌∷◌, Option, none, some, arith}
use reborn_protocol.Gs1.Csv.{Text}
use reborn_protocol.Gs1.Ast.{Expr, exprs, in_expr}
use reborn_protocol.Gs1.Tokens.{TokenType, Token, among, code, op_less, op_in, token_pipe}
use reborn_protocol.Gs1.Parser.State.{Parse, ◌>>=◌, pure, if_next}
use reborn_protocol.Gs1.Parser.Primary.{primary}
use reborn_protocol.Gs1.Parser.Expression.{
  left_assoc, non_assoc, parse_postfix, parse_unary, parse_exponent, in_values, parse_range,
  parse_in, parse_mod, parse_multiplicative, parse_additive, parse_concat, parse_relational,
  parse_equality, parse_logic_and, parse_logic_or, ternaries, parse_expression,
}
use reborn_protocol.Gs1.Parser.Fit.{IsTakable}
use reborn_protocol.Gs1.Parser.Ends.{
  Ends, full, full-Ends, never, Ends-zero, Ends-le, Ends-never, pure-Ends, bind-Ends,
}
use reborn_protocol.Gs1.Parser.Loops.{repeat-Ends}
use reborn_protocol.Gs1.Parser.Operands.{ends_rules}
use reborn_protocol.Gs1.Parser.Primaries.{primary-Ends}
use reborn_protocol.Gs1.Parser.Choices.{if_next-Ends, same_next-Ends, eat-Ends, attempt-Ends}

module _ {c : Bool} {n : ℕ} (ops : List TokenType) (operand : Parse Expr) (t : IsTakable ops)
    (e : Ends c n (full c) operand) where
  left_assoc-Ends :
      (fuel : ℕ) (op : Token → Text) → n ≤ fuel → Ends c n (full c) (left_assoc fuel ops op operand)
  unfolding left_assoc
  left_assoc-Ends fuel op h = full-Ends _ _ e (λ a. repeat-Ends _ fuel a h (λ node.
      same_next-Ends _ _ _ t (λ u. bind-Ends _ _ (Ends-never _ e) (λ b. pure-Ends _ refl))
        (pure-Ends _ refl)))

  non_assoc-Ends : Ends c n (full c) (non_assoc ops operand)
  unfolding non_assoc
  non_assoc-Ends = full-Ends _ _ e (λ a.
      same_next-Ends _ _ _ t (λ u. bind-Ends _ _ (Ends-never _ e) (λ b. pure-Ends _ refl))
        (pure-Ends _ refl))

module _ {c : Bool} (fuel k : ℕ) (expression : Parse Expr) (h : suc k ≤ fuel)
    (e : Ends c k (full c) expression) where
  postfix-Ends : Ends c (suc k) (full c) (parse_postfix fuel expression)
  unfolding among code parse_postfix
  postfix-Ends =
      full-Ends _ _ (primary-Ends fuel k expression h e)
        (λ a. same_next-Ends _ _ _ refl (λ t. search ends_rules) (search ends_rules))

  unary-Ends :
      (depth j : ℕ) → j ≤ depth → j ≤ suc k → Ends c j (full c) (parse_unary fuel expression depth)
  unfolding among code parse_unary
  unary-Ends depth zero g i = Ends-zero _
  unary-Ends zero (suc j) g i = absurd (omega arith)
  unary-Ends (suc depth) (suc j) g i =
      if_next-Ends _ _ _ refl
        (λ t.
          bind-Ends _ _ (Ends-never _ (unary-Ends depth j (omega arith) (omega arith)))
            (λ a. search ends_rules))
        (Ends-le _ i postfix-Ends)

  exponent-Ends : Ends c (suc k) (full c) (parse_exponent fuel expression)
  unfolding among code parse_exponent
  exponent-Ends = left_assoc-Ends _ _ refl (unary-Ends fuel (suc k) h (omega arith)) fuel _ h

  in_values-Ends : (node : Expr) → Ends c (suc k) never (in_values fuel expression node)
  unfolding among code in_values
  in_values-Ends node = attempt-Ends _ refl (
      bind-Ends _ _
        (repeat-Ends _ fuel _ h (λ vs.
          same_next-Ends _ _ _ refl
            (λ t. bind-Ends _ _ (Ends-never _ exponent-Ends) (λ v. search ends_rules))
            (search ends_rules)))
        (λ vs. search ends_rules))

  module _ (bound : Parse Expr) (b : Ends c k (full c) bound) where
    range-Ends : (t : Token) → Ends c k never (parse_range fuel expression bound t)
    unfolding among code parse_range
    range-Ends t = bind-Ends _ _ (Ends-never _ b) (λ lo.
        bind-Ends _ _ (Ends-never _ (eat-Ends _ refl)) (λ u.
          bind-Ends _ _ (Ends-never _ b)
            (λ hi. bind-Ends _ _ (search ends_rules) (λ i. search ends_rules))))

    in-Ends : Ends c (suc k) (full c) (parse_in fuel expression bound)
    unfolding among code parse_in
    in-Ends = full-Ends _ _ exponent-Ends (λ node. bind-Ends _ _ (in_values-Ends node) (rest node))
      where
        rest :
            (node : Expr) (found : Option (List Expr))
            → Ends c (suc k) never (elim found [
              | none ↦ pure node
              | some values ↦
                  if_next
                    (op_in ∷ [])
                    (λ _. do
                      rng ←
                          if_next
                            (token_pipe ∷ op_less ∷ [])
                            (parse_range fuel expression bound)
                            (primary fuel expression)
                      pure (in_expr (exprs values) rng))
                    (pure node)
            ])
        rest node none = pure-Ends node refl
        rest node (some values) =
            if_next-Ends _ _ _ refl
              (λ t.
                bind-Ends _ _
                  (same_next-Ends _ _ _ refl range-Ends
                    (Ends-never _ (Ends-le _ (omega arith) (primary-Ends fuel k expression h e))))
                  (λ rng. search ends_rules))
              (pure-Ends node refl)

    mod-Ends : Ends c (suc k) (full c) (parse_mod fuel expression bound)
    unfolding among code parse_mod
    mod-Ends = left_assoc-Ends _ _ refl in-Ends fuel _ h

    multiplicative-Ends : Ends c (suc k) (full c) (parse_multiplicative fuel expression bound)
    unfolding among code parse_multiplicative
    multiplicative-Ends = left_assoc-Ends _ _ refl mod-Ends fuel _ h

additive-Ends :
    {c : Bool} (fuel k : ℕ) (expression : Parse Expr)
    → suc k ≤ fuel
    → Ends c k (full c) expression
    → (depth j : ℕ) → j ≤ depth
    → j ≤ suc k
    → Ends c j (full c) (parse_additive fuel expression depth)
unfolding among code parse_additive
additive-Ends fuel k expression h e depth zero g i = Ends-zero _
additive-Ends fuel k expression h e zero (suc j) g i = absurd (omega arith)
additive-Ends fuel k expression h e (suc depth) (suc j) g i =
    left_assoc-Ends _ _ refl
      (multiplicative-Ends fuel j expression (omega arith) (Ends-le _ (omega arith) e)
        (parse_additive fuel expression depth)
        (additive-Ends fuel k expression h e depth j (omega arith) (omega arith)))
      fuel _ (omega arith)

module _ {c : Bool} (fuel k : ℕ) (expression : Parse Expr) (h : suc k ≤ fuel)
    (e : Ends c k (full c) expression) where
  module _ (depth : ℕ) (d : suc k ≤ depth) where
    concat-Ends : Ends c (suc k) (full c) (parse_concat fuel expression depth)
    unfolding among code parse_concat
    concat-Ends =
        left_assoc-Ends _ _ refl (additive-Ends fuel k expression h e depth (suc k) d (omega arith))
          fuel _ h

    relational-Ends : Ends c (suc k) (full c) (parse_relational fuel expression depth)
    unfolding among code parse_relational
    relational-Ends = non_assoc-Ends _ _ refl concat-Ends

    equality-Ends : Ends c (suc k) (full c) (parse_equality fuel expression depth)
    unfolding among code parse_equality
    equality-Ends = non_assoc-Ends _ _ refl relational-Ends

    logic_and-Ends : Ends c (suc k) (full c) (parse_logic_and fuel expression depth)
    unfolding among code parse_logic_and
    logic_and-Ends = left_assoc-Ends _ _ refl equality-Ends fuel _ h

    logic_or-Ends : Ends c (suc k) (full c) (parse_logic_or fuel expression depth)
    unfolding among code parse_logic_or
    logic_or-Ends = left_assoc-Ends _ _ refl logic_and-Ends fuel _ h

    ternaries-Ends : Ends c (suc k) (full c) (ternaries fuel expression depth)
    unfolding among code ternaries
    ternaries-Ends = full-Ends _ _ logic_or-Ends (λ a. repeat-Ends _ fuel a h (λ node.
        if_next-Ends _ _ _ refl
          (λ t. bind-Ends _ _ (Ends-never _ e) (λ b.
            bind-Ends _ _ (Ends-never _ (eat-Ends _ refl))
              (λ u. bind-Ends _ _ (Ends-never _ e) (λ c'. search ends_rules))))
          (search ends_rules)))

-- `parse_expression` ends on fewer tokens than the depth it is given, with a fuel of the loops that is
-- no less, in a good state of the parser: it does not run out of fuel; it returns, and has taken a
-- token at least where it is not in a case label, or raises; it leaves no more tokens than before,
-- the state is still good, and `recover` is as before.
pub expression-Ends :
    {c : Bool} (fuel depth : ℕ) → depth ≤ fuel → Ends c depth (full c) (parse_expression fuel depth)
unfolding parse_expression
expression-Ends fuel zero h = Ends-zero _
expression-Ends fuel (suc depth) h =
    ternaries-Ends fuel depth (parse_expression fuel depth) h
      (expression-Ends fuel depth (omega arith)) (suc depth) (omega arith)
