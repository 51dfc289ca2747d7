-- ===== src/Gs1/Parser/Calls.antt =====
-- reborn_protocol/gs1/parser.py: what calls on a value and lists of expressions leave.
use reborn_protocol.Base.{
  ℕ, suc, ◌≤◌, refl, List, [], ◌∷◌, Bool, not, ◌&&◌, none, some, arith, Bool-cases, inl, inr,
  if◌then◌else◌,
}
use reborn_protocol.Gs1.Ast.{Expr, PathPart, exprs, method_call}
use reborn_protocol.Gs1.Tokens.{among, code, identifier, token_paren_left, token_period}
use reborn_protocol.Gs1.Parser.State.{
  ParserState, Parse, bind, ◌>>=◌, pure, advance, first_of, rest_of, next, if_next, attempt,
}
use reborn_protocol.Gs1.Parser.Primary.{
  paren_arguments, chained_call, method_chain, path_value, last_of_list, last_part, is_empty,
  has_no_index, called,
}
use reborn_protocol.Gs1.Parser.Ends.{
  Leaves, Ends, never, full, is_some, Leaves-lt, Ends-never, pure-Ends, bind-Ends,
}
use reborn_protocol.Gs1.Parser.Operands.{ends_rules, paren_arguments-Ends}
use reborn_protocol.Gs1.Parser.Loops.{repeat-Ends}
use reborn_protocol.Gs1.Parser.Choices.{if_next-Ends, same_next-Ends, attempt-Leaves, attempt-Ends}
use reborn_protocol.Gs1.Parser.Takes.{behind_paren}

module _ {c : Bool} (fuel k : ℕ) (expression : Parse Expr) (h : k ≤ fuel)
    (e : Ends c k (full c) expression) where
  chained_call-Ends : (node : Expr) → Ends c k is_some (chained_call fuel expression node)
  unfolding among code chained_call ◌>>=◌ next bind
  chained_call-Ends node = record {
    at = λ s p l. elim (Bool-cases (is_method_call s)) [
      | inl q ↦
          let (less, good) = behind_paren s p q in
          rw q (
            attempt-Leaves is_some refl _ s p (
              Leaves-lt c s.recover is_some
                ((paren_arguments fuel expression >>= λ args.
                    pure (some (method_call node (first_of (advance s).rest).text (exprs args))))
                  (advance (advance (advance s))))
                less
                ((bind-Ends _ _ (paren_arguments-Ends fuel k expression h e)
                    (λ args. search ends_rules)).at
                  (advance (advance (advance s))) good (omega arith))))
      | inr q ↦ rw q (unfold Leaves in (omega arith, (p, refl)))
    ];
  }
    where
      is_method_call : ParserState → Bool
      is_method_call s =
          among (first_of s.rest).type (token_period ∷ [])
          && among (first_of (rest_of s.rest)).type (identifier ∷ [])
          && among (first_of (rest_of (rest_of s.rest))).type (token_paren_left ∷ [])

  method_chain-Ends : (node : Expr) → Ends c k never (method_chain fuel expression node)
  unfolding method_chain
  method_chain-Ends node = repeat-Ends _ fuel node h chained_call-Ends

  -- The arguments of a call of a path, and what is called on its value.
  call-Ends :
      (ps : List PathPart)
      → Ends c k never (do
        args ← paren_arguments fuel expression
        v ← method_chain fuel expression (called ps args)
        pure (some v))
  call-Ends ps =
      bind-Ends _ _ (paren_arguments-Ends fuel k expression h e)
        (λ args. bind-Ends _ _ (method_chain-Ends (called ps args)) (λ v. pure-Ends (some v) refl))

  pub path_value-Ends : (ps : List PathPart) → Ends c (suc k) never (path_value fuel expression ps)
  unfolding among code path_value
  path_value-Ends ps = bind-Ends _ _ called_path (λ v. search ends_rules)
    where
      called_path : Ends c (suc k) never (
          if has_no_index (last_part ps) && not (is_empty (last_part ps).name)
          then attempt (
              if_next
                (token_paren_left ∷ [])
                (λ _. do
                  args ← paren_arguments fuel expression
                  v ← method_chain fuel expression (called ps args)
                  pure (some v))
                (pure none))
          else pure none)
      called_path =
          elim (Bool-cases (has_no_index (last_part ps) && not (is_empty (last_part ps).name))) [
            | inl q ↦ rw q (
                attempt-Ends _ refl
                  (if_next-Ends _ _ _ refl (λ t. call-Ends ps) (pure-Ends none refl)))
            | inr q ↦ rw q (pure-Ends none refl)
          ]

  pub last_of_list-Ends : (a : Expr) → Ends c k never (last_of_list fuel expression a)
  unfolding among code last_of_list
  last_of_list-Ends a = repeat-Ends _ fuel a h (λ b.
      same_next-Ends _ _ _ refl (λ t. bind-Ends _ _ (Ends-never _ e) (λ c. search ends_rules))
        (search ends_rules))
