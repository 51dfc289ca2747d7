-- ===== src/Gs1/Parser/Statements.antt =====
-- reborn_protocol/gs1/parser.py: what the parsers of simple statements leave, with as many tokens as
-- the expressions take.
use reborn_protocol.Base.{
  ℕ, refl, List, [], ◌∷◌, Bool, true, false, not, ◌&&◌, none, some, arith, Bool-cases, inl, inr,
  if◌then◌else◌,
}
use reborn_protocol.Gs1.Csv.{Text}
use reborn_protocol.Gs1.Ast.{Expr, Stmt, PathPart}
use reborn_protocol.Gs1.Tokens.{
  TokenType, among, code, end, identifier, kw_return, op_assign, token_paren_left,
  token_paren_right, same_text, assign_ops,
}
use reborn_protocol.Gs1.Parser.State.{
  Parse, ParserState, ◌>>◌, pure, raise, next, first_of, rest_of, if_at, if_next, attempt,
  expected_parameter,
}
use reborn_protocol.Gs1.Parser.Primary.{is_empty}
use reborn_protocol.Gs1.Parser.Statement.{
  end_statement, terminated, equals_text, chained_value, is_array_lit, join_names, not_a_name,
  read_parameter_name, parameters, command_arg, command_arg_or_empty, command_rest, assign_target,
  chained_targets, assignment, call_statement, expression_statement, assignment_or_expr, flow_rest,
  condition,
}
use reborn_protocol.Gs1.Parser.Fit.{IsTakable}
use reborn_protocol.Gs1.Parser.Ends.{
  Leaves, Ends, always, never, is_some, Ends-never, pure-Ends, raise-Ends, bind-Ends, eaten-Ends,
  option-Ends,
}
use reborn_protocol.Gs1.Parser.Loops.{repeat-Ends}
use reborn_protocol.Gs1.Parser.Operands.{
  ends_rules, paren_arguments-Ends, more_arguments-Ends, identifier_access-Ends,
}
use reborn_protocol.Gs1.Parser.Choices.{
  same_next-Ends, if_at-Ends, eat-Ends, attempt-Leaves, attempt-Ends,
}
use reborn_protocol.Gs1.Parser.Takes.{next-Ends, and_left, took-Leaves}
use reborn_protocol.Gs1.Parser.Calls.{last_of_list-Ends}

end_statement-Ends : {n : ℕ} → Ends false n never end_statement
unfolding among code end_statement
end_statement-Ends = search ends_rules

terminated-Ends : {n : ℕ} (b : Bool) → Ends false n never (terminated b)
terminated-Ends true = pure-Ends tt refl
terminated-Ends false = end_statement-Ends

module _ (fuel : ℕ) (expression : Parse Expr) (e : Ends false fuel always expression) where
  parameter-Ends : Ends false fuel never (read_parameter_name fuel expression)
  unfolding among code read_parameter_name
  parameter-Ends =
      bind-Ends _ _ (identifier_access-Ends fuel fuel expression (omega arith) e) checked
    where
      checked :
          (ps : List PathPart)
          → Ends false fuel never
              (if not_a_name ps then raise expected_parameter else pure (join_names ps))
      checked ps = elim (Bool-cases (not_a_name ps)) [
        | inl q ↦ rw q (raise-Ends expected_parameter)
        | inr q ↦ rw q (pure-Ends (join_names ps) refl)
      ]

  pub parameters-Ends : Ends false fuel never (parameters fuel expression)
  unfolding among code parameters
  parameters-Ends = if_at-Ends _ _ _ (search ends_rules) (
      bind-Ends _ _ parameter-Ends (λ first. repeat-Ends _ fuel _ (omega arith) (λ ps.
        same_next-Ends _ _ _ refl (λ t. bind-Ends _ _ parameter-Ends (λ p. search ends_rules))
          (search ends_rules))))

  command_arg-Ends : Ends false fuel never (command_arg_or_empty fuel expression)
  unfolding among code command_arg_or_empty command_arg
  command_arg-Ends =
      if_at-Ends _ _ _ (search ends_rules)
        (same_next-Ends _ _ _ refl (λ t. search ends_rules) (Ends-never _ e))

  pub command_rest-Ends : (name : Text) → Ends false fuel never (command_rest fuel expression name)
  unfolding among code command_rest
  command_rest-Ends name =
      bind-Ends _ _
        (if_at-Ends _ _ _ (search ends_rules) (
          bind-Ends _ _ command_arg-Ends
            (λ a. more_arguments-Ends fuel fuel expression (omega arith) e _ _ command_arg-Ends)))
        (λ args. bind-Ends _ _ end_statement-Ends (λ u. search ends_rules))

  assign_target-Ends :
      (ops : List TokenType)
      → IsTakable ops
      → Ends false fuel is_some (assign_target fuel expression ops)
  unfolding among code assign_target
  assign_target-Ends ops h = attempt-Ends _ refl (
      if_at-Ends _ _ _
        (bind-Ends _ _ (identifier_access-Ends fuel fuel expression (omega arith) e)
          (λ ps. same_next-Ends _ _ _ h (λ t. search ends_rules) (search ends_rules)))
        (search ends_rules))

  chained_targets-Ends : (op : Text) → Ends false fuel never (chained_targets fuel expression op)
  unfolding among code chained_targets
  chained_targets-Ends op = elim (Bool-cases (same_text op equals_text)) [
    | inl q ↦ rw q (
        repeat-Ends _ fuel [] (omega arith) (λ ts.
          option-Ends _ _ (assign_target-Ends (op_assign ∷ []) refl) (λ (t, o). pure-Ends _ refl)
            (pure-Ends _ refl)))
    | inr q ↦ rw q (pure-Ends [] refl)
  ]

  assignment-Ends :
      (no_terminator : Bool) (target : Expr) (op : Text)
      → Ends false fuel never (assignment fuel expression no_terminator target op)
  unfolding among code assignment
  assignment-Ends no_terminator target op = bind-Ends _ _ (chained_targets-Ends op) (λ extra.
      bind-Ends _ _ (Ends-never _ e)
        (λ value. bind-Ends _ _ (ended (chained_value extra value)) (λ u. pure-Ends _ refl)))
    where
      ended :
          (whole : Expr)
          → Ends false fuel never (
              if is_array_lit whole
              then if_at (end ∷ []) (terminated no_terminator) (pure tt)
              else terminated no_terminator)
      ended whole = elim (Bool-cases (is_array_lit whole)) [
        | inl q ↦ rw q (
            if_at-Ends (end ∷ []) (terminated no_terminator) (pure tt)
              (terminated-Ends no_terminator) (pure-Ends tt refl))
        | inr q ↦ rw q (terminated-Ends no_terminator)
      ]

  call_statement-Ends : Ends false fuel is_some (call_statement fuel expression)
  unfolding among code call_statement
  call_statement-Ends = record {
    at = λ s p l. elim (Bool-cases (is_call s)) [
      | inl q ↦ rw q (
          attempt-Leaves is_some refl _ s p (
            took-Leaves is_some (identifier ∷ []) _ s refl (and_left _ _ (and_left _ _ q)) p
              (omega arith)
              (λ t. bind-Ends _ _ next-Ends (λ u.
                bind-Ends _ _ (paren_arguments-Ends fuel fuel expression (omega arith) e)
                  (λ args. search ends_rules)))))
      | inr q ↦ rw q (unfold Leaves in (omega arith, (p, refl)))
    ];
  }
    where
      is_call : ParserState → Bool
      is_call s =
          among (first_of s.rest).type (identifier ∷ [])
          && not (is_empty (first_of s.rest).text)
          && among (first_of (rest_of s.rest)).type (token_paren_left ∷ [])

  expression_statement-Ends : Ends false fuel always (expression_statement fuel expression)
  unfolding expression_statement
  expression_statement-Ends = eaten-Ends _ _ e (λ a.
      bind-Ends _ _ (last_of_list-Ends fuel fuel expression (omega arith) e a)
        (λ b. pure-Ends _ refl))

  pub condition-Ends : Ends false fuel always (condition fuel expression)
  unfolding among code condition
  condition-Ends = eaten-Ends _ _ (eat-Ends _ refl) (λ t.
      bind-Ends _ _ (Ends-never _ e)
        (λ a. bind-Ends _ _ (Ends-never _ (eat-Ends _ refl)) (λ u. search ends_rules)))

  pub flow_rest-Ends : (kind : TokenType) → Ends false fuel never (flow_rest fuel expression kind)
  unfolding among code flow_rest
  flow_rest-Ends kind =
      bind-Ends _ _ empty_parens (λ f. bind-Ends _ _ end_statement-Ends (λ u. pure-Ends _ refl))
    where
      empty_parens : Ends false fuel never (
          if among kind (kw_return ∷ [])
          then pure none
          else if_at
              (token_paren_left ∷ [])
              (attempt
                (do next; if_next (token_paren_right ∷ []) (λ _. pure (some tt)) (pure none)))
              (pure none))
      empty_parens = elim (Bool-cases (among kind (kw_return ∷ []))) [
        | inl q ↦ rw q (pure-Ends none refl)
        | inr q ↦ rw q (
            if_at-Ends _ _ _
              (attempt-Ends _ refl (bind-Ends _ _ next-Ends (λ t. search ends_rules)))
              (search ends_rules))
      ]

  pub assignment_or_expr-Ends :
      (no_terminator : Bool)
      → Ends false fuel always (assignment_or_expr fuel expression no_terminator)
  unfolding among code assignment_or_expr
  assignment_or_expr-Ends b =
      option-Ends _ _ (assign_target-Ends assign_ops refl) (λ (t, op). assignment-Ends b t op)
        (option-Ends _ _ call_statement-Ends (λ node. bind-Ends _ _ (pure-Ends node refl) finished)
          (eaten-Ends _ _ expression_statement-Ends finished))
    where
      finished : (node : Stmt) → Ends false fuel never (terminated b >> pure node)
      finished node = bind-Ends _ _ (terminated-Ends b) (λ u. pure-Ends node refl)
