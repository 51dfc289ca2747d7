-- ===== src/Gs1/Parser/Compound.antt =====
-- reborn_protocol/gs1/parser.py: what the statements with statements in them leave, and so every statement.
use reborn_protocol.Base.{ℕ, zero, suc, ◌≤◌, refl, true, false, Option, none, some, arith}
use reborn_protocol.Gs1.Ast.{Expr, Stmt, switch, no_cases, cases, none_of_stmts}
use reborn_protocol.Gs1.Tokens.{among, code, end, token_brace_right}
use reborn_protocol.Gs1.Parser.State.{Parse, ◌>>◌, pure, eat}
use reborn_protocol.Gs1.Parser.Expression.{parse_expression}
use reborn_protocol.Gs1.Parser.Statement.{parse_block, condition, assignment_or_expr}
use reborn_protocol.Gs1.Parser.Program.{
  Branches, parse_switch, parse_for, parse_while, parse_with, parse_funcdef, statement_of,
  parse_statement,
}
use reborn_protocol.Gs1.Parser.Ends.{
  Ends, always, never, Ends-zero, Ends-le, Ends-never, pure-Ends, after-Ends, bind-Ends,
}
use reborn_protocol.Gs1.Parser.Loops.{skip-Ends}
use reborn_protocol.Gs1.Parser.Operands.{read_path_part-Ends}
use reborn_protocol.Gs1.Parser.Levels.{expression-Ends}
use reborn_protocol.Gs1.Parser.Statements.{
  condition-Ends, parameters-Ends, command_rest-Ends, flow_rest-Ends, assignment_or_expr-Ends,
}
use reborn_protocol.Gs1.Parser.Blocks.{block_rest-Ends, parse_block-Ends, if_tail-Ends}
use reborn_protocol.Gs1.Parser.Choices.{if_next-Ends, if_at-Ends, eat-Ends}
use reborn_protocol.Gs1.Parser.Cases.{switch_branches-Ends}

module _ (fuel k : ℕ) (expression : Parse Expr) (statement : Parse Stmt) (h : suc k ≤ fuel)
    (e : Ends false fuel always expression) (e' : Ends true fuel never expression)
    (f : Ends false k always statement) where
  body-Ends : Ends false k never (parse_block fuel expression statement)
  body-Ends = parse_block-Ends fuel expression e statement (omega arith) f

  condition_k-Ends : Ends false k never (condition fuel expression)
  condition_k-Ends = Ends-never _ (Ends-le _ (omega arith) (condition-Ends fuel expression e))

  switch-Ends : Ends false (suc k) always (parse_switch fuel expression statement)
  unfolding among code parse_switch
  switch-Ends = after-Ends _ _ (eat-Ends _ refl) (λ t. bind-Ends _ _ condition_k-Ends (λ value.
      bind-Ends _ _ (Ends-never _ (eat-Ends _ refl)) (λ u.
        bind-Ends _ _ (switch_branches-Ends fuel k expression statement (omega arith) e e' f)
          (found value))))
    where
      found :
          (value : Expr) (b : Option Branches)
          → Ends false k never (elim b [
            | none ↦ pure (switch value no_cases none_of_stmts)
            | some b' ↦ do eat token_brace_right; pure (switch value (cases b'.labelled) b'.default)
          ])
      found value none = pure-Ends _ refl
      found value (some b) = bind-Ends _ _ (Ends-never _ (eat-Ends _ refl)) (λ u. pure-Ends _ refl)

  while-Ends : Ends false (suc k) always (parse_while fuel expression statement)
  unfolding among code parse_while
  while-Ends =
      after-Ends _ _ (eat-Ends _ refl)
        (λ t. bind-Ends _ _ condition_k-Ends (λ c. bind-Ends _ _ body-Ends (λ b. pure-Ends _ refl)))

  with-Ends : Ends false (suc k) always (parse_with fuel expression statement)
  unfolding among code parse_with
  with-Ends =
      after-Ends _ _ (eat-Ends _ refl)
        (λ t. bind-Ends _ _ condition_k-Ends (λ c. bind-Ends _ _ body-Ends (λ b. pure-Ends _ refl)))

  funcdef-Ends : Ends false (suc k) always (parse_funcdef fuel expression statement)
  unfolding among code parse_funcdef
  funcdef-Ends = after-Ends _ _ (eat-Ends _ refl) (λ t.
      bind-Ends _ _
        (Ends-le _ (omega arith) (read_path_part-Ends fuel fuel expression (omega arith) e))
        (λ name. bind-Ends _ _ (Ends-never _ (eat-Ends _ refl)) (λ u.
          bind-Ends _ _ (Ends-le _ (omega arith) (parameters-Ends fuel expression e)) (λ ps.
            bind-Ends _ _ (Ends-never _ (eat-Ends _ refl))
              (λ v. bind-Ends _ _ body-Ends (λ b. pure-Ends _ refl))))))

  simple_k-Ends : Ends false k never (assignment_or_expr fuel expression true)
  simple_k-Ends =
      Ends-never _ (Ends-le _ (omega arith) (assignment_or_expr-Ends fuel expression e true))

  for-Ends : Ends false (suc k) always (parse_for fuel expression statement)
  unfolding among code parse_for
  for-Ends = after-Ends _ _ (eat-Ends _ refl) (λ t.
      bind-Ends _ _ (Ends-never _ (eat-Ends _ refl)) (λ u.
        bind-Ends _ _
          (if_at-Ends _ _ _ (pure-Ends _ refl)
            (bind-Ends _ _ simple_k-Ends (λ i. pure-Ends _ refl)))
          (λ init. bind-Ends _ _ (Ends-never _ (eat-Ends _ refl)) (λ v.
            bind-Ends _ _
              (if_at-Ends _ _ _ (pure-Ends _ refl)
                (bind-Ends _ _ (Ends-never _ (Ends-le _ (omega arith) e)) (λ c. pure-Ends _ refl)))
              (λ cond. bind-Ends _ _ (Ends-never _ (eat-Ends _ refl)) (λ w.
                bind-Ends _ _
                  (if_at-Ends _ _ _ (pure-Ends _ refl)
                    (bind-Ends _ _ simple_k-Ends (λ i. pure-Ends _ refl)))
                  (λ post. bind-Ends _ _ (skip-Ends fuel end (omega arith) refl) (λ x.
                    bind-Ends _ _ (Ends-never _ (eat-Ends _ refl))
                      (λ y. bind-Ends _ _ body-Ends (λ b. pure-Ends _ refl))))))))))

  statement_of-Ends : Ends false (suc k) always (statement_of fuel expression statement)
  unfolding among code statement_of
  statement_of-Ends =
      if_next-Ends _ _ _ refl (λ t. pure-Ends _ refl)
        (if_next-Ends _ _ _ refl
          (λ t.
            bind-Ends _ _ (block_rest-Ends fuel expression e statement (omega arith) f)
              (λ b. pure-Ends _ refl))
          (if_next-Ends _ _ _ refl
            (λ t.
              if_tail-Ends fuel expression e statement (omega arith) f fuel k (omega arith)
                (omega arith))
            (if_at-Ends _ _ _ for-Ends (
              if_at-Ends _ _ _ while-Ends (
                if_at-Ends _ _ _ with-Ends (
                  if_at-Ends _ _ _ switch-Ends (
                    if_at-Ends _ _ _ funcdef-Ends (
                      if_next-Ends _ _ _ refl
                        (λ t. Ends-le _ (omega arith) (flow_rest-Ends fuel expression e t.type))
                        (if_next-Ends _ _ _ refl
                          (λ t.
                            Ends-le _ (omega arith) (command_rest-Ends fuel expression e t.text))
                          (Ends-le _ h (assignment_or_expr-Ends fuel expression e false)))))))))))

-- `parse_statement` ends on fewer tokens than the depth it is given, with a fuel of the loops that is
-- no less, in a good state outside of a case label: it does not run out of fuel. It returns and has
-- taken a token at least, or raises a ParseError; either way it leaves no more tokens than before,
-- the state is still good, and `recover` is as before. Otherwise it raises the OverflowError of a
-- literal that is a hexadecimal number too large for a float.
pub statement-Ends :
    (fuel depth : ℕ) → depth ≤ fuel → Ends false depth always (parse_statement fuel depth)
unfolding parse_statement
statement-Ends fuel zero h = Ends-zero _
statement-Ends fuel (suc depth) h =
    statement_of-Ends fuel depth (parse_expression fuel fuel) (parse_statement fuel depth) h
      (expression-Ends fuel fuel (omega arith)) (expression-Ends fuel fuel (omega arith))
      (statement-Ends fuel depth (omega arith))
