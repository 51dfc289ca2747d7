-- ===== src/Gs1/Parser/Statement.antt =====
-- reborn_protocol/gs1/parser.py: blocks, assignments, commands and the simple statements. The parser
-- of nested statements is a parameter.
use reborn_protocol.Base.{
  ℕ, zero, suc, List, [], ◌∷◌, ◌++◌, Bool, true, false, not, ◌&&◌, ◌||◌, Option, none, some,
  if◌then◌else◌,
}
use reborn_protocol.Gs1.Csv.{Text}
use reborn_protocol.Gs1.Tokens.{
  TokenType, among, same_text, eof, end, identifier, kw_elseif, kw_else, kw_return, op_assign,
  token_comma, token_paren_left, token_paren_right, token_brace_left, token_brace_right, assign_ops,
  special_lits, stmt_terminators,
}
use reborn_protocol.Gs1.Ast.{
  Expr, exprs, PathPart, path_parts, str, var_ref, special_lit, array_lit, assign, Stmt, stmts,
  if_else, flow, command_stmt, user_call, assign_stmt, expr_stmt, none_of_stmts, some_stmts,
  some_expr,
}
use reborn_protocol.Gs1.Parser.State.{
  Parse, ok, out_of_fuel, ◌>>=◌, ◌>>◌, pure, raise, next, eat, skip, first_of, rest_of, if_at,
  if_next, attempt, repeat, recovering, expected, expected_end, expected_parameter,
}
use reborn_protocol.Gs1.Parser.Primary.{
  identifier_access, more_arguments, paren_arguments, last_of_list, is_empty, has_no_index,
}

-- `_end_statement`
unfoldable pub end_statement : Parse (Unit {0})
end_statement =
    if_next (end ∷ []) (λ _. pure tt)
      (if_at (eof ∷ token_brace_right ∷ []) (pure tt) (raise expected_end))

-- `if not no_terminator: self._end_statement()`
abbrev pub terminated : Bool → Parse (Unit {0})
terminated true = pure tt
terminated false = end_statement

abbrev pub equals_text : Text
equals_text = b'=' ∷ []

-- The targets between the first and the value, each assigned what follows it.
pub chained_value : List Expr → Expr → Expr
chained_value [] value = value
chained_value (t ∷ ts) value = assign t equals_text (chained_value ts value)

abbrev pub is_array_lit : Expr → Bool
is_array_lit (array_lit es) = true
is_array_lit e = false

-- `".".join(names)`
pub join_names : List PathPart → Text
join_names [] = []
join_names (p ∷ []) = p.name
join_names (p ∷ q ∷ ps) = p.name ++ b'.' ∷ join_names (q ∷ ps)

-- `any(part.index or not part.name for part in parts)`
pub not_a_name : List PathPart → Bool
not_a_name [] = false
not_a_name (p ∷ ps) = not (has_no_index p) || is_empty p.name || not_a_name ps

module _ (fuel : ℕ) (expression : Parse Expr) where
  -- `_read_parameter_name`
  unfoldable pub read_parameter_name : Parse Text
  read_parameter_name = identifier_access fuel expression >>= λ ps.
      if not_a_name ps then raise expected_parameter else pure (join_names ps)

  -- The names between the parentheses of a function.
  unfoldable pub parameters : Parse (List Text)
  parameters = if_at (token_paren_right ∷ []) (pure []) (
      read_parameter_name >>= λ first.
      repeat fuel
        (λ ps.
          if_next (token_comma ∷ []) (λ _. read_parameter_name >>= λ p. pure (some (ps ++ p ∷ [])))
            (pure none))
        (first ∷ []))

  -- parse_command_arg
  unfoldable pub command_arg : Parse Expr
  command_arg = if_next special_lits (λ t. pure (special_lit t.type t.text)) expression

  -- `_command_arg_or_empty`
  unfoldable pub command_arg_or_empty : Parse Expr
  command_arg_or_empty = if_at (token_comma ∷ stmt_terminators) (pure (str [])) command_arg

  -- parse_command, behind the name.
  unfoldable pub command_rest : Text → Parse Stmt
  command_rest name = do
    args ←
        if_at stmt_terminators (pure []) (
          command_arg_or_empty >>= λ a.
          more_arguments fuel expression command_arg_or_empty (a ∷ []))
    end_statement
    pure (command_stmt name (exprs args))

  -- A target with an operator of assignment behind it, or nothing taken.
  unfoldable pub assign_target : List TokenType → Parse (Option (Expr × Text))
  assign_target ops = attempt (
      if_at (identifier ∷ [])
        (identifier_access fuel expression >>= λ ps.
          if_next ops (λ t. pure (some (var_ref (path_parts ps), t.text))) (pure none))
        (pure none))

  unfoldable pub chained_targets : Text → Parse (List Expr)
  chained_targets op =
      if same_text op equals_text
      then repeat fuel
          (λ ts. assign_target (op_assign ∷ []) >>= λ found.
            pure (elim found [ some (t, o) ↦ some (ts ++ t ∷ []) | none ↦ none ]))
          []
      else pure []

  unfoldable pub assignment : Bool → Expr → Text → Parse Stmt
  assignment no_terminator target op = do
    extra ← chained_targets op
    value ← expression
    let whole = chained_value extra value
    if is_array_lit whole
        then if_at (end ∷ []) (terminated no_terminator) (pure tt)
        else terminated no_terminator
    pure (assign_stmt target op whole)

  -- A call that is the whole statement, or nothing taken.
  unfoldable pub call_statement : Parse (Option Stmt)
  call_statement s =
      let t = first_of s.rest in
      if among t.type (identifier ∷ [])
        && not (is_empty t.text)
        && among (first_of (rest_of s.rest)).type (token_paren_left ∷ [])
      then attempt
          (do
            next
            next
            args ← paren_arguments fuel expression
            if_at (end ∷ eof ∷ token_brace_right ∷ []) (pure (some (user_call t.text (exprs args))))
                (pure none))
          s
      else ok none s

  unfoldable pub expression_statement : Parse Stmt
  expression_statement = do
    e ← expression
    last ← last_of_list fuel expression e
    pure (expr_stmt (some_expr last))

  -- parse_assignment_or_expr
  unfoldable pub assignment_or_expr : Bool → Parse Stmt
  assignment_or_expr no_terminator = do
    target ← assign_target assign_ops
    elim target [
      | some (t, op) ↦ assignment no_terminator t op
      | none ↦ do
        found ← call_statement
        node ← elim found [ some node ↦ pure node | none ↦ expression_statement ]
        terminated no_terminator
        pure node
    ]

  -- `return`, `break` and `continue`, behind the word.
  unfoldable pub flow_rest : TokenType → Parse Stmt
  flow_rest kind = do
    found ←
        if among kind (kw_return ∷ [])
        then pure none
        else if_at (token_paren_left ∷ [])
            (attempt (do next; if_next (token_paren_right ∷ []) (λ _. pure (some tt)) (pure none)))
            (pure none)
    end_statement
    pure (flow kind)

  -- An expression in parentheses.
  unfoldable pub condition : Parse Expr
  condition = do eat token_paren_left; e ← expression; eat token_paren_right; pure e

  module _ (statement : Parse Stmt) where
    unfoldable pub block_statement : List Stmt → Parse (Option (List Stmt))
    block_statement body =
        if_at (token_brace_right ∷ eof ∷ []) (pure none)
          (if_next (end ∷ []) (λ _. pure (some body)) (recovering statement body))

    -- parse_block, behind its brace.
    unfoldable pub block_rest : Parse (List Stmt)
    block_rest = do
      body ← repeat fuel block_statement []
      if_next (token_brace_right ∷ []) (λ _. pure tt)
          (if_at (eof ∷ []) (pure tt) (raise (expected token_brace_right)))
      pure body

    -- parse_block
    unfoldable pub parse_block : Parse (List Stmt)
    parse_block =
        if_next (token_brace_left ∷ []) (λ _. block_rest) (statement >>= λ s. pure (s ∷ []))

    -- Whether an `elseif` or an `else` follows, past any number of terminators.
    unfoldable pub else_follows : Parse (Option Bool)
    else_follows = attempt (
        skip fuel end
        >> if_next (kw_elseif ∷ []) (λ _. pure (some true))
            (if_next (kw_else ∷ []) (λ _. pure (some false)) (pure none)))

    -- `_parse_if_tail`
    unfoldable pub if_tail : ℕ → Parse Stmt
    if_tail zero = out_of_fuel
    if_tail (suc depth) = do
      cond ← condition
      then_body ← parse_block
      follows ← else_follows
      elim follows [
        | none ↦ pure (if_else cond (stmts then_body) none_of_stmts)
        | some is_elseif ↦ do
          else_body ← elim is_elseif [
            | true ↦ if_tail depth >>= λ s. pure (s ∷ [])
            | false ↦ parse_block
          ]
          pure (if_else cond (stmts then_body) (some_stmts (stmts else_body)))
      ]
