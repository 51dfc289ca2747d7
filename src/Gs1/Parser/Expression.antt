-- ===== src/Gs1/Parser/Expression.antt =====
-- reborn_protocol/gs1/parser.py: the levels of precedence, from `parse_postfix` up to
-- `parse_expression`. A level calls the next one; the recursions run on a count of their depth.
use reborn_protocol.Base.{ℕ, zero, suc, List, [], ◌∷◌, ◌++◌, true, false, Option, none, some}
use reborn_protocol.Gs1.Csv.{Text}
use reborn_protocol.Gs1.Tokens.{
  TokenType, Token, among, op_logicaland, op_logicalor, op_concat, op_mod, op_pow, op_in, op_less,
  op_great, op_inc, op_dec, token_question, token_colon, token_comma, token_pipe, equality_ops,
  relational_ops, additive_ops, multiplicative_ops, unary_ops,
}
use reborn_protocol.Gs1.Ast.{Expr, exprs, ternary, bin_op, unary_op, postfix, in_expr, range_lit}
use reborn_protocol.Gs1.Parser.State.{
  Parse, out_of_fuel, ◌>>=◌, ◌>>◌, pure, raise, eat, if_at, if_next, attempt, repeat,
  expected_range_end,
}
use reborn_protocol.Gs1.Parser.Primary.{primary}

-- `while self.at(*ops): self.next(); node = BinOp(op, node, operand())`
unfoldable pub left_assoc : ℕ → List TokenType → (Token → Text) → Parse Expr → Parse Expr
left_assoc fuel ops op operand =
    operand
    >>= repeat fuel (λ node.
      if_next ops (λ t. operand >>= λ right. pure (some (bin_op (op t) node right))) (pure none))

-- One operator at most: `if self.peek().type in ops`.
unfoldable pub non_assoc : List TokenType → Parse Expr → Parse Expr
non_assoc ops operand = operand >>= λ node.
    if_next ops (λ t. operand >>= λ right. pure (bin_op t.text node right)) (pure node)

abbrev text_of : Token → Text
text_of t = t.text

module _ (fuel : ℕ) (expression : Parse Expr) where
  unfoldable pub parse_postfix : Parse Expr
  parse_postfix = primary fuel expression >>= λ node.
      if_next (op_inc ∷ op_dec ∷ []) (λ t. pure (postfix t.text node)) (pure node)

  unfoldable pub parse_unary : ℕ → Parse Expr
  parse_unary zero = out_of_fuel
  parse_unary (suc depth) =
      if_next unary_ops (λ t. parse_unary depth >>= λ e. pure (unary_op t.text e)) parse_postfix

  unfoldable pub parse_exponent : Parse Expr
  parse_exponent = left_assoc fuel (op_pow ∷ []) (λ t. b'^' ∷ []) (parse_unary fuel)

  -- The values in front of an `in`, or `none` where none follows.
  unfoldable pub in_values : Expr → Parse (Option (List Expr))
  in_values node = attempt (do
    values ←
        repeat fuel
          (λ vs.
            if_next (token_comma ∷ []) (λ _. parse_exponent >>= λ v. pure (some (vs ++ v ∷ [])))
              (pure none))
          (node ∷ [])
    if_at (op_in ∷ []) (pure (some values)) (pure none))

  -- The parser of a range's bounds, the additive level, is a parameter here.
  module _ (bound : Parse Expr) where
    unfoldable pub parse_range : Token → Parse Expr
    parse_range open_tok = do
      lo ← bound
      eat token_comma
      hi ← bound
      hi_incl ←
          if_next (token_pipe ∷ []) (λ _. pure true)
            (if_next (op_great ∷ []) (λ _. pure false) (raise expected_range_end))
      pure (range_lit lo hi (among open_tok.type (token_pipe ∷ [])) hi_incl)

    unfoldable pub parse_in : Parse Expr
    parse_in = do
      node ← parse_exponent
      found ← in_values node
      elim found [
        | none ↦ pure node
        | some values ↦
            if_next (op_in ∷ [])
              (λ _. do
                rng ← if_next (token_pipe ∷ op_less ∷ []) parse_range (primary fuel expression)
                pure (in_expr (exprs values) rng))
              (pure node)
      ]

    unfoldable pub parse_mod : Parse Expr
    parse_mod = left_assoc fuel (op_mod ∷ []) (λ t. b'%' ∷ []) parse_in

    unfoldable pub parse_multiplicative : Parse Expr
    parse_multiplicative = left_assoc fuel multiplicative_ops text_of parse_mod

  unfoldable pub parse_additive : ℕ → Parse Expr
  parse_additive zero = out_of_fuel
  parse_additive (suc depth) =
      left_assoc fuel additive_ops text_of (parse_multiplicative (parse_additive depth))

  unfoldable pub parse_concat : ℕ → Parse Expr
  parse_concat depth = left_assoc fuel (op_concat ∷ []) (λ t. b'@' ∷ []) (parse_additive depth)

  unfoldable pub parse_relational : ℕ → Parse Expr
  parse_relational depth = non_assoc relational_ops (parse_concat depth)

  unfoldable pub parse_equality : ℕ → Parse Expr
  parse_equality depth = non_assoc equality_ops (parse_relational depth)

  unfoldable pub parse_logic_and : ℕ → Parse Expr
  parse_logic_and depth =
      left_assoc fuel (op_logicaland ∷ []) (λ t. b'&' ∷ b'&' ∷ []) (parse_equality depth)

  unfoldable pub parse_logic_or : ℕ → Parse Expr
  parse_logic_or depth =
      left_assoc fuel (op_logicalor ∷ []) (λ t. b'|' ∷ b'|' ∷ []) (parse_logic_and depth)

  unfoldable pub ternaries : ℕ → Parse Expr
  ternaries depth =
      parse_logic_or depth
      >>= repeat fuel λ node.
        if_next (token_question ∷ [])
          (λ _. do a ← expression; eat token_colon; b ← expression; pure (some (ternary node a b)))
          (pure none)

unfoldable pub parse_expression : ℕ → ℕ → Parse Expr
parse_expression fuel zero = out_of_fuel
parse_expression fuel (suc depth) = ternaries fuel (parse_expression fuel depth) (suc depth)
