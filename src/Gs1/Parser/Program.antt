-- ===== src/Gs1/Parser/Program.antt =====
-- reborn_protocol/gs1/parser.py: loops, `switch`, functions, and the whole script.
use reborn_protocol.Base.{
  ℕ, zero, suc, ◌+◌, List, [], ◌∷◌, ◌++◌, true, false, not, Option, none, some, length,
  if◌then◌else◌,
}
use reborn_protocol.Gs1.Csv.{Text}
use reborn_protocol.Gs1.Tokens.{
  Token, eof, end, command, kw_if, kw_for, kw_while, kw_with, kw_switch, kw_function, kw_return,
  kw_break, kw_continue, token_colon, token_paren_left, token_paren_right, token_brace_left,
  token_brace_right,
}
use reborn_protocol.Gs1.Ast.{
  Expr, Stmt, Stmts, stmts, block, for_loop, while_loop, with_object, switch, func_def, expr_stmt,
  MaybeStmts, none_of_stmts, some_stmts, none_of_stmt, some_stmt, none_of_expr, some_expr, cases,
  no_cases,
}
use reborn_protocol.Gs1.Parser.State.{
  Parse, ParserState, Outcome, ok, raised, stuck, overflow, out_of_fuel, ◌>>=◌, ◌>>◌, pure, raise,
  eat, skip, advance, first_of, if_at, if_next, repeat, is_word, discard_switch_body, recovering,
  expected_case, expected_colon,
}
use reborn_protocol.Gs1.Parser.Primary.{colon_text, read_path_part}
use reborn_protocol.Gs1.Parser.Expression.{parse_expression}
use reborn_protocol.Gs1.Parser.Statement.{
  parameters, command_rest, assignment_or_expr, flow_rest, parse_block, block_rest, condition,
  if_tail,
}

abbrev pub case_word : Text
case_word = b'c' ∷ b'a' ∷ b's' ∷ b'e' ∷ []

abbrev pub default_word : Text
default_word = b'd' ∷ b'e' ∷ b'f' ∷ b'a' ∷ b'u' ∷ b'l' ∷ b't' ∷ []

-- `if self._accept_word(word)`
unfoldable pub if_word : {A : Type 0} → Text → Parse A → Parse A → Parse A
if_word w hit miss s = if is_word (w ∷ []) (first_of s.rest) then hit (advance s) else miss s

-- `_case_colon`
unfoldable pub case_colon : Parse (Unit {0})
case_colon =
    if_next (token_colon ∷ []) (λ _. pure tt) (if_word colon_text (pure tt) (raise expected_colon))

-- `finally: self._parsing_case_label = False`
abbrev pub label_done : {A : Type 0} → Outcome A → Outcome A
label_done (ok a s) = ok a (record s { parsing_case_label = false })
label_done (raised e s) = raised e (record s { parsing_case_label = false })
label_done stuck = stuck
label_done (overflow t) = overflow t

-- What the loop of `parse_switch` collects.
pub record Branches : Type 0 where
  pub labelled : List (Expr × Stmts)
  pub default : MaybeStmts

module _ (fuel : ℕ) (expression : Parse Expr) (statement : Parse Stmt) where
  unfoldable pub case_label : Parse Expr
  case_label s = label_done (expression (record s { parsing_case_label = true }))

  -- `_parse_case_body`
  unfoldable pub case_statement : List Stmt → Parse (Option (List Stmt))
  case_statement body s =
      if is_word (case_word ∷ default_word ∷ []) (first_of s.rest)
      then ok none s
      else if_at (token_brace_right ∷ eof ∷ []) (pure none)
          (if_next (end ∷ []) (λ _. pure (some body))
            (statement >>= λ a. pure (some (body ++ a ∷ []))))
          s

  unfoldable pub case_body : Parse (List Stmt)
  case_body = repeat fuel case_statement []

  unfoldable pub switch_branch : Branches → Parse (Option Branches)
  switch_branch b = if_at (token_brace_right ∷ eof ∷ []) (pure none) (
      if_next (end ∷ []) (λ _. pure (some b))
        (if_word case_word
          (do
            match ← case_label
            case_colon
            body ← case_body
            pure (some (record b { labelled = b.labelled ++ (match, stmts body) ∷ [] })))
          (if_word default_word
            (do
              case_colon
              body ← case_body
              pure (some (record b { default = some_stmts (stmts body) })))
            (raise expected_case))))

  -- The branches, or `none` where the body of the switch was thrown away.
  unfoldable pub switch_branches : Parse (Option Branches)
  switch_branches s =
      elim (repeat fuel switch_branch (record { labelled = []; default = none_of_stmts }) s) [
        | ok b s' ↦ ok (some b) s'
        | raised e s' ↦
            if not s'.recover
            then raised e s'
            else ok none
                (record s' { errors = s'.errors ++ e ∷ []; rest = discard_switch_body 1 s'.rest })
        | stuck ↦ stuck
        | overflow t ↦ overflow t
      ]

  -- parse_switch
  unfoldable pub parse_switch : Parse Stmt
  parse_switch = do
    eat kw_switch
    value ← condition fuel expression
    eat token_brace_left
    found ← switch_branches
    elim found [
      | none ↦ pure (switch value no_cases none_of_stmts)
      | some b ↦ do eat token_brace_right; pure (switch value (cases b.labelled) b.default)
    ]

  unfoldable pub parse_for : Parse Stmt
  parse_for = do
    eat kw_for
    eat token_paren_left
    init ←
        if_at (end ∷ []) (pure none_of_stmt)
          (assignment_or_expr fuel expression true >>= λ s. pure (some_stmt s))
    eat end
    cond ← if_at (end ∷ []) (pure none_of_expr) (expression >>= λ e. pure (some_expr e))
    eat end
    post ←
        if_at (token_paren_right ∷ []) (pure none_of_stmt)
          (assignment_or_expr fuel expression true >>= λ s. pure (some_stmt s))
    skip fuel end
    eat token_paren_right
    body ← parse_block fuel expression statement
    pure (for_loop init cond post (stmts body))

  unfoldable pub parse_while : Parse Stmt
  parse_while = do
    eat kw_while
    cond ← condition fuel expression
    body ← parse_block fuel expression statement
    pure (while_loop cond (stmts body))

  unfoldable pub parse_with : Parse Stmt
  parse_with = do
    eat kw_with
    obj ← condition fuel expression
    body ← parse_block fuel expression statement
    pure (with_object obj (stmts body))

  unfoldable pub parse_funcdef : Parse Stmt
  parse_funcdef = do
    eat kw_function
    name ← read_path_part fuel expression
    eat token_paren_left
    params ← parameters fuel expression
    eat token_paren_right
    body ← parse_block fuel expression statement
    pure (func_def name.name (stmts body) params)

  -- parse_statement
  unfoldable pub statement_of : Parse Stmt
  statement_of =
      if_next (end ∷ []) (λ _. pure (expr_stmt none_of_expr))
        (if_next (token_brace_left ∷ [])
          (λ _. block_rest fuel expression statement >>= λ body. pure (block (stmts body)))
          (if_next (kw_if ∷ []) (λ _. if_tail fuel expression statement fuel)
            (if_at (kw_for ∷ []) parse_for (
              if_at (kw_while ∷ []) parse_while (
                if_at (kw_with ∷ []) parse_with (
                  if_at (kw_switch ∷ []) parse_switch (
                    if_at (kw_function ∷ []) parse_funcdef (
                      if_next (kw_return ∷ kw_break ∷ kw_continue ∷ [])
                        (λ t. flow_rest fuel expression t.type)
                        (if_next (command ∷ []) (λ t. command_rest fuel expression t.text)
                          (assignment_or_expr fuel expression false))))))))))

unfoldable pub parse_statement : ℕ → ℕ → Parse Stmt
parse_statement fuel zero = out_of_fuel
parse_statement fuel (suc depth) =
    statement_of fuel (parse_expression fuel fuel) (parse_statement fuel depth)

-- The loop of `parse_program`.
unfoldable pub program_statement : ℕ → List Stmt → Parse (Option (List Stmt))
program_statement fuel body = if_at (eof ∷ []) (pure none) (
    if_next (end ∷ []) (λ _. pure (some body))
      (if_next (token_brace_right ∷ []) (λ _. pure (some body))
        (recovering (parse_statement fuel fuel) body)))

-- parse_program; one more than the number of tokens is enough fuel.
unfoldable pub parse_program : ℕ → Parse (List Stmt)
parse_program fuel = repeat fuel (program_statement fuel) []

unfoldable pub new_parser : List Token → ParserState
new_parser tokens = record {
  rest = tokens;
  recover = true;
  errors = [];
  parsing_case_label = false;
}

unfoldable pub parse_tokens : List Token → Outcome (List Stmt)
parse_tokens tokens = parse_program (length tokens + 1) (new_parser tokens)
