-- ===== src/Gs1/Parser/Blocks.antt =====
-- reborn_protocol/gs1/parser.py: what blocks and `if` leave.
use reborn_protocol.Base.{
  ℕ, zero, suc, ◌≤◌, ◌<◌, ◌≡◌, refl, List, [], ◌∷◌, Bool, true, false, Option, none, some, length,
  arith, Bool-cases, inl, inr,
}
use reborn_protocol.Gs1.Ast.{Expr, Stmt, stmts, if_else, none_of_stmts, some_stmts}
use reborn_protocol.Gs1.Tokens.{TokenType, Token, among, code, eof, end}
use reborn_protocol.Gs1.Parser.State.{Parse, ParserState, ◌>>=◌, pure, if_at, first_of}
use reborn_protocol.Gs1.Parser.Statement.{
  block_statement, block_rest, parse_block, else_follows, if_tail,
}
use reborn_protocol.Gs1.Parser.Fit.{IsGood}
use reborn_protocol.Gs1.Parser.Ends.{
  Leaves, Ends, always, never, is_some, Ends-zero, Ends-le, Ends-never, pure-Ends, after-Ends,
  bind-Ends,
}
use reborn_protocol.Gs1.Parser.Loops.{repeat-Ends, skip-Ends}
use reborn_protocol.Gs1.Parser.Operands.{ends_rules}
use reborn_protocol.Gs1.Parser.Recovery.{recovering-Leaves}
use reborn_protocol.Gs1.Parser.Statements.{condition-Ends}
use reborn_protocol.Gs1.Parser.Choices.{if_next-Leaves, same_next-Ends, attempt-Ends}

-- The body of a test for the end of the tokens runs where there is a token.
pub unless_end-Ends :
    {A : Type 0} {P : A → Bool} {n : ℕ} (types : List TokenType) (hit miss : Parse A)
    → among eof types ≡ true
    → Ends false n P hit
    → ((s : ParserState)
        → IsGood false s
        → length s.rest < n
        → 0 < length s.rest
        → Leaves false s.recover P (length s.rest) (miss s))
    → Ends false n P (if_at types hit miss)
unfolding if_at
unless_end-Ends types hit miss q e f = record {
  at = λ s p l. elim (Bool-cases (among (first_of s.rest).type types)) [
    | inl r ↦ rw r (e.at s p l)
    | inr r ↦ rw r (f s p l (some_token s.rest r))
  ];
}
  where
    some_token : (ts : List Token) → among (first_of ts).type types ≡ false → 0 < length ts
    some_token [] r = absurd (ground arith)
    some_token (t ∷ ts) r = omega arith

module _ (fuel : ℕ) (expression : Parse Expr) (e : Ends false fuel always expression) where
  else_follows-Ends :
      (statement : Parse Stmt) → Ends false fuel never (else_follows fuel expression statement)
  unfolding among code else_follows
  else_follows-Ends statement =
      attempt-Ends _ refl
        (bind-Ends _ _ (skip-Ends fuel end (omega arith) refl) (λ u. search ends_rules))

  module _ {k : ℕ} (statement : Parse Stmt) (h : k ≤ fuel) (f : Ends false k always statement) where
    block_statement-Ends :
        (body : List Stmt) → Ends false k is_some (block_statement fuel expression statement body)
    unfolding among code block_statement
    block_statement-Ends body = unless_end-Ends _ _ _ refl (search ends_rules) (λ s p l g.
        if_next-Leaves is_some {k = k} (end ∷ []) _ _ refl (λ t. pure-Ends (some body) refl) s p
          (omega arith) (recovering-Leaves statement body s f p l g))

    pub block_rest-Ends : Ends false k never (block_rest fuel expression statement)
    unfolding among code block_rest
    block_rest-Ends =
        bind-Ends _ _ (repeat-Ends _ fuel [] h block_statement-Ends)
          (λ body. bind-Ends _ _ (search ends_rules) (λ u. search ends_rules))

    pub parse_block-Ends : Ends false k never (parse_block fuel expression statement)
    unfolding among code parse_block
    parse_block-Ends =
        same_next-Ends _ _ _ refl (λ t. block_rest-Ends)
          (bind-Ends _ _ (Ends-never _ f) (λ s. search ends_rules))

  pub if_tail-Ends :
      {k : ℕ} (statement : Parse Stmt)
      → k ≤ fuel
      → Ends false k always statement
      → (depth j : ℕ) → j ≤ depth
      → j ≤ k
      → Ends false j never (if_tail fuel expression statement depth)
  unfolding among code if_tail
  if_tail-Ends statement h f depth zero g i = Ends-zero _
  if_tail-Ends statement h f zero (suc j) g i = absurd (omega arith)
  if_tail-Ends statement h f (suc depth) (suc j) g i =
      let below : Ends false j always statement = Ends-le statement (omega arith) f in
      let block = parse_block-Ends statement (omega arith) below in
      after-Ends _ _ (Ends-le _ (omega arith) (condition-Ends fuel expression e)) (λ cond.
        bind-Ends _ _ block (λ then_body.
          bind-Ends _ _ (Ends-le _ (omega arith) (else_follows-Ends statement)) (λ follows.
            either block (if_tail-Ends statement h f depth j (omega arith) (omega arith)) cond
              then_body follows)))
    where
      either :
          Ends false j never (parse_block fuel expression statement)
          → Ends false j never (if_tail fuel expression statement depth)
          → (cond : Expr) (then_body : List Stmt) (follows : Option Bool)
          → Ends false j never (elim follows [
            | none ↦ pure (if_else cond (stmts then_body) none_of_stmts)
            | some is_elseif ↦ do
              else_body ← elim is_elseif [
                | true ↦ if_tail fuel expression statement depth >>= λ s. pure (s ∷ [])
                | false ↦ parse_block fuel expression statement
              ]
              pure (if_else cond (stmts then_body) (some_stmts (stmts else_body)))
          ])
      either block tail cond then_body none = pure-Ends _ refl
      either block tail cond then_body (some true) =
          bind-Ends _ _ (bind-Ends _ _ tail (λ s. search ends_rules)) (λ b. search ends_rules)
      either block tail cond then_body (some false) = bind-Ends _ _ block (λ b. search ends_rules)
