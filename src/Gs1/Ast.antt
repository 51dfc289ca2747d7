-- ===== src/Gs1/Ast.antt =====
-- reborn_protocol/gs1/ast.py: the nodes of a script. A list of nodes is a type of its own in the
-- blocks. A number keeps the text of its literal, whose `float` is not computed.
use reborn_protocol.Base.{List, [], ◌∷◌, Bool}
use reborn_protocol.Gs1.Csv.{Text}
use reborn_protocol.Gs1.Tokens.{TokenType}

mutual
  pub data Expr : Type 0 where
    ternary : Expr → Expr → Expr → Expr
    bin_op : Text → Expr → Expr → Expr
    unary_op : Text → Expr → Expr
    postfix : Text → Expr → Expr
    in_expr : Exprs → Expr → Expr
    call : Text → Exprs → Expr
    method_call : Expr → Text → Exprs → Expr
    message_code : Text → Exprs → Expr
    str_concat : Exprs → Expr
    str : Text → Expr
    num : Text → Expr
    bool : Bool → Expr
    var_ref : PathParts → Expr
    array_lit : Exprs → Expr
    special_lit : TokenType → Text → Expr
    range_lit : Expr → Expr → Bool → Bool → Expr
    assign : Expr → Text → Expr → Expr

  pub data Exprs : Type 0 where
    no_exprs : Exprs
    expr : Expr → Exprs → Exprs

  -- A part of a path: its name, its index and its atoms.
  pub data PathParts : Type 0 where
    no_parts : PathParts
    part : Text → Exprs → Exprs → PathParts → PathParts

mutual
  pub data Stmt : Type 0 where
    block : Stmts → Stmt
    if_else : Expr → Stmts → MaybeStmts → Stmt
    for_loop : MaybeStmt → MaybeExpr → MaybeStmt → Stmts → Stmt
    while_loop : Expr → Stmts → Stmt
    with_object : Expr → Stmts → Stmt
    switch : Expr → Cases → MaybeStmts → Stmt
    func_def : Text → Stmts → List Text → Stmt
    flow : TokenType → Stmt
    command_stmt : Text → Exprs → Stmt
    user_call : Text → Exprs → Stmt
    assign_stmt : Expr → Text → Expr → Stmt
    expr_stmt : MaybeExpr → Stmt

  pub data Stmts : Type 0 where
    no_stmts : Stmts
    stmt : Stmt → Stmts → Stmts

  pub data MaybeStmts : Type 0 where
    none_of_stmts : MaybeStmts
    some_stmts : Stmts → MaybeStmts

  pub data MaybeStmt : Type 0 where
    none_of_stmt : MaybeStmt
    some_stmt : Stmt → MaybeStmt

  pub data MaybeExpr : Type 0 where
    none_of_expr : MaybeExpr
    some_expr : Expr → MaybeExpr

  pub data Cases : Type 0 where
    no_cases : Cases
    one_case : Expr → Stmts → Cases → Cases

-- What the parser collects in a list, as a node holds it.
pub exprs : List Expr → Exprs
exprs [] = no_exprs
exprs (e ∷ es) = expr e (exprs es)

pub stmts : List Stmt → Stmts
stmts [] = no_stmts
stmts (s ∷ ss) = stmt s (stmts ss)

-- `PathPart`, while the parser collects the parts of a path.
pub record PathPart : Type 0 where
  pub name : Text
  pub index : List Expr
  pub atoms : List Expr

pub path_parts : List PathPart → PathParts
path_parts [] = no_parts
path_parts (p ∷ ps) = part p.name (exprs p.index) (exprs p.atoms) (path_parts ps)

pub cases : List (Expr × Stmts) → Cases
cases [] = no_cases
cases ((match, body) ∷ cs) = one_case match body (cases cs)
