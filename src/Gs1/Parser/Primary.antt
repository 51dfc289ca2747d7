-- ===== src/Gs1/Parser/Primary.antt =====
-- reborn_protocol/gs1/parser.py: from `parse_primary` down, the operands of expressions. The parser
-- of nested expressions is a parameter, and so is the fuel of the loops.
use reborn_protocol.Base.{
  ℕ, List, [], ◌∷◌, ◌++◌, Bool, true, false, not, ◌&&◌, Option, none, some, if◌then◌else◌,
}
use reborn_protocol.Gs1.Csv.{Text}
use reborn_protocol.Gs1.Tokens.{
  among, same_text, eof, end, identifier, string, function, literal, messagecode, rawmessagecode,
  allfeatures, allstats, string_parts, token_comma, token_period, token_paren_left,
  token_paren_right, token_brace_left, token_brace_right, token_bracket_left, token_bracket_right,
}
use reborn_protocol.Gs1.Ast.{
  Expr, exprs, no_exprs, PathPart, path_parts, call, method_call, message_code, str_concat, str,
  var_ref, array_lit, special_lit,
}
use reborn_protocol.Gs1.Parser.Literal.{parse_literal}
use reborn_protocol.Gs1.Parser.State.{
  Parse, ok, ◌>>=◌, ◌>>◌, pure, raise, next, eat, advance, first_of, rest_of, if_at, if_next,
  attempt, repeat, expected_expression,
}

-- The variables of the loop of `_read_path_part`.
pub record Atoms : Type 0 where
  pub atoms : List Expr
  pub static : Text
  pub dynamic : Bool

abbrev pub no_atoms : Atoms
no_atoms = record { atoms = []; static = []; dynamic = false }

abbrev pub is_empty : Text → Bool
is_empty [] = true
is_empty (c ∷ t) = false

abbrev pub static_atom : Atoms → Text → Atoms
static_atom a t = record a {
  atoms = if is_empty t then a.atoms else a.atoms ++ str t ∷ [];
  static = a.static ++ t;
}

abbrev pub colon_text : Text
colon_text = b':' ∷ []

abbrev pub empty_part : PathPart
empty_part = record { name = []; index = []; atoms = [] }

-- `parts[-1]` and `parts[:-1]`; there is a part.
unfoldable pub last_part : List PathPart → PathPart
last_part [] = empty_part
last_part (p ∷ []) = p
last_part (p ∷ q ∷ ps) = last_part (q ∷ ps)

pub parts_before : List PathPart → List PathPart
parts_before [] = []
parts_before (p ∷ []) = []
parts_before (p ∷ q ∷ ps) = p ∷ parts_before (q ∷ ps)

abbrev pub has_no_index : PathPart → Bool
has_no_index p = elim p.index [ [] ↦ true | e ∷ es ↦ false ]

-- A call of one name, or of a method on what stands before the last name.
abbrev pub called : List PathPart → List Expr → Expr
called (p ∷ []) args = call p.name (exprs args)
called ps args =
    method_call (var_ref (path_parts (parts_before ps))) (last_part ps).name (exprs args)

module _ (fuel : ℕ) (expression : Parse Expr) where
  -- `_paren_arg_or_empty`
  unfoldable pub paren_arg_or_empty : Parse Expr
  paren_arg_or_empty = if_at (token_comma ∷ token_paren_right ∷ []) (pure (str [])) expression

  -- `while self.accept("TOKEN_COMMA"): args.append(argument)`
  unfoldable pub more_arguments : Parse Expr → List Expr → Parse (List Expr)
  more_arguments argument = repeat fuel (λ args.
      if_next (token_comma ∷ []) (λ _. argument >>= λ a. pure (some (args ++ a ∷ []))) (pure none))

  -- The arguments behind a parenthesis, and the one that closes them.
  unfoldable pub paren_arguments : Parse (List Expr)
  paren_arguments = do
    args ←
        if_at (token_paren_right ∷ []) (pure [])
          (paren_arg_or_empty >>= λ a. more_arguments paren_arg_or_empty (a ∷ []))
    eat token_paren_right
    pure args

  -- parse_messagecode
  unfoldable pub messagecode_node : Parse Expr
  messagecode_node = eat messagecode >>= λ t.
      if_next (token_paren_left ∷ [])
        (λ _. paren_arguments >>= λ args. pure (message_code t.text (exprs args)))
        (pure (message_code t.text no_exprs))

  -- `[index]` or `[index, index]`, if a bracket follows.
  unfoldable pub optional_index : Parse (List Expr)
  optional_index =
      if_next (token_bracket_left ∷ [])
        (λ _. do
          e ← expression
          es ←
              if_next (token_comma ∷ []) (λ _. expression >>= λ f. pure (e ∷ f ∷ []))
                (pure (e ∷ []))
          eat token_bracket_right
          pure es)
        (pure [])

  -- One round of the loop of `_read_path_part`.
  unfoldable pub path_atom : Atoms → Parse (Option Atoms)
  path_atom a s =
      let t = first_of s.rest in
      if among t.type (identifier ∷ [])
      then (if s.parsing_case_label && same_text t.text colon_text
          then ok none s
          else ok (some (static_atom a t.text)) (advance s))
      else if_next (literal ∷ [])
          (λ u.
            pure
              (some (record a { atoms = a.atoms ++ str u.text ∷ []; static = a.static ++ u.text })))
          (if_at (messagecode ∷ [])
            (messagecode_node >>= λ m.
              pure (some (record a { atoms = a.atoms ++ m ∷ []; dynamic = true })))
            (pure none))
          s

  -- `_read_path_part`
  unfoldable pub read_path_part : Parse PathPart
  read_path_part = do
    a ← repeat fuel path_atom no_atoms
    index ← optional_index
    pure (record { name = if a.dynamic then [] else a.static; index = index; atoms = a.atoms })

  -- A part of a path behind a period.
  unfoldable pub further_part : Parse PathPart
  further_part =
      if_next (token_paren_left ∷ [])
        (λ _. do
          e ← expression
          eat token_paren_right
          index ← optional_index
          pure (record { name = []; index = index; atoms = e ∷ [] }))
        read_path_part

  -- parse_identifier_access: the parts of the VarRef.
  unfoldable pub identifier_access : Parse (List PathPart)
  identifier_access = do
    p ← read_path_part
    repeat fuel
        (λ ps.
          if_next (token_period ∷ []) (λ _. further_part >>= λ q. pure (some (ps ++ q ∷ [])))
            (pure none))
        (p ∷ [])

  -- `_parse_method_chain`
  unfoldable pub chained_call : Expr → Parse (Option Expr)
  chained_call node s =
      if among (first_of s.rest).type (token_period ∷ [])
        && among (first_of (rest_of s.rest)).type (identifier ∷ [])
        && among (first_of (rest_of (rest_of s.rest))).type (token_paren_left ∷ [])
      then attempt
          (do
            next
            t ← next
            next
            args ← paren_arguments
            pure (some (method_call node t.text (exprs args))))
          s
      else ok none s

  unfoldable pub method_chain : Expr → Parse Expr
  method_chain = repeat fuel chained_call

  -- The value of a path, or the call that follows it.
  unfoldable pub path_value : List PathPart → Parse Expr
  path_value ps = do
    value ←
        if has_no_index (last_part ps) && not (is_empty (last_part ps).name)
        then attempt (
            if_next (token_paren_left ∷ [])
              (λ _. do args ← paren_arguments; e ← method_chain (called ps args); pure (some e))
              (pure none))
        else pure none
    pure (elim value [ some e ↦ e | none ↦ var_ref (path_parts ps) ])

  -- parse_string_concat
  unfoldable pub string_part : List Expr → Parse (Option (List Expr))
  string_part ps =
      if_next (string ∷ []) (λ t. pure (some (ps ++ str t.text ∷ [])))
        (if_next (rawmessagecode ∷ []) (λ _. pure (some ps))
          (if_at (messagecode ∷ []) (messagecode_node >>= λ m. pure (some (ps ++ m ∷ [])))
            (pure none)))

  unfoldable pub string_concat : Parse Expr
  string_concat = repeat fuel string_part [] >>= λ ps. pure (str_concat (exprs ps))

  -- parse_array_literal, behind its brace.
  unfoldable pub array_element : List Expr → Parse (Option (List Expr))
  array_element es = if_at (token_brace_right ∷ eof ∷ []) (pure none) (
      if_next (token_comma ∷ []) (λ _. pure (some es))
        (if_next (end ∷ []) (λ _. pure (some es))
          (do
            e ← expression
            if_next (token_comma ∷ []) (λ _. pure (some (es ++ e ∷ [])))
                (pure (some (es ++ e ∷ []))))))

  unfoldable pub array_literal : Parse Expr
  array_literal = do
    es ← repeat fuel array_element []
    eat token_brace_right
    pure (array_lit (exprs es))

  -- `(a, b)` keeps the last.
  unfoldable pub last_of_list : Expr → Parse Expr
  last_of_list =
      repeat fuel
        λ e. if_next (token_comma ∷ []) (λ _. expression >>= λ f. pure (some f)) (pure none)

  -- parse_primary
  unfoldable pub primary : Parse Expr
  primary =
      if_next (token_paren_left ∷ [])
        (λ _. do e ← expression; last ← last_of_list e; eat token_paren_right; pure last)
        (if_at string_parts string_concat (
          if_next (function ∷ [])
            (λ t. do eat token_paren_left; args ← paren_arguments; pure (call t.text (exprs args)))
            (if_next (token_brace_left ∷ []) (λ _. array_literal)
              (if_next (literal ∷ []) (λ t. parse_literal t.text)
                (if_next (allfeatures ∷ allstats ∷ []) (λ t. pure (special_lit t.type t.text))
                  (if_at (identifier ∷ []) (identifier_access >>= path_value)
                    (raise expected_expression)))))))
