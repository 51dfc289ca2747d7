-- ===== src/Gs1/Parser/Stall.antt =====
-- reborn_protocol/gs1/parser.py: `parse_array_literal` in a case label, at a colon that the lexer gave
-- as an IDENTIFIER.
use reborn_protocol.Base.{ℕ, zero, suc, ◌≡◌, refl, List, [], ◌∷◌, ◌++◌, true, some}
use reborn_protocol.Gs1.Tokens.{Token, identifier, among, code, same_text}
use reborn_protocol.Gs1.Ast.{Expr, var_ref, path_parts}
use reborn_protocol.Gs1.Parser.State.{
  ParserState, ok, stuck, bind, ◌>>=◌, pure, if_at, if_next, attempt, repeat,
}
use reborn_protocol.Gs1.Parser.Primary.{
  colon_text, empty_part, primary, string_concat, identifier_access, read_path_part, path_atom,
  optional_index, path_value, last_part, array_element, array_literal,
}
use reborn_protocol.Gs1.Parser.Expression.{
  left_assoc, non_assoc, parse_postfix, parse_unary, parse_exponent, in_values, parse_in, parse_mod,
  parse_multiplicative, parse_additive, parse_concat, parse_relational, parse_equality,
  parse_logic_and, parse_logic_or, ternaries, parse_expression,
}

abbrev pub colon_name : Token
colon_name = record { type = identifier; text = colon_text }

-- A parser of a case label that stands at the colon.
abbrev pub at_colon : ParserState → List Token → ParserState
at_colon s ts = record s { rest = colon_name ∷ ts; parsing_case_label = true }

-- An expression is read without a token.
expression-at_colon :
    (fuel depth : ℕ) (s : ParserState) (ts : List Token)
    → parse_expression (suc fuel) (suc depth) (at_colon s ts)
      ≡ ok (var_ref (path_parts (empty_part ∷ []))) (at_colon s ts)
unfolding among code same_text bind ◌>>=◌ pure if_at if_next attempt repeat primary string_concat
    identifier_access read_path_part path_atom optional_index path_value last_part left_assoc
    non_assoc parse_postfix parse_unary parse_exponent in_values parse_in parse_mod
    parse_multiplicative parse_additive parse_concat parse_relational parse_equality parse_logic_and
    parse_logic_or ternaries parse_expression
expression-at_colon fuel depth s ts = refl

-- So a round of the loop takes no token, and does not leave the loop.
element-at_colon :
    (fuel depth : ℕ) (es : List Expr) (s : ParserState) (ts : List Token)
    → array_element (suc fuel) (parse_expression (suc fuel) (suc depth)) es (at_colon s ts)
      ≡ ok (some (es ++ var_ref (path_parts (empty_part ∷ [])) ∷ [])) (at_colon s ts)
unfolding among code bind ◌>>=◌ pure if_at if_next array_element
element-at_colon fuel depth es s ts = rw (expression-at_colon fuel depth s ts) refl

elements-stuck :
    (rounds fuel depth : ℕ) (es : List Expr) (s : ParserState) (ts : List Token)
    → repeat rounds
        (array_element (suc fuel) (parse_expression (suc fuel) (suc depth)))
        es
        (at_colon s ts)
      ≡ stuck
unfolding repeat
elements-stuck zero fuel depth es s ts = refl
elements-stuck (suc rounds) fuel depth es s ts =
    rw (repeat, element-at_colon fuel depth es s ts) (elements-stuck rounds fuel depth _ s ts)

-- While `parse_switch` reads a case label, `parse_array_literal` behind its brace does not end where an
-- element starts at an IDENTIFIER ":": it runs out of every fuel, whatever tokens follow.
pub array_literal-stuck :
    (fuel depth : ℕ) (s : ParserState) (ts : List Token)
    → array_literal fuel (parse_expression fuel (suc depth)) (at_colon s ts) ≡ stuck
unfolding bind ◌>>=◌ repeat array_literal
array_literal-stuck zero depth s ts = refl
array_literal-stuck (suc fuel) depth s ts = rw (elements-stuck (suc fuel) fuel depth [] s ts) refl
