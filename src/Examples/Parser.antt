-- ===== src/Examples/Parser.antt =====
-- The parser of GS1 at concrete tokens.
use reborn_protocol.Base.{
  ℕ, zero, suc, true, false, ℕ, ◌≡◌, refl, sym, List, [], ◌∷◌, inl, inr, true, false, arith,
}
use reborn_protocol.Gs1.Tokens.{
  TokenType, Token, among, code, same_text, identifier, literal, end, kw_switch, op_assign, op_add,
  token_paren_left, token_paren_right, token_brace_left, token_brace_right,
}
use reborn_protocol.Base.Hex.{float_overflows}
use reborn_protocol.Gs1.Csv.{Text}
use reborn_protocol.Gs1.Parser.Literal.{hex_number, hex_literal, too_long}
use reborn_protocol.Gs1.Parser.State.{stuck}
use reborn_protocol.Gs1.Parser.Primary.{array_literal, colon_text}
use reborn_protocol.Gs1.Parser.Expression.{parse_expression}
use reborn_protocol.Gs1.Parser.Program.{case_word, new_parser, parse_statement, parse_tokens}
use reborn_protocol.Gs1.Parser.Fit.{IsFit, true_false}
use reborn_protocol.Gs1.Parser.Ends.{Ends, always}
use reborn_protocol.Gs1.Parser.Compound.{statement-Ends}
use reborn_protocol.Gs1.Parser.Total.{IsFinished, parse_tokens-IsFinished}
use reborn_protocol.Gs1.Parser.Stall.{at_colon, array_literal-stuck}

abbrev tok : TokenType → List ℕ → Token
tok t s = record { type = t; text = s }

-- `switch (x) { case 1: x = = 1; } x +`, which has an error in the case and one at the end.
abbrev broken : List Token
broken =
    tok kw_switch []
    ∷ tok token_paren_left []
    ∷ tok identifier (b'x' ∷ [])
    ∷ tok token_paren_right []
    ∷ tok token_brace_left []
    ∷ tok identifier case_word
    ∷ tok literal (b'1' ∷ [])
    ∷ tok identifier colon_text
    ∷ tok identifier (b'x' ∷ [])
    ∷ tok op_assign (b'=' ∷ [])
    ∷ tok op_assign (b'=' ∷ [])
    ∷ tok literal (b'1' ∷ [])
    ∷ tok end []
    ∷ tok token_brace_right []
    ∷ tok identifier (b'x' ∷ [])
    ∷ tok op_add (b'+' ∷ [])
    ∷ []

other : {A : Type 0} → false ≡ true → A
other q = true_false (sym q)

broken-IsFit : IsFit broken
unfolding among code same_text
broken-IsFit = (
  refl,
  other,
  other,
  (
    refl,
    other,
    other,
    (
      refl,
      other,
      other,
      (
        refl,
        other,
        other,
        (
          refl,
          other,
          other,
          (
            refl,
            (λ q. inr (refl, inl refl)),
            other,
            (
              refl,
              other,
              other,
              (
                refl,
                other,
                other,
                (
                  refl,
                  other,
                  other,
                  (
                    refl,
                    other,
                    other,
                    (
                      refl,
                      other,
                      other,
                      (
                        refl,
                        other,
                        other,
                        (
                          refl,
                          other,
                          other,
                          (refl, other, other, (refl, other, other, (refl, other, other, tt))),
                        ),
                      ),
                    ),
                  ),
                ),
              ),
            ),
          ),
        ),
      ),
    ),
  ),
)

parse_tokens-IsFinished_example : IsFinished (parse_tokens broken)
parse_tokens-IsFinished_example = parse_tokens-IsFinished broken broken-IsFit

statement-Ends_example : Ends false 12 always (parse_statement 20 12)
statement-Ends_example = statement-Ends 20 12 (omega arith)

array_literal-stuck_example :
    array_literal 9 (parse_expression 9 9) (at_colon (new_parser []) broken) ≡ stuck
array_literal-stuck_example = array_literal-stuck 9 8 (new_parser []) broken

abbrev ones : ℕ → Text
ones zero = []
ones (suc n) = b'1' ∷ ones n

-- 256 digits make a float, 257 do not.
largest : too_long (b'0' ∷ b'x' ∷ ones 256) ≡ false
unfolding too_long hex_literal hex_number float_overflows
largest = refl

too_large : too_long (b'0' ∷ b'X' ∷ ones 257) ≡ true
unfolding too_long hex_literal hex_number float_overflows
too_large = refl
