-- ===== src/Gs1/Parser/Literal.antt =====
-- reborn_protocol/gs1/parser.py: `_literal`, on ASCII texts. The lexer gives literals only of digits,
-- hexadecimal digits, a period, and the words `true` and `false`.
use reborn_protocol.Base.{
  ℕ, ◌+◌, ◌*◌, [], ◌∷◌, map, Bool, true, false, ◌&&◌, ◌||◌, Option, none, some, leb, ◌==◌,
  if◌then◌else◌,
}
use reborn_protocol.Base.Hex.{digit_of, float_overflows}
use reborn_protocol.Gs1.Csv.{Text}
use reborn_protocol.Gs1.Tokens.{same_text}
use reborn_protocol.Gs1.Ast.{Expr, num, bool}
use reborn_protocol.Gs1.Parser.State.{Parse, overflow, pure}

-- `text.lower()` where it matters: a letter from A to Z.
abbrev pub lower : ℕ → ℕ
lower c = if leb b'A' c && leb c b'Z' then c + 32 else c

-- `_literal`
unfoldable pub literal_node : Text → Expr
literal_node t =
    if same_text (map lower t) (b't' ∷ b'r' ∷ b'u' ∷ b'e' ∷ [])
    then bool true
    else if same_text (map lower t) (b'f' ∷ b'a' ∷ b'l' ∷ b's' ∷ b'e' ∷ [])
    then bool false
    else num t

-- What Python strips from the end of a number.
are_spaces : Text → Bool
are_spaces [] = true
are_spaces (c ∷ t) = (c == b' ' || (leb 9 c && leb c 13) || (leb 28 c && leb c 31)) && are_spaces t

-- `int(text, 16)` behind the prefix: digits, a single underscore in front of any of them, and spaces at the
-- end. `joins` says that an underscore may follow, and `ends` that the number may end.
unfoldable pub hex_number : Bool → Bool → ℕ → Text → Option ℕ
unfolding are_spaces
hex_number joins ends n [] = if ends then some n else none
hex_number joins ends n (c ∷ t) = elim (digit_of c) [
  | some d ↦ hex_number true true (n * 16 + d) t
  | none ↦
      let joined = hex_number false false n t in
      if joins && c == b'_' then joined else if ends && are_spaces (c ∷ t) then some n else none
]

-- The integer of a literal `0x...`; none is the ValueError, or a literal of another form.
unfoldable pub hex_literal : Text → Option ℕ
hex_literal (zero_digit ∷ x ∷ t) =
    if zero_digit == b'0' && lower x == b'x' then hex_number true false 0 t else none
hex_literal t = none

-- `float(int(text, 16))` raises OverflowError.
unfoldable pub too_long : Text → Bool
too_long t = elim (hex_literal t) [ none ↦ false | some n ↦ float_overflows n ]

unfoldable pub parse_literal : Text → Parse Expr
parse_literal t s = if too_long t then overflow t else pure (literal_node t) s
