-- ===== src/Gs1/Tokens.antt =====
-- reborn_protocol/gs1/lexer.py and parser.py: the types of tokens and the groups of them that the
-- parser tests for.
use reborn_protocol.Base.{ℕ, List, [], ◌∷◌, Bool, true, false, ◌&&◌, ◌||◌, ◌==◌}
use reborn_protocol.Gs1.Csv.{Text}

-- The names of the token types, each a constructor.
pub data TokenType : Type 0 where
  eof command function messagecode rawmessagecode string identifier literal direction item color
        gender baddy carry allstats allfeatures end kw_with kw_function kw_if kw_else kw_elseif
        kw_for kw_while kw_switch kw_return kw_break kw_continue op_assign op_assign_add
        op_assign_sub op_assign_mul op_assign_div op_assign_mod op_assign_pow op_equal op_noteq
        op_less_eq op_great_eq op_inc op_dec op_logicaland op_logicalor op_concat op_add op_sub
        op_mul op_div op_mod op_pow op_less op_great op_logicalnot op_in token_bracket_left
        token_bracket_right token_brace_left token_brace_right token_paren_left token_paren_right
        token_comma token_pipe token_question token_colon token_period :
      TokenType

-- Types are compared by their number.
unfoldable pub code : TokenType → ℕ
code eof = 0
code command = 1
code function = 2
code messagecode = 3
code rawmessagecode = 4
code string = 5
code identifier = 6
code literal = 7
code direction = 8
code item = 9
code color = 10
code gender = 11
code baddy = 12
code carry = 13
code allstats = 14
code allfeatures = 15
code end = 16
code kw_with = 17
code kw_function = 18
code kw_if = 19
code kw_else = 20
code kw_elseif = 21
code kw_for = 22
code kw_while = 23
code kw_switch = 24
code kw_return = 25
code kw_break = 26
code kw_continue = 27
code op_assign = 28
code op_assign_add = 29
code op_assign_sub = 30
code op_assign_mul = 31
code op_assign_div = 32
code op_assign_mod = 33
code op_assign_pow = 34
code op_equal = 35
code op_noteq = 36
code op_less_eq = 37
code op_great_eq = 38
code op_inc = 39
code op_dec = 40
code op_logicaland = 41
code op_logicalor = 42
code op_concat = 43
code op_add = 44
code op_sub = 45
code op_mul = 46
code op_div = 47
code op_mod = 48
code op_pow = 49
code op_less = 50
code op_great = 51
code op_logicalnot = 52
code op_in = 53
code token_bracket_left = 54
code token_bracket_right = 55
code token_brace_left = 56
code token_brace_right = 57
code token_paren_left = 58
code token_paren_right = 59
code token_comma = 60
code token_pipe = 61
code token_question = 62
code token_colon = 63
code token_period = 64

-- class Token, without its place in the text.
pub record Token : Type 0 where
  pub type : TokenType
  pub text : Text

-- `t in types`
unfoldable pub among : TokenType → List TokenType → Bool
among t [] = false
among t (u ∷ us) = code t == code u || among t us

unfoldable pub same_text : Text → Text → Bool
same_text [] [] = true
same_text (a ∷ s) (b ∷ t) = a == b && same_text s t
same_text s t = false

-- ASSIGN_OPS
abbrev pub assign_ops : List TokenType
assign_ops =
    op_assign ∷ op_assign_add ∷ op_assign_sub ∷ op_assign_mul ∷ op_assign_div ∷ op_assign_mod
    ∷ op_assign_pow ∷ []

-- EQUALITY_OPS
abbrev pub equality_ops : List TokenType
equality_ops = op_equal ∷ op_assign ∷ op_noteq ∷ []

-- RELATIONAL_OPS
abbrev pub relational_ops : List TokenType
relational_ops = op_less ∷ op_great ∷ op_less_eq ∷ op_great_eq ∷ []

-- ADDITIVE_OPS
abbrev pub additive_ops : List TokenType
additive_ops = op_add ∷ op_sub ∷ []

-- MULTIPLICATIVE_OPS
abbrev pub multiplicative_ops : List TokenType
multiplicative_ops = op_mul ∷ op_div ∷ []

-- UNARY_OPS
abbrev pub unary_ops : List TokenType
unary_ops = op_add ∷ op_sub ∷ op_logicalnot ∷ []

-- SPECIAL_LITS
abbrev pub special_lits : List TokenType
special_lits = item ∷ carry ∷ direction ∷ gender ∷ color ∷ baddy ∷ []

-- STMT_TERMINATORS
abbrev pub stmt_terminators : List TokenType
stmt_terminators = end ∷ eof ∷ token_brace_right ∷ []

-- STRING_PARTS
abbrev pub string_parts : List TokenType
string_parts = string ∷ messagecode ∷ rawmessagecode ∷ []
