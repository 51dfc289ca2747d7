-- ===== src/Examples/Lexer.antt =====
-- The theorems on the scanner and on whole scripts at concrete inputs.
use reborn_protocol.Base.{◌≡◌, refl, sym, some, [], ◌∷◌, true, false, pos, map}
use reborn_protocol.Gs1.Csv.{Text, next_is}
use reborn_protocol.Gs1.Tokens.{
  TokenType, Token, among, code, same_text, eof, identifier, literal, string, end, op_add,
}
use reborn_protocol.Gs1.Parser.Fit.{true_false}
use reborn_protocol.Gs1.Lexer.Scan.{
  codes, ◌is◌, between, is_digit, is_word_start, is_word_char, is_hex, is_blank, is_one_of,
  take_while, drop_while, after_prefix, skip_rounds, skip_ws, next_nonspace_is, digits, fraction,
  hexadecimal, with_fraction, match_real, match_messagecode, short_code,
}
use reborn_protocol.Gs1.Lexer.State.{LexState, empty_token, pop_next_mode, push_command}
use reborn_protocol.Gs1.Lexer.Mode.{mode_e}
use reborn_protocol.Gs1.Lexer.Shared.{
  punct, give, hide, or_else, try_operator, is_digit_next, try_real, is_flag_colon, try_hash,
  operators,
}
use reborn_protocol.Gs1.Lexer.Words.{
  keyword, last_is, word_from, after_word, plain_word, try_function, try_command, try_keyword,
  is_variable_read, default_word,
}
use reborn_protocol.Gs1.Lexer.Expression.{
  on_char, after_ws, in_op_or, punct_or_junk, symbol, default_punct, default_char, scan_default,
}
use reborn_protocol.Gs1.Lexer.Run.{
  tokens, normalise, new_lexer, emitted, scan_mode, scan_one, run, tokenize,
}
use reborn_protocol.Gs1.Lexer.Tables.{server_tables}
use reborn_protocol.Gs1.Lexer.Tables.Entry.{get_command, get_arguments}
use reborn_protocol.Gs1.Lexer.Total.{IsLexed, tokenize-IsLexed}
use reborn_protocol.Gs1.Lexer.Quotes.{quoted, tokenize-double}
use reborn_protocol.Gs1.Lexer.Munch.{IsLongest, try_operator-IsLongest}
use reborn_protocol.Gs1.Lexer.Spaces.{IsSettled, skip_ws-IsSettled}
use reborn_protocol.Gs1.Lexer.Frames.{IsRestored, pop_times, pop-push_command}
use reborn_protocol.Gs1.Script.{parse, before_eof}
use reborn_protocol.Gs1.Script.Total.{IsParsed, LexesClear, parse-IsParsed}

abbrev tok : TokenType → Text → Token
tok t s = record { type = t; text = s }

-- A sum, its spaces and a comment.
sum_tokens :
    tokenize server_tables (codes "x + 1.5; // c")
    ≡ tokens (
        tok identifier (codes "x")
        ∷ tok op_add (codes "+")
        ∷ tok literal (codes "1.5")
        ∷ tok end (codes ";")
        ∷ tok eof []
        ∷ [])
unfolding tokenize new_lexer normalise run scan_one scan_mode emitted scan_default in_op_or after_ws
    on_char symbol default_punct default_char default_word word_from after_word plain_word
    try_function try_command try_keyword keyword last_is is_variable_read or_else give hide try_hash
    try_real try_operator punct_or_junk punct is_flag_colon is_digit_next match_real digits fraction
    hexadecimal with_fraction ◌is◌ between is_digit is_word_start is_word_char is_hex is_blank
    is_one_of take_while drop_while after_prefix skip_rounds skip_ws next_nonspace_is next_is
    get_command get_arguments same_text among code
sum_tokens = refl

tokenize-IsLexed_example : IsLexed (tokenize server_tables (codes "if (a) say #s(b); lay 5"))
tokenize-IsLexed_example = tokenize-IsLexed server_tables (codes "if (a) say #s(b); lay 5")

sum-LexesClear : LexesClear (tokenize server_tables (codes "x + 1.5; // c"))
unfolding LexesClear before_eof among code same_text
sum-LexesClear = rw sum_tokens (
  λ e. true_false (sym e),
  λ e. true_false (sym e),
  (
    λ e. true_false (sym e),
    λ e. true_false (sym e),
    (
      λ e. true_false (sym e),
      λ e. true_false (sym e),
      (λ e. true_false (sym e), λ e. true_false (sym e), tt),
    ),
  ),
)

parse-IsParsed_example : IsParsed (parse server_tables (codes "x + 1.5; // c"))
parse-IsParsed_example = parse-IsParsed server_tables (codes "x + 1.5; // c") sum-LexesClear

tokenize-double_example :
    tokenize server_tables (quoted (codes "say \"hi\""))
    ≡ tokens (tok string (map normalise (codes "say \"hi\"")) ∷ empty_token eof ∷ [])
tokenize-double_example = tokenize-double server_tables (codes "say \"hi\"")

abbrev new : LexState
new = record {
  rest = codes "<=1";
  mode = mode_e;
  frames = [];
  brace_count = pos 2;
  array_lit_depth = 1;
  before = [];
  after = [];
  out = [];
}

pop-push_command_example :
    IsRestored new (pop_times 3 (push_command (codes "SES") false false new))
    × IsRestored new (pop_next_mode true (push_command (codes "SES") false false new))
pop-push_command_example = pop-push_command b'S' (codes "ES") false false new

try_operator-IsLongest_example :
    IsLongest operators (codes "<=1") new (try_operator operators (codes "<=1") new)
try_operator-IsLongest_example = try_operator-IsLongest (codes "<=1") new

skip_ws-IsSettled_example : IsSettled (skip_ws (codes " /* a */ // b"))
skip_ws-IsSettled_example = skip_ws-IsSettled (codes " /* a */ // b")

-- All digits behind #P belong to the code; without one it is a code in front of a parenthesis only.
many_digits : match_messagecode (codes "P10 x") ≡ some (codes "P10", codes " x")
unfolding match_messagecode short_code is_digit between take_while drop_while
many_digits = refl

no_digits : match_messagecode (codes "P(1)") ≡ some (codes "P", codes "(1)")
unfolding match_messagecode short_code is_digit between
no_digits = refl
