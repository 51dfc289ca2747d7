-- ===== src/Gs1/Script/Total.antt =====
-- reborn_protocol/gs1/parser.py: `parse` ends on the text of a script.
use reborn_protocol.Base.{◌≡◌, refl, List, [], ◌∷◌, ◌++◌, true, false}
use reborn_protocol.Gs1.Csv.{Text}
use reborn_protocol.Gs1.Tokens.{TokenType, Token, among, code, eof, token_period}
use reborn_protocol.Gs1.Parser.State.{first_of, is_word}
use reborn_protocol.Gs1.Parser.Program.{case_word}
use reborn_protocol.Gs1.Parser.Fit.{is_colon, IsCalm, IsFit}
use reborn_protocol.Gs1.Parser.Total.{IsFinished, parse_tokens-IsFinished}
use reborn_protocol.Gs1.Lexer.State.{Tables, empty_token}
use reborn_protocol.Gs1.Lexer.Run.{Lexed, tokens, failed, out_of_range, stuck, tokenize}
use reborn_protocol.Gs1.Lexer.Sound.{IsLive, AreLive}
use reborn_protocol.Gs1.Lexer.Total.{IsLexed, tokenize-IsLexed}
use reborn_protocol.Gs1.Script.{Parsed, parsed, unlexed, before_eof, parse_lexed, parse}

-- Behind the word `case` no brace is opened before a name that is a colon, and no such name follows a
-- period.
abbrev pub IsClear : List Token → Type 0
IsClear [] = Unit
IsClear (t ∷ ts) =
    (is_word (case_word ∷ []) t ≡ true → IsCalm ts)
    × (among t.type (token_period ∷ []) ≡ true → is_colon (first_of ts) ≡ false)
    × IsClear ts

-- The tokens of a text, if there are any, are clear.
unfoldable pub LexesClear : Lexed → Type 0
LexesClear (tokens ts) = IsClear (before_eof ts)
LexesClear lexed = Unit

not_eof : (t : TokenType) → IsLive t → among t (eof ∷ []) ≡ false
unfolding among code
not_eof eof l = absurd l
not_eof t l = refl

before_eof-front :
    (front : List Token) → AreLive front → before_eof (front ++ empty_token eof ∷ []) ≡ front
unfolding before_eof among code
before_eof-front [] l = refl
before_eof-front (t ∷ ts) l = rw (not_eof t.type l.0, before_eof-front ts l.1) refl

IsClear-IsFit : (ts : List Token) → AreLive ts → IsClear ts → IsFit ts
IsClear-IsFit [] l c = tt
IsClear-IsFit (t ∷ ts) l (w, p, c) = (not_eof t.type l.0, w, p, IsClear-IsFit ts l.1 c)

-- A script, the OverflowError of a literal, or a LexError.
pub IsParsed : Parsed → Type 0
IsParsed (parsed o) = IsFinished o
IsParsed (unlexed failed) = Unit
IsParsed (unlexed _) = ⊥

lexed-IsParsed : (lexed : Lexed) → IsLexed lexed → LexesClear lexed → IsParsed (parse_lexed lexed)
unfolding parse_lexed IsParsed IsLexed LexesClear
lexed-IsParsed (tokens ts) (front, e, l) c =
    let same : before_eof ts ≡ front = rw e (before_eof-front front l) in
    rw same (parse_tokens-IsFinished front (IsClear-IsFit front l (rw same at c)))
lexed-IsParsed failed l c = tt
lexed-IsParsed out_of_range l c = l
lexed-IsParsed stuck l c = l

-- `parse` ends on the text of a script whose tokens are clear: it returns a program and no token is
-- left, whatever the syntax errors, or the parser raises OverflowError for a literal that is a
-- hexadecimal number too large for a float, or the scanner raises a LexError. Clear means that behind
-- the word `case` no brace is opened before the next IDENTIFIER ":", and that no such name follows a
-- period.
pub parse-IsParsed :
    (tables : Tables) (text : Text)
    → LexesClear (tokenize tables text)
    → IsParsed (parse tables text)
unfolding parse
parse-IsParsed tables text c =
    lexed-IsParsed (tokenize tables text) (tokenize-IsLexed tables text) c
