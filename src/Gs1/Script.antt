-- ===== src/Gs1/Script.antt =====
-- reborn_protocol/gs1/parser.py: `parse`, the scanner and the parser on the text of a script.
pub mod Total
use reborn_protocol.Base.{List, [], ◌∷◌, if◌then◌else◌}
use reborn_protocol.Gs1.Csv.{Text}
use reborn_protocol.Gs1.Tokens.{Token, among, eof}
use reborn_protocol.Gs1.Ast.{Stmt}
use reborn_protocol.Gs1.Parser.State.{Outcome}
use reborn_protocol.Gs1.Parser.Program.{parse_tokens}
use reborn_protocol.Gs1.Lexer.State.{Tables}
use reborn_protocol.Gs1.Lexer.Run.{Lexed, tokens, failed, out_of_range, stuck, tokenize}

-- What the parser gives, or how the scanner failed.
pub data Parsed : Type 0 where
  parsed : Outcome (List Stmt) → Parsed
  unlexed : Lexed → Parsed

-- The parser's list of tokens ends in front of the EOF.
unfoldable pub before_eof : List Token → List Token
before_eof [] = []
before_eof (t ∷ ts) = if among t.type (eof ∷ []) then [] else t ∷ before_eof ts

unfoldable pub parse_lexed : Lexed → Parsed
parse_lexed (tokens ts) = parsed (parse_tokens (before_eof ts))
parse_lexed lexed = unlexed lexed

unfoldable pub parse : Tables → Text → Parsed
unfolding parse_lexed
parse tables text = parse_lexed (tokenize tables text)
