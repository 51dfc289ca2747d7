-- ===== src/Gs1/Lexer/Tables/Entry.antt =====
-- reborn_protocol/gs1/_tables.py: the rows of the tables, and how a word is looked up.
use Prim.Native.String.{String}
use reborn_protocol.Base.{List, [], ◌∷◌, Bool, Option, none, some, if◌then◌else◌}
use reborn_protocol.Gs1.Csv.{Text}
use reborn_protocol.Gs1.Tokens.{same_text}
use reborn_protocol.Gs1.Lexer.Scan.{codes}
use reborn_protocol.Gs1.Lexer.State.{CommandEntry}

pub record CommandRow : Type 0 where
  pub name : Text
  pub entry : CommandEntry

pub record ArgumentRow : Type 0 where
  pub name : Text
  pub args : Text

abbrev pub row : String → String → Bool → CommandRow
row name args needs_space = record {
  name = codes name;
  entry = record { args = codes args; needs_space = needs_space };
}

abbrev pub arguments : String → String → ArgumentRow
arguments name args = record { name = codes name; args = codes args }

-- `COMMANDS.get(word)`
unfoldable pub get_command : List CommandRow → Text → Option CommandEntry
get_command [] word = none
get_command (r ∷ rows) word = if same_text r.name word then some r.entry else get_command rows word

-- `FUNCTIONS.get(word)` and `MESSAGECODES.get(code)`
unfoldable pub get_arguments : List ArgumentRow → Text → Option Text
get_arguments [] word = none
get_arguments (r ∷ rows) word =
    if same_text r.name word then some r.args else get_arguments rows word
