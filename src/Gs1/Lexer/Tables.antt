-- ===== src/Gs1/Lexer/Tables.antt =====
-- reborn_protocol/gs1/_tables.py: the tables of commands, functions and message codes.
pub mod Entry
pub mod CommandsA
pub mod CommandsB
pub mod Functions
use reborn_protocol.Base.{◌++◌}
use reborn_protocol.Gs1.Lexer.State.{Tables}
use reborn_protocol.Gs1.Lexer.Tables.Entry.{get_command, get_arguments}
use reborn_protocol.Gs1.Lexer.Tables.CommandsA.{first_commands}
use reborn_protocol.Gs1.Lexer.Tables.CommandsB.{last_commands}
use reborn_protocol.Gs1.Lexer.Tables.Functions.{function_rows, messagecode_rows}

abbrev pub server_tables : Tables
server_tables = record {
  commands = get_command (first_commands ++ last_commands);
  functions = get_arguments function_rows;
  messagecodes = get_arguments messagecode_rows;
}
