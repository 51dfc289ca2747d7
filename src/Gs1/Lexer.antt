-- ===== src/Gs1/Lexer.antt =====
-- reborn_protocol/gs1/lexer.py: the scanner of GS1 scripts. Scan has the searches in the text, Mode the
-- modes and State the stack of commands; Shared holds what several modes do, and Words, Expression,
-- Strings and Literals each of them; Run is the main loop.
pub mod Scan
pub mod Mode
pub mod State
pub mod Shared
pub mod Words
pub mod Expression
pub mod Literals
pub mod Strings
pub mod Run
pub mod Tables
pub mod Sound
pub mod Total
pub mod Frames
pub mod Quotes
pub mod Munch
pub mod Spaces
