-- ===== src/Gs1.antt =====
-- reborn_protocol/gs1: the parts of the GS1 script interpreter that are modelled.
pub mod Csv
pub mod Tokens
pub mod Ast
pub mod Parser
pub mod Lexer
pub mod Script
pub mod Values
pub mod Runtime
