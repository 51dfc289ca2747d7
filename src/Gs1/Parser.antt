-- ===== src/Gs1/Parser.antt =====
-- reborn_protocol/gs1/parser.py: the recursive-descent parser.
pub mod State
pub mod Literal
pub mod Primary
pub mod Expression
pub mod Statement
pub mod Program
pub mod Fit
pub mod Ends
pub mod Choices
pub mod Loops
pub mod Operands
pub mod Takes
pub mod Calls
pub mod Primaries
pub mod Levels
pub mod Statements
pub mod Recovery
pub mod Blocks
pub mod Cases
pub mod Compound
pub mod Total
pub mod Stall
