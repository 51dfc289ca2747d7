-- ===== src/Gs2.antt =====
-- reborn_protocol/gs2: the parts of the GS2 bytecode tools that are modelled.
pub mod Container
pub mod Opcodes
pub mod Disasm
