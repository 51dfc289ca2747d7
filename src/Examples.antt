-- ===== src/Examples.antt =====
-- The theorems at concrete inputs, with a library of compressors that stores its input.
mod Store
mod Ciphers
mod Sessions
mod Packets
mod Scripts
mod Parser
mod Lexer
mod Values
mod Properties
