-- ===== src/Encryption.antt =====
-- reborn_protocol/encryption.py: the ENCRYPT_GEN_5 cipher and the compression of packets.
pub mod Cipher
pub mod Compression
