-- ===== src/Codec.antt =====
-- reborn_protocol/codec.py: the framing of packets, and the readers, builders and codecs below.
pub mod Frame
pub mod Buffer
pub mod Gen5
pub mod Server
pub mod Session
pub mod Gen4
pub mod Gen3
pub mod Gen2
pub mod Gen1
pub mod Reader
pub mod Builder
