-- ===== src/Props.antt =====
-- reborn_protocol/props.py: the property streams of players, NPCs and baddies.
pub mod Tables
pub mod Lanes
pub mod Decode
pub mod Encode
pub mod Stream
pub mod Names
