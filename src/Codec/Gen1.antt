-- ===== src/Codec/Gen1.antt =====
-- reborn_protocol/codec.py: `Gen1Codec`, which sends bytes as they are.
use reborn_protocol.Base.{[], ◌∷◌, Bytes, Option, none, some}

unfoldable pub send_packet : Bytes → Bytes
send_packet d = d

unfoldable pub recv_packet : Bytes → Option Bytes
recv_packet [] = none
recv_packet (b ∷ d) = some (b ∷ d)
