-- ===== src/Codec/Frame.antt =====
-- reborn_protocol/codec.py: `_frame`, the length prefix of 16 bits.
use reborn_protocol.Base.{
  ℕ, ◌/◌, ◌%◌, ◌^◌, Option, none, some, [], ◌∷◌, Bytes, length, ltb, if◌then◌else◌,
}

abbrev pub max_packet_len : ℕ
max_packet_len = 0xFFFF

-- `struct.pack('>H', len(payload)) + payload`
abbrev pub prefixed : Bytes → Bytes
prefixed payload = (length payload / 2 ^ 8 % 256) ∷ (length payload % 256) ∷ payload

unfoldable pub frame : Bytes → Option Bytes
frame payload = if ltb max_packet_len (length payload) then none else some (prefixed payload)

-- `framed if framed is not None else b""`
abbrev pub or_empty : Option Bytes → Bytes
or_empty none = []
or_empty (some framed) = framed
