-- ===== src/Codec/Buffer.antt =====
-- reborn_protocol/codec.py: `PacketBuffer`, which cuts a stream of bytes into framed packets.
pub mod Drain
pub mod Stream
use reborn_protocol.Base.{
  ℕ, zero, suc, ◌+◌, ◌*◌, ◌^◌, List, [], ◌∷◌, ◌++◌, Bytes, Option, none, some, length, get_or, take,
  drop, ltb, leb, if◌then◌else◌,
}

pub record PacketBuffer : Type 0 where
  pub buffer : Bytes

abbrev pub new_buffer : PacketBuffer
new_buffer = record { buffer = [] }

unfoldable pub add_data : Bytes → PacketBuffer → PacketBuffer
add_data d b = record { buffer = b.buffer ++ d }

-- `struct.unpack('>H', bytes(self._buffer[:2]))[0]`
abbrev pub prefix_length : Bytes → ℕ
prefix_length buffer = get_or buffer 0 0 * 2 ^ 8 + get_or buffer 1 0

-- One round of the loop of `get_packets`: the packet that it takes and what stays in the buffer,
-- or `none` where the loop ends, by its condition or by the `break`.
unfoldable pub next_packet : Bytes → Option (Bytes × Bytes)
next_packet buffer =
    if leb 2 (length buffer)
    then (let n = prefix_length buffer in
        if ltb (length buffer) (2 + n)
        then none
        else some (take n (drop 2 buffer), drop (2 + n) buffer))
    else none

pub drain : ℕ → Bytes → List Bytes → List Bytes × PacketBuffer
drain zero buffer packets = (packets, record { buffer = buffer })
drain (suc fuel) buffer packets = elim (next_packet buffer) [
  | none ↦ (packets, record { buffer = buffer })
  | some (packet, rest) ↦ drain fuel rest (packets ++ packet ∷ [])
]

-- Each round takes two bytes at least, so the buffer's length is enough fuel.
pub get_packets : PacketBuffer → List Bytes × PacketBuffer
unfolding drain
get_packets b = drain (length b.buffer) b.buffer []

pub clear : PacketBuffer → PacketBuffer
clear b = record { buffer = [] }
