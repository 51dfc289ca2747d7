-- ===== src/Codec/Reader.antt =====
-- reborn_protocol/codec.py: `PacketReader`. A method returns its value and the reader's new state.
-- A text is the list of its code points. A position in tiles is counted in 1/256 of a tile.
pub mod Bounds
use reborn_protocol.Base.{
  Option, none, some, ltb_ℤ, ℕ, ◌+◌, ◌-◌, ◌^◌, ◌≤◌, min, List, Bytes, Bool, true, false, not,
  length, get_or, take, drop, ltb, leb, ◌==◌, if◌then◌else◌, ℤ, pos, pos_part, sub_ℕ, neg, shl,
  mod_ℤ, floor_div, ◌+ℤ◌,
}

abbrev pub Text : Type 0
Text = List ℕ

-- `decode` is `bytes.decode` at the reader's `encoding`, with `errors='replace'`.
pub record PacketReader : Type 0 where
  pub contents : Bytes
  pub at : ℕ
  pub decode : Bytes → Text

-- The default encoding, latin-1, has the code point of each byte.
abbrev pub latin_1 : Bytes → Text
latin_1 d = d

unfoldable pub new_reader : Bytes → (Bytes → Text) → PacketReader
new_reader d decode = record { contents = d; at = 0; decode = decode }

-- `data[pos + i] - 32`
abbrev pub lane : PacketReader → ℕ → ℤ
lane r i = sub_ℕ (get_or r.contents (r.at + i) 0) 32

abbrev pub move : PacketReader → ℕ → PacketReader
move r n = record r { at = r.at + n }

-- `self.pos = len(self.data)`
abbrev pub to_end : PacketReader → PacketReader
to_end r = record r { at = length r.contents }

unfoldable pub read_byte : PacketReader → ℕ × PacketReader
read_byte r = if leb (length r.contents) r.at then (0, r) else (get_or r.contents r.at 0, move r 1)

-- `max(0, v)` is the positive part of `v`.
unfoldable pub read_gchar : PacketReader → ℕ × PacketReader
unfolding read_byte
read_gchar r = let (b, r') = read_byte r in (pos_part (sub_ℕ b 32), r')

unfoldable pub read_gshort : PacketReader → ℕ × PacketReader
read_gshort r =
    if leb (length r.contents) (r.at + 1)
    then (0, to_end r)
    else (pos_part (shl (lane r 0) 7 +ℤ lane r 1), move r 2)

unfoldable pub read_gint3 : PacketReader → ℕ × PacketReader
read_gint3 r =
    if leb (length r.contents) (r.at + 2)
    then (0, to_end r)
    else (pos_part (shl (lane r 0) 14 +ℤ shl (lane r 1) 7 +ℤ lane r 2), move r 3)

unfoldable pub read_gint4 : PacketReader → ℕ × PacketReader
read_gint4 r = if leb (length r.contents) (r.at + 3) then (0, to_end r) else (
  pos_part (shl (lane r 0) 21 +ℤ shl (lane r 1) 14 +ℤ shl (lane r 2) 7 +ℤ lane r 3),
  move r 4,
)

unfoldable pub read_gint5 : PacketReader → ℕ × PacketReader
read_gint5 r = if leb (length r.contents) (r.at + 4) then (0, to_end r) else (
  mod_ℤ
      (shl (lane r 0) 28 +ℤ shl (lane r 1) 21 +ℤ shl (lane r 2) 14 +ℤ shl (lane r 3) 7 +ℤ lane r 4)
      (2 ^ 32),
  move r 5,
)

-- A length that passes the end is cut at the end.
unfoldable pub read_string : ℤ → PacketReader → Text × PacketReader
read_string n r =
    let n' = pos_part n in
    let size = if ltb (length r.contents) (r.at + n') then length r.contents - r.at else n' in
    (r.decode (take size (drop r.at r.contents)), move r size)

unfoldable pub read_gstring : PacketReader → Text × PacketReader
read_gstring r = let (n, r') = read_gchar r in read_string (pos n) r'

unfoldable pub read_gstring_short : PacketReader → Text × PacketReader
read_gstring_short r = let (n, r') = read_gshort r in read_string (pos n) r'

-- `raw >> 1` pixels, negated if `raw & 1`; a pixel is 16/256 of a tile.
unfoldable pub from_raw : ℤ → ℤ
from_raw raw =
    let pixels = floor_div raw 2 in shl (if mod_ℤ raw 2 == 1 then neg pixels else pixels) 4

unfoldable pub read_position2 : PacketReader → ℤ × PacketReader
read_position2 r =
    if leb (length r.contents) (r.at + 1)
    then (pos 0, to_end r)
    else (from_raw (shl (lane r 0) 7 +ℤ lane r 1), move r 2)

unfoldable pub remaining : PacketReader → Bytes
remaining r = drop r.at r.contents

unfoldable pub has_data : PacketReader → Bool
has_data r = ltb r.at (length r.contents)

-- A negative count moves back. The reader stays inside of the model down to the beginning of the data:
-- a place below 0, from which Python would index from the end, is `none`.
unfoldable pub skip : ℤ → PacketReader → Option PacketReader
skip count r =
    let to = pos r.at +ℤ count in
    if ltb_ℤ to (pos 0)
    then none
    else some (record r { at = min (pos_part to) (length r.contents) })

unfoldable pub peek_byte : PacketReader → ℕ
peek_byte r = if leb (length r.contents) r.at then 0 else get_or r.contents r.at 0
