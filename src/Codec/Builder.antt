-- ===== src/Codec/Builder.antt =====
-- reborn_protocol/codec.py: `PacketBuilder`. A method returns the builder's new state. Arguments
-- are Python integers, and texts are lists of code points.
pub mod Lanes
pub mod RoundTrip
pub mod Strings
use reborn_protocol.Base.{
  ℕ, ◌+◌, ◌-◌, ◌*◌, ◌/◌, ◌%◌, ◌^◌, min, bit_or, List, [], ◌∷◌, ◌++◌, map, Bytes, length, take, ltb,
  if◌then◌else◌, ℤ, pos, pos_part, neg, neg_part, mod_ℤ, trunc_div, clamp, ltb_ℤ,
}
use reborn_protocol.Codec.Reader.{Text}

pub record PacketBuilder : Type 0 where
  pub contents : Bytes

abbrev pub new_builder : PacketBuilder
new_builder = record { contents = [] }

-- `self._data.extend(d)`
abbrev pub extend : PacketBuilder → Bytes → PacketBuilder
extend b d = record { contents = b.contents ++ d }

-- `(lane + 32) & 0xFF`
abbrev pub offset : ℕ → ℕ
offset lane = (lane + 32) % 2 ^ 8

unfoldable pub write_byte : ℤ → PacketBuilder → PacketBuilder
write_byte v b = extend b (mod_ℤ v (2 ^ 8) ∷ [])

unfoldable pub write_gchar : ℤ → PacketBuilder → PacketBuilder
write_gchar v b = extend b (offset (clamp v 223) ∷ [])

-- `if b0 > 223: b0 = 223` is a minimum.
unfoldable pub write_gshort : ℤ → PacketBuilder → PacketBuilder
write_gshort v b =
    let t = clamp v 28767 in
    let b0 = min (t / 2 ^ 7) 223 in let b1 = t - b0 * 2 ^ 7 in extend b (offset b0 ∷ offset b1 ∷ [])

unfoldable pub write_gint3 : ℤ → PacketBuilder → PacketBuilder
write_gint3 v b =
    let t = clamp v 3682399 in
    let b0 = min (t / 2 ^ 14) 223 in
    let t1 = t - b0 * 2 ^ 14 in
    let b1 = min (t1 / 2 ^ 7) 223 in
    let b2 = t1 - b1 * 2 ^ 7 in extend b (offset b0 ∷ offset b1 ∷ offset b2 ∷ [])

unfoldable pub write_gint4 : ℤ → PacketBuilder → PacketBuilder
write_gint4 v b =
    let t = clamp v 471347295 in
    let b0 = min (t / 2 ^ 21) 223 in
    let t1 = t - b0 * 2 ^ 21 in
    let b1 = min (t1 / 2 ^ 14) 223 in
    let t2 = t1 - b1 * 2 ^ 14 in
    let b2 = min (t2 / 2 ^ 7) 223 in
    let b3 = t2 - b2 * 2 ^ 7 in extend b (offset b0 ∷ offset b1 ∷ offset b2 ∷ offset b3 ∷ [])

unfoldable pub write_gint5 : ℤ → PacketBuilder → PacketBuilder
write_gint5 v b =
    let t = clamp v 0xFFFFFFFF in
    let b0 = min (t / 2 ^ 28 % 2 ^ 8) 15 in
    let t1 = t - b0 * 2 ^ 28 in
    let b1 = min (t1 / 2 ^ 21 % 2 ^ 8) 223 in
    let t2 = t1 - b1 * 2 ^ 21 in
    let b2 = min (t2 / 2 ^ 14 % 2 ^ 8) 223 in
    let t3 = t2 - b2 * 2 ^ 14 in
    let b3 = min (t3 / 2 ^ 7 % 2 ^ 8) 223 in
    let b4 = (t3 - b3 * 2 ^ 7) % 2 ^ 8 in
    extend b (offset b0 ∷ offset b1 ∷ offset b2 ∷ offset b3 ∷ offset b4 ∷ [])

-- `value.encode('latin-1', errors='replace')`: `?` for a code point that is no byte.
unfoldable pub encode_latin_1 : Text → Bytes
encode_latin_1 value = map (λ c. if ltb c 256 then c else b'?') value

unfoldable pub write_string : Text → PacketBuilder → PacketBuilder
write_string value b = extend b (encode_latin_1 value)

unfoldable pub write_gstring : Text → PacketBuilder → PacketBuilder
write_gstring value b =
    let encoded = take 223 (encode_latin_1 value) in
    extend (write_gchar (pos (length encoded)) b) encoded

unfoldable pub write_gstring_short : Text → PacketBuilder → PacketBuilder
write_gstring_short value b =
    let encoded = take 28767 (encode_latin_1 value) in
    extend (write_gshort (pos (length encoded)) b) encoded

-- The pixels with the sign in the lowest bit.
unfoldable pub to_raw : ℤ → ℕ
to_raw pixels =
    if ltb_ℤ pixels (pos 0)
    then bit_or (pos_part (neg pixels) * 2 ^ 1) 1
    else pos_part pixels * 2 ^ 1

-- `int(tiles * 16)` drops what is left of a pixel; `tiles` is counted in 1/256 of a tile.
unfoldable pub write_position2 : ℤ → PacketBuilder → PacketBuilder
write_position2 tiles b = write_gshort (pos (to_raw (trunc_div tiles 16))) b

unfoldable pub write_bytes : Bytes → PacketBuilder → PacketBuilder
write_bytes d b = extend b d

unfoldable pub build : PacketBuilder → Bytes
build b = b.contents
