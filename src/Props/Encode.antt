-- ===== src/Props/Encode.antt =====
-- reborn_protocol/props.py: `encode_value`. `none` is a value that is neither of the type that the form
-- is meant for nor a number where it takes one: Python raises there, or converts what can be read as
-- one, as a number in a text or the items of any sequence, which is left out.
pub mod Images
pub mod Back
pub mod Forms
pub mod Pairs
pub mod RoundTrip
use reborn_protocol.Base.{
  ℕ, zero, suc, ◌+◌, ◌-◌, ◌*◌, ◌%◌, ◌^◌, min, bit_or, List, [], ◌∷◌, ◌++◌, map, Bytes, Bool, Option,
  none, some, length, take, ◌==◌, if◌then◌else◌, ℤ, pos, negsuc, pos_part, neg, neg_part, mod_ℤ,
  trunc_div, clamp, ltb_ℤ, ◌+ℤ◌, times,
}
use reborn_protocol.Codec.Reader.{Text}
use reborn_protocol.Codec.Builder.{encode_latin_1, to_raw}
use reborn_protocol.Props.Tables.{
  Wire, gbyte, raw, string, longstring, void, tile, halftile, tilez, pixel, colors, effectcolors,
  swordpower, powerimage, headgif, elorating, attachnpc, imagepart, PropDesc,
}
use reborn_protocol.Props.Lanes.{encode_gbyte, gchar_unsafe}
use reborn_protocol.Props.Decode.{
  Value, nothing, number, opaque, text, tiles, palette, powered, rating, attached, image_part,
}

-- `_gstring`
unfoldable pub encode_gstring : Text → ℕ → Bytes
encode_gstring value length_bytes =
    let encoded = encode_latin_1 value in
    encode_gbyte (pos (length encoded)) length_bytes ++ encoded

-- `str(image)`, which is `None` in letters for `None`.
abbrev pub str_of : Option Text → Text
str_of none = b'N' ∷ b'o' ∷ b'n' ∷ b'e' ∷ []
str_of (some t) = t

-- `_pixel`
unfoldable pub encode_pixel : ℤ → Bytes
encode_pixel t = encode_gbyte (pos (to_raw (trunc_div t 16))) 2

-- The list cut to `n` entries and filled with zeros.
pub fill : ℕ → List ℤ → List ℤ
fill zero cs = []
fill (suc n) [] = pos 0 ∷ fill n []
fill (suc n) (c ∷ cs) = c ∷ fill n cs

unfoldable pub encode_palette : List ℤ → Bytes
encode_palette [] = []
encode_palette (c ∷ cs) = encode_gbyte c 1 ++ encode_palette cs

-- `bytes(value)[:width].ljust(width, b' ')`
pub pad : ℕ → Bytes → Bytes
pad zero d = []
pad (suc n) [] = b' ' ∷ pad n []
pad (suc n) (b ∷ d) = b ∷ pad n d

-- 223 half-tiles would break the packet flow.
unfoldable pub encode_tile : ℤ → Bytes
encode_tile t =
    let halftile = mod_ℤ (trunc_div t 128) (2 ^ 8) in
    gchar_unsafe (if halftile == 223 then 224 else halftile)

unfoldable pub encode_effectcolors : List ℤ → Bytes
encode_effectcolors [] = encode_gbyte (pos 0) 1
encode_effectcolors (pos zero ∷ cs) = encode_gbyte (pos 0) 1
encode_effectcolors (c ∷ cs) = encode_palette (fill 5 (c ∷ cs))

-- `_power_image` at a pair.
unfoldable pub encode_power_image : ℕ → ℤ → Option Text → Bytes
encode_power_image bias power image =
    encode_gbyte (pos bias +ℤ power) 1 ++ encode_gstring (str_of image) 1

-- `min(99, v)`
abbrev min_99 : ℤ → ℤ
min_99 v = if ltb_ℤ v (pos 99) then v else pos 99

-- `str(value)`, with a parameter for what Python makes of numbers, bytes, lists and tuples.
abbrev pub text_of : (Value → Text) → Value → Text
text_of show (text t) = t
text_of show nothing = str_of none
text_of show v = show v

-- `int(value)` and `float(value)` of numbers.
abbrev pub as_int : Value → Option ℤ
as_int (number n) = some n
as_int (tiles t) = some (trunc_div t 256)
as_int v = none

abbrev pub as_tiles : Value → Option ℤ
as_tiles (number n) = some (times n 256)
as_tiles (tiles t) = some t
as_tiles v = none

abbrev pub code_number : Option ℤ → (ℤ → Bytes) → Option Bytes
code_number none code = none
code_number (some n) code = some (code n)

-- `encode_value` at a wire form, a width and a bias. `max(-50, min(170, v)) + 50` is `v + 50`
-- brought between 0 and 220.
unfoldable pub encode_wire : (Value → Text) → Wire → ℕ → ℕ → Value → ℕ → Option Bytes
encode_wire show void width bias v colors_len = some []
encode_wire show gbyte width bias v colors_len = code_number (as_int v) (λ n. encode_gbyte n width)
encode_wire show raw width bias (opaque d) colors_len = some (pad width d)
encode_wire show string width bias v colors_len = some (encode_gstring (text_of show v) 1)
encode_wire show longstring width bias v colors_len = some (encode_gstring (text_of show v) 2)
encode_wire show tile width bias v colors_len = code_number (as_tiles v) encode_tile
encode_wire show halftile width bias v colors_len =
    code_number (as_tiles v) (λ t. encode_gbyte (trunc_div t 128) 1)
encode_wire show tilez width bias v colors_len =
    code_number (as_int v) (λ n. encode_gbyte (pos (clamp (n +ℤ pos 50) 220)) 1)
encode_wire show pixel width bias v colors_len = code_number (as_tiles v) encode_pixel
encode_wire show colors width bias (palette cs) colors_len =
    some (encode_palette (fill colors_len cs))
encode_wire show effectcolors width bias (palette cs) colors_len = some (encode_effectcolors cs)
encode_wire show swordpower width bias (powered power image) colors_len =
    some (encode_power_image bias power image)
encode_wire show swordpower width bias v colors_len = code_number (as_int v) (λ n. encode_gbyte n 1)
encode_wire show powerimage width bias (powered power image) colors_len =
    some (encode_gbyte power 1 ++ encode_gstring (str_of image) 1)
encode_wire show headgif width bias (number n) colors_len = some (encode_gbyte (min_99 n) 1)
encode_wire show headgif width bias v colors_len =
    let name = encode_latin_1 (text_of show v) in
    some (encode_gbyte (pos (100 + length name)) 1 ++ name)
encode_wire show elorating width bias (rating r deviation) colors_len =
    some (encode_gbyte (pos (bit_or (mod_ℤ r (2 ^ 12) * 2 ^ 9) (mod_ℤ deviation (2 ^ 9)))) 3)
encode_wire show attachnpc width bias (attached kind npc) colors_len =
    some (encode_gbyte kind 1 ++ encode_gbyte npc 3)
encode_wire show imagepart width bias (image_part x y w h) colors_len =
    some (encode_gbyte x 2 ++ (encode_gbyte y 2 ++ (encode_gbyte w 1 ++ encode_gbyte h 1)))
encode_wire show w width bias v colors_len = none

unfoldable pub encode_value : (Value → Text) → PropDesc → Value → ℕ → Option Bytes
unfolding encode_wire
encode_value show desc v colors_len = encode_wire show desc.wire desc.width desc.bias v colors_len
