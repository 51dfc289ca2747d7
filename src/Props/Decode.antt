-- ===== src/Props/Decode.antt =====
-- reborn_protocol/props.py: `decode_value` and `payload_len`. Tiles are counted in 1/256 of a tile.
pub mod Measure
use reborn_protocol.Base.{
  ℕ, zero, suc, ◌+◌, ◌-◌, ◌*◌, ◌/◌, ◌%◌, ◌^◌, min, max, List, [], ◌∷◌, Bytes, Bool, true, false,
  Option, none, some, length, get_or, take, drop, map, ltb, leb, ◌==◌, if◌then◌else◌, ℤ, pos,
  negsuc, pos_part, neg, sub_ℕ, shl, ltb_ℤ, ◌+ℤ◌,
}
use reborn_protocol.Codec.Reader.{Text, from_raw}
use reborn_protocol.Props.Tables.{
  Wire, gbyte, raw, string, longstring, void, tile, halftile, tilez, pixel, colors, effectcolors,
  swordpower, powerimage, headgif, elorating, attachnpc, imagepart, PropDesc,
}
use reborn_protocol.Props.Lanes.{read_gbyte}

abbrev pub colors_classic : ℕ
colors_classic = 5

abbrev pub colors_newworld : ℕ
colors_newworld = 8

-- Python's values of a property. `nothing` is `None`; `powered` is a pair of a power and an
-- image, whose image may be `None`.
pub data Value : Type 0 where
  nothing : Value
  number : ℤ → Value
  opaque : Bytes → Value
  text : Text → Value
  tiles : ℤ → Value
  palette : List ℤ → Value
  powered : ℤ → Option Text → Value
  rating : ℤ → ℤ → Value
  attached : ℤ → ℤ → Value
  image_part : ℤ → ℤ → ℤ → ℤ → Value

-- `data[pos] - 32`
abbrev pub at_offset : Bytes → ℕ → ℤ
at_offset d at = sub_ℕ (get_or d at 0) 32

-- `data[pos:end]`, decoded as latin-1.
abbrev pub slice : Bytes → ℕ → ℕ → Bytes
slice d at end = take (end - at) (drop at d)

-- `_read_string` on the length that was read.
abbrev string_at : Bytes → Option ℕ × ℕ → Option Text × ℕ
string_at d (none, at) = (none, at)
string_at d (some size, at) =
    if size == 0
    then (none, at)
    else if ltb (length d) (at + size)
    then (none, at + size)
    else (some (slice d at (at + size)), at + size)

unfoldable pub read_string : Bytes → ℕ → ℕ → Option Text × ℕ
read_string d at length_bytes = string_at d (read_gbyte d at length_bytes)

abbrev pub text_or_nothing : Option Text → Value
text_or_nothing none = nothing
text_or_nothing (some t) = text t

abbrev pub number_or_nothing : Option ℕ → Value
number_or_nothing none = nothing
number_or_nothing (some n) = number (pos n)

abbrev longstring_at : Bytes → Option ℕ × ℕ → Value × ℕ
longstring_at d (none, at) = (nothing, length d)
longstring_at d (some size, at) = (text (slice d at (min (at + size) (length d))), at + size)

-- `_read_signed_halftile`
unfoldable pub signed_halftile : ℤ → ℤ
signed_halftile r = shl (if ltb_ℤ r (pos 216) then r else r +ℤ neg (pos 256)) 7

abbrev pixel_at : Option ℕ × ℕ → Value × ℕ
pixel_at (none, at) = (nothing, at)
pixel_at (some r, at) = (tiles (from_raw (pos r)), at)

-- `[max(0, data[i] - 32) for i in range(pos, end)]`
abbrev pub palette_of : Bytes → List ℤ
palette_of = map (λ b. pos (pos_part (sub_ℕ b 32)))

-- `image or ''`
abbrev or_empty : Option Text → Option Text
or_empty none = some []
or_empty (some t) = some t

abbrev rating_at : Option ℕ × ℕ → Value × ℕ
rating_at (none, at) = (nothing, at)
rating_at (some n, at) = (rating (pos (n / 2 ^ 9 % 2 ^ 12)) (pos (n % 2 ^ 9)), at)

abbrev attached_at : ℤ → Option ℕ × ℕ → Value × ℕ
attached_at kind (none, at) = (nothing, at)
attached_at kind (some n, at) = (attached kind (pos n), at)

abbrev or_zero : Option ℕ → ℤ
or_zero none = pos 0
or_zero (some n) = pos n

-- One function for each form that has branches of its own.
unfoldable pub decode_effectcolors : Bytes → ℕ → Value × ℕ
decode_effectcolors d at =
    if leb (length d) at
    then (nothing, at)
    else if get_or d at 0 == 32
    then (palette (pos 0 ∷ []), at + 1)
    else (palette (palette_of (slice d at (min (at + 5) (length d)))), at + 5)

unfoldable pub decode_swordpower : ℕ → Bytes → ℕ → Value × ℕ
decode_swordpower bias d at =
    if leb (length d) at
    then (powered (pos 0) none, at)
    else (let r = at_offset d at in
        if ltb_ℤ r (pos bias)
        then (powered (pos (pos_part r)) none, at + 1)
        else (let (image, end) = read_string d (at + 1) 1 in
            (powered (pos (pos_part (r +ℤ neg (pos bias)))) (or_empty image), end)))

unfoldable pub decode_headgif : Bytes → ℕ → Value × ℕ
decode_headgif d at =
    if leb (length d) at
    then (nothing, at)
    else (let size = at_offset d at in
        if ltb_ℤ size (pos 100)
        then (number size, at + 1)
        else (let end = at + 1 + pos_part (size +ℤ neg (pos 100)) in
            if ltb (length d) end then (nothing, end) else (text (slice d (at + 1) end), end)))

unfoldable pub decode_powerimage : Bytes → ℕ → Value × ℕ
decode_powerimage d at =
    if leb (length d) at
    then (nothing, at)
    else (let (image, end) = read_string d (at + 1) 1 in
        (powered (pos (pos_part (at_offset d at))) image, end))

unfoldable pub decode_imagepart : Bytes → ℕ → Value × ℕ
decode_imagepart d at =
    if ltb (length d) (at + 6)
    then (nothing, length d)
    else (let (px, at1) = read_gbyte d at 2 in
        let (py, at2) = read_gbyte d at1 2 in
        (image_part (or_zero px) (or_zero py) (at_offset d at2) (at_offset d (at2 + 1)), at2 + 2))

-- `decode_value` at a wire form, a width and a bias.
unfoldable pub decode_wire : Wire → ℕ → ℕ → Bytes → ℕ → ℕ → Value × ℕ
decode_wire void width bias d at colors_len = (nothing, at)
decode_wire gbyte width bias d at colors_len =
    let (n, end) = read_gbyte d at width in (number_or_nothing n, end)
decode_wire raw width bias d at colors_len =
    if ltb (length d) (at + width)
    then (nothing, length d)
    else (opaque (slice d at (at + width)), at + width)
decode_wire string width bias d at colors_len =
    let (t, end) = read_string d at 1 in (text_or_nothing t, end)
decode_wire longstring width bias d at colors_len = longstring_at d (read_gbyte d at 2)
decode_wire tile width bias d at colors_len =
    if leb (length d) at then (nothing, at) else (tiles (signed_halftile (at_offset d at)), at + 1)
decode_wire halftile width bias d at colors_len =
    if leb (length d) at then (nothing, at) else (tiles (shl (at_offset d at) 7), at + 1)
decode_wire tilez width bias d at colors_len =
    if leb (length d) at then (nothing, at) else (number (at_offset d at +ℤ neg (pos 50)), at + 1)
decode_wire pixel width bias d at colors_len = pixel_at (read_gbyte d at 2)
decode_wire colors width bias d at colors_len =
    (palette (palette_of (slice d at (min (at + colors_len) (length d)))), at + colors_len)
decode_wire effectcolors width bias d at colors_len = decode_effectcolors d at
decode_wire swordpower width bias d at colors_len = decode_swordpower bias d at
decode_wire powerimage width bias d at colors_len = decode_powerimage d at
decode_wire headgif width bias d at colors_len = decode_headgif d at
decode_wire elorating width bias d at colors_len = rating_at (read_gbyte d at 3)
decode_wire attachnpc width bias d at colors_len =
    if leb (length d) at
    then (nothing, at)
    else attached_at (at_offset d at) (read_gbyte d (at + 1) 3)
decode_wire imagepart width bias d at colors_len = decode_imagepart d at

unfoldable pub decode_value : PropDesc → Bytes → ℕ → ℕ → Value × ℕ
unfolding decode_wire decode_effectcolors decode_swordpower decode_powerimage decode_headgif
    decode_imagepart read_string read_gbyte
decode_value desc d at colors_len = decode_wire desc.wire desc.width desc.bias d at colors_len

-- `_FIXED_PAYLOAD`, with the three forms that `payload_len` treats before it.
unfoldable pub fixed_len : Wire → ℕ → ℕ → Option ℕ
fixed_len gbyte width colors_len = some width
fixed_len raw width colors_len = some width
fixed_len colors width colors_len = some colors_len
fixed_len void width colors_len = some 0
fixed_len tile width colors_len = some 1
fixed_len halftile width colors_len = some 1
fixed_len tilez width colors_len = some 1
fixed_len pixel width colors_len = some 2
fixed_len elorating width colors_len = some 3
fixed_len attachnpc width colors_len = some 4
fixed_len imagepart width colors_len = some 6
fixed_len string width colors_len = none
fixed_len longstring width colors_len = none
fixed_len effectcolors width colors_len = none
fixed_len swordpower width colors_len = none
fixed_len powerimage width colors_len = none
fixed_len headgif width colors_len = none

-- `_MIN_PAYLOAD`
unfoldable pub min_len : Wire → ℕ
min_len longstring = 2
min_len string = 1
min_len effectcolors = 1
min_len swordpower = 1
min_len powerimage = 1
min_len headgif = 1
min_len w = 0

-- A derived length below 0, where a decoder stops at the end of data that ends before `at`, is
-- below the minimum too.
unfoldable pub payload_len : PropDesc → Bytes → ℕ → ℕ → ℕ
payload_len desc d at colors_len = elim (fixed_len desc.wire desc.width colors_len) [
  | some n ↦ n
  | none ↦ max (min_len desc.wire) ((decode_value desc d at colors_len).1 - at)
]
