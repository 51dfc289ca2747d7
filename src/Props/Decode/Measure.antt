-- ===== src/Props/Decode/Measure.antt =====
-- reborn_protocol/props.py: `payload_len` and `decode_value`.
use reborn_protocol.Base.{ℕ, ◌+◌, ◌-◌, ◌≤◌, ◌≡◌, max, Bytes, none, some, length, arith}
use reborn_protocol.Props.Tables.{Wire, void, PropDesc}
use reborn_protocol.Props.Lanes.{read_gbyte}
use reborn_protocol.Props.Decode.{
  read_string, decode_effectcolors, decode_swordpower, decode_powerimage, decode_headgif,
  decode_imagepart, decode_wire, decode_value, fixed_len, min_len, payload_len,
}

measured : (w : Wire) → ℕ → ℕ → Bytes → ℕ → ℕ → ℕ
measured w width bias d at colors_len = elim (fixed_len w width colors_len) [
  | some n ↦ n
  | none ↦ max (min_len w) ((decode_wire w width bias d at colors_len).1 - at)
]

wire_measured :
    (w : Wire) (width bias : ℕ) (d : Bytes) (at colors_len : ℕ)
    → at + measured w width bias d at colors_len ≤ length d
    → (decode_wire w width bias d at colors_len).1 ≡ at + measured w width bias d at colors_len
unfolding measured fixed_len min_len decode_wire read_gbyte read_string decode_effectcolors
    decode_swordpower decode_powerimage decode_headgif decode_imagepart
wire_measured void width bias d at colors_len h = ground arith
wire_measured w width bias d at colors_len h = ground arith

-- If the payload that `payload_len` measures lies inside the data, `decode_value` stops exactly
-- behind it: for every descriptor, whatever its form, width and bias, and for every place.
pub decode_value-payload_len :
    (desc : PropDesc) (d : Bytes) (at colors_len : ℕ)
    → at + payload_len desc d at colors_len ≤ length d
    → (decode_value desc d at colors_len).1 ≡ at + payload_len desc d at colors_len
unfolding payload_len decode_value
decode_value-payload_len desc d at colors_len h =
    unfold measured in wire_measured desc.wire desc.width desc.bias d at colors_len h

wire_forward :
    (w : Wire) (width bias : ℕ) (d : Bytes) (at colors_len : ℕ)
    → at ≤ length d
    → at ≤ (decode_wire w width bias d at colors_len).1
unfolding decode_wire read_gbyte read_string decode_effectcolors decode_swordpower decode_powerimage
    decode_headgif decode_imagepart
wire_forward void width bias d at colors_len h = ground arith
wire_forward w width bias d at colors_len h = ground arith

-- From a place inside the data `decode_value` never moves back.
pub decode_value_forward :
    (desc : PropDesc) (d : Bytes) (at colors_len : ℕ)
    → at ≤ length d
    → at ≤ (decode_value desc d at colors_len).1
unfolding decode_value
decode_value_forward desc d at colors_len h =
    wire_forward desc.wire desc.width desc.bias d at colors_len h
