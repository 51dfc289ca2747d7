-- ===== src/Props/Encode/Images.antt =====
-- reborn_protocol/props.py: the powers and images of swords and shields.
use reborn_protocol.Base.{
  ℕ, ◌+◌, ◌-◌, ◌<◌, ◌≡◌, refl, [], ◌∷◌, ◌++◌, Bytes, none, some, length, get_or, arith, pos, +ℤ-pos,
}
use reborn_protocol.Codec.Builder.{encode_latin_1}
use reborn_protocol.Codec.Reader.{Text}
use reborn_protocol.Props.Tables.{PropDesc, swordpower}
use reborn_protocol.Props.Lanes.{encode_gbyte}
use reborn_protocol.Props.Decode.{Value, powered, decode_value, decode_swordpower}
use reborn_protocol.Props.Encode.{encode_value, encode_power_image, encode_gstring}

-- An image that is `None`, as `_gstring` writes it.
none_spelled :
    encode_gstring (b'N' ∷ b'o' ∷ b'n' ∷ b'e' ∷ []) 1 ≡ 36 ∷ b'N' ∷ b'o' ∷ b'n' ∷ b'e' ∷ []
unfolding encode_gstring encode_gbyte encode_latin_1
none_spelled = refl

-- A sword or shield power on the wire with no image, one byte, is decoded to a pair whose image
-- is `None`. Encoded again that pair does not become the byte: it becomes the biased power and an
-- image with the name `None`, six bytes in all.
pub encode_value_bare_power :
    (show : Value → Text) (desc : PropDesc) (d : Bytes) (at colors_len : ℕ)
    → desc.wire ≡ swordpower
    → at < length d
    → get_or d at 0 < 32 + desc.bias
    → let power = get_or d at 0 - 32 in
      (decode_value desc d at colors_len ≡ (powered (pos power) none, at + 1))
      × (encode_value show desc (powered (pos power) none) colors_len
          ≡ some (encode_gbyte (pos (desc.bias + power)) 1 ++ 36 ∷ b'N' ∷ b'o' ∷ b'n' ∷ b'e' ∷ []))
unfolding decode_value encode_value
encode_value_bare_power show desc d at colors_len w inside bare =
    let power = get_or d at 0 - 32 in
    rw w (
      unfold decode_swordpower in ground arith,
      unfold encode_power_image in rw (+ℤ-pos desc.bias power, none_spelled),
    )
