-- ===== src/Props/Encode/RoundTrip.antt =====
-- reborn_protocol/props.py: `encode_value` and `decode_value` are inverse.
use reborn_protocol.Base.{
  ℕ, ◌+◌, ◌*◌, ◌^◌, ◌≤◌, ◌<◌, ◌≡◌, List, [], ◌++◌, Bytes, All, some, length, arith, pos, sub_ℕ,
  Option, none, length-append, drop_append_length,
}
use reborn_protocol.Codec.Reader.{Text}
use reborn_protocol.Props.Tables.{
  Wire, gbyte, raw, string, longstring, void, halftile, tilez, swordpower, powerimage, headgif,
  attachnpc, imagepart, PropDesc,
}
use reborn_protocol.Props.Decode.{
  Value, nothing, number, opaque, text, tiles, powered, attached, image_part, decode_value,
}
use reborn_protocol.Props.Encode.{encode_wire, encode_value}
use reborn_protocol.Props.Encode.Back.{Counts}
use reborn_protocol.Props.Encode.Forms.{
  IsShort, Carries, void_carried, gbyte_carried, raw_carried, string_carried, longstring_carried,
  halftile_carried, tilez_carried, head_carried, headgif_carried,
}
use reborn_protocol.Props.Encode.Pairs.{
  powerimage_carried, swordpower_carried, attachnpc_carried, imagepart_carried,
}

-- The values that a wire form carries unchanged: numbers in the range of the lanes, texts and images
-- that fit their length and are not empty where emptiness means None.
pub data Fits (width bias : ℕ) : Wire → Value → Type 0 where
  of_void : Fits width bias void nothing
  of_gbyte : (n : ℕ) → Counts width n → Fits width bias gbyte (number (pos n))
  of_raw : (b : Bytes) → length b ≡ width → Fits width bias raw (opaque b)
  of_string : (t : List ℕ) → IsShort 1 t → 1 ≤ length t → Fits width bias string (text t)
  of_longstring : (t : List ℕ) → IsShort 2 t → Fits width bias longstring (text t)
  of_halftile : (n : ℕ) → n ≤ 223 → Fits width bias halftile (tiles (pos (n * 2 ^ 7)))
  of_tilez : (n : ℕ) → n ≤ 220 → Fits width bias tilez (number (sub_ℕ n 50))
  of_powerimage :
      (power : ℕ) (image : List ℕ)
      → power ≤ 223
      → IsShort 1 image
      → 1 ≤ length image
      → Fits width bias powerimage (powered (pos power) (some image))
  of_attachnpc :
      (kind npc : ℕ)
      → kind ≤ 223
      → Counts 3 npc
      → Fits width bias attachnpc (attached (pos kind) (pos npc))
  of_imagepart :
      (x y w h : ℕ)
      → Counts 2 x
      → Counts 2 y
      → w ≤ 223
      → h ≤ 223
      → Fits width bias imagepart (image_part (pos x) (pos y) (pos w) (pos h))
  of_swordpower :
      (power : ℕ) (image : List ℕ)
      → bias + power ≤ 223
      → IsShort 1 image
      → 1 ≤ length image
      → Fits width bias swordpower (powered (pos power) (some image))
  of_head : (n : ℕ) → n ≤ 99 → Fits width bias headgif (number (pos n))
  of_headgif :
      (t : List ℕ) → All (λ c. c < 256) t → length t ≤ 123 → Fits width bias headgif (text t)

-- The bytes that `encode_value` gives.
abbrev pub code_of : Option Bytes → Bytes
code_of none = []
code_of (some s) = s

module _ (show : Value → Text) (width bias colors_len : ℕ) where
  coded :
      {w : Wire} {v : Value} {s : Bytes}
      → Carries show width bias colors_len w v s
      → Carries show width bias colors_len w v
          (code_of (encode_wire show w width bias v colors_len))
  coded c = rw (c.encoded) c

  carried :
      (w : Wire) (v : Value)
      → Fits width bias w v
      → Carries show width bias colors_len w v
          (code_of (encode_wire show w width bias v colors_len))
  carried w v of_void = coded (void_carried show width bias colors_len)
  carried w v (of_gbyte n c) = coded (gbyte_carried show width bias colors_len n c)
  carried w v (of_raw b e) = coded (raw_carried show width bias colors_len b e)
  carried w v (of_string t s f) = coded (string_carried show width bias colors_len t s f)
  carried w v (of_longstring t s) = coded (longstring_carried show width bias colors_len t s)
  carried w v (of_halftile n h) = coded (halftile_carried show width bias colors_len n h)
  carried w v (of_tilez n h) = coded (tilez_carried show width bias colors_len n h)
  carried w v (of_powerimage p t h s f) =
      coded (powerimage_carried show width bias colors_len p t h s f)
  carried w v (of_swordpower p t h s f) =
      coded (swordpower_carried show width bias colors_len p t h s f)
  carried w v (of_attachnpc k n h c) = coded (attachnpc_carried show width bias colors_len k n h c)
  carried w v (of_imagepart x y a b c d h k) =
      coded (imagepart_carried show width bias colors_len x y a b c d h k)
  carried w v (of_head n h) = coded (head_carried show width bias colors_len n h)
  carried w v (of_headgif t l h) = coded (headgif_carried show width bias colors_len t l h)

-- A value that fits the wire form of its descriptor has an encoding, and `decode_value` reads the value
-- back from it and stops exactly behind it, wherever it stands in the data. The values are those
-- of `Fits`: numbers in range, raw bytes, short and long texts, half-tiles, heights, heads, powers
-- with an image, attached NPCs and image parts, not the other wire forms.
pub decode_value-encode_value :
    (show : Value → Text) (desc : PropDesc) (v : Value) (colors_len : ℕ) (front rest : Bytes)
    → Fits desc.width desc.bias desc.wire v
    → let s = code_of (encode_value show desc v colors_len) in
      (encode_value show desc v colors_len ≡ some s)
      × (decode_value desc (front ++ (s ++ rest)) (length front) colors_len
          ≡ (v, length front + length s))
unfolding encode_value decode_value
decode_value-encode_value show desc v colors_len front rest f =
    let c = carried show desc.width desc.bias colors_len desc.wire v f in
    let s = code_of (encode_wire show desc.wire desc.width desc.bias v colors_len) in
    (
      c.encoded,
      c.decoded (front ++ (s ++ rest)) (length front) rest (record {
        place = drop_append_length front (s ++ rest);
        within = omega (arith, length-append front (s ++ rest));
      }),
    )
