-- ===== src/Codec/Builder/Strings.antt =====
-- reborn_protocol/codec.py: the texts and positions of `PacketBuilder` and `PacketReader`.
use reborn_protocol.Base.{
  ℕ, suc, ◌+◌, ◌-◌, ◌*◌, ◌/◌, ◌^◌, ◌≤◌, ◌<◌, ◌≡◌, refl, ap, ◌∙◌, min, [], ◌∷◌, ◌++◌, Bytes, All,
  All-append, length, length-append, length-take, append_assoc, take, arith, ltb, le→ltb,
  take_append_length, drop_append_length, ℤ, pos, negsuc, pos_part, neg_part, clamp, shl, trunc_div,
  floor_div, mod_ℤ, or_fields, false,
}
use reborn_protocol.Codec.Reader.{
  Text, read_string, read_gstring, read_gstring_short, read_position2, from_raw,
}
use reborn_protocol.Codec.Builder.{
  PacketBuilder, build, offset, encode_latin_1, write_gchar, write_gshort, write_gint3, write_gint4,
  write_gint5, write_gstring, write_gstring_short, write_position2, to_raw,
}
use reborn_protocol.Codec.Builder.Lanes.{
  position2_back, split_two, split_three, split_four, split_five,
}
use reborn_protocol.Codec.Builder.RoundTrip.{
  reading, reading_of_back, read_gchar-write_gchar, read_gshort-write_gshort, clamp-le,
}

-- Whole texts are read where they stand.
read_string_whole :
    (front d rest : Bytes) (decode : Bytes → Text)
    → read_string
        (pos (length d))
        (record { contents = front ++ (d ++ rest); at = length front; decode = decode })
      ≡ (
        decode d,
        record { contents = front ++ (d ++ rest); at = length front + length d; decode = decode },
      )
unfolding read_string
read_string_whole front d rest decode =
    let inside : ltb (length (front ++ (d ++ rest))) (length front + length d) ≡ false =
      le→ltb _ _ (omega (arith, length-append front (d ++ rest), length-append d rest)) in
    rw (inside, drop_append_length front (d ++ rest), take_append_length d rest)

module _ (value : Text) (b : PacketBuilder) (rest : Bytes) (decode : Bytes → Text) where
  -- `read_gstring` reads back the bytes that `write_gstring` wrote: the encoded text, cut off
  -- after 223 bytes. It stops behind them.
  pub read_gstring-write_gstring :
      let packet = build (write_gstring value b) in
      read_gstring (reading packet rest (build b) decode)
      ≡ (decode (take 223 (encode_latin_1 value)), reading packet rest packet decode)
  unfolding read_gstring write_gstring build
  read_gstring-write_gstring =
      let encoded = take 223 (encode_latin_1 value) in
      let w = write_gchar (pos (length encoded)) b in
      let size : clamp (pos (length encoded)) 223 ≡ length encoded =
        unfold clamp in omega (arith, length-take 223 (encode_latin_1 value)) in
      rw
        (
          append_assoc w.contents encoded rest,
          read_gchar-write_gchar (pos (length encoded)) b (encoded ++ rest) decode,
          size,
          length-append w.contents encoded,
        )
        (read_string_whole w.contents encoded rest decode)

  -- `read_gstring_short` reads back the bytes that `write_gstring_short` wrote behind a length of
  -- two bytes: the encoded text, cut off after 28767 bytes. It stops behind them.
  pub read_gstring_short-write_gstring_short :
      let packet = build (write_gstring_short value b) in
      read_gstring_short (reading packet rest (build b) decode)
      ≡ (decode (take 28767 (encode_latin_1 value)), reading packet rest packet decode)
  unfolding read_gstring_short write_gstring_short build
  read_gstring_short-write_gstring_short =
      let encoded = take 28767 (encode_latin_1 value) in
      let w = write_gshort (pos (length encoded)) b in
      let size : clamp (pos (length encoded)) 28767 ≡ length encoded =
        unfold clamp in omega (arith, length-take 28767 (encode_latin_1 value)) in
      rw
        (
          append_assoc w.contents encoded rest,
          read_gshort-write_gshort (pos (length encoded)) b (encoded ++ rest) decode,
          size,
          length-append w.contents encoded,
        )
        (read_string_whole w.contents encoded rest decode)

from_raw-to_raw : (pixels : ℤ) → from_raw (pos (to_raw pixels)) ≡ shl pixels 4
unfolding from_raw to_raw floor_div mod_ℤ shl
from_raw-to_raw (pos n) = ground arith
from_raw-to_raw (negsuc n) = ground (arith, or_fields 1 (suc n) 1 (omega arith))

-- The methods that write a number.
pub data Number : Type 0 where
  gchar gshort gint3 gint4 gint5 position2 : Number

pub write : Number → ℤ → PacketBuilder → PacketBuilder
write gchar = write_gchar
write gshort = write_gshort
write gint3 = write_gint3
write gint4 = write_gint4
write gint5 = write_gint5
write position2 = write_position2

-- From 32 on, up to 255.
abbrev pub IsPrintable : Bytes → Type 0
IsPrintable = All (λ x. (32 ≤ x) × (x < 256))

to_raw-le : (pixels : ℤ) → pos_part pixels + neg_part pixels < 14384 → to_raw pixels ≤ 28767
unfolding to_raw
to_raw-le (pos n) h = ground arith
to_raw-le (negsuc n) h = ground (arith, or_fields 1 (suc n) 1 (omega arith))

-- A position comes back rounded towards zero to whole pixels, if it is less than 14384 pixels
-- from the origin.
read_position2-write_position2 :
    (tiles : ℤ) (b : PacketBuilder) (rest : Bytes) (decode : Bytes → Text)
    → pos_part (trunc_div tiles 16) + neg_part (trunc_div tiles 16) < 14384
    → let packet = build (write_position2 tiles b) in
      read_position2 (reading packet rest (build b) decode)
      ≡ (shl (trunc_div tiles 16) 4, reading packet rest packet decode)
unfolding write_position2 write_gshort build
read_position2-write_position2 tiles b rest decode h =
    let pixels = trunc_div tiles 16 in
    let raw = to_raw pixels in
    let t = clamp (pos raw) 28767 in
    let x = min (t / 2 ^ 7) 223 in
    let y = t - x * 2 ^ 7 in
    let (small, sum) = split_two t (clamp-le (pos raw) 28767) in
    let all : t ≡ raw = unfold clamp in omega (arith, to_raw-le pixels h) in
    reading_of_back read_position2 b.contents (offset x ∷ offset y ∷ []) rest decode 2
      (from_raw (pos (x * 2 ^ 7 + y))) (shl pixels 4)
      (position2_back b.contents rest decode x y (omega arith) small) refl
      (ap (λ (n : ℕ). from_raw (pos n)) (sum ∙ all) ∙ from_raw-to_raw pixels)

-- A method that writes a number adds bytes from 32 to 255 only, so no newline: a packet that had
-- only such bytes has only such bytes after it.
pub write-IsPrintable :
    (m : Number) (v : ℤ) (b : PacketBuilder)
    → IsPrintable (build b)
    → IsPrintable (build (write m v b))
unfolding build write write_gchar write_gshort write_gint3 write_gint4 write_gint5 write_position2
write-IsPrintable gchar v b h = All-append _ b.contents _ h (omega (arith, clamp-le v 223))
write-IsPrintable gshort v b h =
    All-append _ b.contents _ h (omega (arith, split_two (clamp v 28767) (clamp-le v 28767)))
write-IsPrintable gint3 v b h =
    All-append _ b.contents _ h (omega (arith, split_three (clamp v 3682399) (clamp-le v 3682399)))
write-IsPrintable gint4 v b h =
    All-append _ b.contents _ h
      (omega (arith, split_four (clamp v 471347295) (clamp-le v 471347295)))
write-IsPrintable gint5 v b h =
    All-append _ b.contents _ h
      (omega (arith, split_five (clamp v 0xFFFFFFFF) (clamp-le v 0xFFFFFFFF)))
write-IsPrintable position2 v b h =
    let raw = pos (to_raw (trunc_div v 16)) in
    All-append _ b.contents _ h (omega (arith, split_two (clamp raw 28767) (clamp-le raw 28767)))
