-- ===== src/Codec/Builder/RoundTrip.antt =====
-- reborn_protocol/codec.py: the numbers of `PacketBuilder` and `PacketReader`.
use reborn_protocol.Base.{
  ℕ, ◌-◌, ◌*◌, ◌/◌, ◌%◌, ◌^◌, ◌≤◌, ◌≡◌, refl, min, [], ◌∷◌, ◌++◌, Bytes, length, length-append,
  append_assoc, arith, ℤ, clamp,
}
use reborn_protocol.Codec.Reader.{
  Text, PacketReader, read_gchar, read_gshort, read_gint3, read_gint4, read_gint5, move,
}
use reborn_protocol.Codec.Builder.{
  PacketBuilder, build, offset, write_gchar, write_gshort, write_gint3, write_gint4, write_gint5,
}
use reborn_protocol.Codec.Builder.Lanes.{
  reader_at, gchar_back, gshort_back, gint3_back, gint4_back, gint5_back, split_two, split_three,
  split_four, split_five,
}

-- A reader over `packet ++ rest` that has read as many bytes as `done` has.
abbrev pub reading : Bytes → Bytes → Bytes → (Bytes → Text) → PacketReader
reading packet rest done decode = record {
  contents = packet ++ rest;
  at = length done;
  decode = decode;
}

-- From what a method makes of `d`, read behind `front`, to the same of a builder's packet.
pub reading_of_back {ℓ} :
    {A : Type ℓ} (read : PacketReader → A × PacketReader) (front d rest : Bytes)
    (decode : Bytes → Text) (n : ℕ) (x y : A)
    → read (reader_at front (d ++ rest) decode) ≡ (x, move (reader_at front (d ++ rest) decode) n)
    → n ≡ length d
    → x ≡ y
    → read (reading (front ++ d) rest front decode)
      ≡ (y, reading (front ++ d) rest (front ++ d) decode)
reading_of_back read front d rest decode n x y e size value =
    rw (append_assoc front d rest, e, size, value, length-append front d)

pub clamp-le : (v : ℤ) (hi : ℕ) → clamp v hi ≤ hi
unfolding clamp
clamp-le v hi = omega arith

module _ (v : ℤ) (b : PacketBuilder) (rest : Bytes) (decode : Bytes → Text) where
  -- Whatever the number and the bytes around it, `read_gchar` reads back what `write_gchar`
  -- wrote: the number, brought into the range from 0 to 223. It stops behind it.
  pub read_gchar-write_gchar :
      let packet = build (write_gchar v b) in
      read_gchar (reading packet rest (build b) decode)
      ≡ (clamp v 223, reading packet rest packet decode)
  unfolding build write_gchar
  read_gchar-write_gchar =
      let x = clamp v 223 in
      reading_of_back read_gchar b.contents (offset x ∷ []) rest decode 1 x x
        (gchar_back b.contents rest decode x (clamp-le v 223)) refl refl

  -- Whatever the number and the bytes around it, `read_gshort` reads back what `write_gshort` wrote
  -- in two bytes: the number, brought into the range from 0 to 28767. It stops behind it.
  pub read_gshort-write_gshort :
      let packet = build (write_gshort v b) in
      read_gshort (reading packet rest (build b) decode)
      ≡ (clamp v 28767, reading packet rest packet decode)
  unfolding build write_gshort
  read_gshort-write_gshort =
      let t = clamp v 28767 in
      let x = min (t / 2 ^ 7) 223 in
      let y = t - x * 2 ^ 7 in
      let (small, sum) = split_two t (clamp-le v 28767) in
      reading_of_back read_gshort b.contents (offset x ∷ offset y ∷ []) rest decode 2 _ t
        (gshort_back b.contents rest decode x y (omega arith) small) refl sum

  -- Whatever the number and the bytes around it, `read_gint3` reads back what `write_gint3` wrote
  -- in three bytes: the number, brought into the range from 0 to 3682399. It stops behind it.
  pub read_gint3-write_gint3 :
      let packet = build (write_gint3 v b) in
      read_gint3 (reading packet rest (build b) decode)
      ≡ (clamp v 3682399, reading packet rest packet decode)
  unfolding build write_gint3
  read_gint3-write_gint3 =
      let t = clamp v 3682399 in
      let x = min (t / 2 ^ 14) 223 in
      let t1 = t - x * 2 ^ 14 in
      let y = min (t1 / 2 ^ 7) 223 in
      let z = t1 - y * 2 ^ 7 in
      let (small, sum) = split_three t (clamp-le v 3682399) in
      reading_of_back read_gint3 b.contents (offset x ∷ offset y ∷ offset z ∷ []) rest decode 3 _ t
        (gint3_back b.contents rest decode x y z (omega arith) (omega arith) small) refl sum

  -- Whatever the number and the bytes around it, `read_gint4` reads back what `write_gint4` wrote
  -- in four bytes: the number, brought into the range from 0 to 471347295. It stops behind it.
  pub read_gint4-write_gint4 :
      let packet = build (write_gint4 v b) in
      read_gint4 (reading packet rest (build b) decode)
      ≡ (clamp v 471347295, reading packet rest packet decode)
  unfolding build write_gint4
  read_gint4-write_gint4 =
      let t = clamp v 471347295 in
      let x = min (t / 2 ^ 21) 223 in
      let t1 = t - x * 2 ^ 21 in
      let y = min (t1 / 2 ^ 14) 223 in
      let t2 = t1 - y * 2 ^ 14 in
      let z = min (t2 / 2 ^ 7) 223 in
      let u = t2 - z * 2 ^ 7 in
      let (small, sum) = split_four t (clamp-le v 471347295) in
      reading_of_back read_gint4 b.contents (offset x ∷ offset y ∷ offset z ∷ offset u ∷ []) rest
        decode 4 _ t
        (gint4_back b.contents rest decode x y z u (omega arith) (omega arith) (omega arith) small)
        refl sum

  -- Whatever the number and the bytes around it, `read_gint5` reads back what `write_gint5` wrote
  -- in five bytes: the number, brought into the range of 32 bits without sign. It stops behind it.
  pub read_gint5-write_gint5 :
      let packet = build (write_gint5 v b) in
      read_gint5 (reading packet rest (build b) decode)
      ≡ (clamp v 0xFFFFFFFF, reading packet rest packet decode)
  unfolding build write_gint5
  read_gint5-write_gint5 =
      let t = clamp v 0xFFFFFFFF in
      let x = min (t / 2 ^ 28 % 2 ^ 8) 15 in
      let t1 = t - x * 2 ^ 28 in
      let y = min (t1 / 2 ^ 21 % 2 ^ 8) 223 in
      let t2 = t1 - y * 2 ^ 21 in
      let z = min (t2 / 2 ^ 14 % 2 ^ 8) 223 in
      let t3 = t2 - z * 2 ^ 14 in
      let u = min (t3 / 2 ^ 7 % 2 ^ 8) 223 in
      let w = (t3 - u * 2 ^ 7) % 2 ^ 8 in
      let (small, sum) = split_five t (clamp-le v 0xFFFFFFFF) in
      reading_of_back read_gint5 b.contents
        (offset x ∷ offset y ∷ offset z ∷ offset u ∷ offset w ∷ []) rest decode 5 _ t
        (gint5_back b.contents rest decode x y z u w (omega arith) (omega arith) (omega arith)
          (omega arith) small (omega (arith, sum, clamp-le v 0xFFFFFFFF)))
        refl sum
