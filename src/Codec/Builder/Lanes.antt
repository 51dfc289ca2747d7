-- ===== src/Codec/Builder/Lanes.antt =====
-- reborn_protocol/codec.py: the lanes of seven bits of the writers and the readers.
use reborn_protocol.Base.{
  ℕ, suc, ◌+◌, ◌-◌, ◌*◌, ◌/◌, ◌%◌, ◌^◌, ◌≤◌, ◌<◌, ◌≡◌, refl, ap₂, min, [], ◌∷◌, ◌++◌, Bytes, length,
  length-append, get_or, get_or-append, arith, lt→leb, pos, sub_ℕ, mod_ℤ, shl-pos, +ℤ-pos,
}
use reborn_protocol.Codec.Reader.{
  Text, PacketReader, lane, read_gchar, read_gshort, read_gint3, read_gint4, read_gint5,
  read_position2, from_raw, move,
}
use reborn_protocol.Codec.Builder.{offset}

-- A reader that stands behind `front`.
abbrev pub reader_at : Bytes → Bytes → (Bytes → Text) → PacketReader
reader_at front rest decode = record {
  contents = front ++ rest;
  at = length front;
  decode = decode;
}

get_or-append_add :
    (front d : Bytes) (i : ℕ) → get_or (front ++ d) (length front + i) 0 ≡ get_or d i 0
get_or-append_add [] d i = let e : 0 + i ≡ i = omega arith in rw e
get_or-append_add (x ∷ front) d i =
    let e : suc (length front) + i ≡ suc (length front + i) = omega arith in
    rw e (get_or-append_add front d i)

-- The lane that a written byte stands for.
sub-offset : (x : ℕ) → x ≤ 223 → sub_ℕ (offset x) 32 ≡ pos x
sub-offset x h = ground arith

pub lane-append :
    (front d : Bytes) (decode : Bytes → Text) (i x : ℕ)
    → get_or d i 0 ≡ offset x
    → x ≤ 223
    → lane (reader_at front d decode) i ≡ pos x
lane-append front d decode i x e h = rw (get_or-append_add front d i, e) (sub-offset x h)

module _ (front rest : Bytes) (decode : Bytes → Text) where
  pub gchar_back :
      (x : ℕ)
      → x ≤ 223
      → read_gchar (reader_at front (offset x ∷ rest) decode)
        ≡ (x, move (reader_at front (offset x ∷ rest) decode) 1)
  unfolding read_gchar
  gchar_back x h =
      let d = offset x ∷ rest in
      let first : get_or (front ++ d) (length front) 0 ≡ offset x = get_or-append front d 0 in
      rw (
        lt→leb (length (front ++ d)) (length front) (omega (arith, length-append front d)),
        first,
        sub-offset x h,
      )

  pub gshort_back :
      (x y : ℕ)
      → x ≤ 223
      → y ≤ 223
      → read_gshort (reader_at front (offset x ∷ offset y ∷ rest) decode)
        ≡ (x * 2 ^ 7 + y, move (reader_at front (offset x ∷ offset y ∷ rest) decode) 2)
  unfolding read_gshort
  gshort_back x y h0 h1 =
      let d = offset x ∷ offset y ∷ rest in
      rw (
        lt→leb (length (front ++ d)) (length front + 1) (omega (arith, length-append front d)),
        lane-append front d decode 0 x refl h0,
        lane-append front d decode 1 y refl h1,
        shl-pos x 7,
        +ℤ-pos (x * 2 ^ 7) (y),
      )

  pub position2_back :
      (x y : ℕ)
      → x ≤ 223
      → y ≤ 223
      → read_position2 (reader_at front (offset x ∷ offset y ∷ rest) decode) ≡ (
        from_raw (pos (x * 2 ^ 7 + y)),
        move (reader_at front (offset x ∷ offset y ∷ rest) decode) 2,
      )
  unfolding read_position2
  position2_back x y h0 h1 =
      let d = offset x ∷ offset y ∷ rest in
      rw (
        lt→leb (length (front ++ d)) (length front + 1) (omega (arith, length-append front d)),
        lane-append front d decode 0 x refl h0,
        lane-append front d decode 1 y refl h1,
        shl-pos x 7,
        +ℤ-pos (x * 2 ^ 7) (y),
      )

  pub gint3_back :
      (x y z : ℕ)
      → x ≤ 223
      → y ≤ 223
      → z ≤ 223
      → read_gint3 (reader_at front (offset x ∷ offset y ∷ offset z ∷ rest) decode) ≡ (
        x * 2 ^ 14 + y * 2 ^ 7 + z,
        move (reader_at front (offset x ∷ offset y ∷ offset z ∷ rest) decode) 3,
      )
  unfolding read_gint3
  gint3_back x y z h0 h1 h2 =
      let d = offset x ∷ offset y ∷ offset z ∷ rest in
      rw (
        lt→leb (length (front ++ d)) (length front + 2) (omega (arith, length-append front d)),
        lane-append front d decode 0 x refl h0,
        lane-append front d decode 1 y refl h1,
        lane-append front d decode 2 z refl h2,
        shl-pos x 14,
        shl-pos y 7,
        +ℤ-pos (x * 2 ^ 14) (y * 2 ^ 7),
        +ℤ-pos (x * 2 ^ 14 + y * 2 ^ 7) (z),
      )

  pub gint4_back :
      (x y z u : ℕ)
      → x ≤ 223
      → y ≤ 223
      → z ≤ 223
      → u ≤ 223
      → read_gint4 (reader_at front (offset x ∷ offset y ∷ offset z ∷ offset u ∷ rest) decode) ≡ (
        x * 2 ^ 21 + y * 2 ^ 14 + z * 2 ^ 7 + u,
        move (reader_at front (offset x ∷ offset y ∷ offset z ∷ offset u ∷ rest) decode) 4,
      )
  unfolding read_gint4
  gint4_back x y z u h0 h1 h2 h3 =
      let d = offset x ∷ offset y ∷ offset z ∷ offset u ∷ rest in
      rw (
        lt→leb (length (front ++ d)) (length front + 3) (omega (arith, length-append front d)),
        lane-append front d decode 0 x refl h0,
        lane-append front d decode 1 y refl h1,
        lane-append front d decode 2 z refl h2,
        lane-append front d decode 3 u refl h3,
        shl-pos x 21,
        shl-pos y 14,
        shl-pos z 7,
        +ℤ-pos (x * 2 ^ 21) (y * 2 ^ 14),
        +ℤ-pos (x * 2 ^ 21 + y * 2 ^ 14) (z * 2 ^ 7),
        +ℤ-pos (x * 2 ^ 21 + y * 2 ^ 14 + z * 2 ^ 7) (u),
      )

  pub gint5_back :
      (x y z u w : ℕ)
      → x ≤ 223
      → y ≤ 223
      → z ≤ 223
      → u ≤ 223
      → w ≤ 223
      → x * 2 ^ 28 + y * 2 ^ 21 + z * 2 ^ 14 + u * 2 ^ 7 + w < 2 ^ 32
      → read_gint5
          (reader_at front (offset x ∷ offset y ∷ offset z ∷ offset u ∷ offset w ∷ rest) decode)
        ≡ (
          x * 2 ^ 28 + y * 2 ^ 21 + z * 2 ^ 14 + u * 2 ^ 7 + w,
          move
              (reader_at front (offset x ∷ offset y ∷ offset z ∷ offset u ∷ offset w ∷ rest) decode)
              5,
        )
  unfolding read_gint5 mod_ℤ
  gint5_back x y z u w h0 h1 h2 h3 h4 h =
      let d = offset x ∷ offset y ∷ offset z ∷ offset u ∷ offset w ∷ rest in
      rw
        (
          lt→leb (length (front ++ d)) (length front + 4) (omega (arith, length-append front d)),
          lane-append front d decode 0 x refl h0,
          lane-append front d decode 1 y refl h1,
          lane-append front d decode 2 z refl h2,
          lane-append front d decode 3 u refl h3,
          lane-append front d decode 4 w refl h4,
          shl-pos x 28,
          shl-pos y 21,
          shl-pos z 14,
          shl-pos u 7,
          +ℤ-pos (x * 2 ^ 28) (y * 2 ^ 21),
          +ℤ-pos (x * 2 ^ 28 + y * 2 ^ 21) (z * 2 ^ 14),
          +ℤ-pos (x * 2 ^ 28 + y * 2 ^ 21 + z * 2 ^ 14) (u * 2 ^ 7),
          +ℤ-pos (x * 2 ^ 28 + y * 2 ^ 21 + z * 2 ^ 14 + u * 2 ^ 7) (w),
        )
        (ap₂ (λ (v : ℕ) (r : PacketReader). (v, r)) (omega arith) refl)

-- The lanes that the writers compute are small and carry the whole value.
module _ (t : ℕ) where
  pub split_two :
      t ≤ 28767
      → let x = min (t / 2 ^ 7) 223 in (t - x * 2 ^ 7 ≤ 223) × (x * 2 ^ 7 + (t - x * 2 ^ 7) ≡ t)
  split_two h = omega arith

  pub split_three :
      t ≤ 3682399
      → let x = min (t / 2 ^ 14) 223 in
        let t1 = t - x * 2 ^ 14 in
        let y = min (t1 / 2 ^ 7) 223 in
        (t1 - y * 2 ^ 7 ≤ 223) × (x * 2 ^ 14 + y * 2 ^ 7 + (t1 - y * 2 ^ 7) ≡ t)
  split_three h = omega arith

  pub split_four :
      t ≤ 471347295
      → let x = min (t / 2 ^ 21) 223 in
        let t1 = t - x * 2 ^ 21 in
        let y = min (t1 / 2 ^ 14) 223 in
        let t2 = t1 - y * 2 ^ 14 in
        let z = min (t2 / 2 ^ 7) 223 in
        (t2 - z * 2 ^ 7 ≤ 223) × (x * 2 ^ 21 + y * 2 ^ 14 + z * 2 ^ 7 + (t2 - z * 2 ^ 7) ≡ t)
  split_four h = omega arith

  pub split_five :
      t ≤ 0xFFFFFFFF
      → let x = min (t / 2 ^ 28 % 2 ^ 8) 15 in
        let t1 = t - x * 2 ^ 28 in
        let y = min (t1 / 2 ^ 21 % 2 ^ 8) 223 in
        let t2 = t1 - y * 2 ^ 21 in
        let z = min (t2 / 2 ^ 14 % 2 ^ 8) 223 in
        let t3 = t2 - z * 2 ^ 14 in
        let u = min (t3 / 2 ^ 7 % 2 ^ 8) 223 in
        ((t3 - u * 2 ^ 7) % 2 ^ 8 ≤ 223)
        × (x * 2 ^ 28 + y * 2 ^ 21 + z * 2 ^ 14 + u * 2 ^ 7 + (t3 - u * 2 ^ 7) % 2 ^ 8 ≡ t)
  split_five h = omega arith
