-- ===== src/Props/Lanes/Same.antt =====
-- reborn_protocol/props.py: `_gbyte` and `_read_gbyte`, with the `PacketBuilder` and
-- `PacketReader` of reborn_protocol/codec.py.
use reborn_protocol.Base.{
  ℕ, ◌+◌, ◌-◌, ◌*◌, ◌/◌, ◌^◌, ◌≤◌, ◌≡◌, refl, ap, sym, ◌∙◌, min, List, [], ◌∷◌, some, length, leb,
  ℤ, pos, pos_part, shl, clamp, ◌+ℤ◌, map, arith, zero-+ℤ, shl-zero, Bool-cases, inl, inr,
}
use reborn_protocol.Codec.Reader.{
  PacketReader, lane, read_gshort, read_gint3, read_gint4, read_gint5,
}
use reborn_protocol.Codec.Builder.{
  PacketBuilder, extend, offset, write_gchar, write_gshort, write_gint3, write_gint4,
}
use reborn_protocol.Props.Lanes.{lane_sum, read_gbyte, lanes_of, encode_gbyte}

abbrev two_lanes : ℕ → List ℕ
two_lanes t = let x = min (t / 2 ^ 7) 223 in x ∷ (t - x * 2 ^ 7) ∷ []

abbrev three_lanes : ℕ → List ℕ
three_lanes t = let x = min (t / 2 ^ 14) 223 in x ∷ two_lanes (t - x * 2 ^ 14)

abbrev four_lanes : ℕ → List ℕ
four_lanes t = let x = min (t / 2 ^ 21) 223 in x ∷ three_lanes (t - x * 2 ^ 21)

-- A lane list of the builder, over a number in range, is `_gbyte`'s over that number.
lanes_two : (t : ℕ) → t ≤ 28767 → two_lanes t ≡ lanes_of 1 t
unfolding lanes_of
lanes_two t h =
    let x = min (t / 2 ^ 7) 223 in
    let last : t - x * 2 ^ 7 ≡ min (t - x * 2 ^ 7) 223 = omega arith in
    ap (λ (y : ℕ). x ∷ y ∷ []) last

lanes_three : (t : ℕ) → t ≤ 3682399 → three_lanes t ≡ lanes_of 2 t
lanes_three t h =
    let x = min (t / 2 ^ 14) 223 in
    ap (λ (r : List ℕ). x ∷ r) (lanes_two (t - x * 2 ^ 14) (omega arith)) ∙ unfold lanes_of in refl

lanes_four : (t : ℕ) → t ≤ 471347295 → four_lanes t ≡ lanes_of 3 t
lanes_four t h =
    let x = min (t / 2 ^ 21) 223 in
    ap (λ (r : List ℕ). x ∷ r) (lanes_three (t - x * 2 ^ 21) (omega arith))
    ∙ unfold lanes_of in refl

-- Above the range every lane is full.
lanes_above_two : (n : ℕ) → 28767 ≤ n → lanes_of 1 n ≡ 223 ∷ 223 ∷ []
unfolding lanes_of
lanes_above_two n h =
    let x : min (n / 2 ^ 7) 223 ≡ 223 = omega arith in
    let y : min (n - 223 * 2 ^ 7) 223 ≡ 223 = omega arith in rw (x, y)

lanes_above_three : (n : ℕ) → 3682399 ≤ n → lanes_of 2 n ≡ 223 ∷ 223 ∷ 223 ∷ []
lanes_above_three n h =
    let x : min (n / 2 ^ 14) 223 ≡ 223 = omega arith in
    first ∙ rw x (ap (λ (r : List ℕ). 223 ∷ r) (lanes_above_two (n - 223 * 2 ^ 14) (omega arith)))
  where
    first : lanes_of 2 n ≡ min (n / 2 ^ 14) 223 ∷ lanes_of 1 (n - min (n / 2 ^ 14) 223 * 2 ^ 14)
    first = unfold lanes_of in refl

lanes_above_four : (n : ℕ) → 471347295 ≤ n → lanes_of 3 n ≡ 223 ∷ 223 ∷ 223 ∷ 223 ∷ []
lanes_above_four n h =
    let x : min (n / 2 ^ 21) 223 ≡ 223 = omega arith in
    first ∙ rw x (ap (λ (r : List ℕ). 223 ∷ r) (lanes_above_three (n - 223 * 2 ^ 21) (omega arith)))
  where
    first : lanes_of 3 n ≡ min (n / 2 ^ 21) 223 ∷ lanes_of 2 (n - min (n / 2 ^ 21) 223 * 2 ^ 21)
    first = unfold lanes_of in refl

-- From both: bringing the number into the range first changes nothing.
clamped :
    (lanes : ℕ → List ℕ) (k top : ℕ) (full : List ℕ)
    → ((t : ℕ) → t ≤ top → lanes t ≡ lanes_of k t)
    → ((n : ℕ) → top ≤ n → lanes_of k n ≡ full)
    → (n : ℕ) → lanes (min n top) ≡ lanes_of k n
clamped lanes k top full below above n = elim (Bool-cases (leb n top)) [
  | inl e ↦ let same : min n top ≡ n = ground arith in rw same (below n (ground arith))
  | inr e ↦
      let cut : min n top ≡ top = ground arith in
      rw cut (below top (omega arith) ∙ above top (omega arith) ∙ sym (above n (ground arith)))
]

-- Whatever the number, `_gbyte` at one to four lanes gives the bytes that the builder appends.
pub encode_gbyte-eq-write :
    (v : ℤ) (b : PacketBuilder)
    → (write_gchar v b ≡ extend b (encode_gbyte v 1))
      × (write_gshort v b ≡ extend b (encode_gbyte v 2))
      × (write_gint3 v b ≡ extend b (encode_gbyte v 3))
      × (write_gint4 v b ≡ extend b (encode_gbyte v 4))
unfolding write_gchar write_gshort write_gint3 write_gint4 clamp
encode_gbyte-eq-write v b =
    let n = pos_part v in
    let put = λ (lanes : List ℕ). extend b (map offset lanes) in
    (
      unfold encode_gbyte in refl,
      ap put (clamped two_lanes 1 28767 _ lanes_two lanes_above_two n) ∙ gbyte 2,
      ap put (clamped three_lanes 2 3682399 _ lanes_three lanes_above_three n) ∙ gbyte 3,
      ap put (clamped four_lanes 3 471347295 _ lanes_four lanes_above_four n) ∙ gbyte 4,
    )
  where
    gbyte :
        (k : ℕ)
        → extend b (map offset (lanes_of (k - 1) (pos_part v))) ≡ extend b (encode_gbyte v k)
    gbyte k = unfold encode_gbyte in refl

module _ (r : PacketReader) where
  -- The sums of `_read_gbyte`, one lane after the other, are those of the reader's methods.
  sum_two : lane_sum r.contents r.at 2 (pos 0) ≡ shl (lane r 0) 7 +ℤ lane r 1
  unfolding lane_sum
  sum_two = let here : r.at + 0 ≡ r.at = omega arith in rw (zero-+ℤ, shl-zero, here)

  sum_three : lane_sum r.contents r.at 3 (pos 0) ≡ shl (lane r 0) 14 +ℤ shl (lane r 1) 7 +ℤ lane r 2
  unfolding lane_sum
  sum_three =
      let here : r.at + 0 ≡ r.at = omega arith in
      let two : r.at + 1 + 1 ≡ r.at + 2 = omega arith in rw (zero-+ℤ, shl-zero, here, two)

  sum_four :
      lane_sum r.contents r.at 4 (pos 0)
      ≡ shl (lane r 0) 21 +ℤ shl (lane r 1) 14 +ℤ shl (lane r 2) 7 +ℤ lane r 3
  unfolding lane_sum
  sum_four =
      let here : r.at + 0 ≡ r.at = omega arith in
      let three : r.at + 1 + 1 + 1 ≡ r.at + 3 = omega arith in
      let two : r.at + 1 + 1 ≡ r.at + 2 = omega arith in rw (zero-+ℤ, shl-zero, here, three, two)

  sum_five :
      lane_sum r.contents r.at 5 (pos 0)
      ≡ shl (lane r 0) 28 +ℤ shl (lane r 1) 21 +ℤ shl (lane r 2) 14 +ℤ shl (lane r 3) 7 +ℤ lane r 4
  unfolding lane_sum
  sum_five =
      let here : r.at + 0 ≡ r.at = omega arith in
      let four : r.at + 1 + 1 + 1 + 1 ≡ r.at + 4 = omega arith in
      let three : r.at + 1 + 1 + 1 ≡ r.at + 3 = omega arith in
      let two : r.at + 1 + 1 ≡ r.at + 2 = omega arith in
      rw (zero-+ℤ, shl-zero, here, four, three, two)

  -- `_read_gbyte` at two to five lanes reads what the reader's methods read and stops where they
  -- do, if five bytes are there.
  read_gbyte-eq-read :
      r.at + 5 ≤ length r.contents
      → (read_gbyte r.contents r.at 2 ≡ (some (read_gshort r).0, (read_gshort r).1.at))
        × (read_gbyte r.contents r.at 3 ≡ (some (read_gint3 r).0, (read_gint3 r).1.at))
        × (read_gbyte r.contents r.at 4 ≡ (some (read_gint4 r).0, (read_gint4 r).1.at))
        × (read_gbyte r.contents r.at 5 ≡ (some (read_gint5 r).0, (read_gint5 r).1.at))
  unfolding read_gbyte read_gshort read_gint3 read_gint4 read_gint5
  read_gbyte-eq-read h = (
    ground (arith, sum_two),
    ground (arith, sum_three),
    ground (arith, sum_four),
    ground (arith, sum_five),
  )
