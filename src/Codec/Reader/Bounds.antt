-- ===== src/Codec/Reader/Bounds.antt =====
-- reborn_protocol/codec.py: where the methods of `PacketReader` move, and what they return.
use reborn_protocol.Base.{
  ℕ, zero, suc, ◌+◌, ◌^◌, ◌≤◌, ◌<◌, ◌≡◌, [], ◌∷◌, Bytes, IsBytes, Bool, true, false, length, get_or,
  leb, if◌then◌else◌, arith, ℤ, pos, negsuc, pos_part, neg_part, min, some, shl, ◌+ℤ◌, pos_part-sub,
  pos_part-+ℤ-le, pos_part-shl, mod_ℤ-lt,
}
use reborn_protocol.Codec.Reader.{
  PacketReader, lane, read_byte, read_gchar, read_gshort, read_gint3, read_gint4, read_gint5,
  read_string, read_gstring, read_gstring_short, read_position2, has_data, skip,
}

-- The methods that read, without the value that each returns.
pub data Reading : Type 0 where
  byte gchar gshort gint3 gint4 gint5 gstring gstring_short position2 : Reading
  string : ℤ → Reading

pub after : Reading → PacketReader → PacketReader
after byte r = (read_byte r).1
after gchar r = (read_gchar r).1
after gshort r = (read_gshort r).1
after gint3 r = (read_gint3 r).1
after gint4 r = (read_gint4 r).1
after gint5 r = (read_gint5 r).1
after gstring r = (read_gstring r).1
after gstring_short r = (read_gstring_short r).1
after position2 r = (read_position2 r).1
after (string n) r = (read_string n r).1

abbrev pub IsValid : PacketReader → Type 0
IsValid r = r.at ≤ length r.contents

-- From a place inside the data every method that reads a value keeps the data, never moves back, and
-- never passes the end of the data, whatever the bytes are and however many are left. These are the
-- methods but for `skip`, `peek_byte`, `has_data` and `remaining`.
pub after-IsValid :
    (m : Reading) (r : PacketReader)
    → IsValid r
    → ((after m r).contents ≡ r.contents) × (r.at ≤ (after m r).at) × IsValid (after m r)
unfolding after read_byte read_gchar read_gshort read_gint3 read_gint4 read_gint5 read_string
    read_gstring read_gstring_short read_position2
after-IsValid byte r h = ground arith
after-IsValid m r h = ground arith

-- `skip` keeps the data and does not pass their end. It moves by its count where there is so much
-- data, back for a negative one.
skip-IsValid :
    (count : ℤ) (r r' : PacketReader)
    → skip count r ≡ some r'
    → (r'.contents ≡ r.contents)
      × (r'.at + neg_part count ≡ min (r.at + pos_part count) (length r.contents + neg_part count))
      × IsValid r'
unfolding skip ◌+ℤ◌
skip-IsValid (pos n) r r' e = ground arith
skip-IsValid (negsuc n) r r' e = ground arith

-- The methods of fixed width and those with a length prefix.
abbrev pub Advances : Reading → Type 0
Advances (string n) = ⊥
Advances m = Unit {0}

-- Where data is left, a method that reads a field of fixed width or with a length prefix takes at
-- least one byte.
pub after-Advances :
    (m : Reading) (r : PacketReader) → Advances m → has_data r ≡ true → r.at < (after m r).at
unfolding after has_data read_byte read_gchar read_gshort read_gint3 read_gint4 read_gint5
    read_string read_gstring read_gstring_short read_position2
after-Advances byte r a h = ground arith
after-Advances m r a h = ground arith

byte_at : (d : Bytes) (i : ℕ) → IsBytes d → get_or d i 0 < 256
byte_at [] i h = omega arith
byte_at (b ∷ d) zero h = h.0
byte_at (b ∷ d) (suc i) h = byte_at d i h.1

lane_bound : (r : PacketReader) (i : ℕ) → IsBytes r.contents → pos_part (lane r i) ≤ 223
lane_bound r i h =
    omega (arith, pos_part-sub (get_or r.contents (r.at + i) 0) 32, byte_at r.contents (r.at + i) h)

-- Sums of lanes, each at most 223.
lanes-le_two : (a b : ℤ) → pos_part a ≤ 223 → pos_part b ≤ 223 → pos_part (shl a 7 +ℤ b) ≤ 28767
lanes-le_two a b p q = omega (arith, pos_part-+ℤ-le (shl a 7) b, pos_part-shl a 7)

lanes-le_three :
    (a b c : ℤ)
    → pos_part a ≤ 223
    → pos_part b ≤ 223
    → pos_part c ≤ 223
    → pos_part (shl a 14 +ℤ shl b 7 +ℤ c) ≤ 3682399
lanes-le_three a b c p q s = omega (
  arith,
  pos_part-+ℤ-le (shl a 14 +ℤ shl b 7) c,
  pos_part-+ℤ-le (shl a 14) (shl b 7),
  pos_part-shl a 14,
  pos_part-shl b 7,
)

lanes-le_four :
    (a b c d : ℤ)
    → pos_part a ≤ 223
    → pos_part b ≤ 223
    → pos_part c ≤ 223
    → pos_part d ≤ 223
    → pos_part (shl a 21 +ℤ shl b 14 +ℤ shl c 7 +ℤ d) ≤ 471347295
lanes-le_four a b c d p q s t = omega (
  arith,
  pos_part-+ℤ-le (shl a 21 +ℤ shl b 14 +ℤ shl c 7) d,
  pos_part-+ℤ-le (shl a 21 +ℤ shl b 14) (shl c 7),
  pos_part-+ℤ-le (shl a 21) (shl b 14),
  pos_part-shl a 21,
  pos_part-shl b 14,
  pos_part-shl c 7,
)

within :
    (short : Bool) (x y : PacketReader) (v m : ℕ)
    → v ≤ m
    → (let r : ℕ × PacketReader = if short then (0, x) else (v, y) in r.0 ≤ m)
within true x y v m h = omega arith
within false x y v m h = h

-- Over bytes of any values and from any place the numbers stay in their ranges: up to 223 for
-- `read_gchar`, 28767 for `read_gshort`, 3682399 for `read_gint3`, 471347295 for `read_gint4`, and
-- below 2 ^ 32 for `read_gint5`.
pub read_ranges :
    (r : PacketReader)
    → IsBytes r.contents
    → ((read_gchar r).0 ≤ 223)
      × ((read_gshort r).0 ≤ 28767)
      × ((read_gint3 r).0 ≤ 3682399)
      × ((read_gint4 r).0 ≤ 471347295)
      × ((read_gint5 r).0 < 2 ^ 32)
unfolding read_gchar read_gshort read_gint3 read_gint4 read_gint5
read_ranges r h =
    let l = λ (i : ℕ). lane_bound r i h in
    let last =
      mod_ℤ-lt
        (shl (lane r 0) 28
          +ℤ shl (lane r 1) 21
          +ℤ shl (lane r 2) 14
          +ℤ shl (lane r 3) 7
          +ℤ lane r 4)
        (2 ^ 32) (omega arith) in
    (
      ground (arith, byte_at r.contents r.at h),
      within (leb (length r.contents) (r.at + 1)) _ _ _ _
          (lanes-le_two (lane r 0) (lane r 1) (l 0) (l 1)),
      within (leb (length r.contents) (r.at + 2)) _ _ _ _
          (lanes-le_three (lane r 0) (lane r 1) (lane r 2) (l 0) (l 1) (l 2)),
      within (leb (length r.contents) (r.at + 3)) _ _ _ _
          (lanes-le_four (lane r 0) (lane r 1) (lane r 2) (lane r 3) (l 0) (l 1) (l 2) (l 3)),
      ground (arith, last),
    )
