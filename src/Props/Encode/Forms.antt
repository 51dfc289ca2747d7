-- ===== src/Props/Encode/Forms.antt =====
-- reborn_protocol/props.py: `decode_value` on what `encode_value` writes, form by form.
use reborn_protocol.Base.{
  ℕ, ◌+◌, ◌*◌, ◌^◌, ◌≤◌, ◌<◌, ◌≡◌, refl, sym, ap, List, [], ◌∷◌, ◌++◌, Bytes, All, true, false,
  some, length, arith, pos, sub_ℕ, neg, clamp, shl-pos, trunc_div, ◌+ℤ◌, ltb, ltb_ℤ, pos_part, min,
}
use reborn_protocol.Codec.Reader.{Text}
use reborn_protocol.Props.Tables.{
  Wire, gbyte, raw, string, longstring, void, halftile, tilez, headgif,
}
use reborn_protocol.Props.Lanes.{encode_gbyte}
use reborn_protocol.Props.Decode.{
  Value, nothing, number, opaque, text, tiles, decode_wire, decode_headgif,
}
use reborn_protocol.Props.Encode.{encode_wire, pad, encode_gstring}
use reborn_protocol.Props.Encode.Back.{
  Counts, Stands, room, this_field, next_field, length-field, length-encode_gbyte, read_gbyte_back,
  encode_latin_1_id, slice_back, byte_back, length-encode_gstring, size_back, text_back,
  read_string_back,
}

-- A text of bytes, for a length of `width` lanes.
abbrev pub IsShort : ℕ → List ℕ → Type 0
IsShort width t = (All (λ c. c < 256) t) × (Counts width (length t))

-- Decoding gives the value back from the bytes `s`, at any place of any data that go on with them.
pub record Carries (show : Value → Text) (width bias colors_len : ℕ) (w : Wire) (v : Value)
    (s : Bytes) : Type 0 where
  pub encoded : encode_wire show w width bias v colors_len ≡ some s
  pub decoded :
      (d : Bytes) (at : ℕ) (r : Bytes)
      → Stands d at s r
      → decode_wire w width bias d at colors_len ≡ (v, at + length s)

pad_whole : (b : Bytes) → pad (length b) b ≡ b
unfolding pad
pad_whole [] = refl
pad_whole (x ∷ b) = ap (λ l. x ∷ l) (pad_whole b)

module _ (show : Value → Text) (width bias colors_len : ℕ) where
  pub void_carried : Carries show width bias colors_len void nothing []
  unfolding encode_wire decode_wire
  void_carried = record {
    encoded = refl;
    decoded = λ d at r p. ap (λ i. (nothing, i)) (omega arith);
  }

  pub gbyte_carried :
      (n : ℕ)
      → Counts width n
      → Carries show width bias colors_len gbyte (number (pos n)) (encode_gbyte (pos n) width)
  unfolding encode_wire decode_wire
  gbyte_carried n c = record {
    encoded = refl;
    decoded = λ d at r p. rw (read_gbyte_back n width c p, length-encode_gbyte n width c.0) refl;
  }

  pub raw_carried :
      (b : Bytes) → length b ≡ width → Carries show width bias colors_len raw (opaque b) b
  unfolding encode_wire decode_wire
  raw_carried b same = record {
    encoded = rw (sym same, pad_whole b) refl;
    decoded = λ d at r p.
        let space : ltb (length d) (at + length b) ≡ false = ground (arith, room b p) in
        rw (sym same, space, slice_back b p) refl;
  }

  pub string_carried :
      (t : List ℕ)
      → IsShort 1 t
      → 1 ≤ length t
      → Carries show width bias colors_len string (text t) (encode_gstring t 1)
  unfolding encode_wire decode_wire
  string_carried t (latin, counts) filled = record {
    encoded = refl;
    decoded = λ d at r p.
        rw (read_string_back t 1 latin counts filled p)
          (ap (λ i. (text t, i)) (omega (arith, length-encode_gstring t 1 latin (omega arith))));
  }

  pub longstring_carried :
      (t : List ℕ)
      → IsShort 2 t
      → Carries show width bias colors_len longstring (text t) (encode_gstring t 2)
  unfolding encode_wire decode_wire
  longstring_carried t (latin, counts) = record {
    encoded = refl;
    decoded = λ d at r p.
        let q = text_back t 2 latin counts p in
        let whole : min (at + 2 + length t) (length d) ≡ at + 2 + length t =
          omega (arith, room t q) in
        rw (size_back t 2 latin counts p, whole, slice_back t q)
          (ap (λ i. (text t, i)) (omega (arith, length-encode_gstring t 2 latin (omega arith))));
  }

  pub halftile_carried :
      (n : ℕ)
      → n ≤ 223
      → Carries show width bias colors_len halftile
          (tiles (pos (n * 2 ^ 7)))
          (encode_gbyte (pos n) 1)
  unfolding encode_wire decode_wire trunc_div
  halftile_carried n small = record {
    encoded = ap (λ i. some (encode_gbyte (pos i) 1)) (omega arith);
    decoded = λ d at r p.
        let (there, value) = byte_back n small p in
        rw (there, value, shl-pos n 7, length-encode_gbyte n 1 (omega arith)) refl;
  }

  pub tilez_carried :
      (n : ℕ)
      → n ≤ 220
      → Carries show width bias colors_len tilez (number (sub_ℕ n 50)) (encode_gbyte (pos n) 1)
  unfolding encode_wire decode_wire
  tilez_carried n small = record {
    encoded = ap (λ i. some (encode_gbyte (pos i) 1)) (unfold clamp ◌+ℤ◌ in ground arith);
    decoded = λ d at r p.
        let (there, value) = byte_back n (omega arith) p in
        let height : pos n +ℤ neg (pos 50) ≡ sub_ℕ n 50 = unfold ◌+ℤ◌ in ground arith in
        rw (there, value, height, length-encode_gbyte n 1 (omega arith)) refl;
  }

  pub head_carried :
      (n : ℕ)
      → n ≤ 99
      → Carries show width bias colors_len headgif (number (pos n)) (encode_gbyte (pos n) 1)
  unfolding encode_wire decode_wire decode_headgif
  head_carried n small = record {
    encoded = ap (λ v. some (encode_gbyte v 1)) (ground arith);
    decoded = λ d at r p.
        let (there, value) = byte_back n (omega arith) p in
        let low : ltb_ℤ (pos n) (pos 100) ≡ true = ground arith in
        rw (there, value, low, length-encode_gbyte n 1 (omega arith)) refl;
  }

  pub headgif_carried :
      (t : List ℕ)
      → All (λ c. c < 256) t
      → length t ≤ 123
      → Carries show width bias colors_len headgif
          (text t)
          (encode_gbyte (pos (100 + length t)) 1 ++ t)
  unfolding encode_wire decode_wire decode_headgif
  headgif_carried t latin short = record {
    encoded = rw (encode_latin_1_id t latin) refl;
    decoded = λ d at r p.
        let n = 100 + length t in
        let (there, value) = byte_back n (omega arith) (this_field n 1 t p) in
        let q = next_field n 1 t (omega arith) p in
        let high : ltb_ℤ (pos n) (pos 100) ≡ false = ground arith in
        let size : pos_part (pos n +ℤ neg (pos 100)) ≡ length t = unfold ◌+ℤ◌ in ground arith in
        let space : ltb (length d) (at + 1 + length t) ≡ false = ground (arith, room t q) in
        rw (there, value, high, size, space, slice_back t q)
          (ap (λ i. (text t, i)) (omega (arith, length-field n 1 t (omega arith))));
  }
