-- ===== src/Props/Encode/Pairs.antt =====
-- reborn_protocol/props.py: `decode_value` on what `encode_value` writes, on the forms of several fields.
use reborn_protocol.Base.{
  ℕ, ◌+◌, ◌≤◌, ◌≡◌, refl, ap, List, ◌++◌, false, some, length, arith, pos, neg, +ℤ-pos, ◌+ℤ◌, ltb,
  ltb_ℤ, pos_part,
}
use reborn_protocol.Codec.Reader.{Text}
use reborn_protocol.Props.Tables.{swordpower, powerimage, attachnpc, imagepart}
use reborn_protocol.Props.Lanes.{encode_gbyte}
use reborn_protocol.Props.Decode.{
  Value, powered, attached, image_part, decode_wire, decode_swordpower, decode_powerimage,
  decode_imagepart,
}
use reborn_protocol.Props.Encode.{encode_wire, encode_gstring, encode_power_image}
use reborn_protocol.Props.Encode.Back.{
  Counts, room, this_field, next_field, length-field, length-encode_gbyte, read_gbyte_back,
  byte_back, length-encode_gstring, read_string_back,
}
use reborn_protocol.Props.Encode.Forms.{IsShort, Carries}

module _ (show : Value → Text) (width bias colors_len : ℕ) where
  pub powerimage_carried :
      (power : ℕ) (image : List ℕ)
      → power ≤ 223
      → IsShort 1 image
      → 1 ≤ length image
      → Carries show width bias colors_len powerimage
          (powered (pos power) (some image))
          (encode_gbyte (pos power) 1 ++ encode_gstring image 1)
  unfolding encode_wire decode_wire decode_powerimage
  powerimage_carried power image small (latin, counts) filled = record {
    encoded = refl;
    decoded = λ d at r p.
        let s = encode_gstring image 1 in
        let (there, value) = byte_back power small (this_field power 1 s p) in
        rw
          (
            there,
            value,
            read_string_back image 1 latin counts filled (next_field power 1 s (omega arith) p),
          )
          (ap (λ i. (powered (pos power) (some image), i))
            (omega (
              arith,
              length-field power 1 s (omega arith),
              length-encode_gstring image 1 latin (omega arith),
            )));
  }

  pub swordpower_carried :
      (power : ℕ) (image : List ℕ)
      → bias + power ≤ 223
      → IsShort 1 image
      → 1 ≤ length image
      → Carries show width bias colors_len swordpower
          (powered (pos power) (some image))
          (encode_gbyte (pos (bias + power)) 1 ++ encode_gstring image 1)
  unfolding encode_wire decode_wire decode_swordpower encode_power_image
  swordpower_carried power image small (latin, counts) filled = record {
    encoded = ap (λ v. some (encode_gbyte v 1 ++ encode_gstring image 1)) (+ℤ-pos bias power);
    decoded = λ d at r p.
        let n = bias + power in
        let s = encode_gstring image 1 in
        let (there, value) = byte_back n small (this_field n 1 s p) in
        let high : ltb_ℤ (pos n) (pos bias) ≡ false = ground arith in
        let back : pos_part (pos n +ℤ neg (pos bias)) ≡ power = unfold ◌+ℤ◌ in ground arith in
        rw
          (
            there,
            value,
            high,
            read_string_back image 1 latin counts filled (next_field n 1 s (omega arith) p),
            back,
          )
          (ap (λ i. (powered (pos power) (some image), i))
            (omega (
              arith,
              length-field n 1 s (omega arith),
              length-encode_gstring image 1 latin (omega arith),
            )));
  }

  pub attachnpc_carried :
      (kind npc : ℕ)
      → kind ≤ 223
      → Counts 3 npc
      → Carries show width bias colors_len attachnpc
          (attached (pos kind) (pos npc))
          (encode_gbyte (pos kind) 1 ++ encode_gbyte (pos npc) 3)
  unfolding encode_wire decode_wire
  attachnpc_carried kind npc small counts = record {
    encoded = refl;
    decoded = λ d at r p.
        let s = encode_gbyte (pos npc) 3 in
        let (there, value) = byte_back kind small (this_field kind 1 s p) in
        rw (there, value, read_gbyte_back npc 3 counts (next_field kind 1 s (omega arith) p))
          (ap (λ i. (attached (pos kind) (pos npc), i))
            (omega (
              arith,
              length-field kind 1 s (omega arith),
              length-encode_gbyte npc 3 (omega arith),
            )));
  }

  pub imagepart_carried :
      (x y w h : ℕ)
      → Counts 2 x
      → Counts 2 y
      → w ≤ 223
      → h ≤ 223
      → Carries show width bias colors_len imagepart (image_part (pos x) (pos y) (pos w) (pos h)) (
          encode_gbyte (pos x) 2
          ++ (encode_gbyte (pos y) 2 ++ (encode_gbyte (pos w) 1 ++ encode_gbyte (pos h) 1)))
  unfolding encode_wire decode_wire decode_imagepart
  imagepart_carried x y w h x_counts y_counts w_small h_small = record {
    encoded = refl;
    decoded = λ d at r p.
        let last = encode_gbyte (pos h) 1 in
        let sizes = encode_gbyte (pos w) 1 ++ last in
        let others = encode_gbyte (pos y) 2 ++ sizes in
        let at_y = next_field x 2 others (omega arith) p in
        let at_w = next_field y 2 sizes (omega arith) at_y in
        let at_h = next_field w 1 last (omega arith) at_w in
        let total : length (encode_gbyte (pos x) 2 ++ others) ≡ 6 = omega (
          arith,
          length-field x 2 others (omega arith),
          length-field y 2 sizes (omega arith),
          length-field w 1 last (omega arith),
          length-encode_gbyte h 1 (omega arith),
        ) in
        let space : ltb (length d) (at + 6) ≡ false = ground (arith, room _ p) in
        rw
          (
            space,
            read_gbyte_back x 2 x_counts (this_field x 2 others p),
            read_gbyte_back y 2 y_counts (this_field y 2 sizes at_y),
            (byte_back w w_small (this_field w 1 last at_w)).1,
            (byte_back h h_small at_h).1,
            total,
          )
          (ap (λ i. (image_part (pos x) (pos y) (pos w) (pos h), i)) (omega arith));
  }
