-- ===== src/Props/Encode/Back.antt =====
-- reborn_protocol/props.py: what `_gbyte` and `_gstring` write is read back where the data go on with it.
use reborn_protocol.Base.{
  ℕ, zero, suc, ◌+◌, ◌-◌, ◌*◌, ◌/◌, ◌^◌, ◌≤◌, ◌<◌, ◌≡◌, refl, sym, ◌∙◌, ap, min, List, [], ◌∷◌,
  ◌++◌, map, Bytes, some, true, false, length, get_or, drop, arith, pos, sub_ℕ, shl-pos, +ℤ-pos,
  mod_ℤ, All, length-append, length-map, drop-drop, get_or-drop, take_append_length,
  drop_append_length, length-drop, ltb, leb, append_assoc, ◌==◌,
}
use reborn_protocol.Codec.Builder.{offset, encode_latin_1}
use reborn_protocol.Props.Decode.{slice, at_offset, read_string}
use reborn_protocol.Props.Encode.{encode_gstring}
use reborn_protocol.Props.Lanes.{lane_sum, read_gbyte, lanes_of, encode_gbyte}

-- The largest number that `k` lanes and a last one can hold.
abbrev pub cap : ℕ → ℕ
cap zero = 223
cap (suc k) = 223 * 2 ^ (7 * suc k) + cap k

-- The data at a place that they go on with a byte, or a text, from.
module _ (d : Bytes) (at : ℕ) where
  pub head_at : (b : ℕ) (r : Bytes) → drop at d ≡ b ∷ r → get_or d at 0 ≡ b
  head_at b r e =
      let same : at + 0 ≡ at = omega arith in
      (rw same at (sym (get_or-drop at 0 d 0))) ∙ ap (λ l. get_or l 0 0) e

  pub behind : (s r : Bytes) → drop at d ≡ s ++ r → drop (at + length s) d ≡ r
  behind s r e = sym (drop-drop at (length s) d) ∙ ap (drop (length s)) e ∙ drop_append_length s r

  pub inside : (s r : Bytes) → drop at d ≡ s ++ r → at ≤ length d → at + length s ≤ length d
  inside s r e h =
      let l : length (drop at d) ≡ length (s ++ r) = ap length e in
      omega (arith, length-drop at d, length-append s r)

lane_head :
    (d : Bytes) (at k x v : ℕ) (r : Bytes)
    → drop at d ≡ offset x ∷ r
    → x ≤ 223
    → lane_sum d at (suc k) (pos v) ≡ lane_sum d (at + 1) k (pos (v + x * 2 ^ (7 * k)))
unfolding lane_sum
lane_head d at k x v r e h =
    let lane : sub_ℕ (offset x) 32 ≡ pos x = ground arith in
    rw (head_at d at (offset x) r e, lane, shl-pos x (7 * k), +ℤ-pos v (x * 2 ^ (7 * k))) refl

-- The first lane leaves a number for the others, four of them at most.
first_lane :
    (k t : ℕ)
    → k ≤ 3
    → t ≤ cap (suc k)
    → let lane = min (t / 2 ^ (7 * suc k)) 223 * 2 ^ (7 * suc k) in (lane ≤ t) × (t - lane ≤ cap k)
first_lane zero t h l = (omega arith, omega arith)
first_lane (suc zero) t h l = (omega arith, omega arith)
first_lane (suc (suc zero)) t h l = (omega arith, omega arith)
first_lane (suc (suc (suc zero))) t h l = (omega arith, omega arith)
first_lane (suc (suc (suc (suc k)))) t h l = absurd (omega arith)

lanes_back :
    (k t v : ℕ) (d : Bytes) (at : ℕ) (r : Bytes)
    → k ≤ 4
    → t ≤ cap k
    → drop at d ≡ map offset (lanes_of k t) ++ r
    → lane_sum d at (suc k) (pos v) ≡ pos (v + t)
unfolding lanes_of
lanes_back zero t v d at r h l e =
    let last : v + min t 223 * 2 ^ (7 * 0) ≡ v + t = omega arith in
    lane_head d at 0 (min t 223) v r e (omega arith) ∙ (unfold lane_sum in ap pos last)
lanes_back (suc k) t v d at r h l e =
    let lane = min (t / 2 ^ (7 * suc k)) 223 in
    let (below, left) = first_lane k t (omega arith) l in
    let total : v + lane * 2 ^ (7 * suc k) + (t - lane * 2 ^ (7 * suc k)) ≡ v + t = omega arith in
    lane_head d at (suc k) lane v _ e (omega arith)
    ∙ lanes_back k (t - lane * 2 ^ (7 * suc k)) (v + lane * 2 ^ (7 * suc k)) d (at + 1) r
        (omega arith) left (behind d at (offset lane ∷ []) _ e)
    ∙ ap pos total

length-lanes_of : (k t : ℕ) → length (lanes_of k t) ≡ suc k
unfolding lanes_of
length-lanes_of zero t = refl
length-lanes_of (suc k) t =
    ap suc (length-lanes_of k (t - min (t / 2 ^ (7 * suc k)) 223 * 2 ^ (7 * suc k)))

-- A width of lanes, and a number that they hold.
abbrev pub Counts : ℕ → ℕ → Type 0
Counts width n = (1 ≤ width) × (width ≤ 5) × (n ≤ cap (width - 1)) × (n < 2 ^ 32)

pub length-encode_gbyte : (n width : ℕ) → 1 ≤ width → length (encode_gbyte (pos n) width) ≡ width
unfolding encode_gbyte
length-encode_gbyte n width h =
    length-map offset (lanes_of (width - 1) n) ∙ length-lanes_of (width - 1) n ∙ omega arith

-- The data go on with `s` and then `r` from a place in them.
pub record Stands (d : Bytes) (at : ℕ) (s r : Bytes) : Type 0 where
  pub place : drop at d ≡ s ++ r
  pub within : at ≤ length d

pub encode_latin_1_id : (t : List ℕ) → All (λ c. c < 256) t → encode_latin_1 t ≡ t
unfolding encode_latin_1
encode_latin_1_id [] h = refl
encode_latin_1_id (c ∷ t) h =
    let rest = encode_latin_1_id t h.1 in
    let kept : ltb c 256 ≡ true = ground arith in rw (kept, rest) refl

pub length-encode_gstring :
    (t : List ℕ) (width : ℕ)
    → All (λ c. c < 256) t
    → 1 ≤ width
    → length (encode_gstring t width) ≡ width + length t
unfolding encode_gstring
length-encode_gstring t width latin lanes =
    let n = encode_gbyte (pos (length t)) width in
    rw (encode_latin_1_id t latin)
      (omega (arith, length-append n t, length-encode_gbyte (length t) width lanes))

pub length-field :
    (n k : ℕ) (s : Bytes) → 1 ≤ k → length (encode_gbyte (pos n) k ++ s) ≡ k + length s
length-field n k s lanes =
    length-append (encode_gbyte (pos n) k) s
    ∙ ap (λ i. i + length s) (length-encode_gbyte n k lanes)

module _ {d : Bytes} {at : ℕ} {r : Bytes} where
  pub room : (s : Bytes) → Stands d at s r → at + length s ≤ length d
  room s p = inside d at s r p.place p.within

  -- A field with others behind it, and those others.
  pub this_field :
      (n k : ℕ) (s : Bytes)
      → Stands d at (encode_gbyte (pos n) k ++ s) r
      → Stands d at (encode_gbyte (pos n) k) (s ++ r)
  this_field n k s p = record {
    place = p.place ∙ append_assoc (encode_gbyte (pos n) k) s r;
    within = p.within;
  }

  pub next_field :
      (n k : ℕ) (s : Bytes)
      → 1 ≤ k
      → Stands d at (encode_gbyte (pos n) k ++ s) r
      → Stands d (at + k) s r
  next_field n k s lanes p =
      let e = (this_field n k s p).place in
      let same = length-encode_gbyte n k lanes in
      record {
        place = rw same at (behind d at (encode_gbyte (pos n) k) (s ++ r) e);
        within = rw same at (inside d at (encode_gbyte (pos n) k) (s ++ r) e p.within);
      }

  pub slice_back : (s : Bytes) → Stands d at s r → slice d at (at + length s) ≡ s
  slice_back s p =
      let size : at + length s - at ≡ length s = omega arith in
      rw (size, p.place) (take_append_length s r)

  pub read_gbyte_back :
      (n width : ℕ)
      → Counts width n
      → Stands d at (encode_gbyte (pos n) width) r
      → read_gbyte d at width ≡ (some n, at + width)
  unfolding read_gbyte encode_gbyte
  read_gbyte_back n zero c p = absurd (omega arith)
  read_gbyte_back n (suc k) c p =
      let one : suc k - 1 ≡ k = omega arith in
      let written : drop at d ≡ map offset (lanes_of k n) ++ r =
        p.place ∙ ap (λ j. map offset (lanes_of j n) ++ r) one in
      let value : lane_sum d at (suc k) (pos 0) ≡ pos n =
        lanes_back k n 0 d at r (omega arith) (rw one at c.2) written ∙ ap pos (omega arith) in
      let space : ltb (length d) (at + suc k) ≡ false =
        ground (arith, room _ p, length-encode_gbyte n (suc k)) in
      rw (space, value) (unfold mod_ℤ in ground arith)

  -- One byte, as `_gbyte` writes it.
  pub byte_back :
      (n : ℕ)
      → n ≤ 223
      → Stands d at (encode_gbyte (pos n) 1) r
      → (leb (length d) at ≡ false) × (at_offset d at ≡ pos n)
  unfolding encode_gbyte lanes_of
  byte_back n small p =
      let same : min n 223 ≡ n = omega arith in
      (
        ground (arith, room _ p),
        rw (head_at d at (offset (min n 223)) r p.place, same) (ground arith),
      )

module _ {d : Bytes} {at : ℕ} {r : Bytes} where
  -- A length of so many lanes, and a text behind it.
  module _ (t : List ℕ) (width : ℕ) (latin : All (λ c. c < 256) t)
      (counts : Counts width (length t)) (p : Stands d at (encode_gstring t width) r) where
    fields : Stands d at (encode_gbyte (pos (length t)) width ++ t) r
    unfolding encode_gstring
    fields = record { place = rw (encode_latin_1_id t latin) at p.place; within = p.within }

    pub size_back : read_gbyte d at width ≡ (some (length t), at + width)
    size_back = read_gbyte_back (length t) width counts (this_field (length t) width t fields)

    pub text_back : Stands d (at + width) t r
    text_back = next_field (length t) width t counts.0 fields

module _ {d : Bytes} {at : ℕ} {r : Bytes} where
  pub read_string_back :
      (t : List ℕ) (width : ℕ)
      → All (λ c. c < 256) t
      → Counts width (length t)
      → 1 ≤ length t
      → Stands d at (encode_gstring t width) r
      → read_string d at width ≡ (some t, at + width + length t)
  unfolding read_string
  read_string_back t width latin counts filled p =
      let q = text_back t width latin counts p in
      let some_text : (length t == 0) ≡ false = ground arith in
      let space : ltb (length d) (at + width + length t) ≡ false = ground (arith, room t q) in
      rw (size_back t width latin counts p, some_text, space, slice_back t q) refl
