-- ===== src/Gs1/Values.antt =====
-- reborn_protocol/gs1/values.py: the values of GS1 and their coercions. A list is a reference into a
-- heap of lists, since scripts write into the lists that their variables share.
pub mod Printing
use reborn_protocol.Base.{
  ℕ, zero, suc, List, [], ◌∷◌, ◌++◌, Bool, true, false, not, ◌&&◌, Option, none, some, length, ℤ,
  ◌==◌, if◌then◌else◌,
}
use reborn_protocol.Gs1.Csv.{Text}
use reborn_protocol.Gs1.Lexer.Scan.{take_while, drop_while}
use mathlib.Core.List.{reverse}

-- Python's floats and texts, as far as the coercions use them. `trunc` and `floor` are `int(x)` and
-- `math.floor(x)`, with none where they raise; `is_whole` is `x == int(x) and abs(x) < 1e15`.
pub record Python : Type 1 where
  pub Float : Type 0
  pub of_nat : ℕ → Float
  pub of_text : Text → Float
  pub is_nan : Float → Bool
  pub is_zero : Float → Bool
  pub is_whole : Float → Bool
  pub trunc : Float → Option ℤ
  pub floor : Float → Option ℤ
  pub distance_below : Float → Float → Float → Bool
  pub double_eps : Float
  pub compare_epsilon : Float
  pub repr : Float → Text
  pub str_int : ℤ → Text
  pub is_space : ℕ → Bool
  pub is_decimal : ℕ → Bool

pub data Value (F : Type 0) : Type 0 where
  nothing : Value F
  bool : Bool → Value F
  number : F → Value F
  text : Text → Value F
  array : ℕ → Value F

abbrev pub Heap : Type 0 → Type 0
Heap F = List (List (Value F))

module _ {F : Type 0} where
  -- The list at a reference.
  unfoldable pub list_at : Heap F → ℕ → List (Value F)
  list_at [] a = []
  list_at (l ∷ heap) zero = l
  list_at (l ∷ heap) (suc a) = list_at heap a

-- A string, or what Python raises: OverflowError of `int(x)`, or RecursionError.
pub data Printed : Type 0 where
  printed : Text → Printed
  overflow : Printed
  too_deep : Printed

-- `",".join`
unfoldable pub join_printed : Printed → Printed → Printed
join_printed (printed a) (printed b) = printed (a ++ b',' ∷ b)
join_printed (printed a) other = other
join_printed other b = other

module _ {F : Type 0} where
  unfoldable pub print_items : (Value F → Printed) → List (Value F) → Printed
  print_items print [] = printed []
  print_items print (v ∷ []) = print v
  print_items print (v ∷ w ∷ rest) = join_printed (print v) (print_items print (w ∷ rest))

module _ (py : Python) where
  open py use {
    Float, of_nat, of_text, is_nan, is_zero, is_whole, trunc, floor, distance_below, double_eps,
    compare_epsilon, repr, str_int, is_space, is_decimal,
  }

  -- `_LEADING_NUM` behind the sign: digits with a fraction or none, or a fraction alone.
  unfoldable pub unsigned_number : Text → Option (Text × Text)
  unsigned_number t = elim (take_while is_decimal t) [
    | d ∷ ds ↦ elim (drop_while is_decimal t) [
      | [] ↦ some (d ∷ ds, [])
      | c ∷ rest ↦
          if c == b'.'
          then some ((d ∷ ds) ++ c ∷ take_while is_decimal rest, drop_while is_decimal rest)
          else some (d ∷ ds, c ∷ rest)
    ]
    | [] ↦ elim t [
      | [] ↦ none
      | c ∷ rest ↦
          if c == b'.'
          then elim (take_while is_decimal rest) [
            | d ∷ ds ↦ some (c ∷ d ∷ ds, drop_while is_decimal rest)
            | [] ↦ none
          ]
          else none
    ]
  ]

  signed : Text → Text × Text
  signed [] = ([], [])
  signed (c ∷ rest) =
      if c == b'-' then (c ∷ [], rest) else if c == b'+' then (c ∷ [], rest) else ([], c ∷ rest)

  -- `_LEADING_NUM.match`: the number and what follows it.
  unfoldable pub leading_num : Text → Option (Text × Text)
  unfolding signed unsigned_number
  leading_num t =
      let sign = signed (drop_while is_space t) in
      elim (unsigned_number (sign.1)) [
        | none ↦ none
        | some (found, rest) ↦ some (take_while is_space t ++ (sign.0 ++ found), rest)
      ]

  unfoldable pub to_num : Heap Float → Value Float → Float
  to_num heap nothing = of_nat 0
  to_num heap (bool b) = if b then of_nat 1 else of_nat 0
  to_num heap (number x) = x
  to_num heap (text t) = elim (leading_num t) [
    | none ↦ of_nat 0
    | some (found, rest) ↦ of_text found
  ]
  to_num heap (array a) = of_nat (length (list_at heap a))

  unfoldable pub fmt_num : Float → Printed
  fmt_num x = if is_nan x then printed (b'0' ∷ []) else elim (trunc x) [
    | none ↦ overflow
    | some i ↦ printed (if is_whole x then str_int i else repr x)
  ]

  -- `to_str`, at a limit on the depth of recursion.
  unfoldable pub to_str : ℕ → Heap Float → Value Float → Printed
  to_str depth heap nothing = printed []
  to_str depth heap (bool b) = printed (if b then b'1' ∷ [] else b'0' ∷ [])
  to_str depth heap (number x) = fmt_num x
  to_str depth heap (text t) = printed t
  to_str zero heap (array a) = too_deep
  to_str (suc depth) heap (array a) = print_items (to_str depth heap) (list_at heap a)

  strip : Text → Text
  strip t = reverse (drop_while is_space (reverse (drop_while is_space t)))

  is_blank : Text → Bool
  is_blank [] = true
  is_blank (c ∷ t) = false

  -- A numeric string is true by its value, any other if it is not empty.
  text_to_bool : Heap Float → Text → Bool
  text_to_bool heap t = elim (leading_num (strip t)) [
    | none ↦ not (is_blank t)
    | some (found, []) ↦ not (is_zero (to_num heap (text t)))
    | some (found, c ∷ rest) ↦ not (is_blank t)
  ]

  unfoldable pub to_bool : Heap Float → Value Float → Bool
  unfolding text_to_bool strip is_blank
  to_bool heap nothing = false
  to_bool heap (bool b) = b
  to_bool heap (number x) = not (is_zero x)
  to_bool heap (text t) = text_to_bool heap t
  to_bool heap (array a) = not (length (list_at heap a) == 0)

  unfoldable pub is_double_zero : Float → Bool
  is_double_zero x = distance_below x (of_nat 0) double_eps

  unfoldable pub gs1_num : Heap Float → Value Float → Float
  gs1_num heap (bool b) = if b then of_nat 1 else of_nat 0
  gs1_num heap (number x) = x
  gs1_num heap (array a) = of_nat (length (list_at heap a))
  gs1_num heap other = of_nat 0

  unfoldable pub gs1_truthy : Value Float → Bool
  unfolding is_blank
  gs1_truthy (bool b) = b
  gs1_truthy (text t) = not (is_blank t)
  gs1_truthy other = false

  unfoldable pub doubles_are_same : Float → Float → Bool
  doubles_are_same a b = distance_below a b compare_epsilon

  -- None where Python raises.
  unfoldable pub gs1_int : Heap Float → Value Float → Option ℤ
  gs1_int heap v = trunc (to_num heap v)

  unfoldable pub gs1_index : Heap Float → Value Float → Option ℤ
  gs1_index heap v = floor (to_num heap v)
