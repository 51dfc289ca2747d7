-- ===== src/Examples/Values.antt =====
-- The theorems on GS1 values and variables at concrete inputs, with numbers that are natural numbers.
use reborn_protocol.Base.{
  ℕ, zero, suc, ◌≡◌, refl, [], ◌∷◌, true, false, ◌&&◌, some, All, length, pos, arith, ltb, ◌==◌,
  if◌then◌else◌, ◌-◌,
}
use reborn_protocol.Gs1.Lexer.Scan.{codes}
use reborn_protocol.Gs1.Values.{Python, number, text, array, Heap, list_at, too_deep, to_str}
use reborn_protocol.Gs1.Values.Printing.{RefersBelow, IsDone, to_str-IsDone, to_str-too_deep}
use reborn_protocol.Gs1.Runtime.{
  VarStore, get_key, own_table, table_of, get_var, set_var, get_at, set_at, in_bounds, as_array,
}
use reborn_protocol.Gs1.Runtime.Tables.{same_var, get_var-set_var}
use reborn_protocol.Gs1.Runtime.Places.{place_of, same_place, get_at-set_at}
use reborn_protocol.Gs1.Tokens.{same_text}

abbrev naturals : Python
naturals = record {
  Float = ℕ;
  of_nat = λ n. n;
  of_text = λ t. length t;
  is_nan = λ n. false;
  is_zero = λ n. n == 0;
  is_whole = λ n. true;
  trunc = λ n. some (pos n);
  floor = λ n. some (pos n);
  distance_below = λ m n e. ltb (m - n) e && ltb (n - m) e;
  double_eps = 1;
  compare_epsilon = 1;
  repr = λ n. [];
  str_int = λ i. b'1' ∷ [];
  is_space = λ c. c == b' ';
  is_decimal = λ c. ltb 47 c && ltb c 58;
}

-- `{7, "x"}` and a list that holds it twice.
abbrev layered : Heap ℕ
layered = (number 7 ∷ text (codes "x") ∷ []) ∷ (array 0 ∷ array 0 ∷ []) ∷ []

layered_below : (a : ℕ) → All (RefersBelow a) (list_at layered a)
unfolding list_at
layered_below zero = omega arith
layered_below (suc zero) = omega arith
layered_below (suc (suc a)) = omega arith

to_str-IsDone_example : IsDone (to_str naturals 2 layered (array 1))
to_str-IsDone_example = to_str-IsDone naturals layered layered_below 2 (array 1) (omega arith)

-- `this.a = {0, 5}; this.a[0] = this.a;`
abbrev knotted : Heap ℕ
knotted = (array 0 ∷ number 5 ∷ []) ∷ []

knotted_front : list_at knotted 0 ≡ array 0 ∷ number 5 ∷ []
unfolding list_at
knotted_front = refl

to_str-too_deep_example : to_str naturals 9 knotted (array 0) ≡ too_deep
to_str-too_deep_example = to_str-too_deep naturals knotted 0 (number 5 ∷ []) 9 knotted_front

-- `this.a` and `temp.b` hold one list.
abbrev shared : VarStore ℕ
shared = record {
  scopes =
      (codes "this", (codes "a", array 0) ∷ []) ∷ (codes "temp", (codes "b", array 0) ∷ []) ∷ [];
  player_flags = [];
  heap = (number 1 ∷ number 2 ∷ []) ∷ [];
}

-- The second place of the one list, under both names.
get_at-set_at_example :
    get_at 0
      (codes "temp")
      (codes "b")
      (pos 1)
      (set_at (codes "this") (codes "a") (number 9) (pos 1) shared)
    ≡ (if same_place
          (place_of (codes "this") (codes "a") (pos 1) shared)
          (place_of (codes "temp") (codes "b") (pos 1) shared)
        then number 9
        else get_at 0 (codes "temp") (codes "b") (pos 1) shared)
get_at-set_at_example =
    get_at-set_at shared (number 9) 0 (codes "this") (codes "a") (pos 1) (codes "temp") (codes "b")
      (pos 1)

places_meet :
    same_place
      (place_of (codes "this") (codes "a") (pos 1) shared)
      (place_of (codes "temp") (codes "b") (pos 1) shared)
    ≡ true
unfolding place_of get_var table_of own_table get_key same_text as_array list_at in_bounds
places_meet = refl

get_var-set_var_example :
    get_var (codes "this") (codes "x") (set_var (codes "this") (codes "x") (number 4) shared) ≡ (
      if same_var shared (codes "this") (codes "x") (codes "this") (codes "x")
      then some (number 4)
      else get_var (codes "this") (codes "x") shared)
get_var-set_var_example =
    get_var-set_var (codes "this") (codes "x") (codes "this") (codes "x") shared (number 4)
