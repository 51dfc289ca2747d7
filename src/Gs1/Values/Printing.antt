-- ===== src/Gs1/Values/Printing.antt =====
-- reborn_protocol/gs1/values.py: `to_str` on lists of lists.
use reborn_protocol.Base.{ℕ, zero, suc, ◌≤◌, ◌<◌, ◌≡◌, refl, List, [], ◌∷◌, All, arith}
use reborn_protocol.Gs1.Values.{
  Python, Value, nothing, bool, number, text, array, Heap, list_at, Printed, printed, overflow,
  too_deep, fmt_num, join_printed, print_items, to_str,
}

-- The text is printed, or a number in it has no integer.
abbrev pub IsDone : Printed → Type 0
IsDone too_deep = ⊥
IsDone _ = Unit

-- A list is referred to by its place in the heap, which is below `n`.
abbrev pub RefersBelow : {F : Type 0} → ℕ → Value F → Type 0
RefersBelow n (array a) = a < n
RefersBelow n _ = Unit

join_printed-IsDone : (p q : Printed) → IsDone p → IsDone q → IsDone (join_printed p q)
unfolding join_printed
join_printed-IsDone (printed a) (printed b) h k = tt
join_printed-IsDone (printed a) overflow h k = tt
join_printed-IsDone overflow q h k = tt
join_printed-IsDone (printed a) too_deep h k = elim k [ ]
join_printed-IsDone too_deep q h k = elim h [ ]

module _ (py : Python) where
  fmt_num-IsDone : (x : py.Float) → IsDone (fmt_num py x)
  unfolding fmt_num
  fmt_num-IsDone x = ground arith

  print_items-IsDone :
      (print : Value py.Float → Printed) (l : List (Value py.Float))
      → All (λ v. IsDone (print v)) l
      → IsDone (print_items print l)
  unfolding print_items
  print_items-IsDone print [] h = tt
  print_items-IsDone print (v ∷ []) h = h.0
  print_items-IsDone print (v ∷ w ∷ l) h =
      join_printed-IsDone _ _ h.0 (print_items-IsDone print (w ∷ l) h.1)

  module _ (heap : Heap py.Float) where
    All-IsDone :
        (depth n : ℕ) (l : List (Value py.Float))
        → ((v : Value py.Float) → RefersBelow depth v → IsDone (to_str py depth heap v))
        → n ≤ depth
        → All (RefersBelow n) l
        → All (λ v. IsDone (to_str py depth heap v)) l
    All-IsDone depth n [] f h r = tt
    All-IsDone depth n (v ∷ l) f h r = (f v (RefersBelow-le v h r.0), All-IsDone depth n l f h r.1)
      where
        RefersBelow-le : (w : Value py.Float) → n ≤ depth → RefersBelow n w → RefersBelow depth w
        RefersBelow-le (array a) k s = omega arith
        RefersBelow-le nothing k s = tt
        RefersBelow-le (bool b) k s = tt
        RefersBelow-le (number x) k s = tt
        RefersBelow-le (text t) k s = tt

    -- `to_str` ends where a list holds only lists that stand before it in the heap: a recursion as deep as
    -- the place of the list is enough. It gives a text, or the OverflowError of a number that has no
    -- integer.
    pub to_str-IsDone :
        (below : (a : ℕ) → All (RefersBelow a) (list_at heap a)) (depth : ℕ) (v : Value py.Float)
        → RefersBelow depth v
        → IsDone (to_str py depth heap v)
    unfolding to_str
    to_str-IsDone below depth nothing r = tt
    to_str-IsDone below depth (bool b) r = tt
    to_str-IsDone below depth (number x) r = fmt_num-IsDone x
    to_str-IsDone below depth (text t) r = tt
    to_str-IsDone below zero (array a) r = absurd (omega arith)
    to_str-IsDone below (suc depth) (array a) r =
        print_items-IsDone (to_str py depth heap) (list_at heap a) (
          All-IsDone depth a (list_at heap a) (λ v k. to_str-IsDone below depth v k) (omega arith)
            (below a))

    -- `to_str` never ends on a list that holds itself in front, as `this.a[0] = this.a` leaves it: no
    -- depth of recursion is enough.
    pub to_str-too_deep :
        (a : ℕ) (others : List (Value py.Float)) (depth : ℕ)
        → list_at heap a ≡ array a ∷ others
        → to_str py depth heap (array a) ≡ too_deep
    unfolding to_str print_items join_printed
    to_str-too_deep a others zero e = refl
    to_str-too_deep a [] (suc depth) e = rw e (to_str-too_deep a [] depth e)
    to_str-too_deep a (v ∷ others) (suc depth) e =
        rw (e, to_str-too_deep a (v ∷ others) depth e) refl
