-- ===== src/Gs1/Runtime/Arrays.antt =====
-- reborn_protocol/gs1/runtime.py: `get` and `set` at an index, into lists that variables share.
use reborn_protocol.Base.{
  ℕ, zero, suc, ◌<◌, ◌≡◌, refl, sym, ◌∙◌, ap, List, [], ◌∷◌, ◌&&◌, Option, none, some, ℤ, pos,
  negsuc, length, arith, Bool-cases, inl, inr, ◌==◌, ==_iff, if◌then◌else◌,
}
use reborn_protocol.Gs1.Csv.{Text}
use reborn_protocol.Gs1.Values.{Value, number, array, Heap, list_at}
use reborn_protocol.Gs1.Runtime.{
  get_key, item, put_item, Table, VarStore, own_table, table_of, get_var, in_bounds, as_array,
  get_at, put_list, write_at, set_at,
}

length-put_item : {A : Type 0} (v : A) (l : List A) (i : ℕ) → length (put_item v l i) ≡ length l
unfolding put_item
length-put_item v [] i = refl
length-put_item v (w ∷ l) zero = refl
length-put_item v (w ∷ l) (suc i) = omega (arith, length-put_item v l i)

pub item-put_item :
    {A : Type 0} (d v : A) (l : List A) (i j : ℕ)
    → i < length l
    → item d (put_item v l i) j ≡ (if i == j then v else item d l j)
unfolding item put_item
item-put_item d v [] i j h = absurd (omega arith)
item-put_item d v (w ∷ l) zero zero h = refl
item-put_item d v (w ∷ l) zero (suc j) h = ground arith
item-put_item d v (w ∷ l) (suc i) zero h = ground arith
item-put_item d v (w ∷ l) (suc i) (suc j) h = ground (arith, item-put_item d v l i j)

in_bounds-lt : (i n : ℕ) → 0 < n → in_bounds i n < n
unfolding in_bounds
in_bounds-lt i n h = ground arith

module _ {F : Type 0} where
  pub list_at-put_list :
      (a b : ℕ) (l : List (Value F)) (heap : Heap F)
      → a < length heap
      → list_at (put_list a l heap) b ≡ (if a == b then l else list_at heap b)
  unfolding list_at put_list
  list_at-put_list a b l [] h = absurd (omega arith)
  list_at-put_list zero zero l (k ∷ heap) h = refl
  list_at-put_list zero (suc b) l (k ∷ heap) h = ground arith
  list_at-put_list (suc a) zero l (k ∷ heap) h = ground arith
  list_at-put_list (suc a) (suc b) l (k ∷ heap) h = ground (arith, list_at-put_list a b l heap)

  -- The variables stand where they stood, whatever the heap.
  own_table-heap :
      (scope : Text) (st : VarStore F) (heap : Heap F)
      → own_table scope (record st { heap = heap }) ≡ own_table scope st
  unfolding own_table
  own_table-heap [] st heap = refl
  own_table-heap (c ∷ scope) st heap = refl

  pub get_var-heap :
      (scope key : Text) (st : VarStore F) (heap : Heap F)
      → get_var scope key (record st { heap = heap }) ≡ get_var scope key st
  unfolding get_var table_of
  get_var-heap scope key st heap =
      ap (λ (o : Option (Table F)). get_key key (elim o [ some t ↦ t | none ↦ st.player_flags ]))
        (own_table-heap scope st heap)

  -- A heap with a list for each of another, as long.
  record SameShape (st st' : VarStore F) : Type 0 where
    scopes : st'.scopes ≡ st.scopes
    player_flags : st'.player_flags ≡ st.player_flags
    lengths : (b : ℕ) → length (list_at st'.heap b) ≡ length (list_at st.heap b)

  length-put_list :
      (a b : ℕ) (l : List (Value F)) (heap : Heap F)
      → length l ≡ length (list_at heap a)
      → length (list_at (put_list a l heap) b) ≡ length (list_at heap b)
  unfolding list_at put_list
  length-put_list a b l [] h = refl
  length-put_list zero zero l (k ∷ heap) h = h
  length-put_list zero (suc b) l (k ∷ heap) h = refl
  length-put_list (suc a) zero l (k ∷ heap) h = refl
  length-put_list (suc a) (suc b) l (k ∷ heap) h = length-put_list a b l heap h

  -- `set` at any index, of any variable, binds no variable anew and changes the length of no list.
  set_at-SameShape :
      (scope key : Text) (value : Value F) (i : ℤ) (st : VarStore F)
      → SameShape st (set_at scope key value i st)
  unfolding set_at write_at
  set_at-SameShape scope key value (negsuc i) st = record {
    scopes = refl;
    player_flags = refl;
    lengths = λ b. refl;
  }
  set_at-SameShape scope key value (pos i) st = by_array (as_array (get_var scope key st))
    where
      by_array :
          (o : Option ℕ) → SameShape st (elim o [ none ↦ st | some a ↦ write_at a i value st ])
      by_array none = record { scopes = refl; player_flags = refl; lengths = λ b. refl }
      by_array (some a) = record {
        scopes = refl;
        player_flags = refl;
        lengths = λ b. length-put_list a b _ st.heap (length-put_item value (list_at st.heap a) _);
      }

-- Reading and writing a variable that holds a list.
module _ {F : Type 0} (scope key : Text) (st : VarStore F) (a : ℕ)
    (holds : get_var scope key st ≡ some (array a)) where
  get_at-holds :
      (zero_float : F) (j : ℕ)
      → get_at zero_float scope key (pos j) st
        ≡ item (number zero_float) (list_at st.heap a) (in_bounds j (length (list_at st.heap a)))
  unfolding get_at as_array
  get_at-holds zero_float j = rw (holds, get_at) refl

  pub set_at-holds :
      (value : Value F) (i : ℕ) → set_at scope key value (pos i) st ≡ write_at a i value st
  unfolding set_at as_array
  set_at-holds value i = rw (holds, set_at) refl

-- A list of the heap behind a write into another, or the same, place of the heap.
item-write :
    {F : Type 0} (d value : Value F) (a b i j : ℕ) (heap : Heap F)
    → a < length heap
    → 0 < length (list_at heap a)
    → let l = put_item value (list_at heap a) (in_bounds i (length (list_at heap a))) in
      item d (list_at (put_list a l heap) b) (in_bounds j (length (list_at (put_list a l heap) b)))
      ≡ (if a == b && in_bounds i (length (list_at heap a)) == in_bounds j (length (list_at heap b))
          then value
          else item d (list_at heap b) (in_bounds j (length (list_at heap b))))
item-write d value a b i j heap stored filled =
    let place = in_bounds i (length (list_at heap a)) in
    let l = put_item value (list_at heap a) place in
    rw (list_at-put_list a b l heap stored) (elim (Bool-cases (a == b)) [
      | inl e ↦
          rw (e, sym ((==_iff a b).0 e), length-put_item value (list_at heap a) place)
            (item-put_item d value (list_at heap a) place (in_bounds j (length (list_at heap a)))
              (in_bounds-lt i (length (list_at heap a)) filled))
      | inr e ↦ rw e refl
    ])

-- Two variables that hold lists of the heap, the first of them not empty.
module _ {F : Type 0} (st : VarStore F) (scope key : Text) (a : ℕ) (other_scope other : Text)
    (b : ℕ) (holds : get_var scope key st ≡ some (array a))
    (holds_other : get_var other_scope other st ≡ some (array b)) (stored : a < length st.heap)
    (filled : 0 < length (list_at st.heap a)) where
  -- What is read there behind a write.
  pub get_at-write :
      (zero_float : F) (value : Value F) (i j : ℕ)
      → get_at zero_float other_scope other (pos j) (set_at scope key value (pos i) st) ≡ (
          if a == b
            && in_bounds i (length (list_at st.heap a)) == in_bounds j (length (list_at st.heap b))
          then value
          else get_at zero_float other_scope other (pos j) st)
  unfolding write_at
  get_at-write zero_float value i j =
      ap (get_at zero_float other_scope other (pos j)) (set_at-holds scope key st a holds value i)
      ∙ get_at-holds other_scope other (write_at a i value st) b
          (get_var-heap other_scope other st _ ∙ holds_other) zero_float j
      ∙ item-write (number zero_float) value a b i j st.heap stored filled
      ∙ (rw (get_at-holds other_scope other st b holds_other zero_float j) refl)
