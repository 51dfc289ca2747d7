-- ===== src/Gs1/Runtime/Places.antt =====
-- reborn_protocol/gs1/runtime.py: `get` behind `set`, at any indices of any variables.
use reborn_protocol.Base.{
  ℕ, zero, suc, ◌<◌, ◌≡◌, refl, sym, ◌∙◌, ap, [], ◌∷◌, Bool, true, false, ◌&&◌, Option, none, some,
  ℤ, pos, negsuc, length, arith, Bool-cases, Option-cases, inl, inr, ◌==◌, ==_iff, if◌then◌else◌,
}
use reborn_protocol.Gs1.Csv.{Text}
use reborn_protocol.Gs1.Values.{Value, nothing, bool, number, text, array, Heap, list_at}
use reborn_protocol.Gs1.Runtime.{
  VarStore, get_var, in_bounds, as_array, get_at, put_item, put_list, write_at, set_at,
}
use reborn_protocol.Gs1.Runtime.Arrays.{get_at-write, set_at-holds, get_var-heap}

module _ {F : Type 0} where
  -- The place in a list that an index names, where the list has an element.
  abbrev pub place_in : ℕ → VarStore F → ℕ → Option (ℕ × ℕ)
  place_in i st a =
      let n = length (list_at st.heap a) in if n == 0 then none else some (a, in_bounds i n)

  -- The place that a variable and an index name: a list of the heap and a place in it, the first place
  -- for an index beyond the end. There is none at a negative index, or without a list that has an
  -- element.
  unfoldable pub place_of : Text → Text → ℤ → VarStore F → Option (ℕ × ℕ)
  place_of scope key (negsuc i) st = none
  place_of scope key (pos i) st = elim (as_array (get_var scope key st)) [
    | none ↦ none
    | some a ↦ place_in i st a
  ]

  as_array_lem : (v : Option (Value F)) (a : ℕ) → as_array v ≡ some a → v ≡ some (array a)
  unfolding as_array
  as_array_lem none a e = cc
  as_array_lem (some nothing) a e = cc
  as_array_lem (some (bool b)) a e = cc
  as_array_lem (some (number x)) a e = cc
  as_array_lem (some (text t)) a e = cc
  as_array_lem (some (array b)) a e = cc

  -- A list with an element stands in the heap.
  stored : (heap : Heap F) (a : ℕ) → 0 < length (list_at heap a) → a < length heap
  unfolding list_at
  stored [] a h = absurd (omega arith)
  stored (l ∷ heap) zero h = omega arith
  stored (l ∷ heap) (suc a) h = omega (arith, stored heap a h)

  -- A write into an empty list changes nothing.
  put_empty :
      (a i : ℕ) (value : Value F) (heap : Heap F)
      → length (list_at heap a) ≡ 0
      → put_list a (put_item value (list_at heap a) i) heap ≡ heap
  unfolding list_at put_list put_item
  put_empty a i value [] h = refl
  put_empty zero i value ([] ∷ heap) h = refl
  put_empty zero i value ((v ∷ l) ∷ heap) h = absurd (omega arith)
  put_empty (suc a) i value (l ∷ heap) h = ap (λ k. l ∷ k) (put_empty a i value heap h)

module _ {F : Type 0} (scope key : Text) (i : ℕ) (st : VarStore F) where
  place_of-missing : as_array (get_var scope key st) ≡ none → place_of scope key (pos i) st ≡ none
  unfolding place_of
  place_of-missing f = rw (f, place_of) refl

  place_of-empty :
      (a : ℕ)
      → as_array (get_var scope key st) ≡ some a
      → (length (list_at st.heap a) == 0) ≡ true
      → place_of scope key (pos i) st ≡ none
  unfolding place_of
  place_of-empty a f e = rw (f, place_of, e) refl

  place_of-full :
      (a : ℕ)
      → as_array (get_var scope key st) ≡ some a
      → (length (list_at st.heap a) == 0) ≡ false
      → place_of scope key (pos i) st ≡ some (a, in_bounds i (length (list_at st.heap a)))
  unfolding place_of
  place_of-full a f e = rw (f, place_of, e) refl

abbrev pub same_place : Option (ℕ × ℕ) → Option (ℕ × ℕ) → Bool
same_place (some (a, i)) (some (b, j)) = a == b && i == j
same_place p q = false

place_none : (p : Option (ℕ × ℕ)) → same_place p none ≡ false
place_none none = refl
place_none (some p) = refl

module _ {F : Type 0} (st : VarStore F) (value : Value F) (zero_float : F) where
  -- A write without a place changes nothing.
  set_at-nowhere :
      (scope key : Text) (i : ℤ) → place_of scope key i st ≡ none → set_at scope key value i st ≡ st
  unfolding set_at place_of
  set_at-nowhere scope key (negsuc i) e = refl
  set_at-nowhere scope key (pos i) e = elim (Option-cases (as_array (get_var scope key st))) [
    | inl f ↦ rw (f, set_at) refl
    | inr (a, f) ↦ elim (Bool-cases (length (list_at st.heap a) == 0)) [
      | inl empty ↦
          let same =
            put_empty a (in_bounds i (length (list_at st.heap a))) value st.heap
              ((==_iff _ _).0 empty) in
          rw (f, set_at) (unfold write_at in ap (λ h. record st { heap = h }) same)
      | inr filled ↦ let found = rw (f, place_of, filled) at e in cc
    ]
  ]

  -- Reading at a variable without a list.
  get_at-nowhere :
      (scope key : Text) (j : ℕ) (s : VarStore F)
      → as_array (get_var scope key s) ≡ none
      → get_at zero_float scope key (pos j) s ≡ number zero_float
  unfolding get_at
  get_at-nowhere scope key j s e = rw (e, get_at) refl

  set_at-get_var :
      (scope key other_scope other : Text) (i a : ℕ)
      → get_var scope key st ≡ some (array a)
      → get_var other_scope other (set_at scope key value (pos i) st) ≡ get_var other_scope other st
  set_at-get_var scope key other_scope other i a e =
      ap (get_var other_scope other) (set_at-holds scope key st a e value i)
      ∙ (unfold write_at in get_var-heap other_scope other st _)

  -- Behind a write into a place.
  behind_write :
      (scope key : Text) (i a : ℕ) (other_scope other : Text) (j : ℤ)
      → get_var scope key st ≡ some (array a)
      → (length (list_at st.heap a) == 0) ≡ false
      → get_at zero_float other_scope other j (set_at scope key value (pos i) st) ≡ (
          if same_place
            (some (a, in_bounds i (length (list_at st.heap a))))
            (place_of other_scope other j st)
          then value
          else get_at zero_float other_scope other j st)
  behind_write scope key i a other_scope other (negsuc j) e filled = unfold get_at place_of in refl
  behind_write scope key i a other_scope other (pos j) e filled =
      let some_place : 0 < length (list_at st.heap a) = ground arith in
      elim (Option-cases (as_array (get_var other_scope other st))) [
        | inl f ↦
            let g : as_array (get_var other_scope other (set_at scope key value (pos i) st))
                ≡ none =
              ap as_array (set_at-get_var scope key other_scope other i a e) ∙ f in
            rw (place_of-missing other_scope other j st f) (
              get_at-nowhere other_scope other j _ g
              ∙ sym (get_at-nowhere other_scope other j st f))
        | inr (b, f) ↦
            let read =
              get_at-write st scope key a other_scope other b e (as_array_lem _ b f)
                (stored st.heap a some_place) some_place zero_float value i j in
            elim (Bool-cases (length (list_at st.heap b) == 0)) [
              | inr full ↦ rw (place_of-full other_scope other j st b f full) read
              | inl empty ↦
                  rw (place_of-empty other_scope other j st b f empty)
                    (rw (different a b filled empty) at read)
            ]
      ]
    where
      different :
          (a b : ℕ)
          → (length (list_at st.heap a) == 0) ≡ false
          → (length (list_at st.heap b) == 0) ≡ true
          → (a == b) ≡ false
      different a b p q = elim (Bool-cases (a == b)) [
        | inl e ↦
            let same = (==_iff a b).0 e in
            cc (sym q ∙ ap (λ (c : ℕ). length (list_at st.heap c) == 0) (sym same) ∙ p)
        | inr e ↦ e
      ]

-- What `get` gives at any index of any variable behind `set` at any index of any variable, in any
-- store: the value that was set, where the two name one place of one list, whatever the variables
-- are called, and what it gave before otherwise. A variable and an index name no place if the
-- variable does not hold a list that has an element, or if the index is negative; an index beyond
-- the end names the first place.
pub get_at-set_at :
    {F : Type 0} (st : VarStore F) (value : Value F) (zero_float : F) (scope key : Text) (i : ℤ)
    (other_scope other : Text) (j : ℤ)
    → get_at zero_float other_scope other j (set_at scope key value i st) ≡ (
        if same_place (place_of scope key i st) (place_of other_scope other j st)
        then value
        else get_at zero_float other_scope other j st)
get_at-set_at st value zero_float scope key (negsuc i) other_scope other j =
    unfold set_at place_of in refl
get_at-set_at st value zero_float scope key (pos i) other_scope other j =
    elim (Option-cases (as_array (get_var scope key st))) [
      | inl f ↦ nowhere (place_of-missing scope key i st f)
      | inr (a, f) ↦ elim (Bool-cases (length (list_at st.heap a) == 0)) [
        | inl empty ↦ nowhere (place_of-empty scope key i st a f empty)
        | inr full ↦ rw (place_of-full scope key i st a f full) (
            behind_write st value zero_float scope key i a other_scope other j (as_array_lem _ a f)
              full)
      ]
    ]
  where
    nowhere :
        place_of scope key (pos i) st ≡ none
        → get_at zero_float other_scope other j (set_at scope key value (pos i) st) ≡ (
            if same_place (place_of scope key (pos i) st) (place_of other_scope other j st)
            then value
            else get_at zero_float other_scope other j st)
    nowhere e = rw e (
        ap (get_at zero_float other_scope other j)
          (set_at-nowhere st value zero_float scope key (pos i) e))
