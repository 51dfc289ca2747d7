-- ===== src/Gs1/Runtime/Growth.antt =====
-- reborn_protocol/gs1/runtime.py: lists of a `MemoryHost` grow where they are written.
use reborn_protocol.Base.{
  ℕ, zero, suc, ◌+◌, ◌-◌, ◌<◌, ◌≤◌, ◌≡◌, refl, sym, ◌∙◌, ap, List, [], ◌∷◌, ◌++◌, Bool, true, false,
  some, pos, length, ltb, arith, if◌then◌else◌, ◌==◌, length-append, Bool-cases, ==_iff, inl, inr,
}
use reborn_protocol.Gs1.Csv.{Text}
use reborn_protocol.Gs1.Values.{Value, number, array, list_at}
use reborn_protocol.Gs1.Runtime.{get_key, item, put_item, as_array, put_list}
use reborn_protocol.Gs1.Runtime.Host.{
  MemoryHost, read_element, read_attr, get_builtin, append_zeros, write_element, write_attr,
  set_builtin,
}
use reborn_protocol.Gs1.Runtime.Arrays.{item-put_item, list_at-put_list}

item_beyond : {A : Type 0} (d : A) (l : List A) (i : ℕ) → length l ≤ i → item d l i ≡ d
unfolding item
item_beyond d [] i h = refl
item_beyond d (v ∷ l) zero h = absurd (omega arith)
item_beyond d (v ∷ l) (suc i) h = item_beyond d l i (omega arith)

item-append : {A : Type 0} (d : A) (l : List A) (i : ℕ) → item d (l ++ d ∷ []) i ≡ item d l i
unfolding item
item-append d [] zero = refl
item-append d [] (suc i) = refl
item-append d (v ∷ l) zero = refl
item-append d (v ∷ l) (suc i) = item-append d l i

module _ {F : Type 0} (z : F) where
  length-append_zeros : (n : ℕ) (l : List (Value F)) → length (append_zeros z n l) ≡ n + length l
  unfolding append_zeros
  length-append_zeros zero l = omega arith
  length-append_zeros (suc n) l =
      omega (arith, length-append_zeros n (l ++ number z ∷ []), length-append l (number z ∷ []))

  item-append_zeros :
      (n i : ℕ) (l : List (Value F)) → item (number z) (append_zeros z n l) i ≡ item (number z) l i
  unfolding append_zeros
  item-append_zeros zero i l = refl
  item-append_zeros (suc n) i l =
      item-append_zeros n i (l ++ number z ∷ []) ∙ item-append (number z) l i

  read_element-item : (l : List (Value F)) (i : ℕ) → read_element z l (pos i) ≡ item (number z) l i
  unfolding read_element
  read_element-item l i = elim (Bool-cases (ltb i (length l))) [
    | inl e ↦ rw e refl
    | inr e ↦ rw e (sym (item_beyond (number z) l i (ground arith)))
  ]

  read_element-write_element :
      (value : Value F) (l : List (Value F)) (i j : ℕ)
      → read_element z (write_element z value l i) (pos j)
        ≡ (if i == j then value else read_element z l (pos j))
  unfolding write_element
  read_element-write_element value l i j =
      let n = suc i - length l in
      read_element-item (put_item value (append_zeros z n l) i) j
      ∙ item-put_item (number z) value (append_zeros z n l) i j
          (omega (arith, length-append_zeros n l))
      ∙ (rw (item-append_zeros n j l, read_element-item l j) refl)

  -- A built-in that holds a list of the host.
  module _ (name : Text) (a : ℕ) (h : MemoryHost F) (holds : get_key name h.attrs ≡ some (array a))
      (stored : a < length h.heap) where
    get_builtin-holds :
        (g : MemoryHost F) (j : ℕ)
        → get_key name g.attrs ≡ some (array a)
        → get_builtin z name (some (pos j)) g ≡ some (read_element z (list_at g.heap a) (pos j))
    unfolding read_attr as_array get_builtin
    get_builtin-holds g j e = rw (e, get_builtin) refl

    -- What `get_builtin` gives at an index of such a built-in behind `set_builtin` at an index: the value
    -- that was set, where the indices are the same, and what it gave before otherwise, also where the
    -- list has grown to hold the index that was written.
    get_builtin-set_builtin :
        (value : Value F) (i j : ℕ)
        → get_builtin z name (some (pos j)) ((set_builtin z name value (some (pos i)) h).0)
          ≡ (if i == j then some value else get_builtin z name (some (pos j)) h)
    unfolding write_attr as_array set_builtin
    get_builtin-set_builtin value i j =
        let l = write_element z value (list_at h.heap a) i in
        let written : (set_builtin z name value (some (pos i)) h).0
            ≡ record h { heap = put_list a l h.heap } =
          rw (holds, set_builtin) refl in
        ap (get_builtin z name (some (pos j))) written
        ∙ get_builtin-holds (record h { heap = put_list a l h.heap }) j holds
        ∙ ap (λ k. some (read_element z k (pos j)))
            (list_at-put_list a a l h.heap stored ∙ (rw ((==_iff a a).1 refl) refl))
        ∙ ap (λ v. some v) (read_element-write_element value (list_at h.heap a) i j)
        ∙ (rw (get_builtin-holds h j holds)
            (by_index (i == j) (read_element z (list_at h.heap a) (pos j))))
      where
        by_index :
            (b : Bool) (v : Value F)
            → some (if b then value else v) ≡ (if b then some value else some v)
        by_index true v = refl
        by_index false v = refl
