-- ===== src/Gs1/Runtime/Host.antt =====
-- reborn_protocol/gs1/runtime.py: `MemoryHost`, whose attributes are a dict and whose commands are a log.
-- The indices of a built-in are those that the interpreter gives it, the first of them an integer.
use reborn_protocol.Base.{
  ℕ, zero, suc, ◌-◌, List, [], ◌∷◌, ◌++◌, Bool, true, false, Option, none, some, ℤ, pos, negsuc,
  length, ltb, if◌then◌else◌,
}
use reborn_protocol.Gs1.Csv.{Text}
use reborn_protocol.Gs1.Values.{Value, number, Heap, list_at}
use reborn_protocol.Gs1.Runtime.{get_key, put_key, item, put_item, Table, as_array, put_list}

pub record MemoryHost (F : Type 0) : Type 0 where
  pub attrs : Table F
  pub heap : Heap F
  pub log : List (Text × List (Value F))

module _ {F : Type 0} where
  -- An element of a list, or 0.0 out of its bounds.
  unfoldable pub read_element : F → List (Value F) → ℤ → Value F
  read_element zero_float l (negsuc i) = number zero_float
  read_element zero_float l (pos i) =
      if ltb i (length l) then item (number zero_float) l i else number zero_float

  -- `v[i]` where the attribute is a list and there is an index.
  unfoldable pub read_attr : F → Value F → Option ℤ → MemoryHost F → Value F
  read_attr zero_float v none h = v
  read_attr zero_float v (some i) h = elim (as_array (some v)) [
    | none ↦ v
    | some a ↦ read_element zero_float (list_at h.heap a) i
  ]

  unfoldable pub get_builtin : F → Text → Option ℤ → MemoryHost F → Option (Value F)
  get_builtin zero_float name index h = elim (get_key name h.attrs) [
    | none ↦ none
    | some v ↦ some (read_attr zero_float v index h)
  ]

  -- `n` times `arr.append(0.0)`.
  unfoldable pub append_zeros : F → ℕ → List (Value F) → List (Value F)
  append_zeros zero_float zero l = l
  append_zeros zero_float (suc n) l = append_zeros zero_float n (l ++ number zero_float ∷ [])

  -- `while len(arr) <= i: arr.append(0.0)` and the write.
  unfoldable pub write_element : F → Value F → List (Value F) → ℕ → List (Value F)
  write_element zero_float value l i =
      put_item value (append_zeros zero_float (suc i - length l) l) i

  -- The write of an attribute that there is, at an index or not.
  unfoldable pub write_attr : F → Text → Value F → Value F → Option ℤ → MemoryHost F → MemoryHost F
  write_attr zero_float name v value none h = record h { attrs = put_key name value h.attrs }
  write_attr zero_float name v value (some (negsuc i)) h = h
  write_attr zero_float name v value (some (pos i)) h = elim (as_array (some v)) [
    | none ↦ record h { attrs = put_key name value h.attrs }
    | some a ↦ record h {
      heap = put_list a (write_element zero_float value (list_at h.heap a) i) h.heap;
    }
  ]

  unfoldable pub set_builtin : F → Text → Value F → Option ℤ → MemoryHost F → MemoryHost F × Bool
  set_builtin zero_float name value index h = elim (get_key name h.attrs) [
    | none ↦ (h, false)
    | some v ↦ (write_attr zero_float name v value index h, true)
  ]

  unfoldable pub call_command : Text → List (Value F) → MemoryHost F → MemoryHost F
  call_command name args h = record h { log = h.log ++ (name, args) ∷ [] }
