-- ===== src/Gs1/Runtime.antt =====
-- reborn_protocol/gs1/runtime.py: `VarStore`, the tables of flags and variables. A scope of None is the
-- empty text; an index is the integer that `int(index)` gives.
pub mod Tables
pub mod Arrays
pub mod Places
pub mod Host
pub mod Growth
use reborn_protocol.Base.{
  ℕ, zero, suc, List, [], ◌∷◌, Bool, true, false, not, ◌&&◌, Option, none, some, length, ℤ, pos,
  negsuc, ltb, ◌==◌, if◌then◌else◌,
}
use reborn_protocol.Gs1.Csv.{Text}
use reborn_protocol.Gs1.Tokens.{same_text}
use reborn_protocol.Gs1.Lexer.Scan.{codes}
use reborn_protocol.Gs1.Values.{Value, number, array, Heap, list_at}

module _ {A : Type 0} where
  -- A dict: `d.get(key)`, `d[key] = value` and `d.pop(key, None)`.
  unfoldable pub get_key : Text → List (Text × A) → Option A
  get_key key [] = none
  get_key key ((k, v) ∷ table) = if same_text k key then some v else get_key key table

  unfoldable pub put_key : Text → A → List (Text × A) → List (Text × A)
  put_key key value [] = (key, value) ∷ []
  put_key key value ((k, v) ∷ table) =
      if same_text k key then (k, value) ∷ table else (k, v) ∷ put_key key value table

  unfoldable pub pop_key : Text → List (Text × A) → List (Text × A)
  pop_key key [] = []
  pop_key key ((k, v) ∷ table) =
      if same_text k key then pop_key key table else (k, v) ∷ pop_key key table

  -- `l[i]` and `l[i] = v` at an index in range.
  unfoldable pub item : A → List A → ℕ → A
  item d [] i = d
  item d (v ∷ l) zero = v
  item d (v ∷ l) (suc i) = item d l i

  unfoldable pub put_item : A → List A → ℕ → List A
  put_item v [] i = []
  put_item v (w ∷ l) zero = v ∷ l
  put_item v (w ∷ l) (suc i) = w ∷ put_item v l i

abbrev pub Table : Type 0 → Type 0
Table F = List (Text × Value F)

pub record VarStore (F : Type 0) : Type 0 where
  pub scopes : List (Text × Table F)
  pub player_flags : Table F
  pub heap : Heap F

-- `_SCOPE_KEYS`
abbrev pub scope_keys : List Text
scope_keys =
    codes "this"
    ∷ codes "thiso"
    ∷ codes "temp"
    ∷ codes "local"
    ∷ codes "client"
    ∷ codes "server"
    ∷ codes "level"
    ∷ codes "global"
    ∷ []

-- An index out of bounds is the index 0.
unfoldable pub in_bounds : ℕ → ℕ → ℕ
in_bounds i n = if ltb i n then i else 0

module _ {F : Type 0} where
  -- `self.scopes.setdefault(k, {})`
  set_defaults : List Text → List (Text × Table F) → List (Text × Table F)
  set_defaults [] scopes = scopes
  set_defaults (k ∷ keys) scopes =
      set_defaults keys (elim (get_key k scopes) [ none ↦ put_key k [] scopes | some t ↦ scopes ])

  unfoldable pub new_store : List (Text × Table F) → Table F → Heap F → VarStore F
  unfolding set_defaults
  new_store scopes player_flags heap = record {
    scopes = set_defaults scope_keys scopes;
    player_flags = player_flags;
    heap = heap;
  }

  -- The table of a scope that has one of its own.
  unfoldable pub own_table : Text → VarStore F → Option (Table F)
  own_table [] st = none
  own_table (c ∷ scope) st = get_key (c ∷ scope) st.scopes

  -- `self.scopes.get(scope, self.player_flags) if scope else self.player_flags`
  unfoldable pub table_of : Text → VarStore F → Table F
  table_of scope st = elim (own_table scope st) [ some t ↦ t | none ↦ st.player_flags ]

  unfoldable pub store_table : Text → Table F → VarStore F → VarStore F
  store_table scope t st = elim (own_table scope st) [
    | some old ↦ record st { scopes = put_key scope t st.scopes }
    | none ↦ record st { player_flags = t }
  ]

  -- `get` and `set` without an index; none is UNSET.
  unfoldable pub get_var : Text → Text → VarStore F → Option (Value F)
  get_var scope key st = get_key key (table_of scope st)

  unfoldable pub set_var : Text → Text → Value F → VarStore F → VarStore F
  set_var scope key value st = store_table scope (put_key key value (table_of scope st)) st

  unfoldable pub unset : Text → Text → VarStore F → VarStore F
  unset scope key st = store_table scope (pop_key key (table_of scope st)) st

  -- `isinstance(v, list)`, with what it refers to.
  unfoldable pub as_array : Option (Value F) → Option ℕ
  as_array (some (array a)) = some a
  as_array v = none

  -- `get` at an index; a list with no element, or none, gives 0.0.
  unfoldable pub get_at : F → Text → Text → ℤ → VarStore F → Value F
  get_at zero_float scope key (negsuc i) st = number zero_float
  get_at zero_float scope key (pos i) st = elim (as_array (get_var scope key st)) [
    | none ↦ number zero_float
    | some a ↦ let l = list_at st.heap a in item (number zero_float) l (in_bounds i (length l))
  ]

  unfoldable pub put_list : ℕ → List (Value F) → Heap F → Heap F
  put_list a l [] = []
  put_list zero l (k ∷ heap) = l ∷ heap
  put_list (suc a) l (k ∷ heap) = k ∷ put_list a l heap

  unfoldable pub write_at : ℕ → ℕ → Value F → VarStore F → VarStore F
  write_at a i value st =
      let l = list_at st.heap a in
      record st { heap = put_list a (put_item value l (in_bounds i (length l))) st.heap }

  -- `set` at an index, which writes into a list that has an element, and nothing else.
  unfoldable pub set_at : Text → Text → Value F → ℤ → VarStore F → VarStore F
  set_at scope key value (negsuc i) st = st
  set_at scope key value (pos i) st = elim (as_array (get_var scope key st)) [
    | none ↦ st
    | some a ↦ write_at a i value st
  ]

  -- `get` and `set`, with an index or none.
  unfoldable pub get : F → Text → Text → Option ℤ → VarStore F → Option (Value F)
  get zero_float scope key none st = get_var scope key st
  get zero_float scope key (some i) st = some (get_at zero_float scope key i st)

  unfoldable pub set : Text → Text → Value F → Option ℤ → VarStore F → VarStore F
  set scope key value none st = set_var scope key value st
  set scope key value (some i) st = set_at scope key value i st
