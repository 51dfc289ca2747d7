-- ===== src/Gs1/Runtime/Tables.antt =====
-- reborn_protocol/gs1/runtime.py: what `get` gives behind `set` and `unset`, without an index.
use reborn_protocol.Base.{
  ℕ, ◌≡◌, refl, sym, ◌∙◌, List, [], ◌∷◌, Bool, true, false, ◌&&◌, Option, none, some, arith,
  Bool-cases, inl, inr, ==_iff, if◌then◌else◌, ap,
}
use reborn_protocol.Gs1.Csv.{Text}
use reborn_protocol.Gs1.Tokens.{same_text}
use reborn_protocol.Gs1.Values.{Value}
use reborn_protocol.Gs1.Runtime.{
  get_key, put_key, pop_key, Table, VarStore, own_table, table_of, store_table, get_var, set_var,
  unset,
}

same_text_refl : (s : Text) → same_text s s ≡ true
unfolding same_text
same_text_refl [] = refl
same_text_refl (c ∷ s) = rw ((==_iff c c).1 refl, same_text_refl s) refl

same_text_eq : (s t : Text) → same_text s t ≡ true → s ≡ t
unfolding same_text
same_text_eq [] [] e = refl
same_text_eq [] (d ∷ t) e = cc
same_text_eq (c ∷ s) [] e = cc
same_text_eq (c ∷ s) (d ∷ t) e = ground (arith, same_text_eq s t)

apart :
    (k key other : Text)
    → same_text k key ≡ false
    → same_text k other ≡ true
    → same_text key other ≡ false
apart k key other e f = elim (Bool-cases (same_text key other)) [
  | inl g ↦
      let same : k ≡ key = same_text_eq k other f ∙ sym (same_text_eq key other g) in
      let true_too : same_text k key ≡ true = rw same (same_text_refl key) in absurd (cc)
  | inr g ↦ g
]

module _ {A : Type 0} (key other : Text) where
  get_key-put_key :
      (v : A) (table : List (Text × A))
      → get_key other (put_key key v table)
        ≡ (if same_text key other then some v else get_key other table)
  unfolding get_key put_key
  get_key-put_key v [] = refl
  get_key-put_key v ((k, w) ∷ table) = elim (Bool-cases (same_text k key)) [
    | inl e ↦
        rw (e, same_text_eq k key e)
          (elim (Bool-cases (same_text key other)) [ inl f ↦ rw f refl | inr f ↦ rw f refl ])
    | inr e ↦ rw e (elim (Bool-cases (same_text k other)) [
      | inl f ↦ rw (f, apart k key other e f) refl
      | inr f ↦ rw f (get_key-put_key v table)
    ])
  ]

  get_key-pop_key :
      (table : List (Text × A))
      → get_key other (pop_key key table)
        ≡ (if same_text key other then none else get_key other table)
  unfolding get_key pop_key
  get_key-pop_key [] = elim (Bool-cases (same_text key other)) [
    | inl e ↦ rw e refl
    | inr e ↦ rw e refl
  ]
  get_key-pop_key ((k, w) ∷ table) = elim (Bool-cases (same_text k key)) [
    | inl e ↦
        rw (e, same_text_eq k key e)
          (elim (Bool-cases (same_text key other)) [
            | inl f ↦ rw f (rw f at (get_key-pop_key table))
            | inr f ↦ rw f (rw f at (get_key-pop_key table))
          ])
    | inr e ↦ rw e (elim (Bool-cases (same_text k other)) [
      | inl f ↦ rw (f, apart k key other e f) refl
      | inr f ↦ rw f (get_key-pop_key table)
    ])
  ]

-- Two scopes go to one table: both to the same one of their own, or both to the player's flags.
abbrev pub same_table : {F : Type 0} → VarStore F → Text → Text → Bool
same_table st s t = elim (own_table s st) [
  | some _ ↦ same_text s t
  | none ↦ elim (own_table t st) [ some _ ↦ false | none ↦ true ]
]

-- What is looked up for another scope behind a write into its own table, or into the player's flags.
module _ {F : Type 0} (new : Table F) (st : VarStore F) where
  behind_flags :
      (other : Text)
      → table_of other (record st { player_flags = new })
        ≡ (elim (own_table other st) [ some t ↦ t | none ↦ new ])
  unfolding table_of own_table
  behind_flags [] = refl
  behind_flags (c ∷ other) = refl

  by_own :
      (o : Option (Table F))
      → (elim o [ some t ↦ t | none ↦ new ]) ≡ (
          if elim o [ some _ ↦ false | none ↦ true ]
          then new
          else elim o [ some t ↦ t | none ↦ st.player_flags ])
  by_own none = refl
  by_own (some t) = refl

  behind_scope :
      (c : ℕ) (scope other : Text)
      → table_of other (record st { scopes = put_key (c ∷ scope) new st.scopes })
        ≡ (if same_text (c ∷ scope) other then new else table_of other st)
  unfolding table_of own_table
  behind_scope c scope [] = unfold same_text in refl
  behind_scope c scope (d ∷ other) =
      ap (λ (o : Option (Table F)). elim o [ some t ↦ t | none ↦ st.player_flags ])
        (get_key-put_key (c ∷ scope) (d ∷ other) new st.scopes)
      ∙ by_text (same_text (c ∷ scope) (d ∷ other)) (get_key (d ∷ other) st.scopes)
    where
      by_text :
          (b : Bool) (o : Option (Table F))
          → (elim (if b then some new else o) [ some t ↦ t | none ↦ st.player_flags ])
            ≡ (if b then new else elim o [ some t ↦ t | none ↦ st.player_flags ])
      by_text true o = refl
      by_text false o = refl

  table_of-store_table :
      (scope other : Text)
      → table_of other (store_table scope new st)
        ≡ (if same_table st scope other then new else table_of other st)
  unfolding store_table own_table
  table_of-store_table scope other = by_table scope (own_table scope st) refl
    where
      by_table :
          (s : Text) (o : Option (Table F))
          → own_table s st ≡ o
          → table_of other (elim o [
            | some old ↦ record st { scopes = put_key s new st.scopes }
            | none ↦ record st { player_flags = new }
          ])
            ≡ (if elim o [
              | some _ ↦ same_text s other
              | none ↦ elim (own_table other st) [ some _ ↦ false | none ↦ true ]
            ]
                then new
                else table_of other st)
      by_table s none e = behind_flags other ∙ (unfold table_of in by_own (own_table other st))
      by_table [] (some old) e = cc
      by_table (c ∷ s) (some old) e = behind_scope c s other

-- The same variable, under the same key of the same table.
abbrev pub same_var : {F : Type 0} → VarStore F → Text → Text → Text → Text → Bool
same_var st scope key other_scope other = same_table st scope other_scope && same_text key other

same_table_eq :
    {F : Type 0} (st : VarStore F) (s t : Text)
    → same_table st s t ≡ true
    → table_of s st ≡ table_of t st
unfolding table_of
same_table_eq {F} st s t e = by_tables (own_table s st) (own_table t st) refl refl e
  where
    by_tables :
        (o p : Option (Table F))
        → own_table s st ≡ o
        → own_table t st ≡ p
        → (elim o [ some _ ↦ same_text s t | none ↦ elim p [ some _ ↦ false | none ↦ true ] ])
          ≡ true
        → (elim o [ some a ↦ a | none ↦ st.player_flags ])
          ≡ (elim p [ some a ↦ a | none ↦ st.player_flags ])
    by_tables none none d f e = refl
    by_tables none (some p) d f e = cc
    by_tables (some o) p d f e =
        let same : some o ≡ p = sym d ∙ ap (λ u. own_table u st) (same_text_eq s t e) ∙ f in
        ap (λ (q : Option (Table F)). elim q [ some a ↦ a | none ↦ st.player_flags ]) same

-- A table that reads as `found` under one key, and as before under any other.
read_behind :
    {F : Type 0} (scope other_scope other : Text) (st : VarStore F) (new : Table F) (b : Bool)
    (found : Option (Value F))
    → get_key other new ≡ (if b then found else get_key other (table_of scope st))
    → get_var other_scope other (store_table scope new st)
      ≡ (if same_table st scope other_scope && b then found else get_var other_scope other st)
unfolding get_var
read_behind scope other_scope other st new b found e =
    ap (get_key other) (table_of-store_table new st scope other_scope)
    ∙ elim (Bool-cases (same_table st scope other_scope)) [
      | inl q ↦ rw (q, e, same_table_eq st scope other_scope q) refl
      | inr q ↦ rw q refl
    ]

module _ {F : Type 0} (scope key other_scope other : Text) (st : VarStore F) where
  -- What `get` gives behind `set`, both without an index, for every pair of variables: the value that
  -- was set where they are the same, and what it gave before where they are not. They are the same
  -- if the keys are and the scopes have one table, their own or, for scopes without one, the
  -- player's flags.
  pub get_var-set_var :
      (value : Value F)
      → get_var other_scope other (set_var scope key value st) ≡ (
          if same_var st scope key other_scope other
          then some value
          else get_var other_scope other st)
  unfolding set_var
  get_var-set_var value =
      read_behind scope other_scope other st _ (same_text key other) (some value)
        (get_key-put_key key other value (table_of scope st))

  -- What `get` gives behind `unset`, in the same way: UNSET where the variables are the same.
  get_var-unset :
      get_var other_scope other (unset scope key st)
      ≡ (if same_var st scope key other_scope other then none else get_var other_scope other st)
  unfolding unset
  get_var-unset =
      read_behind scope other_scope other st _ (same_text key other) none
        (get_key-pop_key key other (table_of scope st))
