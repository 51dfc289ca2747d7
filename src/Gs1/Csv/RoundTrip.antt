-- ===== src/Gs1/Csv/RoundTrip.antt =====
-- reborn_protocol/gs1/csv.py: `gs1_csv_split` on what `gs1_csv_join` writes.
use reborn_protocol.Base.{
  ◌≡◌, ◌≢◌, refl, sym, ◌∙◌, List, [], ◌∷◌, ◌++◌, map, Bool, true, false, ◌⊎◌, inl, inr, ◌||◌, arith,
  append-nil, append_assoc, Bool-cases,
}
use reborn_protocol.Gs1.Csv.{
  Text, quote, comma, has_special, escape, field, join, gs1_csv_join, finish, split_from, at_word,
  gs1_csv_split,
}
use reborn_protocol.Gs1.Csv.Scan.{split_from-nil}
use reborn_protocol.Gs1.Csv.Rounds.{
  in_word, closed_by_comma, closed_at_end, opened, first_plain, plain_body, word_ended, empty_word,
  quoted_body,
}

field-quoted :
    (force : Bool) (value : Text)
    → (force || has_special value) ≡ true
    → field force value ≡ quote ∷ (escape value ++ quote ∷ [])
unfolding field
field-quoted force value e = rw e

field-plain :
    (force : Bool) (value : Text) → (force || has_special value) ≡ false → field force value ≡ value
unfolding field
field-plain force value e = rw e

-- The blanks in front of a plain field are lost if they are ignored.
abbrev Keeps : Bool → Bool → Type 0
Keeps force ignore = (force ≡ true) ⊎ (ignore ≡ false)

not_ignored :
    (force ignore : Bool) (value : Text)
    → Keeps force ignore
    → (force || has_special value) ≡ false
    → (ignore ≡ false) × (has_special value ≡ false)
not_ignored true ignore value (inl f) e = cc
not_ignored false ignore value (inl f) e = cc
not_ignored true ignore value (inr i) e = cc
not_ignored false ignore value (inr i) e = (i, e)

plain_then :
    (tokens : List Text) (value more : Text)
    → has_special value ≡ false
    → split_from false (at_word tokens) (value ++ comma ∷ more)
      ≡ split_from false (at_word (tokens ++ value ∷ [])) more
unfolding has_special
plain_then tokens [] more h = empty_word tokens more
plain_then tokens (c ∷ value) more h =
    first_plain tokens c (value ++ comma ∷ more) (ground arith) (ground arith)
    ∙ plain_body tokens (c ∷ []) value (comma ∷ more) (ground arith)
    ∙ word_ended tokens (c ∷ value) more

plain_last :
    (tokens : List Text) (value : Text)
    → has_special value ≡ false
    → value ≢ []
    → split_from false (at_word tokens) value ≡ tokens ++ value ∷ []
unfolding has_special
plain_last tokens [] h k = absurd (k refl)
plain_last tokens (c ∷ value) h k =
    first_plain tokens c value (ground arith) (ground arith)
    ∙ rw append-nil at (plain_body tokens (c ∷ []) value [] (ground arith))
    ∙ split_from-nil false (in_word tokens (c ∷ value))
    ∙ unfold finish in refl

module _ (force ignore : Bool) (keeps : Keeps force ignore) where
  field_then :
      (tokens : List Text) (value more : Text)
      → split_from ignore (at_word tokens) (field force value ++ comma ∷ more)
        ≡ split_from ignore (at_word (tokens ++ value ∷ [])) more
  field_then tokens value more = elim (Bool-cases (force || has_special value)) [
    | inl e ↦
        rw (field-quoted force value e, append_assoc)
          (opened ignore tokens (escape value ++ quote ∷ comma ∷ more)
            ∙ quoted_body ignore tokens [] value (quote ∷ comma ∷ more)
            ∙ closed_by_comma ignore tokens value more)
    | inr e ↦
        let (i, h) = not_ignored force ignore value keeps e in
        rw (field-plain force value e, i) (plain_then tokens value more h)
  ]

  field_last :
      (tokens : List Text) (value : Text)
      → (force ≡ true) ⊎ (value ≢ [])
      → split_from ignore (at_word tokens) (field force value) ≡ tokens ++ value ∷ []
  field_last tokens value k = elim (Bool-cases (force || has_special value)) [
    | inl e ↦ rw (field-quoted force value e) (
        opened ignore tokens (escape value ++ quote ∷ [])
        ∙ quoted_body ignore tokens [] value (quote ∷ [])
        ∙ closed_at_end ignore tokens value)
    | inr e ↦
        let (i, h) = not_ignored force ignore value keeps e in
        rw (field-plain force value e, i) (plain_last tokens value h (nonempty force value k e))
  ]
    where
      nonempty :
          (f : Bool) (v : Text) → (f ≡ true) ⊎ (v ≢ []) → (f || has_special v) ≡ false → v ≢ []
      nonempty true v k e = cc
      nonempty false v (inl f) e = cc
      nonempty false v (inr n) e = n

-- The last value, if there is one, is not empty.
abbrev pub LastNonEmpty : List Text → Type 0
LastNonEmpty [] = Unit {0}
LastNonEmpty (v ∷ []) = v ≢ []
LastNonEmpty (v ∷ w ∷ values) = LastNonEmpty (w ∷ values)

fields_back :
    (force ignore : Bool)
    → Keeps force ignore
    → (tokens values : List Text) → (force ≡ true) ⊎ LastNonEmpty values
    → split_from ignore (at_word tokens) (join (map (field force) values)) ≡ tokens ++ values
unfolding join
fields_back force ignore keeps tokens [] h =
    split_from-nil ignore (at_word tokens) ∙ unfold finish in sym (append-nil tokens)
fields_back force ignore keeps tokens (v ∷ []) h = field_last force ignore keeps tokens v h
fields_back force ignore keeps tokens (v ∷ w ∷ values) h =
    field_then force ignore keeps tokens v (join (map (field force) (w ∷ values)))
    ∙ fields_back force ignore keeps (tokens ++ v ∷ []) (w ∷ values) h
    ∙ append_assoc tokens (v ∷ []) (w ∷ values)

-- Fields that were all quoted are read back as they were, whatever they hold, empty ones and
-- leading blanks included, and whether or not leading blanks are ignored.
pub split-join_quoted :
    (values : List Text) (ignore : Bool) → gs1_csv_split (gs1_csv_join values true) ignore ≡ values
unfolding gs1_csv_split gs1_csv_join
split-join_quoted values ignore = fields_back true ignore (inl refl) [] values (inl refl)

-- Fields that were quoted only where they had to be are read back by a reader that keeps
-- leading blanks, if the last of them is not empty.
split-join_plain :
    (values : List Text)
    → LastNonEmpty values
    → gs1_csv_split (gs1_csv_join values false) false ≡ values
unfolding gs1_csv_split gs1_csv_join
split-join_plain values h = fields_back false false (inr refl) [] values (inr h)
