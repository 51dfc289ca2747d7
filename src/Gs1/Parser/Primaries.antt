-- ===== src/Gs1/Parser/Primaries.antt =====
-- reborn_protocol/gs1/parser.py: what `parse_primary` leaves.
use reborn_protocol.Base.{
  ℕ, suc, ◌≤◌, ◌<◌, ◌≡◌, refl, List, [], ◌∷◌, Bool, true, false, length, arith, Bool-cases, inl,
  inr,
}
use reborn_protocol.Gs1.Ast.{Expr}
use reborn_protocol.Gs1.Tokens.{
  among, code, identifier, messagecode, string, rawmessagecode, string_parts, token_brace_left,
}
use reborn_protocol.Gs1.Parser.State.{
  ParserState, Parse, ◌>>=◌, pure, raise, first_of, if_at, if_next, repeat, expected_expression,
}
use reborn_protocol.Gs1.Parser.Primary.{
  no_atoms, path_atom, messagecode_node, read_path_part, identifier_access, path_value, string_part,
  string_concat, array_element, array_literal, primary,
}
use reborn_protocol.Gs1.Parser.Fit.{IsGood, true_false, calm_no_brace}
use reborn_protocol.Gs1.Parser.Ends.{
  parse_literal-Ends, Leaves, Ends, always, never, full, is_some, Ends-le, Ends-never, raise-Ends,
  bind-Leaves, after-Ends, bind-Ends, eaten-Ends,
}
use reborn_protocol.Gs1.Parser.Operands.{
  ends_rules, paren_arguments-Ends, messagecode-Ends, optional_index-Ends, path_atom-Ends,
  further_part-Ends, further_parts-Ends,
}
use reborn_protocol.Gs1.Parser.Loops.{repeat-Ends, GoesOn, bind-GoesOn, repeat-eats}
use reborn_protocol.Gs1.Parser.Choices.{if_next-Ends, same_next-Ends, if_at-Ends, eat-Ends}
use reborn_protocol.Gs1.Parser.Takes.{always-Leaves}
use reborn_protocol.Gs1.Parser.Calls.{path_value-Ends, last_of_list-Ends}

module _ (fuel k : ℕ) (expression : Parse Expr) (h : k ≤ fuel)
    (e : Ends false k always expression) where
  array_element-Ends : (es : List Expr) → Ends false k is_some (array_element fuel expression es)
  unfolding among code array_element
  array_element-Ends es = if_at-Ends _ _ _ (search ends_rules) (
      same_next-Ends _ _ _ refl (λ t. search ends_rules)
        (same_next-Ends _ _ _ refl (λ t. search ends_rules)
          (eaten-Ends _ _ e (λ a. search ends_rules))))

  array_literal-Ends : Ends false k never (array_literal fuel expression)
  unfolding among code array_literal
  array_literal-Ends =
      bind-Ends _ _ (repeat-Ends _ fuel [] h array_element-Ends)
        (λ es. bind-Ends _ _ (Ends-never _ (eat-Ends _ refl)) (λ u. search ends_rules))

-- No array begins in a case label.
brace_or-Ends :
    {c : Bool} (fuel k : ℕ) (expression m : Parse Expr)
    → k ≤ fuel
    → Ends c k (full c) expression
    → Ends c (suc k) (full c) m
    → Ends c
        (suc k)
        (full c)
        (if_next (token_brace_left ∷ []) (λ _. array_literal fuel expression) m)
unfolding among code if_next
brace_or-Ends {c = true} fuel k expression m h e f = record {
  at = λ s p l. rw (calm_no_brace s.rest (p.calm refl)) (f.at s p l);
}
brace_or-Ends {c = false} fuel k expression m h e f =
    if_next-Ends (token_brace_left ∷ []) _ m refl (λ t. array_literal-Ends fuel k expression h e) f

module _ {c : Bool} (fuel k : ℕ) (expression : Parse Expr) (h : suc k ≤ fuel)
    (e : Ends c k (full c) expression) where
  string_part-Ends : (ps : List Expr) → Ends c (suc k) is_some (string_part fuel expression ps)
  unfolding among code string_part
  string_part-Ends ps =
      if_next-Ends _ _ _ refl (λ t. search ends_rules)
        (if_next-Ends _ _ _ refl (λ t. search ends_rules)
          (if_at-Ends _ _ _
            (after-Ends _ _ (messagecode-Ends fuel k expression (omega arith) e)
              (λ m. search ends_rules))
            (search ends_rules)))

  -- The first round of parse_string_concat takes a part.
  string_part-GoesOn :
      (s : ParserState)
      → among (first_of s.rest).type string_parts ≡ true
      → GoesOn (string_part fuel expression [] s)
  unfolding among code string_part if_next if_at GoesOn ◌>>=◌ pure
  string_part-GoesOn s q = elim (Bool-cases (among (first_of s.rest).type (string ∷ []))) [
    | inl a ↦ rw a tt
    | inr a ↦ elim (Bool-cases (among (first_of s.rest).type (rawmessagecode ∷ []))) [
      | inl b ↦ rw (a, b) tt
      | inr b ↦ elim (Bool-cases (among (first_of s.rest).type (messagecode ∷ []))) [
        | inl c ↦ rw (a, b, c) (bind-GoesOn (messagecode_node fuel expression s) _)
        | inr c ↦ absurd (ground arith)
      ]
    ]
  ]

  string_concat-Leaves :
      (s : ParserState)
      → among (first_of s.rest).type string_parts ≡ true
      → IsGood c s
      → length s.rest < suc k
      → Leaves c s.recover always (length s.rest) (string_concat fuel expression s)
  unfolding string_concat ◌>>=◌
  string_concat-Leaves s q p l =
      bind-Leaves _ _ always always (repeat fuel (string_part fuel expression) [] s) _ l
        (repeat-eats (string_part fuel expression) fuel [] s h string_part-Ends p l
          (string_part-GoesOn s q))
        (λ ps _. search ends_rules) (λ ps x. true_false x)

  -- The rest of parse_primary behind its test for a string.
  string_or-Ends :
      (m : Parse Expr)
      → Ends c (suc k) (full c) m
      → Ends c (suc k) (full c) (if_at string_parts (string_concat fuel expression) m)
  unfolding if_at
  string_or-Ends m f = record {
    at = λ s p l. elim (Bool-cases (among (first_of s.rest).type string_parts)) [
      | inl q ↦ rw q (always-Leaves c s.recover _ _ (string_concat-Leaves s q p l))
      | inr q ↦ rw q (f.at s p l)
    ];
  }

  any_path-Ends :
      Ends c (suc k) never (identifier_access fuel expression >>= path_value fuel expression)
  unfolding among code identifier_access read_path_part
  any_path-Ends =
      bind-Ends _ _
        (bind-Ends _ _
          (bind-Ends _ _
            (repeat-Ends _ fuel no_atoms h (path_atom-Ends fuel k expression (omega arith) e))
            (λ a.
              bind-Ends _ _ (optional_index-Ends fuel k expression (omega arith) e)
                (λ i. search ends_rules)))
          (λ p. repeat-Ends _ fuel _ h (λ qs.
            if_next-Ends _ _ _ refl
              (λ t.
                bind-Ends _ _ (further_part-Ends fuel k expression (omega arith) e)
                  (λ q. search ends_rules))
              (search ends_rules))))
        (path_value-Ends fuel k expression (omega arith) e)

module _ (fuel k : ℕ) (expression : Parse Expr) (h : suc k ≤ fuel)
    (e : Ends false k always expression) where
  -- A name at the start of a path is taken.
  path_atom-GoesOn :
      (s : ParserState)
      → among (first_of s.rest).type (identifier ∷ []) ≡ true
      → IsGood false s
      → GoesOn (path_atom fuel expression no_atoms s)
  unfolding path_atom GoesOn
  path_atom-GoesOn s q p = rw (q, p.label) tt

  read_path_part-eats :
      (s : ParserState)
      → among (first_of s.rest).type (identifier ∷ []) ≡ true
      → IsGood false s
      → length s.rest < suc k
      → Leaves false s.recover always (length s.rest) (read_path_part fuel expression s)
  unfolding read_path_part ◌>>=◌
  read_path_part-eats s q p l =
      bind-Leaves _ _ always always (repeat fuel (path_atom fuel expression) no_atoms s) _ l
        (repeat-eats (path_atom fuel expression) fuel no_atoms s h
          (path_atom-Ends fuel k expression (omega arith) e) p l (path_atom-GoesOn s q p))
        (λ a _.
          bind-Ends _ _
            (Ends-le _ (omega arith) (optional_index-Ends fuel k expression (omega arith) e))
            (λ i. search ends_rules))
        (λ a x. true_false x)

  some_path-Leaves :
      (s : ParserState)
      → among (first_of s.rest).type (identifier ∷ []) ≡ true
      → IsGood false s
      → length s.rest < suc k
      → Leaves false s.recover always
          (length s.rest)
          ((identifier_access fuel expression >>= path_value fuel expression) s)
  unfolding identifier_access ◌>>=◌
  some_path-Leaves s q p l =
      bind-Leaves _ _ always always (identifier_access fuel expression s) _ l
        (bind-Leaves _ _ always always (read_path_part fuel expression s) _ l
          (read_path_part-eats s q p l)
          (λ part _. further_parts-Ends fuel k expression (omega arith) e (part ∷ []))
          (λ part x. true_false x))
        (λ ps _. Ends-le _ (omega arith) (path_value-Ends fuel k expression (omega arith) e ps))
        (λ ps x. true_false x)

-- A path takes a token outside of a case label.
path-Ends :
    {c : Bool} (fuel k : ℕ) (expression : Parse Expr)
    → suc k ≤ fuel
    → Ends c k (full c) expression
    → Ends c (suc k) (full c) (
        if_at
          (identifier ∷ [])
          (identifier_access fuel expression >>= path_value fuel expression)
          (raise expected_expression))
unfolding if_at
path-Ends {c = true} fuel k expression h e =
    if_at-Ends _ _ _ (any_path-Ends fuel k expression h e) (raise-Ends expected_expression)
path-Ends {c = false} fuel k expression h e = record {
  at = λ s p l. elim (Bool-cases (among (first_of s.rest).type (identifier ∷ []))) [
    | inl q ↦ rw q (some_path-Leaves fuel k expression h e s q p l)
    | inr q ↦ rw q ((raise-Ends {P = always} expected_expression).at s p l)
  ];
}

module _ {c : Bool} (fuel k : ℕ) (expression : Parse Expr) (h : suc k ≤ fuel)
    (e : Ends c k (full c) expression) where
  -- parse_primary takes a token or raises; in a case label it may take none.
  pub primary-Ends : Ends c (suc k) (full c) (primary fuel expression)
  unfolding among code primary
  primary-Ends =
      if_next-Ends _ _ _ refl
        (λ t. bind-Ends _ _ (Ends-never _ e) (λ a.
          bind-Ends _ _ (last_of_list-Ends fuel k expression (omega arith) e a)
            (λ b. bind-Ends _ _ (Ends-never _ (eat-Ends _ refl)) (λ u. search ends_rules))))
        (string_or-Ends fuel k expression h e _ (
          if_next-Ends _ _ _ refl
            (λ t. bind-Ends _ _ (Ends-never _ (eat-Ends _ refl)) (λ u.
              bind-Ends _ _ (paren_arguments-Ends fuel k expression (omega arith) e)
                (λ args. search ends_rules)))
            (brace_or-Ends fuel k expression _ (omega arith) e (
              if_next-Ends _ _ _ refl (λ t. parse_literal-Ends t.text)
                (if_next-Ends _ _ _ refl (λ t. search ends_rules)
                  (path-Ends fuel k expression h e))))))
