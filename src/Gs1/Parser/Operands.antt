-- ===== src/Gs1/Parser/Operands.antt =====
-- reborn_protocol/gs1/parser.py: what the parsers of paths, arguments and message codes leave.
use reborn_protocol.Base.{
  ℕ, suc, ◌≤◌, ◌≡◌, refl, length, if◌then◌else◌, List, [], ◌∷◌, ◌++◌, Bool, true, false, ◌&&◌, none,
  some, arith, sym, ◌∙◌, Bool-cases, inl, inr,
}
use reborn_protocol.Gs1.Ast.{Expr, PathPart, str}
use reborn_protocol.Gs1.Tokens.{
  among, code, same_text, identifier, literal, messagecode, token_paren_right, token_period,
}
use reborn_protocol.Gs1.Parser.State.{
  Parse, ParserState, ok, advance, ◌>>=◌, pure, first_of, if_at, if_next, repeat, eat,
}
use reborn_protocol.Gs1.Parser.Primary.{
  Atoms, path_atom, paren_arg_or_empty, more_arguments, paren_arguments, messagecode_node,
  optional_index, read_path_part, further_part, identifier_access, colon_text, static_atom,
}
use reborn_protocol.Gs1.Parser.Fit.{IsGood, true_false, take-IsGood, some_token}
use reborn_protocol.Gs1.Parser.Ends.{
  Leaves, Ends, always, never, is_some, Leaves-le, Leaves-lt, Leaves-never, Ends-zero, Ends-le,
  Ends-never, pure-Ends, raise-Ends, bind-Leaves, after-Ends, then-Ends, bind-Ends, eaten-Ends,
  option-Ends, full,
}
use reborn_protocol.Gs1.Parser.Loops.{repeat-Ends, GoesOn, bind-GoesOn, repeat-eats}
use reborn_protocol.Gs1.Parser.Choices.{if_next-Ends, same_next-Ends, if_at-Ends, eat-Ends}

pub ruleset ends_rules = (
  pure-Ends, raise-Ends, bind-Ends, same_next-Ends, if_at-Ends, eat-Ends, repeat-Ends, Ends-never,
)

no_colon : (c a b : Bool) → c ≡ true → (c && b) ≡ false → (a && b) ≡ false
no_colon true true b e x = x
no_colon true false b e x = refl
no_colon false a b e x = true_false (sym e)

module _ {c : Bool} (fuel k : ℕ) (expression : Parse Expr) (h : k ≤ fuel)
    (e : Ends c k (full c) expression) where
  paren_arg-Ends : Ends c k never (paren_arg_or_empty fuel expression)
  unfolding among code paren_arg_or_empty
  paren_arg-Ends = search ends_rules

  pub more_arguments-Ends :
      (argument : Parse Expr) (args : List Expr)
      → Ends c k never argument
      → Ends c k never (more_arguments fuel expression argument args)
  unfolding among code more_arguments
  more_arguments-Ends argument args a = search ends_rules

  pub paren_arguments-Ends : Ends c k never (paren_arguments fuel expression)
  unfolding among code paren_arguments
  paren_arguments-Ends =
      bind-Ends _ _
        (if_at-Ends _ _ _ (search ends_rules)
          (bind-Ends _ _ paren_arg-Ends (λ a. more_arguments-Ends _ _ paren_arg-Ends)))
        (λ args. bind-Ends _ _ (Ends-never _ (eat-Ends _ refl)) (λ t. search ends_rules))

  eat_paren-Ends : {n : ℕ} → Ends c n never (eat token_paren_right)
  unfolding among code
  eat_paren-Ends = Ends-never _ (eat-Ends _ refl)

  pub messagecode-Ends : Ends c (suc k) always (messagecode_node fuel expression)
  unfolding among code messagecode_node
  messagecode-Ends = after-Ends _ _ (eat-Ends _ refl) (λ t.
      same_next-Ends _ _ _ refl
        (λ u. bind-Ends _ _ paren_arguments-Ends (λ args. search ends_rules)) (search ends_rules))

  pub optional_index-Ends : Ends c (suc k) never (optional_index fuel expression)
  unfolding among code optional_index
  optional_index-Ends =
      if_next-Ends _ _ _ refl
        (λ t. bind-Ends _ _ (Ends-never _ e) (λ a.
          bind-Ends _ _
            (same_next-Ends _ _ _ refl
              (λ u. bind-Ends _ _ (Ends-never _ e) (λ b. search ends_rules)) (search ends_rules))
            (λ es. bind-Ends _ _ (Ends-never _ (eat-Ends _ refl)) (λ u. search ends_rules))))
        (search ends_rules)

  pub path_atom-Ends : (a : Atoms) → Ends c (suc k) is_some (path_atom fuel expression a)
  unfolding among code path_atom Leaves
  path_atom-Ends a = record {
    at = λ s p l. elim (Bool-cases (among (first_of s.rest).type (identifier ∷ []))) [
      | inl q ↦ rw q (name s p q)
      | inr q ↦ rw q (other_atom-Ends.at s p l)
    ];
  }
    where
      name :
          (s : ParserState)
          → IsGood c s
          → among (first_of s.rest).type (identifier ∷ []) ≡ true
          → Leaves c s.recover is_some (length s.rest) (
              if s.parsing_case_label && same_text (first_of s.rest).text colon_text
              then ok none s
              else ok (some (static_atom a (first_of s.rest).text)) (advance s))
      name s p q =
          elim (Bool-cases (s.parsing_case_label && same_text (first_of s.rest).text colon_text)) [
            | inl x ↦ rw x (omega arith, (p, refl))
            | inr x ↦
                let (less, good) =
                  take-IsGood s (some_token (identifier ∷ []) s.rest refl q)
                    (λ y. no_colon s.parsing_case_label _ _ (p.label ∙ y) x) p in
                rw x (omega arith, (good, refl))
          ]

      other_atom-Ends : Ends c (suc k) is_some (
          if_next
            (literal ∷ [])
            (λ u.
              pure (
                some
                  (record a { atoms = a.atoms ++ str u.text ∷ []; static = a.static ++ u.text })))
            (if_at
              (messagecode ∷ [])
              (messagecode_node fuel expression >>= λ m.
                pure (some (record a { atoms = a.atoms ++ m ∷ []; dynamic = true })))
              (pure none)))
      other_atom-Ends =
          if_next-Ends _ _ _ refl (λ t. search ends_rules)
            (if_at-Ends _ _ _ (after-Ends _ _ messagecode-Ends (λ m. search ends_rules))
              (search ends_rules))

  more_atoms-Ends : (a : Atoms) → Ends c k never (repeat fuel (path_atom fuel expression) a)
  more_atoms-Ends a = repeat-Ends _ fuel a h (λ b. Ends-le _ (omega arith) (path_atom-Ends b))

  pub read_path_part-Ends : Ends c k never (read_path_part fuel expression)
  unfolding read_path_part
  read_path_part-Ends =
      bind-Ends _ _ (more_atoms-Ends _)
        (λ a. bind-Ends _ _ (Ends-le _ (omega arith) optional_index-Ends) (λ i. search ends_rules))

  pub further_part-Ends : Ends c k never (further_part fuel expression)
  unfolding among code further_part
  further_part-Ends =
      same_next-Ends _ _ _ refl
        (λ t. bind-Ends _ _ (Ends-never _ e) (λ a. bind-Ends _ _ eat_paren-Ends (λ u.
          bind-Ends _ _ (Ends-le _ (omega arith) optional_index-Ends) (λ i. search ends_rules))))
        read_path_part-Ends

  pub further_parts-Ends :
      (ps : List PathPart)
      → Ends c k never (
          repeat fuel
            (λ qs.
              if_next
                (token_period ∷ [])
                (λ _. further_part fuel expression >>= λ q. pure (some (qs ++ q ∷ [])))
                (pure none))
            ps)
  unfolding among code
  further_parts-Ends ps = repeat-Ends _ fuel ps h (λ qs.
      same_next-Ends _ _ _ refl (λ t. bind-Ends _ _ further_part-Ends (λ q. search ends_rules))
        (search ends_rules))

  pub identifier_access-Ends : Ends c k never (identifier_access fuel expression)
  unfolding identifier_access
  identifier_access-Ends = bind-Ends _ _ read_path_part-Ends (λ p. further_parts-Ends (p ∷ []))
