-- ===== src/Gs1/Parser/Cases.antt =====
-- reborn_protocol/gs1/parser.py: what the branches of a `switch` leave.
use reborn_protocol.Base.{
  ◌<◌, ℕ, ◌≤◌, ◌≡◌, refl, List, [], ◌∷◌, ◌++◌, Bool, true, false, not, ◌&&◌, none, some, length,
  arith, sym, ◌∙◌, Bool-cases, inl, inr, if◌then◌else◌,
}
use reborn_protocol.Gs1.Ast.{stmts, some_stmts, Expr, Stmt}
use reborn_protocol.Gs1.Csv.{Text}
use reborn_protocol.Gs1.Tokens.{
  Token, among, code, same_text, eof, end, identifier, token_brace_right,
}
use reborn_protocol.Gs1.Parser.State.{
  raise, after_next, expected_case, Parse, ParserState, Outcome, ok, raised, stuck, overflow, ◌>>=◌,
  ◌>>◌, pure, if_at, if_next, first_of, discard_switch_body, is_word, advance,
}
use reborn_protocol.Gs1.Parser.Program.{
  case_word, default_word, if_word, case_colon, label_done, Branches, case_label, case_statement,
  case_body, switch_branch, switch_branches,
}
use reborn_protocol.Gs1.Parser.Fit.{IsGood, IsFit, IsCalm, true_false, take-IsGood, some_token}
use reborn_protocol.Gs1.Parser.Ends.{
  bind-Leaves, Leaves, Ends, always, never, is_some, Leaves-lt, Ends-le, pure-Ends, raise-Ends,
  bind-Ends, eaten-Ends,
}
use reborn_protocol.Gs1.Parser.Loops.{repeat-Ends}
use reborn_protocol.Gs1.Parser.Operands.{ends_rules}
use reborn_protocol.Gs1.Parser.Recovery.{discard-IsPart}
use reborn_protocol.Gs1.Parser.Choices.{same_next-Ends, if_at-Ends}
use reborn_protocol.Gs1.Parser.Takes.{and_left}

-- A word is a name.
word_is_name :
    (w : Text) (t : Token) → is_word (w ∷ []) t ≡ true → among t.type (identifier ∷ []) ≡ true
word_is_name w t h = elim (Bool-cases (among t.type (identifier ∷ []) && same_text t.text w)) [
  | inl q ↦ and_left _ _ q
  | inr q ↦ true_false (sym (rw q at h))
]

word-Leaves :
    {A : Type 0} (P : A → Bool) (w : Text) (hit miss : Parse A) (s : ParserState)
    → IsGood false s
    → Leaves false s.recover P (length s.rest) (miss s)
    → (is_word (w ∷ []) (first_of s.rest) ≡ true
        → length (advance s).rest < length s.rest
        → IsGood false (advance s)
        → Leaves false s.recover never (length (advance s).rest) (hit (advance s)))
    → Leaves false s.recover P (length s.rest) (if_word w hit miss s)
unfolding among code if_word
word-Leaves P w hit miss s p m e = elim (Bool-cases (is_word (w ∷ []) (first_of s.rest))) [
  | inl q ↦
      let (less, good) =
        take-IsGood s
          (some_token (identifier ∷ []) s.rest refl (word_is_name w (first_of s.rest) q))
          (λ x. true_false (sym x)) p in
      rw q (
        Leaves-lt _ _ P {m = length (advance s).rest} (hit (advance s)) (omega arith)
          (e q (omega arith) good))
  | inr q ↦ rw q m
]

word-Ends :
    {A : Type 0} {P : A → Bool} {n : ℕ} (w : Text) (hit miss : Parse A)
    → Ends false n never hit
    → Ends false n P miss
    → Ends false n P (if_word w hit miss)
word-Ends {P = P} w hit miss e m = record {
  at = λ s p l.
      word-Leaves P w hit miss s p (m.at s p l)
        (λ q less good. e.at (advance s) good (omega arith));
}

-- Behind the word `case` no brace is opened in the label.
IsCalm-after_next :
    (ts : List Token)
    → IsFit ts
    → is_word (case_word ∷ []) (first_of ts) ≡ true
    → IsCalm (after_next ts)
unfolding among code
IsCalm-after_next [] f q = true_false (sym q)
IsCalm-after_next (t ∷ ts) (e, w, d, f) q = rw e (w q)

not_in_label :
    (s : ParserState) → IsGood true s → IsGood false (record s { parsing_case_label = false })
not_in_label s g = record { fits = g.fits; label = refl; calm = λ x. true_false (sym x) }

case_colon-Ends : {n : ℕ} → Ends false n never case_colon
unfolding among code case_colon
case_colon-Ends =
    same_next-Ends _ _ _ refl (λ t. pure-Ends tt refl)
      (word-Ends _ _ _ (pure-Ends tt refl) (raise-Ends _))

module _ (fuel k : ℕ) (expression : Parse Expr) (statement : Parse Stmt) (h : k ≤ fuel)
    (e : Ends false fuel always expression) (e' : Ends true fuel never expression)
    (f : Ends false k always statement) where
  case_label-Leaves :
      (s : ParserState)
      → IsGood false s
      → IsCalm s.rest
      → length s.rest < fuel
      → Leaves false s.recover never (length s.rest) (case_label fuel expression statement s)
  unfolding case_label Leaves
  case_label-Leaves s p calm l = done s (expression (record s { parsing_case_label = true })) (
      e'.at (record s { parsing_case_label = true })
        (record { fits = p.fits; label = refl; calm = λ _. calm }) l)
    where
      done :
          (s : ParserState) (o : Outcome Expr)
          → Leaves true s.recover never (length s.rest) o
          → Leaves false s.recover never (length s.rest) (label_done o)
      done s (ok a s') l = (l.0, (not_in_label s' l.1.0, l.1.1))
      done s (raised x s') l = (l.0, (not_in_label s' l.1.0, l.1.1))
      done s stuck l = l
      done s (overflow t) l = l

  case_statement-Ends :
      (body : List Stmt) → Ends false k is_some (case_statement fuel expression statement body)
  unfolding among code case_statement pure
  case_statement-Ends body = record {
    at = λ s p l. elim (Bool-cases (is_word (case_word ∷ default_word ∷ []) (first_of s.rest))) [
      | inl q ↦ rw q ((pure-Ends {P = is_some} none refl).at s p l)
      | inr q ↦ rw q (other.at s p l)
    ];
  }
    where
      other : Ends false k is_some (
          if_at (token_brace_right ∷ eof ∷ []) (pure none) (
            if_next
              (end ∷ [])
              (λ _. pure (some body))
              (statement >>= λ a. pure (some (body ++ a ∷ [])))))
      other = if_at-Ends _ _ _ (search ends_rules) (
          same_next-Ends _ _ _ refl (λ t. search ends_rules)
            (eaten-Ends _ _ f (λ a. pure-Ends _ refl)))

  case_body-Ends : Ends false k never (case_body fuel expression statement)
  unfolding case_body
  case_body-Ends = repeat-Ends _ fuel [] h case_statement-Ends

  switch_branch-Ends :
      (b : Branches) → Ends false k is_some (switch_branch fuel expression statement b)
  unfolding among code switch_branch ◌>>=◌
  switch_branch-Ends b = if_at-Ends _ _ _ (search ends_rules) (
      same_next-Ends _ _ _ refl (λ t. search ends_rules)
        (record {
          at = λ s p l.
              word-Leaves is_some case_word _ _ s p (default_branch.at s p l) (λ q less good.
                bind-Leaves false s.recover never never {k = length (advance s).rest}
                  (case_label fuel expression statement (advance s)) _ (omega arith)
                  (case_label-Leaves (advance s) good (IsCalm-after_next s.rest p.fits q)
                    (omega arith))
                  (λ match x. true_false (sym x))
                  (λ match _. bind-Ends _ _ case_colon-Ends (λ u.
                    bind-Ends _ _ (Ends-le _ (omega arith) case_body-Ends)
                      (λ body. search ends_rules))));
        }))
    where
      default_branch : Ends false k is_some (
          if_word default_word
            (do
              case_colon
              body ← case_body fuel expression statement
              pure (some (record b { default = some_stmts (stmts body) })))
            (raise expected_case))
      default_branch =
          word-Ends _ _ _
            (bind-Ends _ _ case_colon-Ends
              (λ u. bind-Ends _ _ case_body-Ends (λ body. search ends_rules)))
            (raise-Ends _)

  pub switch_branches-Ends : Ends false k never (switch_branches fuel expression statement)
  unfolding switch_branches Leaves
  switch_branches-Ends = record {
    at = λ s p l. discarded s _ ((repeat-Ends _ fuel _ h switch_branch-Ends).at s p l);
  }
    where
      discarded :
          (s : ParserState) (o : Outcome Branches)
          → Leaves false s.recover never (length s.rest) o
          → Leaves false s.recover never (length s.rest) (elim o [
            | ok b s' ↦ ok (some b) s'
            | raised e s' ↦
                if not s'.recover
                then raised e s'
                else ok none (record s' {
                  errors = s'.errors ++ e ∷ [];
                  rest = discard_switch_body 1 s'.rest;
                })
            | stuck ↦ stuck
            | overflow t ↦ overflow t
          ])
      discarded s (ok b s') l = l
      discarded s (raised x s') l = elim (Bool-cases s'.recover) [
        | inl q ↦
            let (part, plain) = discard-IsPart 1 s'.rest l.1.0.fits in
            rw q (
              omega arith,
              (
                record { fits = plain; label = l.1.0.label; calm = λ y. true_false (sym y) },
                sym q ∙ l.1.1,
              ),
            )
        | inr q ↦ rw q (
          l.0,
          (record { fits = l.1.0.fits; label = l.1.0.label; calm = l.1.0.calm }, sym q ∙ l.1.1),
        )
      ]
      discarded s stuck l = l
      discarded s (overflow t) l = l
