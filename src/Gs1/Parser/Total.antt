-- ===== src/Gs1/Parser/Total.antt =====
-- reborn_protocol/gs1/parser.py: the parser run to the end of the tokens.
use reborn_protocol.Base.{
  false, ℕ, zero, suc, ◌+◌, ◌≤◌, ◌<◌, ◌≡◌, refl, List, [], ◌∷◌, ◌++◌, true, not, Option, none, some,
  length, arith, sym, ◌∙◌, Bool-cases, inl, inr, if◌then◌else◌,
}
use reborn_protocol.Gs1.Ast.{Stmt}
use reborn_protocol.Gs1.Tokens.{Token, among, code, eof, end, token_brace_right}
use reborn_protocol.Gs1.Parser.Literal.{too_long}
use reborn_protocol.Gs1.Parser.State.{
  Parse, ParserState, Outcome, ok, raised, stuck, overflow, pure, if_at, if_next, repeat,
  recovering, recovered, first_of,
}
use reborn_protocol.Gs1.Parser.Program.{
  parse_statement, program_statement, parse_program, new_parser, parse_tokens,
}
use reborn_protocol.Gs1.Parser.Fit.{IsGood, IsFit, true_false}
use reborn_protocol.Gs1.Parser.Ends.{Leaves, Ends, always, is_some, pure-Ends}
use reborn_protocol.Gs1.Parser.Recovery.{recovering-Leaves}
use reborn_protocol.Gs1.Parser.Blocks.{unless_end-Ends}
use reborn_protocol.Gs1.Parser.Compound.{statement-Ends}
use reborn_protocol.Gs1.Parser.Choices.{if_next-Leaves}

program_statement-Ends :
    (fuel : ℕ) (body : List Stmt) → Ends false fuel is_some (program_statement fuel body)
unfolding among code program_statement
program_statement-Ends fuel body = unless_end-Ends _ _ _ refl (pure-Ends none refl) (λ s p l g.
    if_next-Leaves is_some {k = fuel} _ _ _ refl (λ t. pure-Ends _ refl) s p (omega arith)
      (if_next-Leaves is_some {k = fuel} _ _ _ refl (λ t. pure-Ends _ refl) s p (omega arith)
        (recovering-Leaves (parse_statement fuel fuel) body s
          (statement-Ends fuel fuel (omega arith)) p l g)))

-- The parser has returned a script, and no token is left, or has raised the OverflowError of a literal
-- that is a hexadecimal number too large for a float.
unfoldable pub IsFinished : Outcome (List Stmt) → Type 0
IsFinished (ok program s) = s.rest ≡ []
IsFinished (raised e s) = ⊥
IsFinished stuck = ⊥
IsFinished (overflow t) = too_long t ≡ true

-- A round of the loop returns; it leaves the loop at the end of the tokens.
IsRound : Outcome (Option (List Stmt)) → Type 0
IsRound (ok (some body) s) = Unit
IsRound (ok none s) = s.rest ≡ []
IsRound (raised e s) = ⊥
IsRound stuck = ⊥
IsRound (overflow t) = too_long t ≡ true

eof_is_end : (ts : List Token) → IsFit ts → among (first_of ts).type (eof ∷ []) ≡ true → ts ≡ []
eof_is_end [] p q = refl
eof_is_end (t ∷ ts) p q = true_false (sym q ∙ p.0)

recovering-IsRound :
    (statement : Parse Stmt) (body : List Stmt) (s : ParserState)
    → s.recover ≡ true
    → Leaves false s.recover always (length s.rest) (statement s)
    → IsRound (recovering statement body s)
unfolding recovering IsRound Leaves
recovering-IsRound statement body s h l = by_outcome (statement s) l
  where
    by_outcome :
        (o : Outcome Stmt)
        → Leaves false s.recover always (length s.rest) o
        → IsRound (elim o [
          | ok a s' ↦ ok (some (body ++ a ∷ [])) s'
          | raised e s' ↦
              if not s'.recover then raised e s' else ok (some body) (recovered s.rest e s')
          | stuck ↦ stuck
          | overflow t ↦ overflow t
        ])
    by_outcome (ok a s') l' = tt
    by_outcome (raised e s') l' = rw (l'.1.1 ∙ h) tt
    by_outcome stuck l' = l'
    by_outcome (overflow t) l' = l'

program_statement-IsRound :
    (fuel : ℕ) (body : List Stmt) (s : ParserState)
    → s.recover ≡ true
    → IsGood false s
    → length s.rest < fuel
    → IsRound (program_statement fuel body s)
unfolding program_statement if_at if_next pure IsRound
program_statement-IsRound fuel body s h p l =
    elim (Bool-cases (among (first_of s.rest).type (eof ∷ []))) [
      | inl q ↦ rw q (eof_is_end s.rest p.fits q)
      | inr q ↦ rw q (elim (Bool-cases (among (first_of s.rest).type (end ∷ []))) [
        | inl a ↦ rw a tt
        | inr a ↦ rw a (elim (Bool-cases (among (first_of s.rest).type (token_brace_right ∷ []))) [
          | inl b ↦ rw b tt
          | inr b ↦ rw b (
              recovering-IsRound (parse_statement fuel fuel) body s h
                ((statement-Ends fuel fuel (omega arith)).at s p l))
        ])
      ])
    ]

program-IsFinished :
    (fuel rounds : ℕ) (body : List Stmt) (s : ParserState)
    → rounds ≤ fuel
    → length s.rest < rounds
    → s.recover ≡ true
    → IsGood false s
    → IsFinished (repeat rounds (program_statement fuel) body s)
unfolding repeat IsFinished Leaves IsRound
program-IsFinished fuel zero body s g l h p = absurd (omega arith)
program-IsFinished fuel (suc rounds) body s g l h p =
    after (λ b s'. program-IsFinished fuel rounds b s' (omega arith))
      (program_statement fuel body s) ((program_statement-Ends fuel body).at s p (omega arith))
      (program_statement-IsRound fuel body s h p (omega arith))
  where
    after :
        ((b : List Stmt) (s' : ParserState)
          → length s'.rest < rounds
          → s'.recover ≡ true
          → IsGood false s'
          → IsFinished (repeat rounds (program_statement fuel) b s'))
        → (o : Outcome (Option (List Stmt))) → Leaves false s.recover is_some (length s.rest) o
        → IsRound o
        → IsFinished (elim o [
          | ok r s' ↦ elim r [
            | some a' ↦ repeat rounds (program_statement fuel) a' s'
            | none ↦ ok body s'
          ]
          | raised e s' ↦ raised e s'
          | stuck ↦ stuck
          | overflow t ↦ overflow t
        ])
    after again (ok (some b) s') (less, kept) r = again b s' (omega arith) (kept.1 ∙ h) (kept.0)
    after again (ok none s') l' r = r
    after again (raised e s') l' r = r
    after again stuck l' r = r
    after again (overflow t) l' r = r

-- `parse_tokens` returns a script and has taken every token, whatever the syntax errors, or it raises
-- OverflowError for a literal that is a hexadecimal number too large for a float: with one more than
-- the number of tokens as fuel the parser does not run out of it, and it raises no other error. The
-- tokens are such that no EOF stands before their end, that behind the word `case` no brace is opened
-- before the next IDENTIFIER ":", and that no such name follows a period.
pub parse_tokens-IsFinished :
    (tokens : List Token) → IsFit tokens → IsFinished (parse_tokens tokens)
unfolding parse_tokens parse_program new_parser
parse_tokens-IsFinished tokens p =
    program-IsFinished (length tokens + 1) (length tokens + 1) [] (new_parser tokens) (omega arith)
      (omega arith) refl (record { fits = p; label = refl; calm = λ x. true_false (sym x) })
