-- ===== src/Gs1/Parser/Recovery.antt =====
-- reborn_protocol/gs1/parser.py: what panic-mode recovery leaves.
use reborn_protocol.Base.{
  ℕ, zero, suc, ◌-◌, ◌≤◌, ◌<◌, ◌≡◌, List, [], ◌∷◌, false, ◌++◌, not, ◌&&◌, some, length, arith, sym,
  ◌∙◌, Bool-cases, inl, inr, ◌==◌, if◌then◌else◌,
}
use reborn_protocol.Gs1.Tokens.{Token, among, end, token_brace_left, token_brace_right}
use reborn_protocol.Gs1.Parser.State.{
  Parse, ParserState, Outcome, ok, raised, stuck, overflow, synchronize, discard_switch_body,
  recovered, recovering, after_next,
}
use reborn_protocol.Gs1.Parser.Fit.{IsFit, IsGood, true_false}
use reborn_protocol.Gs1.Parser.Ends.{Leaves, Ends, always, is_some}

-- A part of what was there, all plain.
abbrev pub IsPart : List Token → List Token → Type 0
IsPart ts us = (length ts ≤ length us) × IsFit ts

synchronize-IsPart : (depth : ℕ) (ts : List Token) → IsFit ts → IsPart (synchronize depth ts) ts
unfolding synchronize
synchronize-IsPart depth [] p = (omega arith, p)
synchronize-IsPart depth (t ∷ ts) (q, w, d, p) =
    let deeper = synchronize-IsPart (suc depth) ts p in
    let out = synchronize-IsPart (depth - 1) ts p in
    let on = synchronize-IsPart depth ts p in
    rw q (elim (Bool-cases (among t.type (token_brace_left ∷ []))) [
      | inl a ↦ rw a (omega (arith, deeper.0), deeper.1)
      | inr a ↦ rw a (elim (Bool-cases (among t.type (token_brace_right ∷ []))) [
        | inl b ↦ rw b (elim (Bool-cases (depth == 0)) [
          | inl c ↦ rw c (omega arith, (q, w, d, p))
          | inr c ↦ rw c (elim (Bool-cases (depth == 1)) [
            | inl d ↦ rw d (omega arith, p)
            | inr d ↦ rw d (omega (arith, out.0), out.1)
          ])
        ])
        | inr b ↦ rw b (elim (Bool-cases (among t.type (end ∷ []) && (depth == 0))) [
          | inl c ↦ rw c (omega arith, p)
          | inr c ↦ rw c (omega (arith, on.0), on.1)
        ])
      ])
    ])

pub discard-IsPart :
    (depth : ℕ) (ts : List Token) → IsFit ts → IsPart (discard_switch_body depth ts) ts
unfolding discard_switch_body
discard-IsPart zero ts p = (omega arith, p)
discard-IsPart (suc depth) [] p = (omega arith, p)
discard-IsPart (suc depth) (t ∷ ts) (q, w, d, p) =
    let deeper = discard-IsPart (suc (suc depth)) ts p in
    let out = discard-IsPart depth ts p in
    let on = discard-IsPart (suc depth) ts p in
    rw q (elim (Bool-cases (among t.type (token_brace_left ∷ []))) [
      | inl a ↦ rw a (omega (arith, deeper.0), deeper.1)
      | inr a ↦ rw a (elim (Bool-cases (among t.type (token_brace_right ∷ []))) [
        | inl b ↦ rw b (omega (arith, out.0), out.1)
        | inr b ↦ rw b (omega (arith, on.0), on.1)
      ])
    ])

after_next-less :
    (ts : List Token)
    → IsFit ts
    → 0 < length ts
    → (length (after_next ts) < length ts) × IsFit (after_next ts)
after_next-less [] p g = absurd (omega arith)
after_next-less (t ∷ ts) (q, w, d, p) g = rw q (omega arith, p)

-- Where no token was taken, one is passed over.
passed-IsPart :
    (ts us : List Token)
    → length ts ≤ length us
    → 0 < length us
    → IsFit ts
    → (length (if length ts == length us then after_next ts else ts) < length us)
      × IsFit (if length ts == length us then after_next ts else ts)
passed-IsPart ts us h g p = elim (Bool-cases (length ts == length us)) [
  | inl c ↦
      let same : length ts ≡ length us = ground arith in
      let (less, plain) = after_next-less ts p (omega arith) in rw c (omega arith, plain)
  | inr c ↦ let other : ¬ (length ts ≡ length us) = λ x. ground arith in rw c (omega arith, p)
]

module _ {A : Type 0} (before : ParserState) (body : List A) where
  recovered-Leaves :
      (o : Outcome A)
      → 0 < length before.rest
      → Leaves false before.recover always (length before.rest) o
      → Leaves false before.recover is_some (length before.rest) (elim o [
        | ok a s' ↦ ok (some (body ++ a ∷ [])) s'
        | raised e s' ↦
            if not s'.recover then raised e s' else ok (some body) (recovered before.rest e s')
        | stuck ↦ stuck
        | overflow t ↦ overflow t
      ])
  unfolding Leaves
  recovered-Leaves (ok a s') g l = l
  recovered-Leaves (raised e s') g l = elim (Bool-cases s'.recover) [
    | inl q ↦
        let (less, plain) = passed-IsPart s'.rest before.rest l.0 g l.1.0.fits in
        let at = if length s'.rest == length before.rest then after_next s'.rest else s'.rest in
        let (part, plain') = synchronize-IsPart 0 at plain in
        rw q (
          omega arith,
          (
            record { fits = plain'; label = l.1.0.label; calm = λ x. true_false (sym x) },
            sym q ∙ l.1.1,
          ),
        )
    | inr q ↦
        rw q (
          l.0,
          (record { fits = l.1.0.fits; label = l.1.0.label; calm = l.1.0.calm }, sym q ∙ l.1.1),
        )
  ]
  recovered-Leaves stuck g l = l
  recovered-Leaves (overflow t) g l = l

pub recovering-Leaves :
    {A : Type 0} {n : ℕ} (statement : Parse A) (body : List A) (s : ParserState)
    → Ends false n always statement
    → IsGood false s
    → length s.rest < n
    → 0 < length s.rest
    → Leaves false s.recover is_some (length s.rest) (recovering statement body s)
unfolding recovering
recovering-Leaves statement body s e p l g = recovered-Leaves s body (statement s) g (e.at s p l)
