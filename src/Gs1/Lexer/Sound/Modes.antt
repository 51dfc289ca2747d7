-- ===== src/Gs1/Lexer/Sound/Modes.antt =====
-- reborn_protocol/gs1/lexer.py: what every mode does: a character, behind spaces, and ` in `.
use reborn_protocol.Base.{
  ℕ, ◌<◌, ◌≤◌, ◌≡◌, refl, List, [], ◌∷◌, Option, none, some, length, arith, ltb, ltb→lt, Bool-cases,
  inl, inr,
}
use reborn_protocol.Gs1.Csv.{Text}
use reborn_protocol.Gs1.Tokens.{Token, TokenType, identifier, op_in}
use reborn_protocol.Gs1.Lexer.Scan.{codes, after_prefix, skip_ws}
use reborn_protocol.Gs1.Lexer.State.{LexState, Scan}
use reborn_protocol.Gs1.Lexer.Shared.{punct, give}
use reborn_protocol.Gs1.Lexer.Expression.{on_char, after_ws, in_op_or, punct_or_junk}
use reborn_protocol.Gs1.Lexer.Sound.{IsLiveOrNone, IsSound, recount-IsSound}
use reborn_protocol.Gs1.Lexer.Sound.Lengths.{length-skip_ws, length-after_prefix}
use reborn_protocol.Gs1.Lexer.Sound.Rules.{Advances, ends, give-Advances, hide-Advances}

-- A mode advances from any character.
pub record AdvancesAt (mode : ℕ → Text → LexState → Scan) : Type 0 where
  pub at :
      {n : ℕ} {q : List Token} (c : ℕ) (rest : Text) (s : LexState)
      → length rest < n
      → IsSound s
      → Advances n q (mode c rest s)

-- So it advances from a text.
pub record AdvancesFrom (mode : LexState → Scan) : Type 0 where
  pub from : (s : LexState) → IsSound s → Advances (length s.rest) s.after (mode s)

pub punct-IsLiveOrNone : (c : ℕ) → IsLiveOrNone (punct c)
unfolding punct
punct-IsLiveOrNone c = ground arith

pub punct_or_junk-AdvancesAt : AdvancesAt punct_or_junk
unfolding punct_or_junk
punct_or_junk-AdvancesAt = record {
  at = λ c rest s h i. by_type c rest s h i (punct c) (punct-IsLiveOrNone c);
}
  where
    by_type :
        {n : ℕ} {q : List Token} (c : ℕ) (rest : Text) (s : LexState)
        → length rest < n
        → IsSound s
        → (t : Option TokenType) → IsLiveOrNone t
        → Advances n q
            (elim t [ some u ↦ give u (c ∷ []) rest s | none ↦ give identifier (c ∷ []) rest s ])
    by_type c rest s h i none l = give-Advances _ _ _ s tt h i
    by_type c rest s h i (some u) l = give-Advances u _ _ s l h i

module _ {n : ℕ} (mode : ℕ → Text → LexState → Scan) (s : LexState) (i : IsSound s) where
  on_char-Advances :
      (t : Text)
      → length t ≤ n
      → ((c : ℕ) (rest : Text) → length rest < n → Advances n s.after (mode c rest s))
      → Advances n s.after (on_char mode t s)
  unfolding on_char
  on_char-Advances [] h m = ends _ refl refl (recount-IsSound [] _ _ s i)
  on_char-Advances (c ∷ rest) h m = m c rest (omega arith)

-- A mode behind spaces advances if it does at each character that the text may go on with.
pub after_ws-Advances :
    (mode : ℕ → Text → LexState → Scan) (s : LexState)
    → IsSound s
    → ((c : ℕ) (rest : Text)
        → length rest < length s.rest
        → Advances (length s.rest) s.after (mode c rest s))
    → Advances (length s.rest) s.after (after_ws mode s)
unfolding after_ws
after_ws-Advances mode s i m = elim (Bool-cases (ltb (length (skip_ws s.rest)) (length s.rest))) [
  | inl e ↦ rw e (hide-Advances _ s (ltb→lt _ _ e) i)
  | inr e ↦ rw e (on_char-Advances mode s i (skip_ws s.rest) (length-skip_ws s.rest) m)
]

module _ {mode : ℕ → Text → LexState → Scan} (m : AdvancesAt mode) where
  pub on_char-AdvancesFrom : AdvancesFrom (λ s. on_char mode s.rest s)
  on_char-AdvancesFrom = record {
    from = λ s i. on_char-Advances mode s i s.rest (omega arith) (λ c rest h. m.at c rest s h i);
  }

  pub skipped-AdvancesFrom : AdvancesFrom (λ s. on_char mode (skip_ws s.rest) s)
  skipped-AdvancesFrom = record {
    from = λ s i.
        on_char-Advances mode s i (skip_ws s.rest) (length-skip_ws s.rest)
          (λ c rest h. m.at c rest s h i);
  }

  pub after_ws-AdvancesFrom : AdvancesFrom (after_ws mode)
  after_ws-AdvancesFrom = record {
    from = λ s i. after_ws-Advances mode s i (λ c rest h. m.at c rest s h i);
  }

pub in_op_or-AdvancesFrom :
    {mode : LexState → Scan} → AdvancesFrom mode → AdvancesFrom (in_op_or mode)
unfolding in_op_or
in_op_or-AdvancesFrom {mode} m = record {
  from = λ s i. by_match s i (after_prefix (codes " in ") s.rest) refl (m.from s i);
}
  where
    by_match :
        (s : LexState)
        → IsSound s
        → (o : Option Text) → after_prefix (codes " in ") s.rest ≡ o
        → Advances (length s.rest) s.after (mode s)
        → Advances
            (length s.rest)
            s.after
            (elim o [ some rest ↦ give op_in (codes " in ") rest s | none ↦ mode s ])
    by_match s i none e k = k
    by_match s i (some rest) e k =
        give-Advances _ _ rest s tt (omega (arith, length-after_prefix (codes " in ") s.rest e)) i
