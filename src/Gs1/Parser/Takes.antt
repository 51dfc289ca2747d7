-- ===== src/Gs1/Parser/Takes.antt =====
-- reborn_protocol/gs1/parser.py: what is left behind a token that a test has seen.
use reborn_protocol.Base.{
  ℕ, suc, ◌<◌, ◌≡◌, refl, List, [], ◌∷◌, Bool, true, false, ◌&&◌, length, arith, sym,
}
use reborn_protocol.Gs1.Tokens.{
  TokenType, Token, among, code, eof, identifier, token_paren_left, token_period,
}
use reborn_protocol.Gs1.Parser.State.{
  ParserState, Outcome, Parse, ◌>>=◌, advance, first_of, rest_of, next,
}
use reborn_protocol.Gs1.Parser.Fit.{
  IsGood, true_false, take-IsGood, advance-IsGood, some_token, after_next-IsFit,
  after_next-eq-rest_of, period_no_colon,
}
use reborn_protocol.Gs1.Parser.Ends.{Leaves, Ends, always, never, full, Leaves-never, bind-Leaves}

-- Outside of a case label the token that a test has seen can be taken.
next-Leaves :
    (types : List TokenType) (s : ParserState)
    → among eof types ≡ false
    → among (first_of s.rest).type types ≡ true
    → IsGood false s
    → Leaves false s.recover always (length s.rest) (next s)
unfolding Leaves next
next-Leaves types s h q p =
    let (less, good) = take-IsGood s (some_token types s.rest h q) (λ e. true_false (sym e)) p in
    (omega arith, (good, refl))

-- Outside of a case label any token can be taken.
pub next-Ends : {n : ℕ} → Ends false n never next
unfolding Leaves next among code
next-Ends = record {
  at = λ s p l.
      let (less, fit) = after_next-IsFit s.rest p.fits in
      (omega arith, (record { fits = fit; label = p.label; calm = λ x. true_false (sym x) }, refl));
}

pub and_left : (a b : Bool) → (a && b) ≡ true → a ≡ true
and_left true b h = refl
and_left false b h = h

and_right : (a b : Bool) → (a && b) ≡ true → b ≡ true
and_right true b h = h
and_right false b h = true_false (sym h)

pub always-Leaves :
    {A : Type 0} (c r : Bool) (n : ℕ) (o : Outcome A)
    → Leaves c r always n o
    → Leaves c r (full c) n o
always-Leaves true r n o l = Leaves-never true r always n o l
always-Leaves false r n o l = l

module _ {A : Type 0} (P : A → Bool) where
  pub took-Leaves :
      {n : ℕ} (types : List TokenType) (f : Token → Parse A) (s : ParserState)
      → among eof types ≡ false
      → among (first_of s.rest).type types ≡ true
      → IsGood false s
      → length s.rest < suc n
      → ((t : Token) → Ends false n never (f t))
      → Leaves false s.recover P (length s.rest) ((next >>= f) s)
  unfolding ◌>>=◌
  took-Leaves types f s h q p l g =
      bind-Leaves _ _ always P (next s) f l (next-Leaves types s h q p) (λ t _. g t)
        (λ t x. true_false x)

-- Behind `.name(`.
pub behind_paren :
    {c : Bool} (s : ParserState)
    → IsGood c s
    → (among (first_of s.rest).type (token_period ∷ [])
        && among (first_of (rest_of s.rest)).type (identifier ∷ [])
        && among (first_of (rest_of (rest_of s.rest))).type (token_paren_left ∷ []))
      ≡ true
    → (length (advance (advance (advance s))).rest < length s.rest)
      × IsGood c (advance (advance (advance s)))
unfolding among code
behind_paren s p q =
    let period = and_left _ _ (and_left _ _ q) in
    let (less, good) = advance-IsGood s (token_period ∷ []) refl period p in
    let here = after_next-eq-rest_of s.rest p.fits in
    let name : among (first_of (advance s).rest).type (identifier ∷ []) ≡ true =
      rw here (and_right _ _ (and_left _ _ q)) in
    let (less', good') =
      take-IsGood (advance s) (some_token (identifier ∷ []) (advance s).rest refl name)
        (λ _. rw here (period_no_colon s.rest p.fits period)) good in
    let there = after_next-eq-rest_of (advance s).rest good.fits in
    let paren : among (first_of (advance (advance s)).rest).type (token_paren_left ∷ []) ≡ true =
      rw (there, here) (and_right _ _ q) in
    let (less'', good'') =
      advance-IsGood (advance (advance s)) (token_paren_left ∷ []) refl paren good' in
    (omega arith, good'')
