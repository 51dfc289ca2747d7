-- ===== src/Gs1/Csv/Rounds.antt =====
-- reborn_protocol/gs1/csv.py: the loop of `gs1_csv_split` at a quoted field and at a plain one.
use reborn_protocol.Base.{
  ℕ, ◌≡◌, refl, ◌∙◌, List, [], ◌∷◌, ◌++◌, Bool, true, false, inl, inr, ◌==◌, arith, append-nil,
  append_assoc, Bool-cases, ==_iff,
}
use reborn_protocol.Gs1.Csv.{
  Text, quote, backslash, comma, has_special, double, escape, Splitter, next_is, after_comma,
  scan_quoted, scan, finish, split_from, at_word,
}
use reborn_protocol.Gs1.Csv.Scan.{split_from-go, split_from-stop}

-- Inside quotes, with `token` read so far.
abbrev pub in_quotes : List Text → Text → Splitter
in_quotes tokens token = record {
  tokens = tokens;
  token = token;
  word_start = false;
  word_quoted = true;
}

-- Inside a plain word.
abbrev pub in_word : List Text → Text → Splitter
in_word tokens token = record {
  tokens = tokens;
  token = token;
  word_start = false;
  word_quoted = false;
}

escape-backslash :
    (value : Text) → escape (backslash ∷ value) ≡ backslash ∷ backslash ∷ escape value
unfolding escape double
escape-backslash value = refl

escape-quote : (value : Text) → escape (quote ∷ value) ≡ quote ∷ quote ∷ escape value
unfolding escape double
escape-quote value = refl

escape-other :
    (c : ℕ) (value : Text)
    → (c == backslash) ≡ false
    → (c == quote) ≡ false
    → escape (c ∷ value) ≡ c ∷ escape value
unfolding escape double
escape-other c value p q = rw (p, q)

module _ (ignore : Bool) (tokens : List Text) where
  -- The rounds inside quotes.
  escaped_backslash :
      (token rest : Text)
      → split_from ignore (in_quotes tokens token) (backslash ∷ backslash ∷ rest)
        ≡ split_from ignore (in_quotes tokens (token ++ backslash ∷ [])) rest
  escaped_backslash token rest =
      split_from-go ignore (in_quotes tokens token) backslash (backslash ∷ rest)
        (unfold scan scan_quoted next_is in ground arith)

  escaped_quote :
      (token rest : Text)
      → split_from ignore (in_quotes tokens token) (quote ∷ quote ∷ rest)
        ≡ split_from ignore (in_quotes tokens (token ++ quote ∷ [])) rest
  escaped_quote token rest =
      split_from-go ignore (in_quotes tokens token) quote (quote ∷ rest)
        (unfold scan scan_quoted next_is in ground arith)

  quoted_other :
      (token : Text) (c : ℕ) (rest : Text)
      → (c == backslash) ≡ false
      → (c == quote) ≡ false
      → split_from ignore (in_quotes tokens token) (c ∷ rest)
        ≡ split_from ignore (in_quotes tokens (token ++ c ∷ [])) rest
  quoted_other token c rest p q =
      split_from-go ignore (in_quotes tokens token) c rest (unfold scan scan_quoted in ground arith)

  -- The closing quote, before a comma and at the end.
  pub closed_by_comma :
      (token rest : Text)
      → split_from ignore (in_quotes tokens token) (quote ∷ comma ∷ rest)
        ≡ split_from ignore (at_word (tokens ++ token ∷ [])) rest
  closed_by_comma token rest =
      split_from-go ignore (in_quotes tokens token) quote (comma ∷ rest)
        (unfold scan scan_quoted next_is after_comma in ground arith)

  pub closed_at_end :
      (token : Text)
      → split_from ignore (in_quotes tokens token) (quote ∷ []) ≡ tokens ++ token ∷ []
  closed_at_end token =
      split_from-stop ignore (in_quotes tokens token) quote [] {s' = at_word (tokens ++ token ∷ [])}
        (unfold scan scan_quoted next_is after_comma in ground arith)
      ∙ unfold finish in refl

  pub opened :
      (rest : Text)
      → split_from ignore (at_word tokens) (quote ∷ rest)
        ≡ split_from ignore (in_quotes tokens []) rest
  opened rest = split_from-go ignore (at_word tokens) quote rest (unfold scan in ground arith)

pub quoted_body :
    (ignore : Bool) (tokens : List Text) (token value more : Text)
    → split_from ignore (in_quotes tokens token) (escape value ++ more)
      ≡ split_from ignore (in_quotes tokens (token ++ value)) more
quoted_body ignore tokens token [] more = rw append-nil (unfold escape double in refl)
quoted_body ignore tokens token (c ∷ value) more = elim (Bool-cases (c == backslash)) [
  | inl e ↦
      rw ((==_iff c backslash).0 e, escape-backslash)
        (escaped_backslash ignore tokens token (escape value ++ more)
          ∙ quoted_body ignore tokens (token ++ backslash ∷ []) value more
          ∙ rw append_assoc)
  | inr e ↦ elim (Bool-cases (c == quote)) [
    | inl q ↦
        rw ((==_iff c quote).0 q, escape-quote)
          (escaped_quote ignore tokens token (escape value ++ more)
            ∙ quoted_body ignore tokens (token ++ quote ∷ []) value more
            ∙ rw append_assoc)
    | inr q ↦ rw (escape-other c value e q) (
        quoted_other ignore tokens token c (escape value ++ more) e q
        ∙ quoted_body ignore tokens (token ++ c ∷ []) value more
        ∙ rw append_assoc)
  ]
]

module _ (tokens : List Text) where
  -- The rounds of a plain word, where leading blanks are kept.
  pub first_plain :
      (c : ℕ) (rest : Text)
      → (c == quote) ≡ false
      → (c == comma) ≡ false
      → split_from false (at_word tokens) (c ∷ rest)
        ≡ split_from false (in_word tokens (c ∷ [])) rest
  first_plain c rest p q = split_from-go false (at_word tokens) c rest (unfold scan in ground arith)

  next_plain :
      (token : Text) (c : ℕ) (rest : Text)
      → (c == comma) ≡ false
      → split_from false (in_word tokens token) (c ∷ rest)
        ≡ split_from false (in_word tokens (token ++ c ∷ [])) rest
  next_plain token c rest q =
      split_from-go false (in_word tokens token) c rest (unfold scan in ground arith)

  pub plain_body :
      (token value more : Text)
      → has_special value ≡ false
      → split_from false (in_word tokens token) (value ++ more)
        ≡ split_from false (in_word tokens (token ++ value)) more
  unfolding has_special
  plain_body token [] more h = rw append-nil
  plain_body token (c ∷ value) more h =
      next_plain token c (value ++ more) (ground arith)
      ∙ plain_body (token ++ c ∷ []) value more (ground arith)
      ∙ rw append_assoc

  pub word_ended :
      (token rest : Text)
      → split_from false (in_word tokens token) (comma ∷ rest)
        ≡ split_from false (at_word (tokens ++ token ∷ [])) rest
  word_ended token rest =
      split_from-go false (in_word tokens token) comma rest (unfold scan in ground arith)

  pub empty_word :
      (rest : Text)
      → split_from false (at_word tokens) (comma ∷ rest)
        ≡ split_from false (at_word (tokens ++ [] ∷ [])) rest
  empty_word rest = split_from-go false (at_word tokens) comma rest (unfold scan in ground arith)
