-- ===== src/Gs1/Lexer/Quotes.antt =====
-- reborn_protocol/gs1/lexer.py: a quoted string gives the text that was quoted back.
use reborn_protocol.Base.{
  pos, ℕ, suc, ◌+◌, ◌≡◌, refl, ◌∙◌, ap, [], ◌∷◌, ◌++◌, map, false, length, arith, Bool-cases,
  ==_iff, inl, inr, ◌==◌, le→ltb,
}
use mathlib.Core.List.{map-append}
use reborn_protocol.Gs1.Csv.{Text, quote, next_is, double}
use reborn_protocol.Gs1.Tokens.{string, eof}
use reborn_protocol.Gs1.Lexer.Scan.{
  between, is_digit, is_word_start, ◌is◌, quoted_string, skip_ws, skip_rounds, is_blank,
  after_prefix,
}
use reborn_protocol.Gs1.Lexer.State.{found, LexState, Tables, empty_token}
use reborn_protocol.Gs1.Lexer.Mode.{default_mode}
use reborn_protocol.Gs1.Lexer.Shared.{
  give, hide, or_else, is_digit_next, try_hash, try_real, is_flag_colon, scan_quoted_string,
}
use reborn_protocol.Gs1.Lexer.Expression.{
  in_op_or, after_ws, on_char, symbol, default_char, scan_default,
}
use reborn_protocol.Gs1.Lexer.Run.{
  tokens, scan_one, scan_mode, emitted, normalise, new_lexer, run, tokenize,
}

quoted_string-plain :
    (c : ℕ) (t : Text)
    → (c == quote) ≡ false
    → quoted_string (c ∷ t) ≡ (c ∷ (quoted_string t).0, (quoted_string t).1)
unfolding quoted_string
quoted_string-plain c [] e = rw e
quoted_string-plain c (d ∷ t) e = rw e

-- Behind the closing quote no other one follows.
quoted_string-double :
    (value more : Text)
    → next_is more quote ≡ false
    → quoted_string (double quote value ++ quote ∷ more) ≡ (value, more)
unfolding quoted_string double next_is
quoted_string-double [] [] e = refl
quoted_string-double [] (d ∷ more) e = rw e
quoted_string-double (c ∷ value) more e = elim (Bool-cases (c == quote)) [
  | inl q ↦ rw (q, quoted_string-double value more e, (==_iff c quote).0 q) refl
  | inr q ↦ rw q (
      quoted_string-plain c (double quote value ++ quote ∷ more) q
      ∙ (rw (quoted_string-double value more e) refl))
]

-- At a quote nothing is skipped.
skip_ws-quote : (t : Text) → skip_ws (quote ∷ t) ≡ quote ∷ t
unfolding skip_ws skip_rounds is_blank
skip_ws-quote t = refl

abbrev pub quoted : Text → Text
quoted value = quote ∷ (double quote value ++ quote ∷ [])

-- A new scanner at a text.
abbrev start : Text → LexState
start t = record {
  rest = t;
  mode = default_mode;
  frames = [];
  brace_count = pos 0;
  array_lit_depth = 0;
  before = [];
  after = [];
  out = [];
}

module _ (tables : Tables) where
  -- The outermost mode at a quote.
  scan_default-quote :
      (t : Text) (s : LexState)
      → scan_default tables (record s { rest = quote ∷ t })
        ≡ scan_quoted_string t (record s { rest = quote ∷ t })
  unfolding scan_default default_char in_op_or after_prefix after_ws on_char symbol try_hash or_else
      is_flag_colon is_word_start between ◌is◌ try_real is_digit is_digit_next hide
  scan_default-quote t s =
      rw (skip_ws-quote t, le→ltb (length (quote ∷ t)) (length (quote ∷ t)) (omega arith)) refl

  scan_one-quote :
      (value : Text)
      → scan_one tables (start (quoted value))
        ≡ found (record { type = string; text = value }) (start [])
  unfolding scan_one scan_mode scan_quoted_string give next_is
  scan_one-quote value =
      scan_default-quote (double quote value ++ quote ∷ []) (start [])
      ∙ (rw (quoted_string-double value [] refl) refl)

  run-quote :
      (fuel : ℕ) (value : Text)
      → run tables (suc (suc fuel)) (start (quoted value))
        ≡ tokens (record { type = string; text = value } ∷ empty_token eof ∷ [])
  unfolding run emitted scan_one
  run-quote fuel value = rw (run, scan_one-quote value) refl

map-double :
    (value : Text) → map normalise (double quote value) ≡ double quote (map normalise value)
unfolding double normalise
map-double [] = refl
map-double (c ∷ value) = ground (arith, map-double value)

map-quoted : (value : Text) → map normalise (quoted value) ≡ quoted (map normalise value)
unfolding normalise
map-quoted value =
    ap (λ t. quote ∷ t)
      (map-append normalise (double quote value) (quote ∷ []) ∙ (rw (map-double value) refl))

-- `tokenize` gives a quoted text back: a text whose quotes are doubled, between two quotes, is one
-- STRING of that text, with its section signs read as line breaks, and an EOF.
pub tokenize-double :
    (tables : Tables) (value : Text)
    → tokenize tables (quoted value)
      ≡ tokens (record { type = string; text = map normalise value } ∷ empty_token eof ∷ [])
unfolding tokenize new_lexer
tokenize-double tables value =
    let rounds : length (quoted value) + 1 ≡ suc (suc (length (double quote value ++ quote ∷ []))) =
      omega arith in
    rw (rounds, map-quoted value)
      (run-quote tables (length (double quote value ++ quote ∷ [])) (map normalise value))
