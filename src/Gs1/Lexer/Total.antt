-- ===== src/Gs1/Lexer/Total.antt =====
-- reborn_protocol/gs1/lexer.py: the scanner run to the end of a text.
use mathlib.Core.List.{reverse, reverse-append}
use mathlib.Core.Path.{subst}
use reborn_protocol.Base.{
  true, false, ℕ, zero, suc, ◌+◌, ◌<◌, ◌≡◌, ◌≢◌, refl, sym, ◌∙◌, List, [], ◌∷◌, ◌++◌, length, arith,
  All-append, length-map,
}
use reborn_protocol.Gs1.Csv.{Text}
use reborn_protocol.Gs1.Tokens.{Token, eof, baddy, item, color, gender, carry}
use reborn_protocol.Gs1.Lexer.State.{
  Frame, LexState, Scan, found, nothing, at_end, lex_error, index_error, Tables, empty_token,
}
use reborn_protocol.Gs1.Lexer.Mode.{
  Mode, default_mode, mode_e, mode_v, mode_s, mode_r, mode_l, mode_m, mode_b, mode_i, mode_c,
  mode_g, mode_u, mode_d, mode_x, mode_z, mode_p1, mode_p2, mode_p3, mode_f,
}
use reborn_protocol.Gs1.Lexer.Run.{
  Lexed, tokens, failed, out_of_range, stuck, normalise, new_lexer, emitted, scan_mode, scan_one,
  run, tokenize,
}
use reborn_protocol.Gs1.Lexer.Sound.{AreLive, IsGrounded, IsSound}
use reborn_protocol.Gs1.Lexer.Sound.Rules.{Advances, gives, hides, ends, raises}
use reborn_protocol.Gs1.Lexer.Sound.Expression.{
  scan_default-AdvancesFrom, scan_e-AdvancesFrom, scan_m-AdvancesFrom, scan_d-AdvancesFrom,
}
use reborn_protocol.Gs1.Lexer.Sound.Strings.{scan_string-AdvancesFrom, scan_l-AdvancesFrom}
use reborn_protocol.Gs1.Lexer.Sound.Literals.{
  scan_v-AdvancesFrom, scan_x-AdvancesFrom, scan_special-AdvancesFrom, scan_z-AdvancesFrom,
}
use reborn_protocol.Gs1.Lexer.Sound.Parens.{
  scan_p1-Advances, scan_p2-AdvancesFrom, scan_p3-Advances, scan_f-AdvancesFrom,
}

-- Only the outermost mode has no frame.
IsGrounded-ne-nil : (m : Mode) (fs : List Frame) → m ≢ default_mode → IsGrounded m fs → fs ≢ []
IsGrounded-ne-nil m [] k g e = k g
IsGrounded-ne-nil m (f ∷ fs) k g e = cc

-- A mode other than the outermost one has a frame.
IsFramed : Mode → LexState → Type 0
IsFramed m s = m ≢ default_mode → s.frames ≢ []

scan_mode-Advances :
    (tables : Tables) (m : Mode) (s : LexState)
    → IsSound s
    → IsFramed m s
    → Advances (length s.rest) s.after (scan_mode tables m s)
unfolding scan_mode IsFramed
scan_mode-Advances tables default_mode s i k = (scan_default-AdvancesFrom tables).from s i
scan_mode-Advances tables mode_e s i k = (scan_e-AdvancesFrom tables).from s i
scan_mode-Advances tables mode_v s i k = (scan_v-AdvancesFrom tables).from s i
scan_mode-Advances tables mode_s s i k = (scan_string-AdvancesFrom tables false).from s i
scan_mode-Advances tables mode_r s i k = (scan_string-AdvancesFrom tables true).from s i
scan_mode-Advances tables mode_l s i k = (scan_l-AdvancesFrom tables).from s i
scan_mode-Advances tables mode_m s i k = (scan_m-AdvancesFrom tables).from s i
scan_mode-Advances tables mode_b s i k = (scan_special-AdvancesFrom baddy tt).from s i
scan_mode-Advances tables mode_i s i k = (scan_special-AdvancesFrom item tt).from s i
scan_mode-Advances tables mode_c s i k = (scan_special-AdvancesFrom color tt).from s i
scan_mode-Advances tables mode_g s i k = (scan_special-AdvancesFrom gender tt).from s i
scan_mode-Advances tables mode_u s i k = (scan_special-AdvancesFrom carry tt).from s i
scan_mode-Advances tables mode_d s i k = (scan_d-AdvancesFrom tables).from s i
scan_mode-Advances tables mode_x s i k = (scan_x-AdvancesFrom tables).from s i
scan_mode-Advances tables mode_z s i k = scan_z-AdvancesFrom.from s i
scan_mode-Advances tables mode_p1 s i k = scan_p1-Advances s i (k (λ e. cc))
scan_mode-Advances tables mode_p2 s i k = scan_p2-AdvancesFrom.from s i
scan_mode-Advances tables mode_p3 s i k = scan_p3-Advances s i (k (λ e. cc))
scan_mode-Advances tables mode_f s i k = scan_f-AdvancesFrom.from s i

-- At the end of the text the scan is EOF; before it, it advances.
pub scan_one-Advances :
    (tables : Tables) (s : LexState)
    → IsSound s
    → Advances (length s.rest) s.after (scan_one tables s)
unfolding scan_one IsFramed
scan_one-Advances tables s i = by_text s.rest refl
  where
    by_text :
        (t : Text)
        → s.rest ≡ t
        → Advances
            (length s.rest)
            s.after
            (elim t [ [] ↦ at_end s | c ∷ rest ↦ scan_mode tables s.mode s ])
    by_text [] e = ends s e refl i
    by_text (c ∷ rest) e =
        scan_mode-Advances tables s.mode s i (λ m. IsGrounded-ne-nil s.mode s.frames m i.grounded)

reverse-AreLive : (ts : List Token) → AreLive ts → AreLive (reverse ts)
reverse-AreLive [] l = tt
reverse-AreLive (t ∷ ts) l =
    subst AreLive (sym (reverse-append (t ∷ []) ts))
      (All-append _ (reverse ts) (t ∷ []) (reverse-AreLive ts l.1) (l.0, tt))

-- The tokens are live ones and an EOF behind them, or there is a LexError.
unfoldable pub IsLexed : Lexed → Type 0
IsLexed (tokens ts) = (front : List Token) × (ts ≡ front ++ empty_token eof ∷ []) × AreLive front
IsLexed failed = Unit
IsLexed out_of_range = ⊥
IsLexed stuck = ⊥

emitted-IsSound :
    (tok : List Token) (s : LexState) → AreLive tok → IsSound s → IsSound (emitted tok s)
unfolding emitted
emitted-IsSound tok s l i = record {
  grounded = i.grounded;
  before = tt;
  after = tt;
  out =
      All-append _ s.after _ i.after
        (All-append _ tok _ l (All-append _ s.before s.out i.before i.out));
}

module _ (tables : Tables) where
  run-IsLexed :
      (fuel : ℕ) (s : LexState)
      → s.after ≡ []
      → length s.rest < fuel
      → IsSound s
      → IsLexed (run tables fuel s)
  unfolding run IsLexed emitted
  run-IsLexed zero s e h i = absurd (omega arith)
  run-IsLexed (suc fuel) s e h i =
      by_scan (λ t k. run-IsLexed fuel t k) (scan_one tables s) (scan_one-Advances tables s i)
    where
      by_scan :
          ((t : LexState)
            → t.after ≡ []
            → length t.rest < fuel
            → IsSound t
            → IsLexed (run tables fuel t))
          → (o : Scan) → Advances (length s.rest) s.after o
          → IsLexed (elim o [
            | found t s' ↦ run tables fuel (emitted (t ∷ []) s')
            | nothing s' ↦ run tables fuel (emitted [] s')
            | at_end s' ↦ tokens (reverse (emitted (empty_token eof ∷ []) s').out)
            | lex_error ↦ failed
            | index_error ↦ out_of_range
          ])
      by_scan again _ (gives t s' l less k) =
          again _ refl (omega arith) (emitted-IsSound (t ∷ []) s' (l, tt) k)
      by_scan again _ (hides s' less k) = again _ refl (omega arith) (emitted-IsSound [] s' tt k)
      by_scan again _ (ends s' d a k) =
          let older = s'.before ++ s'.out in
          (
            reverse older,
            rw (a ∙ e) (reverse-append (empty_token eof ∷ []) older),
            reverse-AreLive older (All-append _ s'.before s'.out k.before k.out),
          )
      by_scan again _ raises = tt

-- `tokenize` ends on every text, whatever the tables hold: with one more than the number of characters
-- as fuel the loop does not run out of it, and no mode looks for a command on an empty stack. It
-- raises a LexError, or it gives tokens with exactly one EOF, which is the last of them.
pub tokenize-IsLexed : (tables : Tables) (text : Text) → IsLexed (tokenize tables text)
unfolding tokenize new_lexer
tokenize-IsLexed tables text =
    run-IsLexed tables (length text + 1) (new_lexer text) refl
      (omega (arith, length-map normalise text))
      (record { grounded = refl; before = tt; after = tt; out = tt })
