-- ===== src/Gs1/Lexer/Sound/Parens.antt =====
-- reborn_protocol/gs1/lexer.py: the parentheses of functions.
use mathlib.Core.Path.{subst}
use reborn_protocol.Base.{ℕ, ◌<◌, ◌≡◌, refl, ◌≢◌, List, [], ◌∷◌, true, false, length}
use reborn_protocol.Gs1.Csv.{Text}
use reborn_protocol.Gs1.Tokens.{Token, token_paren_left}
use reborn_protocol.Gs1.Lexer.Scan.{◌is◌, is_word_char}
use reborn_protocol.Gs1.Lexer.State.{Frame, LexState, index_error, pop_function}
use reborn_protocol.Gs1.Lexer.Shared.{give}
use reborn_protocol.Gs1.Lexer.Literals.{
  check_if_next_mode_optional, open_paren, param_open, param_optional, param_close, scan_p1,
  scan_p2, scan_p3, declared_char, scan_f,
}
use reborn_protocol.Gs1.Lexer.Sound.{IsGrounded, IsSound, pop_next_mode-IsSound, if-IsSound}
use reborn_protocol.Gs1.Lexer.Sound.Rules.{Advances, raises, give-Advances, if-Advances}
use reborn_protocol.Gs1.Lexer.Sound.Words.{length-after_word}
use reborn_protocol.Gs1.Lexer.Sound.Modes.{
  AdvancesAt, AdvancesFrom, after_ws-AdvancesFrom, after_ws-Advances,
}

param_close-AdvancesAt : AdvancesAt param_close
unfolding param_close
param_close-AdvancesAt = record {
  at = λ c rest s h i.
      if-Advances _ (give-Advances _ _ _ _ tt h (pop_next_mode-IsSound false s i)) raises;
}

-- The mode P2.
pub scan_p2-AdvancesFrom : AdvancesFrom scan_p2
unfolding scan_p2
scan_p2-AdvancesFrom = after_ws-AdvancesFrom param_close-AdvancesAt

declared_char-AdvancesAt : AdvancesAt declared_char
unfolding declared_char
declared_char-AdvancesAt = record {
  at = λ c rest s h i.
      if-Advances (c is b')') (give-Advances _ _ _ _ tt h (pop_next_mode-IsSound true s i)) (
        if-Advances (c is b',') (give-Advances _ _ _ s tt h i) (
          if-Advances (c is b'.') (give-Advances _ _ _ s tt h i) (
            if-Advances (is_word_char c) (give-Advances _ _ _ s tt (length-after_word rest h) i)
              raises)));
}

-- The mode F.
pub scan_f-AdvancesFrom : AdvancesFrom scan_f
unfolding scan_f
scan_f-AdvancesFrom = after_ws-AdvancesFrom declared_char-AdvancesAt

-- In a frame the next arguments can be asked for.
open_paren-Advances :
    {n : ℕ} {q : List Token} (then_pop : LexState → LexState) (rest : Text) (s : LexState)
    → ((t : LexState) → IsSound t → IsSound (then_pop t))
    → length rest < n
    → IsSound s
    → s.frames ≢ []
    → Advances n q (open_paren then_pop rest s)
unfolding open_paren
open_paren-Advances {n} {q} then_pop rest s pops h i framed = by_frames s.frames refl
  where
    by_frames :
        (fs : List Frame)
        → s.frames ≡ fs
        → Advances n q (elim fs [
          | [] ↦ index_error
          | f ∷ gs ↦
              give token_paren_left
                (b'(' ∷ [])
                rest
                (then_pop (record s { frames = (record f { pop_mode = pop_function }) ∷ gs }))
        ])
    by_frames [] e = absurd (framed e)
    by_frames (f ∷ gs) e = give-Advances _ _ rest _ tt h (
        pops _ (record {
          grounded = subst (IsGrounded s.mode) e i.grounded;
          before = i.before;
          after = i.after;
          out = i.out;
        }))

check_if_next_mode_optional-IsSound :
    (t : Text) (s : LexState) → IsSound s → IsSound (check_if_next_mode_optional t s)
unfolding check_if_next_mode_optional
check_if_next_mode_optional-IsSound t s i =
    let next = pop_next_mode-IsSound false s i in
    if-IsSound _ (pop_next_mode-IsSound false _ next) next

-- The modes P1 and P3.
pub scan_p1-Advances :
    (s : LexState) → IsSound s → s.frames ≢ [] → Advances (length s.rest) s.after (scan_p1 s)
unfolding scan_p1 param_open
scan_p1-Advances s i framed = after_ws-Advances _ s i (λ c rest h.
    if-Advances _ (open_paren-Advances _ rest s (λ t k. pop_next_mode-IsSound false t k) h i framed)
      raises)

pub scan_p3-Advances :
    (s : LexState) → IsSound s → s.frames ≢ [] → Advances (length s.rest) s.after (scan_p3 s)
unfolding scan_p3 param_optional
scan_p3-Advances s i framed = after_ws-Advances _ s i (λ c rest h.
    if-Advances _
      (open_paren-Advances _ rest s (λ t k. check_if_next_mode_optional-IsSound (c ∷ rest) t k) h i
        framed)
      raises)
