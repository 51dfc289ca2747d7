-- ===== src/Gs1/Lexer/Run.antt =====
-- reborn_protocol/gs1/lexer.py: `scan_one` and the loop of `tokenize`.
use reborn_protocol.Base.{
  ℕ, zero, suc, ◌+◌, List, [], ◌∷◌, ◌++◌, true, false, pos, length, ◌==◌, if◌then◌else◌, map,
}
use mathlib.Core.List.{reverse}
use reborn_protocol.Gs1.Csv.{Text}
use reborn_protocol.Gs1.Tokens.{Token, eof, baddy, item, color, gender, carry}
use reborn_protocol.Gs1.Lexer.State.{
  LexState, Scan, found, nothing, at_end, lex_error, index_error, Tables, empty_token,
}
use reborn_protocol.Gs1.Lexer.Mode.{
  Mode, default_mode, mode_e, mode_v, mode_s, mode_r, mode_l, mode_m, mode_b, mode_i, mode_c,
  mode_g, mode_u, mode_d, mode_x, mode_z, mode_p1, mode_p2, mode_p3, mode_f,
}
use reborn_protocol.Gs1.Lexer.Expression.{scan_default, scan_e, scan_m, scan_d}
use reborn_protocol.Gs1.Lexer.Strings.{scan_string, scan_l}
use reborn_protocol.Gs1.Lexer.Literals.{
  scan_v, scan_special, scan_x, scan_z, scan_p1, scan_p2, scan_p3, scan_f,
}

-- The tokens, an exception, or the model's fuel running out.
pub data Lexed : Type 0 where
  tokens : List Token → Lexed
  failed : Lexed
  out_of_range : Lexed
  stuck : Lexed

-- `"\xa7"` is read as a line break.
unfoldable pub normalise : ℕ → ℕ
normalise c = if c == 0xA7 then b'\n' else c

-- `Lexer(text)`
unfoldable pub new_lexer : Text → LexState
unfolding normalise
new_lexer text = record {
  rest = map normalise text;
  mode = default_mode;
  frames = [];
  brace_count = pos 0;
  array_lit_depth = 0;
  before = [];
  after = [];
  out = [];
}

-- `self.before`, the token or none, and `self.after` are appended to `self.out`.
unfoldable pub emitted : List Token → LexState → LexState
emitted tok s = record s { before = []; after = []; out = s.after ++ (tok ++ (s.before ++ s.out)) }

module _ (tables : Tables) where
  -- `getattr(self, "_mode_" + self.mode)()`
  unfoldable pub scan_mode : Mode → LexState → Scan
  scan_mode default_mode = scan_default tables
  scan_mode mode_e = scan_e tables
  scan_mode mode_v = scan_v tables
  scan_mode mode_s = scan_string tables false
  scan_mode mode_r = scan_string tables true
  scan_mode mode_l = scan_l tables
  scan_mode mode_m = scan_m tables
  scan_mode mode_b = scan_special baddy
  scan_mode mode_i = scan_special item
  scan_mode mode_c = scan_special color
  scan_mode mode_g = scan_special gender
  scan_mode mode_u = scan_special carry
  scan_mode mode_d = scan_d tables
  scan_mode mode_x = scan_x tables
  scan_mode mode_z = scan_z
  scan_mode mode_p1 = scan_p1
  scan_mode mode_p2 = scan_p2
  scan_mode mode_p3 = scan_p3
  scan_mode mode_f = scan_f

  unfoldable pub scan_one : LexState → Scan
  scan_one s = elim s.rest [ [] ↦ at_end s | c ∷ rest ↦ scan_mode s.mode s ]

  -- The loop of `tokenize`; a scan takes a character, so one more than their number is enough fuel.
  unfoldable pub run : ℕ → LexState → Lexed
  run zero s = stuck
  run (suc fuel) s = elim (scan_one s) [
    | found t s' ↦ run fuel (emitted (t ∷ []) s')
    | nothing s' ↦ run fuel (emitted [] s')
    | at_end s' ↦ tokens (reverse (emitted (empty_token eof ∷ []) s').out)
    | lex_error ↦ failed
    | index_error ↦ out_of_range
  ]

  unfoldable pub tokenize : Text → Lexed
  unfolding new_lexer
  tokenize text = run (length text + 1) (new_lexer text)
