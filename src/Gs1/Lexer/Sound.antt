-- ===== src/Gs1/Lexer/Sound.antt =====
-- reborn_protocol/gs1/lexer.py: an invariant of the scanner's state, kept by the operations on its
-- stack and its queues.
pub mod Rules
pub mod Modes
pub mod Parens
pub mod Strings
pub mod Literals
pub mod Expression
pub mod Words
pub mod Shared
pub mod Lengths
use mathlib.Core.Path.{subst}
use reborn_protocol.Base.{
  ℕ, ◌<◌, ◌≡◌, refl, List, [], ◌∷◌, Bool, true, false, ◌&&◌, ◌||◌, if◌then◌else◌, ◌==◌, All, arith,
  Option, none, some, Bool-cases, inl, inr, length, ℤ, pos,
}
use reborn_protocol.Gs1.Csv.{Text}
use reborn_protocol.Gs1.Tokens.{TokenType, Token, eof, identifier, string, rawmessagecode}
use reborn_protocol.Gs1.Lexer.State.{
  PopMode, pop_command, pop_function, pop_arrayindex, Frame, LexState, emit_before, emit_after,
  emit_argument, pop_frame, next_argument, pop_next_mode, push_frame, push_command,
  push_array_access, empty_token,
}
use reborn_protocol.Gs1.Lexer.Mode.{Mode, default_mode, mode_of}

-- No EOF, which ends the tokens.
abbrev pub IsLive : TokenType → Type 0
IsLive eof = ⊥
IsLive _ = Unit

abbrev pub IsLiveOrNone : Option TokenType → Type 0
IsLiveOrNone none = Unit
IsLiveOrNone (some t) = IsLive t

abbrev pub AreLive : List Token → Type 0
AreLive = All (λ t. IsLive t.type)

-- Below the last frame the mode is the outermost one.
abbrev pub IsGrounded : Mode → List Frame → Type 0
IsGrounded m [] = m ≡ default_mode
IsGrounded m (f ∷ fs) = IsGrounded f.saved_mode fs

pub record IsSound (s : LexState) : Type 0 where
  pub grounded : IsGrounded s.mode s.frames
  pub before : AreLive s.before
  pub after : AreLive s.after
  pub out : AreLive s.out

pub emit_before-IsSound :
    (t : TokenType) (s : LexState) → IsLive t → IsSound s → IsSound (emit_before t s)
unfolding emit_before
emit_before-IsSound t s l h = record {
  grounded = h.grounded;
  before = (l, h.before);
  after = h.after;
  out = h.out;
}

pub emit_after-IsSound :
    (t : TokenType) (s : LexState) → IsLive t → IsSound s → IsSound (emit_after t s)
unfolding emit_after
emit_after-IsSound t s l h = record {
  grounded = h.grounded;
  before = h.before;
  after = (l, h.after);
  out = h.out;
}

pub if-IsSound : (b : Bool) {s t : LexState} → IsSound s → IsSound t → IsSound (if b then s else t)
if-IsSound true h k = h
if-IsSound false h k = k

emit_argument-IsSound : (c : ℕ) (s : LexState) → IsSound s → IsSound (emit_argument c s)
unfolding emit_argument
emit_argument-IsSound c s h = if-IsSound _ (emit_after-IsSound identifier s tt h) (
    if-IsSound _ (emit_after-IsSound string s tt h)
      (if-IsSound _ (emit_after-IsSound rawmessagecode s tt h) h))

-- The frame on top of the stack of a sound state.
under :
    (f : Frame) (fs : List Frame) (s : LexState)
    → IsGrounded f.saved_mode fs
    → IsSound s
    → IsSound (pop_frame f fs s)
unfolding pop_frame
under f fs s g h = record { grounded = g; before = h.before; after = h.after; out = h.out }

next_argument-IsSound :
    (f : Frame) (fs : List Frame) (arguments : Text) (s : LexState)
    → IsGrounded f.saved_mode fs
    → IsSound s
    → IsSound (next_argument f fs arguments s)
unfolding next_argument
next_argument-IsSound f fs [] s g h = under f fs s g h
next_argument-IsSound f fs (c ∷ arguments) s g h =
    emit_argument-IsSound c _
      (record { grounded = g; before = h.before; after = h.after; out = h.out })

pub pop_next_mode-IsSound :
    (early : Bool) (s : LexState) → IsSound s → IsSound (pop_next_mode early s)
unfolding pop_next_mode
pop_next_mode-IsSound early s h = by_frames s.frames refl
  where
    by_frames :
        (fs : List Frame)
        → s.frames ≡ fs
        → IsSound
            (elim fs [ [] ↦ s | f ∷ gs ↦ next_argument f gs (if early then [] else f.arguments) s ])
    by_frames [] e = h
    by_frames (f ∷ gs) e = next_argument-IsSound f gs _ s (subst (IsGrounded s.mode) e h.grounded) h

push_frame-IsSound :
    (arguments : Text) (pop_mode : PopMode) (comma messagecode call : Bool) (s : LexState)
    → IsSound s
    → IsSound (push_frame arguments pop_mode comma messagecode call s)
unfolding push_frame
push_frame-IsSound arguments pop_mode comma messagecode call s h =
    pop_next_mode-IsSound false _
      (record { grounded = h.grounded; before = h.before; after = h.after; out = h.out })

pub push_command-IsSound :
    (arguments : Text) (messagecode call : Bool) (s : LexState)
    → IsSound s
    → IsSound (push_command arguments messagecode call s)
unfolding push_command
push_command-IsSound arguments messagecode call s h = push_frame-IsSound _ _ _ _ _ s h

pub push_array_access-IsSound : (s : LexState) → IsSound s → IsSound (push_array_access s)
unfolding push_array_access
push_array_access-IsSound s h = push_frame-IsSound _ _ _ _ _ s h

-- The counts and the text are free.
pub recount-IsSound :
    (rest : Text) (braces : ℤ) (depth : ℕ) (s : LexState)
    → IsSound s
    → IsSound (record s { rest = rest; brace_count = braces; array_lit_depth = depth })
recount-IsSound rest braces depth s h = record {
  grounded = h.grounded;
  before = h.before;
  after = h.after;
  out = h.out;
}
