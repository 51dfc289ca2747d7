-- ===== src/Gs1/Lexer/Frames.antt =====
-- reborn_protocol/gs1/lexer.py: a command that was pushed is popped again, and leaves the modes and
-- counts below it as they were.
use reborn_protocol.Base.{
  ℕ, zero, suc, ◌≡◌, refl, [], ◌∷◌, Bool, true, false, ◌||◌, length, if◌then◌else◌, ◌==◌,
}
use reborn_protocol.Gs1.Csv.{Text}
use reborn_protocol.Gs1.Tokens.{TokenType, identifier, string, rawmessagecode}
use reborn_protocol.Gs1.Lexer.State.{
  pop_function, pop_command, Frame, LexState, emit_after, emit_argument, pop_frame, next_argument,
  pop_next_mode, push_frame, push_command, comma_after,
}

-- All but the queue of later tokens is as in `s`.
pub record IsRestored (s t : LexState) : Type 0 where
  pub rest : t.rest ≡ s.rest
  pub mode : t.mode ≡ s.mode
  pub frames : t.frames ≡ s.frames
  pub brace_count : t.brace_count ≡ s.brace_count
  pub array_lit_depth : t.array_lit_depth ≡ s.array_lit_depth
  pub before : t.before ≡ s.before
  pub out : t.out ≡ s.out

-- `pop_next_mode` called `n` times, as by commas.
pub pop_times : ℕ → LexState → LexState
pop_times zero s = s
pop_times (suc n) s = pop_times n (pop_next_mode false s)

-- The top frame has such arguments left, and keeps what `s` has below it.
record IsInside (s : LexState) (arguments : Text) (t : LexState) : Type 0 where
  f : Frame
  frames : t.frames ≡ f ∷ s.frames
  left : f.arguments ≡ arguments
  saved_mode : f.saved_mode ≡ s.mode
  saved_brace_count : f.saved_brace_count ≡ s.brace_count
  saved_array_lit_depth : f.saved_array_lit_depth ≡ s.array_lit_depth
  rest : t.rest ≡ s.rest
  before : t.before ≡ s.before
  out : t.out ≡ s.out

module _ (s : LexState) (arguments : Text) where
  if-IsInside :
      (b : Bool) {t u : LexState}
      → IsInside s arguments t
      → IsInside s arguments u
      → IsInside s arguments (if b then t else u)
  if-IsInside true h k = h
  if-IsInside false h k = k

  emit_after-IsInside :
      (a : TokenType) (t : LexState)
      → IsInside s arguments t
      → IsInside s arguments (emit_after a t)
  unfolding emit_after
  emit_after-IsInside a t i = record {
    f = i.f;
    frames = i.frames;
    left = i.left;
    saved_mode = i.saved_mode;
    saved_brace_count = i.saved_brace_count;
    saved_array_lit_depth = i.saved_array_lit_depth;
    rest = i.rest;
    before = i.before;
    out = i.out;
  }

  emit_argument-IsInside :
      (c : ℕ) (t : LexState) → IsInside s arguments t → IsInside s arguments (emit_argument c t)
  unfolding emit_argument
  emit_argument-IsInside c t i = if-IsInside (c == b'V') (emit_after-IsInside identifier t i) (
      if-IsInside (c == b'S' || c == b'R' || c == b'L') (emit_after-IsInside string t i)
        (if-IsInside (c == b'M') (emit_after-IsInside rawmessagecode t i) i))

-- A frame with no argument left is popped, early or not.
module _ (s t : LexState) where
  pop_frame-IsRestored :
      {arguments : Text} (i : IsInside s arguments t) → IsRestored s (pop_frame i.f s.frames t)
  unfolding pop_frame
  pop_frame-IsRestored i = record {
    rest = i.rest;
    mode = i.saved_mode;
    frames = refl;
    brace_count = i.saved_brace_count;
    array_lit_depth = i.saved_array_lit_depth;
    before = i.before;
    out = i.out;
  }

  pop_early : {arguments : Text} → IsInside s arguments t → IsRestored s (pop_next_mode true t)
  unfolding pop_next_mode next_argument pop_frame
  pop_early i = rw (i.frames) (pop_frame-IsRestored i)

  pop_last : IsInside s [] t → IsRestored s (pop_next_mode false t)
  unfolding pop_next_mode next_argument pop_frame
  pop_last i = rw (i.frames, i.left) (pop_frame-IsRestored i)

  pop_more :
      (c : ℕ) (arguments : Text)
      → IsInside s (c ∷ arguments) t
      → IsInside s arguments (pop_next_mode false t)
  unfolding pop_next_mode next_argument pop_frame
  pop_more c arguments i =
      rw (i.frames, i.left)
        (emit_argument-IsInside s arguments c _ (record {
          f = record (i.f) {
            arguments = arguments;
            comma_pop = comma_after c arguments (i.f.comma_pop);
          };
          frames = refl;
          left = refl;
          saved_mode = i.saved_mode;
          saved_brace_count = i.saved_brace_count;
          saved_array_lit_depth = i.saved_array_lit_depth;
          rest = i.rest;
          before = i.before;
          out = i.out;
        }))

pop_times-IsRestored :
    (arguments : Text) (s t : LexState)
    → IsInside s arguments t
    → IsRestored s (pop_times (suc (length arguments)) t)
unfolding pop_times
pop_times-IsRestored [] s t i = pop_last s t i
pop_times-IsRestored (c ∷ arguments) s t i =
    pop_times-IsRestored arguments s (pop_next_mode false t) (pop_more s t c arguments i)

-- A command with at least one argument, once it is pushed, is left by as many calls of `pop_next_mode`
-- as it has arguments, and by one call that terminates early. Either way the mode, the stack, the
-- count of parentheses and the depth of array literals are what they were before the command, with
-- the text and the tokens that were written; only the queue of later tokens has grown.
pub pop-push_command :
    (c : ℕ) (arguments : Text) (is_messagecode is_command_call : Bool) (s : LexState)
    → IsRestored s (
        pop_times
          (suc (length arguments))
          (push_command (c ∷ arguments) is_messagecode is_command_call s))
      × IsRestored s
          (pop_next_mode true (push_command (c ∷ arguments) is_messagecode is_command_call s))
unfolding push_command push_frame
pop-push_command c arguments is_messagecode is_command_call s =
    let inside = pop_more s _ c arguments (record {
      f = record {
        arguments = c ∷ arguments;
        pop_mode = if is_command_call then pop_function else pop_command;
        comma_pop = true;
        is_messagecode = is_messagecode;
        is_command_call = is_command_call;
        saved_mode = s.mode;
        saved_brace_count = s.brace_count;
        saved_array_lit_depth = s.array_lit_depth;
      };
      frames = refl;
      left = refl;
      saved_mode = refl;
      saved_brace_count = refl;
      saved_array_lit_depth = refl;
      rest = refl;
      before = refl;
      out = refl;
    }) in
    (pop_times-IsRestored arguments s _ inside, pop_early s _ inside)
