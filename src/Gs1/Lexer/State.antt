-- ===== src/Gs1/Lexer/State.antt =====
-- reborn_protocol/gs1/lexer.py: the state of `Lexer`. The text from `self.pos` on stands for the
-- text and the position. `self.states`, `self.mode_stack`, `self.brace_stack` and
-- `self.array_lit_stack` are pushed and popped together, so they are one stack of frames.
use reborn_protocol.Base.{
  ℕ, List, [], ◌∷◌, Bool, true, false, ◌&&◌, ◌||◌, Option, ℤ, pos, ◌==◌, if◌then◌else◌,
}
use reborn_protocol.Gs1.Csv.{Text, next_is}
use reborn_protocol.Gs1.Tokens.{
  TokenType, Token, among, identifier, string, rawmessagecode, end, token_brace_left,
  token_brace_right, token_question,
}
use reborn_protocol.Gs1.Lexer.Mode.{Mode, mode_of}

-- POP_COMMAND, POP_FUNCTION, POP_ARRAYINDEX
pub data PopMode : Type 0 where
  pop_command pop_function pop_arrayindex : PopMode

-- `_State`, with what the other stacks keep beside it.
pub record Frame : Type 0 where
  pub arguments : Text
  pub pop_mode : PopMode
  pub comma_pop : Bool
  pub is_messagecode : Bool
  pub is_command_call : Bool
  pub saved_mode : Mode
  pub saved_brace_count : ℤ
  pub saved_array_lit_depth : ℕ

-- The queues `before` and `after` and the list `out` have their newest token first.
pub record LexState : Type 0 where
  pub rest : Text
  pub mode : Mode
  pub frames : List Frame
  pub brace_count : ℤ
  pub array_lit_depth : ℕ
  pub before : List Token
  pub after : List Token
  pub out : List Token

-- What a scan gives: a token, `None`, `Token(EOF)`, a LexError, or the IndexError of `states[-1]`.
pub data Scan : Type 0 where
  found : Token → LexState → Scan
  nothing : LexState → Scan
  at_end : LexState → Scan
  lex_error : Scan
  index_error : Scan

-- An entry of COMMANDS.
pub record CommandEntry : Type 0 where
  pub args : Text
  pub needs_space : Bool

-- COMMANDS, FUNCTIONS and MESSAGECODES.
pub record Tables : Type 0 where
  pub commands : Text → Option CommandEntry
  pub functions : Text → Option Text
  pub messagecodes : Text → Option Text

abbrev pub empty_token : TokenType → Token
empty_token t = record { type = t; text = [] }

pops_function : PopMode → Bool
pops_function pop_function = true
pops_function _ = false

pops_command : PopMode → Bool
pops_command pop_command = true
pops_command _ = false

pops_array : PopMode → Bool
pops_array pop_arrayindex = true
pops_array _ = false

unfoldable pub can_func_pop : List Frame → Bool
unfolding pops_function
can_func_pop [] = false
can_func_pop (f ∷ fs) = pops_function f.pop_mode

unfoldable pub can_cmd_pop : List Frame → Bool
unfolding pops_command
can_cmd_pop [] = true
can_cmd_pop (f ∷ fs) = pops_command f.pop_mode

unfoldable pub can_array_pop : List Frame → Bool
unfolding pops_array
can_array_pop [] = false
can_array_pop (f ∷ fs) = pops_array f.pop_mode

unfoldable pub can_comma_pop : List Frame → Bool
can_comma_pop [] = true
can_comma_pop (f ∷ fs) = f.comma_pop

unfoldable pub is_next_arg_left_paren : List Frame → Bool
is_next_arg_left_paren [] = false
is_next_arg_left_paren (f ∷ fs) = next_is f.arguments b'('

-- `self.states and self.states[-1].is_command_call`
unfoldable pub in_command_call : List Frame → Bool
in_command_call [] = false
in_command_call (f ∷ fs) = f.is_command_call

-- `self.states and self.states[-1].is_messagecode`
unfoldable pub in_messagecode : List Frame → Bool
in_messagecode [] = false
in_messagecode (f ∷ fs) = f.is_messagecode

unfoldable pub emit_before : TokenType → LexState → LexState
emit_before t s = record s { before = empty_token t ∷ s.before }

unfoldable pub emit_after : TokenType → LexState → LexState
emit_after t s = record s { after = empty_token t ∷ s.after }

-- What the next argument emits.
unfoldable pub emit_argument : ℕ → LexState → LexState
emit_argument c s =
    if c == b'V'
    then emit_after identifier s
    else if c == b'S' || c == b'R' || c == b'L'
    then emit_after string s
    else if c == b'M'
    then emit_after rawmessagecode s
    else s

-- The last string takes commas, and so does an argument 'P'.
unfoldable pub comma_after : ℕ → Text → Bool → Bool
comma_after c [] comma_pop = if c == b'S' || c == b'R' || c == b'P' then false else comma_pop
comma_after c (d ∷ arguments) comma_pop =
    if ((c == b'S' || c == b'R') && d == b')') || c == b'P' then false else comma_pop

-- The branches of `pop_next_mode`: the frame is popped, or gives its next argument.
unfoldable pub pop_frame : Frame → List Frame → LexState → LexState
pop_frame f fs s = record s {
  frames = fs;
  mode = f.saved_mode;
  brace_count = f.saved_brace_count;
  array_lit_depth = f.saved_array_lit_depth;
}

unfoldable pub next_argument : Frame → List Frame → Text → LexState → LexState
unfolding comma_after
next_argument f fs [] s = pop_frame f fs s
next_argument f fs (c ∷ arguments) s =
    let f' = record f { arguments = arguments; comma_pop = comma_after c arguments f.comma_pop } in
    emit_argument c (record s { frames = f' ∷ fs; mode = mode_of c })

unfoldable pub pop_next_mode : Bool → LexState → LexState
pop_next_mode terminate_early s = elim s.frames [
  | [] ↦ s
  | f ∷ fs ↦ next_argument f fs (if terminate_early then [] else f.arguments) s
]

-- A new frame over the current mode and counts.
unfoldable pub push_frame : Text → PopMode → Bool → Bool → Bool → LexState → LexState
push_frame arguments pop_mode comma_pop is_messagecode is_command_call s =
    let f : Frame = record {
      arguments = arguments;
      pop_mode = pop_mode;
      comma_pop = comma_pop;
      is_messagecode = is_messagecode;
      is_command_call = is_command_call;
      saved_mode = s.mode;
      saved_brace_count = s.brace_count;
      saved_array_lit_depth = s.array_lit_depth;
    } in
    pop_next_mode false
      (record s { frames = f ∷ s.frames; brace_count = pos 0; array_lit_depth = 0 })

unfoldable pub push_command : Text → Bool → Bool → LexState → LexState
push_command arguments is_messagecode is_command_call =
    push_frame arguments (if is_command_call then pop_function else pop_command) true is_messagecode
      is_command_call

unfoldable pub push_array_access : LexState → LexState
push_array_access = push_frame (b'P' ∷ []) pop_arrayindex false false false

-- `_has_pending_ternary`
unfoldable pub has_pending_ternary : List Token → Bool
has_pending_ternary [] = false
has_pending_ternary (t ∷ out) =
    if among t.type (end ∷ token_brace_left ∷ token_brace_right ∷ [])
    then false
    else if among t.type (token_question ∷ [])
    then true
    else has_pending_ternary out
