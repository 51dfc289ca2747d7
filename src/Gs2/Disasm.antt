-- ===== src/Gs2/Disasm.antt =====
-- reborn_protocol/gs2/disasm.py: `decode`. The float that `strtofloat` makes of the text of a
-- literal is not computed: the operand holds the text. That it raises OverflowError is modelled.
pub mod Numbering
use reborn_protocol.Base.{
  ℕ, zero, suc, ◌+◌, ◌-◌, ◌*◌, ◌^◌, List, [], ◌∷◌, ◌++◌, Bytes, Bool, true, false, ◌&&◌, Option,
  none, some, length, get_or, take, drop, ltb, leb, ◌==◌, if◌then◌else◌, ℤ, pos, sub_ℕ,
}
use reborn_protocol.Base.Hex.{digit_of, float_overflows}
use reborn_protocol.Gs2.Opcodes.{
  Op, op_set_index, op_set_index_true, op_or, op_if, op_and, op_with, op_foreach, op_of,
  is_operand_op, is_index_op,
}

-- `op in JUMP_OPS`, for `None` too.
pub jumps : Option Op → Bool
jumps (some op_set_index) = true
jumps (some op_set_index_true) = true
jumps (some op_or) = true
jumps (some op_if) = true
jumps (some op_and) = true
jumps (some op_with) = true
jumps (some op_foreach) = true
jumps op = false

pub data Kind : Type 0 where
  index number float jump : Kind

pub data Width : Type 0 where
  u8 u16 u32 i8 i16 i32 cstr implicit : Width

pub data Literal : Type 0 where
  integer : ℤ → Literal
  text : Bytes → Literal

-- The marker is `none` for the -1 of an implicit operand.
pub record Operand : Type 0 where
  pub kind : Kind
  pub marker : Option ℕ
  pub width : Width
  pub literal : Literal
  pub nbytes : ℕ

pub record Instruction : Type 0 where
  pub idx : ℕ
  pub offset : ℕ
  pub opnum : ℕ
  pub operand : Option Operand

-- The messages of `GS2DecodeError`, and the OverflowError of a float literal.
pub data DecodeError : Type 0 where
  truncated unterminated overflow : DecodeError

-- `size` bytes, big-endian.
pub big_endian : ℕ → Bytes → ℕ → ℕ
big_endian zero code at = 0
big_endian (suc size) code at = get_or code at 0 * 2 ^ (8 * size) + big_endian size code (at + 1)

-- Two's complement over `size` bytes.
abbrev pub signed : ℕ → ℕ → ℤ
signed size n = if ltb n (2 ^ (8 * size - 1)) then pos n else sub_ℕ n (2 ^ (8 * size))

-- `code.find(b"\x00", pos)`, counted from `pos`.
pub find_nul : Bytes → Option ℕ
find_nul [] = none
find_nul (zero ∷ d) = some 0
find_nul (suc b ∷ d) = elim (find_nul d) [ none ↦ none | some n ↦ some (suc n) ]

-- An operand or an exception.
pub data Parsed (A : Type 0) : Type 0 where
  parsed : A → Parsed A
  failed : DecodeError → Parsed A

-- `_read`, and the operand that is made of the number.
unfoldable pub read_integer :
    Option Op → Kind → ℕ → Width → (ℕ → ℤ) → ℕ → Bytes → ℕ → Parsed (Operand × ℕ)
read_integer op kind marker width convert size code at =
    if ltb (length code) (at + size)
    then failed truncated
    else parsed (
      record {
        kind = if jumps op then jump else kind;
        marker = some marker;
        width = width;
        literal = integer (convert (big_endian size code at));
        nbytes = size;
      },
      at + size,
    )

-- The hexadecimal digits in front of a text, as an integer.
pub hex_prefix : ℕ → Bytes → ℕ
hex_prefix n [] = n
hex_prefix n (c ∷ t) = elim (digit_of c) [ some d ↦ hex_prefix (n * 16 + d) t | none ↦ n ]

-- `strtofloat` raises OverflowError: its text is hexadecimal and `float` does not take the integer.
unfoldable pub strtofloat_overflows : Bytes → Bool
strtofloat_overflows (zero_digit ∷ x ∷ t) =
    zero_digit == b'0' && x == b'x' && float_overflows (hex_prefix 0 t)
strtofloat_overflows t = false

unfoldable pub read_literal : ℕ → Bytes → ℕ → Parsed (Operand × ℕ)
read_literal marker code at = elim (find_nul (drop at code)) [
  | none ↦ failed unterminated
  | some n ↦
      if strtofloat_overflows (take n (drop at code))
      then failed overflow
      else parsed (
        record {
          kind = float;
          marker = some marker;
          width = cstr;
          literal = text (take n (drop at code));
          nbytes = n + 1;
        },
        at + n + 1,
      )
]

-- `_parse_typed_operand`, at the byte behind the marker.
unfoldable pub parse_typed_operand : Option Op → ℕ → Bytes → ℕ → Parsed (Operand × ℕ)
parse_typed_operand op marker code at =
    if marker == 0xF0
    then read_integer op index marker u8 (λ n. pos n) 1 code at
    else if marker == 0xF1
    then read_integer op index marker u16 (λ n. pos n) 2 code at
    else if marker == 0xF2
    then read_integer op index marker u32 (λ n. pos n) 4 code at
    else if marker == 0xF3
    then read_integer op number marker i8 (signed 1) 1 code at
    else if marker == 0xF4
    then read_integer op number marker i16 (signed 2) 2 code at
    else if marker == 0xF5
    then read_integer op number marker i32 (signed 4) 4 code at
    else read_literal marker code at

-- `0xF0 <= n <= 0xF6`
abbrev pub is_marker : ℕ → Bool
is_marker n = leb 0xF0 n && leb n 0xF6

-- `_operand_kind`
abbrev pub operand_kind : Op → Kind
operand_kind op = if jumps (some op) then jump else if is_index_op op then index else number

abbrev pub implicit_zero : Op → Operand
implicit_zero op = record {
  kind = operand_kind op;
  marker = none;
  width = implicit;
  literal = integer (pos 0);
  nbytes = 0;
}

-- The variables of the loop.
pub record Decoding : Type 0 where
  pub at : ℕ
  pub next_idx : ℕ
  pub instrs : List Instruction

-- `instrs[-1].op`, or `None`.
pub last_op : List Instruction → Option Op
last_op [] = none
last_op (i ∷ []) = op_of i.opnum
last_op (i ∷ j ∷ is) = last_op (j ∷ is)

-- `prev.operand = operand`, where there is a previous instruction.
pub attach : Operand → List Instruction → List Instruction
attach operand [] = []
attach operand (i ∷ []) = record i { operand = some operand } ∷ []
attach operand (i ∷ j ∷ is) = i ∷ attach operand (j ∷ is)

abbrev pub attached : Decoding → Parsed (Operand × ℕ) → Parsed Decoding
attached w (failed e) = failed e
attached w (parsed (operand, at)) = parsed (record w { at = at; instrs = attach operand w.instrs })

-- The instruction at `w.at`, with its operand, and the place behind both.
abbrev pub append : Bytes → Decoding → Option Operand → ℕ → Decoding
append code w operand at = record {
  at = at;
  next_idx = w.next_idx + 1;
  instrs =
      w.instrs
      ++ record { idx = w.next_idx; offset = w.at; opnum = get_or code w.at 0; operand = operand }
        ∷ [];
}

abbrev pub appended : Bytes → Decoding → Parsed (Operand × ℕ) → Parsed Decoding
appended code w (failed e) = failed e
appended code w (parsed (operand, at)) = parsed (append code w (some operand) at)

-- The byte behind the opcode, which may be a marker; at the end there is none.
unfoldable pub take_operand : Bytes → Decoding → Option Op → Parsed Decoding
take_operand code w none = parsed (append code w none (w.at + 1))
take_operand code w (some op) =
    if is_operand_op op
    then (if ltb (w.at + 1) (length code) && is_marker (get_or code (w.at + 1) 0)
        then appended code w
            (parse_typed_operand (some op) (get_or code (w.at + 1) 0) code (w.at + 2))
        else parsed (append code w (some (implicit_zero op)) (w.at + 1)))
    else parsed (append code w none (w.at + 1))

-- One round of the loop of `decode`.
unfoldable pub round : Bytes → Decoding → Parsed Decoding
round code w =
    let opnum = get_or code w.at 0 in
    if is_marker opnum
    then attached w (parse_typed_operand (last_op w.instrs) opnum code (w.at + 1))
    else take_operand code w (op_of opnum)

-- `decode` returns or raises; `stuck` is the model's fuel running out.
pub data Outcome : Type 0 where
  listing : List Instruction → Outcome
  malformed : DecodeError → Outcome
  stuck : Outcome

pub decode_loop : ℕ → Bytes → Decoding → Outcome
decode_loop zero code w = if ltb w.at (length code) then stuck else listing w.instrs
decode_loop (suc fuel) code w = elim (ltb w.at (length code)) [
  | false ↦ listing w.instrs
  | true ↦ elim (round code w) [ failed e ↦ malformed e | parsed w' ↦ decode_loop fuel code w' ]
]

-- Each round takes a byte at least, so the length of the code is enough fuel.
unfoldable pub decode : Bytes → Outcome
decode code = decode_loop (length code) code (record { at = 0; next_idx = 0; instrs = [] })
