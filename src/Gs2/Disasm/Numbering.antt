-- ===== src/Gs2/Disasm/Numbering.antt =====
-- reborn_protocol/gs2/disasm.py: the instructions that `decode` lists.
use reborn_protocol.Base.{
  ℕ, zero, suc, ◌+◌, ◌≤◌, ◌<◌, ◌≡◌, refl, ap, List, [], ◌∷◌, ◌++◌, Bytes, false, Option, none, some,
  length, get_or, arith, All, All-append, length-append, ltb, ltb→lt, Bool-cases, inl, inr, ◌⊎◌,
  ◌&&◌,
}
use reborn_protocol.Gs2.Opcodes.{Op, op_of, is_operand_op}
use reborn_protocol.Gs2.Disasm.{
  Operand, Instruction, DecodeError, Parsed, parsed, failed, Decoding, Outcome, listing, malformed,
  stuck, implicit_zero, read_integer, read_literal, parse_typed_operand, is_marker, last_op, attach,
  attached, append, appended, take_operand, round, decode_loop, decode,
}

-- From `k` on, the instructions are counted one by one.
pub Numbered : ℕ → List Instruction → Type 0
Numbered k [] = Unit {0}
Numbered k (i ∷ is) = (i.idx ≡ k) × Numbered (k + 1) is

-- An instruction stands in the code, where there is no marker.
abbrev pub StandsIn : Bytes → Instruction → Type 0
StandsIn code i =
    (i.offset < length code) × (i.opnum ≡ get_or code i.offset 0) × (is_marker i.opnum ≡ false)

record Consistent (code : Bytes) (w : Decoding) : Type 0 where
  counted : w.next_idx ≡ length w.instrs
  numbered : Numbered 0 w.instrs
  standing : All (StandsIn code) w.instrs

length-attach : (o : Operand) (is : List Instruction) → length (attach o is) ≡ length is
unfolding attach
length-attach o [] = refl
length-attach o (i ∷ []) = refl
length-attach o (i ∷ j ∷ is) = ap suc (length-attach o (j ∷ is))

attach-Numbered :
    (o : Operand) (k : ℕ) (is : List Instruction) → Numbered k is → Numbered k (attach o is)
unfolding attach Numbered
attach-Numbered o k [] h = tt
attach-Numbered o k (i ∷ []) h = h
attach-Numbered o k (i ∷ j ∷ is) h = (h.0, attach-Numbered o (k + 1) (j ∷ is) h.1)

attach-StandsIn :
    (code : Bytes) (o : Operand) (is : List Instruction)
    → All (StandsIn code) is
    → All (StandsIn code) (attach o is)
unfolding attach
attach-StandsIn code o [] h = tt
attach-StandsIn code o (i ∷ []) h = h
attach-StandsIn code o (i ∷ j ∷ is) h = (h.0, attach-StandsIn code o (j ∷ is) h.1)

Numbered-last :
    (k : ℕ) (is : List Instruction) (i : Instruction)
    → Numbered k is
    → i.idx ≡ k + length is
    → Numbered k (is ++ i ∷ [])
unfolding Numbered
Numbered-last k [] i h e = (omega (arith, e), tt)
Numbered-last k (j ∷ is) i h e = (h.0, Numbered-last (k + 1) is i h.1 (omega (arith, e)))

parse_forward :
    (op : Option Op) (marker : ℕ) (code : Bytes) (at : ℕ) (o : Operand) (end : ℕ)
    → parse_typed_operand op marker code at ≡ parsed (o, end)
    → at ≤ end
unfolding parse_typed_operand read_integer read_literal
parse_forward op marker code at o end e = ground arith

-- A round that does not fail moves on from `at`, and what it leaves is consistent.
Moved : Bytes → ℕ → Parsed Decoding → Type 0
Moved code at (failed e) = Unit {0}
Moved code at (parsed w) = (at < w.at) × Consistent code w

module _ (code : Bytes) (w : Decoding) (ok : Consistent code w) (inside : w.at < length code) where
  Consistent-attach :
      (o : Operand) (end : ℕ) → Consistent code (record w { at = end; instrs = attach o w.instrs })
  Consistent-attach o end = record {
    counted = omega (arith, ok.counted, length-attach o w.instrs);
    numbered = attach-Numbered o 0 w.instrs ok.numbered;
    standing = attach-StandsIn code o w.instrs ok.standing;
  }

  Consistent-append :
      (o : Option Operand) (end : ℕ)
      → is_marker (get_or code w.at 0) ≡ false
      → Consistent code (append code w o end)
  Consistent-append o end plain = record {
    counted = omega (arith, ok.counted, length-append w.instrs _);
    numbered = Numbered-last 0 w.instrs _ ok.numbered (omega (arith, ok.counted));
    standing = All-append _ w.instrs _ ok.standing ((inside, refl, plain), tt);
  }

  attached-Moved :
      (p : Parsed (Operand × ℕ))
      → ((o : Operand) (end : ℕ) → p ≡ parsed (o, end) → w.at < end)
      → Moved code w.at (attached w p)
  unfolding Moved
  attached-Moved (failed e) forward = tt
  attached-Moved (parsed (o, end)) forward = (forward o end refl, Consistent-attach o end)

  appended-Moved :
      (p : Parsed (Operand × ℕ))
      → is_marker (get_or code w.at 0) ≡ false
      → ((o : Operand) (end : ℕ) → p ≡ parsed (o, end) → w.at < end)
      → Moved code w.at (appended code w p)
  unfolding Moved
  appended-Moved (failed e) plain forward = tt
  appended-Moved (parsed (o, end)) plain forward =
      (forward o end refl, Consistent-append (some o) end plain)

  take_operand-Moved :
      (op : Option Op)
      → is_marker (get_or code w.at 0) ≡ false
      → Moved code w.at (take_operand code w op)
  unfolding take_operand Moved
  take_operand-Moved none plain = (omega arith, Consistent-append none (w.at + 1) plain)
  take_operand-Moved (some op) plain =
      let marker = get_or code (w.at + 1) 0 in
      elim (Bool-cases (is_operand_op op)) [
        | inr e ↦ rw e (omega arith, Consistent-append none (w.at + 1) plain)
        | inl e ↦ rw e (elim (Bool-cases (ltb (w.at + 1) (length code) && is_marker marker)) [
          | inr f ↦ rw f (omega arith, Consistent-append (some (implicit_zero op)) (w.at + 1) plain)
          | inl f ↦ rw f (
              appended-Moved (parse_typed_operand (some op) marker code (w.at + 2)) plain
                λ o end q. omega (arith, parse_forward (some op) marker code (w.at + 2) o end q))
        ])
      ]

  round-Moved : Moved code w.at (round code w)
  unfolding round
  round-Moved =
      let opnum = get_or code w.at 0 in
      elim (Bool-cases (is_marker opnum)) [
        | inr e ↦ rw e (take_operand-Moved (op_of opnum) e)
        | inl e ↦ rw e (
            attached-Moved (parse_typed_operand (last_op w.instrs) opnum code (w.at + 1)) λ o end q.
              omega (arith, parse_forward (last_op w.instrs) opnum code (w.at + 1) o end q))
      ]

Listed : Bytes → Outcome → Type 0
Listed code (listing is) = Numbered 0 is × All (StandsIn code) is
Listed code (malformed e) = Unit {0}
Listed code stuck = ⊥

next_round :
    (code : Bytes) (at fuel : ℕ) (p : Parsed Decoding)
    → Moved code at p
    → ((w : Decoding) → at < w.at → Consistent code w → Listed code (decode_loop fuel code w))
    → Listed code (elim p [ failed e ↦ malformed e | parsed w ↦ decode_loop fuel code w ])
unfolding Moved Listed
next_round code at fuel (failed e) m on = tt
next_round code at fuel (parsed w) m on = on w m.0 m.1

decode_loop-Listed :
    (code : Bytes) (fuel : ℕ) (w : Decoding)
    → Consistent code w
    → length code ≤ w.at + fuel
    → Listed code (decode_loop fuel code w)
unfolding decode_loop
decode_loop-Listed code zero w ok h =
    let over : ltb w.at (length code) ≡ false = ground arith in
    rw (over, decode_loop) (unfold Listed in (ok.numbered, ok.standing))
decode_loop-Listed code (suc fuel) w ok h = elim (Bool-cases (ltb w.at (length code))) [
  | inr over ↦ rw (over, decode_loop) (unfold Listed in (ok.numbered, ok.standing))
  | inl inside ↦
      rw (inside, decode_loop)
        (next_round code w.at fuel (round code w) (round-Moved code w ok (ltb→lt _ _ inside))
          λ w' on ok'. decode_loop-Listed code fuel w' ok' (omega arith))
]

-- On any code `decode` returns a list of instructions or raises, a GS2DecodeError or the OverflowError
-- of a float literal. In the list each instruction has its place in the list as its index, stands at
-- its offset in the code with the opcode that it carries, and no byte that marks an operand is an
-- instruction.
pub decode_lem :
    (code : Bytes)
    → ((is : List Instruction) × (decode code ≡ listing is)
        × Numbered 0 is
        × All (StandsIn code) is)
      ⊎ ((e : DecodeError) × (decode code ≡ malformed e))
unfolding decode
decode_lem code = by_outcome (decode_loop (length code) code _) refl (
    decode_loop-Listed code (length code) (record { at = 0; next_idx = 0; instrs = [] })
      (record { counted = refl; numbered = unfold Numbered in tt; standing = tt }) (omega arith))
  where
    by_outcome :
        (o : Outcome)
        → decode code ≡ o
        → Listed code o
        → ((is : List Instruction) × (decode code ≡ listing is)
            × Numbered 0 is
            × All (StandsIn code) is)
          ⊎ ((e : DecodeError) × (decode code ≡ malformed e))
    by_outcome (listing is) e h = unfold Listed in inl (is, e, h.0, h.1)
    by_outcome (malformed x) e h = inr (x, e)
    by_outcome stuck e h = absurd (unfold Listed in h)
