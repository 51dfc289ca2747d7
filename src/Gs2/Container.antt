-- ===== src/Gs2/Container.antt =====
-- reborn_protocol/gs2/container.py: the container of GS2 bytecode. A place in the data is the list
-- of the bytes from there on. `bytes.decode` at UTF-8 is the parameter `decode`.
pub mod Total
pub mod Writer
pub mod RoundTrip
use reborn_protocol.Base.{
  ℕ, zero, suc, ◌+◌, ◌*◌, ◌^◌, List, [], ◌∷◌, ◌++◌, Bytes, Bool, true, false, ◌&&◌, Option, none,
  some, length, take, drop, ltb, leb, ◌==◌, if◌then◌else◌, get_or,
}

abbrev pub Text : Type 0
Text = List ℕ

abbrev pub segment_gs1flags : ℕ
segment_gs1flags = 1

abbrev pub segment_functiontable : ℕ
segment_functiontable = 2

abbrev pub segment_stringtable : ℕ
segment_stringtable = 3

abbrev pub segment_bytecode : ℕ
segment_bytecode = 4

-- The places where a `GS2ContainerError` is raised.
pub data ContainerError : Type 0 where
  truncated_u32 unterminated_string truncated_header segment_overrun : ContainerError

-- `stuck` is no outcome of the program: a loop of the model ran out of fuel.
pub data Result (A : Type 0) : Type 0 where
  ok : A → Result A
  err : ContainerError → Result A
  stuck : Result A

infixl 5 ◌>>=◌
abbrev pub ◌>>=◌ : {A B : Type 0} → Result A → (A → Result B) → Result B
ok a >>= f = f a
err e >>= f = err e
stuck >>= f = stuck

pub record FunctionEntry : Type 0 where
  pub name : Text
  pub op_index : ℕ

pub record Gs2Container : Type 0 where
  pub gs1_flags : ℕ
  pub functions : List FunctionEntry
  pub strings : List Text
  pub code : Bytes
  pub unknown_segments : List (ℕ × Bytes)
  pub trailing_newline : Bool

abbrev pub empty_container : Gs2Container
empty_container = record {
  gs1_flags = 0;
  functions = [];
  strings = [];
  code = [];
  unknown_segments = [];
  trailing_newline = false;
}

pub function_in : List FunctionEntry → ℕ → Option Text
function_in [] op_index = none
function_in (f ∷ functions) op_index =
    if f.op_index == op_index then some f.name else function_in functions op_index

unfoldable pub function_by_index : Gs2Container → ℕ → Option Text
unfolding function_in
function_by_index c op_index = function_in c.functions op_index

-- `d[key] = value`: a key that is there keeps its place.
pub put : ℕ → Bytes → List (ℕ × Bytes) → List (ℕ × Bytes)
put key value [] = (key, value) ∷ []
put key value ((k, v) ∷ entries) =
    if k == key then (key, value) ∷ entries else (k, v) ∷ put key value entries

-- `struct.unpack_from(">I", ...)`, with the place behind it.
pub read_u32 : Bytes → Result (ℕ × Bytes)
read_u32 (a ∷ b ∷ c ∷ d ∷ rest) = ok (a * 2 ^ 24 + b * 2 ^ 16 + c * 2 ^ 8 + d, rest)
read_u32 _ = err truncated_u32

abbrev pub cons_string : ℕ → Bytes × Bytes → Result (Bytes × Bytes)
cons_string b (name, rest) = ok (b ∷ name, rest)

-- The bytes up to the next NUL, and the place behind it.
pub read_cstr : Bytes → Result (Bytes × Bytes)
read_cstr [] = err unterminated_string
read_cstr (zero ∷ rest) = ok ([], rest)
read_cstr (suc b ∷ rest) = read_cstr rest >>= cons_string (suc b)

-- `_read_u32(payload, 0) if len(payload) >= 4 else 0`
abbrev pub flags_of : Bytes → Result ℕ
flags_of payload = if leb 4 (length payload) then (do (n, _) ← read_u32 payload; ok n) else ok 0

-- The segment's id, if there is room for its header.
abbrev pub read_id : Bytes → Result (ℕ × Bytes)
read_id p = if ltb (length p) 8 then err truncated_header else read_u32 p

abbrev pub cut_payload : ℕ → ℕ × Bytes → Result (ℕ × Bytes × Bytes)
cut_payload seg_id (seg_len, p) =
    if ltb (length p) seg_len
    then err segment_overrun
    else ok (seg_id, take seg_len p, drop seg_len p)

-- The id, the payload and the place behind it of the segment that begins here.
pub next_segment : Bytes → Result (ℕ × Bytes × Bytes)
next_segment p = do (seg_id, p1) ← read_id p; size ← read_u32 p1; cut_payload seg_id size

module _ (decode : Bytes → Text) where
  pub read_functions : ℕ → Bytes → List FunctionEntry → Result (List FunctionEntry)
  read_functions fuel [] found = ok found
  read_functions zero (b ∷ p) found = stuck
  read_functions (suc fuel) (b ∷ p) found = do
    (op_index, p1) ← read_u32 (b ∷ p)
    (name, p2) ← read_cstr p1
    read_functions fuel p2 (found ++ record { name = decode name; op_index = op_index } ∷ [])

  pub read_strings : ℕ → Bytes → List Text → Result (List Text)
  read_strings fuel [] found = ok found
  read_strings zero (b ∷ p) found = stuck
  read_strings (suc fuel) (b ∷ p) found = do
    (s, p1) ← read_cstr (b ∷ p)
    read_strings fuel p1 (found ++ decode s ∷ [])

  -- What one segment does to the container.
  unfoldable pub read_segment : ℕ → Bytes → Gs2Container → Result Gs2Container
  read_segment seg_id payload c =
      if seg_id == segment_gs1flags
      then (do flags ← flags_of payload; ok (record c { gs1_flags = flags }))
      else if seg_id == segment_functiontable
      then (do
        functions ← read_functions (length payload) payload c.functions
        ok (record c { functions = functions }))
      else if seg_id == segment_stringtable
      then (do
        strings ← read_strings (length payload) payload c.strings
        ok (record c { strings = strings }))
      else if seg_id == segment_bytecode
      then ok (record c { code = payload })
      else ok (record c { unknown_segments = put seg_id payload c.unknown_segments })

  -- The loop of `parse_container`.
  pub parse_loop : ℕ → Bytes → Gs2Container → Result Gs2Container
  parse_loop fuel [] c = ok c
  parse_loop zero (b ∷ p) c = stuck
  parse_loop (suc fuel) (b ∷ p) c =
      let on = (do
        (seg_id, payload, rest) ← next_segment (b ∷ p)
        c' ← read_segment seg_id payload c
        parse_loop fuel rest c') in
      if length (b ∷ p) == 1 && b == 0x0A then ok (record c { trailing_newline = true }) else on

  unfoldable pub parse_container : Bytes → Result Gs2Container
  unfolding parse_loop
  parse_container d = parse_loop (length d) d empty_container
