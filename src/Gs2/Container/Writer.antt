-- ===== src/Gs2/Container/Writer.antt =====
-- The format that the comment of reborn_protocol/gs2/container.py describes: a compiler's output,
-- written here from that description, and the readers on its parts.
use reborn_protocol.Base.{
  ℕ, zero, suc, ◌+◌, ◌*◌, ◌/◌, ◌%◌, ◌^◌, ◌≤◌, ◌<◌, ◌≡◌, ◌≢◌, refl, ◌∙◌, List, [], ◌∷◌, ◌++◌, map,
  Bytes, true, false, All, length, length-append, take_append_length, drop_append_length,
  append-nil, append_assoc, ltb, le→ltb, ◌==◌, arith,
}
use reborn_protocol.Gs2.Container.{
  Text, ok, ◌>>=◌, FunctionEntry, Gs2Container, read_u32, read_cstr, next_segment, read_functions,
  read_strings, read_segment, parse_loop,
}

-- What a script is compiled to, before names are decoded.
pub record Compiled : Type 0 where
  pub flags : ℕ
  pub functions : List (Bytes × ℕ)
  pub strings : List Bytes
  pub code : Bytes

-- A number in four bytes, big-endian.
unfoldable pub be32 : ℕ → Bytes
be32 n = (n / 2 ^ 24 % 256) ∷ (n / 2 ^ 16 % 256) ∷ (n / 2 ^ 8 % 256) ∷ (n % 256) ∷ []

unfoldable pub segment : ℕ → Bytes → Bytes
segment seg_id payload = be32 seg_id ++ (be32 (length payload) ++ payload)

unfoldable pub function_table : List (Bytes × ℕ) → Bytes
function_table [] = []
function_table ((name, op_index) ∷ fs) = be32 op_index ++ (name ++ 0 ∷ function_table fs)

unfoldable pub string_table : List Bytes → Bytes
string_table [] = []
string_table (s ∷ ss) = s ++ 0 ∷ string_table ss

-- The four segments and the newline behind them.
unfoldable pub container_bytes : Compiled → Bytes
container_bytes s =
    segment 1 (be32 s.flags)
    ++ (segment 2 (function_table s.functions)
        ++ (segment 3 (string_table s.strings) ++ (segment 4 s.code ++ 0x0A ∷ [])))

-- A string with no NUL in it.
abbrev pub IsCstr : Bytes → Type 0
IsCstr = All (λ b. b ≢ 0)

abbrev pub IsFunction : Bytes × ℕ → Type 0
IsFunction (name, op_index) = IsCstr name × (op_index < 2 ^ 32)

-- What the format can hold.
pub record IsEncodable (s : Compiled) : Type 0 where
  pub flags_fit : s.flags < 2 ^ 32
  pub functions_fit : All IsFunction s.functions
  pub function_table_fits : length (function_table s.functions) < 2 ^ 32
  pub strings_fit : All IsCstr s.strings
  pub string_table_fits : length (string_table s.strings) < 2 ^ 32
  pub code_fits : length s.code < 2 ^ 32

pub read_u32-be32 : (n : ℕ) (rest : Bytes) → n < 2 ^ 32 → read_u32 (be32 n ++ rest) ≡ ok (n, rest)
unfolding read_u32 be32
read_u32-be32 n rest h =
    let value : n / 2 ^ 24 % 256 * 2 ^ 24
          + n / 2 ^ 16 % 256 * 2 ^ 16
          + n / 2 ^ 8 % 256 * 2 ^ 8
          + n % 256
        ≡ n =
      omega arith in
    rw value

read_cstr_back : (s rest : Bytes) → IsCstr s → read_cstr (s ++ 0 ∷ rest) ≡ ok (s, rest)
unfolding read_cstr
read_cstr_back [] rest h = refl
read_cstr_back (zero ∷ s) rest h = absurd (h.0 refl)
read_cstr_back (suc b ∷ s) rest h = rw (read_cstr_back s rest h.1)

next_segment-segment :
    (seg_id : ℕ) (payload rest : Bytes)
    → seg_id < 2 ^ 32
    → length payload < 2 ^ 32
    → next_segment (segment seg_id payload ++ rest) ≡ ok (seg_id, payload, rest)
unfolding next_segment segment
next_segment-segment seg_id payload rest h k =
    let body = be32 (length payload) ++ (payload ++ rest) in
    let whole : segment seg_id payload ++ rest ≡ be32 seg_id ++ body = unfold be32 in refl in
    let room : ltb (length (be32 seg_id ++ body)) 8 ≡ false =
      unfold be32 in le→ltb _ 8 (omega arith) in
    let fits : ltb (length (payload ++ rest)) (length payload) ≡ false =
      le→ltb _ _ (omega (arith, length-append payload rest)) in
    rw (
      whole,
      room,
      read_u32-be32 seg_id body h,
      read_u32-be32 (length payload) (payload ++ rest) k,
      fits,
      take_append_length payload rest,
      drop_append_length payload rest,
    )

module _ (decode : Bytes → Text) where
  abbrev pub entry : Bytes × ℕ → FunctionEntry
  entry (name, op_index) = record { name = decode name; op_index = op_index }

  read_strings_step :
      (fuel : ℕ) (p : Bytes) (found : List Text) (s rest : Bytes)
      → read_cstr p ≡ ok (s, rest)
      → read_strings decode (suc fuel) p found
        ≡ read_strings decode fuel rest (found ++ decode s ∷ [])
  unfolding read_strings
  read_strings_step fuel [] found s rest e = unfold read_cstr in cc
  read_strings_step fuel (b ∷ p) found s rest e = rw e

  read_functions_step :
      (fuel : ℕ) (p p1 : Bytes) (found : List FunctionEntry) (name : Bytes) (op_index : ℕ)
      (rest : Bytes)
      → read_u32 p ≡ ok (op_index, p1)
      → read_cstr p1 ≡ ok (name, rest)
      → read_functions decode (suc fuel) p found
        ≡ read_functions decode fuel rest (found ++ entry (name, op_index) ∷ [])
  unfolding read_functions
  read_functions_step fuel [] p1 found name op_index rest e f = unfold read_u32 in cc
  read_functions_step fuel (b ∷ p) p1 found name op_index rest e f = rw (e, f)

  pub read_strings_back :
      (fuel : ℕ) (ss : List Bytes) (found : List Text)
      → length (string_table ss) ≤ fuel
      → All IsCstr ss
      → read_strings decode fuel (string_table ss) found ≡ ok (found ++ map decode ss)
  unfolding read_strings string_table
  read_strings_back fuel [] found h k = rw append-nil
  read_strings_back zero (s ∷ ss) found h k =
      absurd (omega (arith, length-append s (0 ∷ string_table ss)))
  read_strings_back (suc fuel) (s ∷ ss) found h k =
      let left : length (string_table ss) ≤ fuel =
        omega (arith, length-append s (0 ∷ string_table ss)) in
      read_strings_step fuel (s ++ 0 ∷ string_table ss) found s (string_table ss)
        (read_cstr_back s (string_table ss) k.0)
      ∙ read_strings_back fuel ss (found ++ decode s ∷ []) left k.1
      ∙ rw append_assoc

  pub read_functions_back :
      (fuel : ℕ) (fs : List (Bytes × ℕ)) (found : List FunctionEntry)
      → length (function_table fs) ≤ fuel
      → All IsFunction fs
      → read_functions decode fuel (function_table fs) found ≡ ok (found ++ map entry fs)
  unfolding read_functions function_table
  read_functions_back fuel [] found h k = rw append-nil
  read_functions_back zero ((name, op_index) ∷ fs) found h k = absurd (unfold be32 in omega arith)
  read_functions_back (suc fuel) ((name, op_index) ∷ fs) found h k =
      let after = name ++ 0 ∷ function_table fs in
      let left : length (function_table fs) ≤ fuel =
        unfold be32 in omega (arith, length-append name (0 ∷ function_table fs)) in
      read_functions_step fuel (be32 op_index ++ after) after found name op_index
        (function_table fs) (read_u32-be32 op_index after k.0.1)
        (read_cstr_back name (function_table fs) k.0.0)
      ∙ read_functions_back fuel fs (found ++ entry (name, op_index) ∷ []) left k.1
      ∙ rw append_assoc

  parse_loop_step :
      (fuel : ℕ) (p : Bytes) (c : Gs2Container) (seg_id : ℕ) (payload rest : Bytes)
      → 2 ≤ length p
      → next_segment p ≡ ok (seg_id, payload, rest)
      → parse_loop decode (suc fuel) p c
        ≡ (read_segment decode seg_id payload c >>= λ c'. parse_loop decode fuel rest c')
  unfolding parse_loop
  parse_loop_step fuel [] c seg_id payload rest h e = absurd (omega arith)
  parse_loop_step fuel (b ∷ []) c seg_id payload rest h e = absurd (omega arith)
  parse_loop_step fuel (a ∷ b ∷ p) c seg_id payload rest h e =
      let more : (length (a ∷ b ∷ p) == 1) ≡ false = ground arith in rw (e, more)

  -- One round of the loop, at a segment that is well formed.
  pub parse_loop-segment :
      (fuel : ℕ) (seg_id : ℕ) (payload rest : Bytes) (c c' : Gs2Container)
      → seg_id < 2 ^ 32
      → length payload < 2 ^ 32
      → read_segment decode seg_id payload c ≡ ok c'
      → parse_loop decode (suc fuel) (segment seg_id payload ++ rest) c
        ≡ parse_loop decode fuel rest c'
  parse_loop-segment fuel seg_id payload rest c c' h k e =
      parse_loop_step fuel (segment seg_id payload ++ rest) c seg_id payload rest
        (unfold segment be32 in omega arith) (next_segment-segment seg_id payload rest h k)
      ∙ rw e

  pub parse_newline :
      (fuel : ℕ) (c : Gs2Container)
      → parse_loop decode (suc fuel) (0x0A ∷ []) c ≡ ok (record c { trailing_newline = true })
  unfolding parse_loop
  parse_newline fuel c = refl
