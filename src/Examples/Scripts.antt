-- ===== src/Examples/Scripts.antt =====
-- The string lists of GS1, and the containers and the code of GS2, at concrete inputs.
use reborn_protocol.Base.{All, Bytes, ◌≡◌, ◌⊎◌, [], ◌∷◌, List, true, arith}
use reborn_protocol.Codec.Reader.{latin_1}
use reborn_protocol.Gs1.Csv.{Text, gs1_csv_join, gs1_csv_split}
use reborn_protocol.Gs1.Csv.RoundTrip.{split-join_quoted}
use reborn_protocol.Gs2.Disasm.{Instruction, DecodeError, decode, listing, malformed}
use reborn_protocol.Gs2.Disasm.Numbering.{Numbered, StandsIn, decode_lem}
use reborn_protocol.Gs2.Container.{ok, err, ContainerError, Gs2Container, parse_container}
use reborn_protocol.Gs2.Container.Total.{parse_container_total}
use reborn_protocol.Gs2.Container.Writer.{
  Compiled, IsEncodable, be32, function_table, string_table, container_bytes,
}
use reborn_protocol.Gs2.Container.RoundTrip.{expected, parse_container-container_bytes}

-- `a,"b\` , the empty text, and ` c`.
abbrev awkward : List Text
awkward = (97 ∷ 44 ∷ 34 ∷ 98 ∷ 92 ∷ []) ∷ [] ∷ (32 ∷ 99 ∷ []) ∷ []

split-join_quoted_example : gs1_csv_split (gs1_csv_join awkward true) true ≡ awkward
split-join_quoted_example = split-join_quoted awkward true

-- A script with one function and two strings.
abbrev compiled : Compiled
compiled = record {
  flags = 3;
  functions = (102 ∷ 111 ∷ [], 9) ∷ [];
  strings = (104 ∷ 105 ∷ []) ∷ [] ∷ [];
  code = 1 ∷ 0 ∷ 2 ∷ [];
}

compiled-IsEncodable : IsEncodable compiled
unfolding function_table string_table be32
compiled-IsEncodable = record {
  flags_fit = omega arith;
  functions_fit = omega arith;
  function_table_fits = omega arith;
  strings_fit = omega arith;
  string_table_fits = omega arith;
  code_fits = omega arith;
}

parse_container-container_bytes_example :
    parse_container latin_1 (container_bytes compiled)
    ≡ ok (expected latin_1 compiled compiled-IsEncodable)
parse_container-container_bytes_example =
    parse_container-container_bytes latin_1 compiled compiled-IsEncodable

parse_container_total_example :
    ((c : Gs2Container) × (parse_container latin_1 (0 ∷ 0 ∷ 0 ∷ 1 ∷ 0 ∷ []) ≡ ok c))
    ⊎ ((e : ContainerError) × (parse_container latin_1 (0 ∷ 0 ∷ 0 ∷ 1 ∷ 0 ∷ []) ≡ err e))
parse_container_total_example = parse_container_total latin_1 (0 ∷ 0 ∷ 0 ∷ 1 ∷ 0 ∷ [])

-- A number, an addition, and an operand with no opcode of its own.
abbrev instruction_bytes : Bytes
instruction_bytes = 20 ∷ 0xF3 ∷ 5 ∷ 60 ∷ 0xF6 ∷ 49 ∷ 0 ∷ 7 ∷ []

decode_lem_example :
    ((is : List Instruction) × (decode instruction_bytes ≡ listing is)
      × Numbered 0 is
      × All (StandsIn instruction_bytes) is)
    ⊎ ((e : DecodeError) × (decode instruction_bytes ≡ malformed e))
decode_lem_example = decode_lem instruction_bytes
