-- ===== src/Gs2/Container/RoundTrip.antt =====
-- reborn_protocol/gs2/container.py: `parse_container` on what a compiler writes.
use reborn_protocol.Base.{
  ℕ, suc, ◌-◌, ◌^◌, ◌<◌, ◌≡◌, refl, ap, ◌∙◌, [], map, Bytes, true, length, append-nil, arith,
}
use reborn_protocol.Gs2.Container.{
  Text, ok, Gs2Container, empty_container, flags_of, read_u32, read_segment, parse_loop,
  parse_container,
}
use reborn_protocol.Gs2.Container.Writer.{
  Compiled, IsEncodable, be32, segment, function_table, string_table, container_bytes, entry,
  read_u32-be32, read_strings_back, read_functions_back, parse_loop-segment, parse_newline,
}

flags_back : (n : ℕ) → n < 2 ^ 32 → flags_of (be32 n) ≡ ok n
flags_back n h =
    let back : read_u32 (be32 n) ≡ ok (n, []) = rw append-nil at (read_u32-be32 n [] h) in
    rw back (unfold be32 in refl)

module _ (decode : Bytes → Text) (s : Compiled) (fits : IsEncodable s) where
  -- The container that is read from `s`.
  abbrev pub expected : Gs2Container
  expected = record {
    gs1_flags = s.flags;
    functions = map (entry decode) s.functions;
    strings = map decode s.strings;
    code = s.code;
    unknown_segments = [];
    trailing_newline = true;
  }

  four_rounds :
      (fuel : ℕ)
      → parse_loop decode (suc (suc (suc (suc (suc fuel))))) (container_bytes s) empty_container
        ≡ ok expected
  unfolding container_bytes
  four_rounds fuel =
      let c1 = record empty_container { gs1_flags = s.flags } in
      let c2 = record c1 { functions = map (entry decode) s.functions } in
      let c3 = record c2 { strings = map decode s.strings } in
      let c4 = record c3 { code = s.code } in
      parse_loop-segment decode _ 1 (be32 s.flags) _ empty_container c1 (omega arith)
        (unfold be32 in omega arith) (unfold read_segment in rw (flags_back s.flags fits.flags_fit))
      ∙ parse_loop-segment decode _ 2 (function_table s.functions) _ c1 c2 (omega arith)
          fits.function_table_fits
          (unfold read_segment in
            rw (
              read_functions_back decode (length (function_table s.functions)) s.functions []
                (omega arith) fits.functions_fit))
      ∙ parse_loop-segment decode _ 3 (string_table s.strings) _ c2 c3 (omega arith)
          fits.string_table_fits
          (unfold read_segment in
            rw (
              read_strings_back decode (length (string_table s.strings)) s.strings [] (omega arith)
                fits.strings_fit))
      ∙ parse_loop-segment decode _ 4 s.code _ c3 c4 (omega arith) fits.code_fits
          (unfold read_segment in refl)
      ∙ parse_newline decode fuel c4

  -- The bytes that the format prescribes for a compiled script are parsed to its flags, its
  -- functions and strings with decoded names, and its code, with nothing unknown and the newline
  -- seen. The conditions: numbers and lengths below 2 ^ 32, and no NUL in a name or a string.
  pub parse_container-container_bytes : parse_container decode (container_bytes s) ≡ ok expected
  unfolding parse_container
  parse_container-container_bytes =
      let enough : length (container_bytes s)
          ≡ suc (suc (suc (suc (suc (length (container_bytes s) - 5))))) =
        unfold container_bytes segment be32 in omega arith in
      ap (λ n. parse_loop decode n (container_bytes s) empty_container) enough
      ∙ four_rounds (length (container_bytes s) - 5)
