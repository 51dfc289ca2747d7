-- ===== src/Examples/Packets.antt =====
-- Packets that a builder writes and a reader reads, and coordinates, at concrete inputs.
use reborn_protocol.Base.{◌^◌, ◌≡◌, ◌≤◌, ◌<◌, refl, [], ◌∷◌, Bytes, take, arith, pos, negsuc, clamp}
use reborn_protocol.Codec.Reader.{
  PacketReader, latin_1, read_gchar, read_gshort, read_gint3, read_gint4, read_gint5, read_gstring,
  read_gstring_short, has_data,
}
use reborn_protocol.Codec.Reader.Bounds.{
  gint3, gstring, after, after-IsValid, after-Advances, read_ranges, IsValid,
}
use reborn_protocol.Codec.Builder.{
  PacketBuilder, build, encode_latin_1, extend, write_gchar, write_gshort, write_gint3, write_gint4,
  write_gint5, write_gstring, write_gstring_short,
}
use reborn_protocol.Codec.Builder.RoundTrip.{
  reading, read_gint3-write_gint3, read_gint4-write_gint4, read_gint5-write_gint5,
}
use reborn_protocol.Codec.Builder.Strings
use reborn_protocol.Codec.Builder.Strings.{
  read_gstring-write_gstring, read_gstring_short-write_gstring_short, write, IsPrintable,
  write-IsPrintable,
}
use reborn_protocol.Props.Lanes.{encode_gbyte}
use reborn_protocol.Props.Lanes.Same.{encode_gbyte-eq-write}

-- A packet that begins with a byte already.
abbrev begun : PacketBuilder
begun = record { contents = 40 ∷ [] }

abbrev behind : Bytes
behind = 1 ∷ 2 ∷ []

read_gint3-write_gint3_example :
    let packet = build (write_gint3 (negsuc 4) begun) in
    read_gint3 (reading packet behind (build begun) latin_1)
    ≡ (clamp (negsuc 4) 3682399, reading packet behind packet latin_1)
read_gint3-write_gint3_example = read_gint3-write_gint3 (negsuc 4) begun behind latin_1

read_gint4-write_gint4_example :
    let packet = build (write_gint4 (pos 123456789) begun) in
    read_gint4 (reading packet behind (build begun) latin_1)
    ≡ (clamp (pos 123456789) 471347295, reading packet behind packet latin_1)
read_gint4-write_gint4_example = read_gint4-write_gint4 (pos 123456789) begun behind latin_1

read_gint5-write_gint5_example :
    let packet = build (write_gint5 (pos 4000000000) begun) in
    read_gint5 (reading packet behind (build begun) latin_1)
    ≡ (clamp (pos 4000000000) 0xFFFFFFFF, reading packet behind packet latin_1)
read_gint5-write_gint5_example = read_gint5-write_gint5 (pos 4000000000) begun behind latin_1

read_gstring-write_gstring_example :
    let packet = build (write_gstring (72 ∷ 8364 ∷ []) begun) in
    read_gstring (reading packet behind (build begun) latin_1)
    ≡ (latin_1 (take 223 (encode_latin_1 (72 ∷ 8364 ∷ []))), reading packet behind packet latin_1)
read_gstring-write_gstring_example =
    read_gstring-write_gstring (72 ∷ 8364 ∷ []) begun behind latin_1

read_gstring_short-write_gstring_short_example :
    let packet = build (write_gstring_short (72 ∷ 73 ∷ []) begun) in
    read_gstring_short (reading packet behind (build begun) latin_1)
    ≡ (latin_1 (take 28767 (encode_latin_1 (72 ∷ 73 ∷ []))), reading packet behind packet latin_1)
read_gstring_short-write_gstring_short_example =
    read_gstring_short-write_gstring_short (72 ∷ 73 ∷ []) begun behind latin_1

write-IsPrintable_example : IsPrintable (build (write Strings.gint5 (pos 99) begun))
write-IsPrintable_example =
    write-IsPrintable Strings.gint5 (pos 99) begun (unfold build in omega arith)

-- A reader at the second of three bytes.
abbrev short_reader : PacketReader
short_reader = record { contents = 33 ∷ 34 ∷ 35 ∷ []; at = 1; decode = latin_1 }

after-IsValid_example :
    ((after gint3 short_reader).contents ≡ short_reader.contents)
    × (short_reader.at ≤ (after gint3 short_reader).at)
    × IsValid (after gint3 short_reader)
after-IsValid_example = after-IsValid gint3 short_reader (omega arith)

after-Advances_example : short_reader.at < (after gstring short_reader).at
after-Advances_example = after-Advances gstring short_reader tt (unfold has_data in refl)

read_ranges_example :
    ((read_gchar short_reader).0 ≤ 223)
    × ((read_gshort short_reader).0 ≤ 28767)
    × ((read_gint3 short_reader).0 ≤ 3682399)
    × ((read_gint4 short_reader).0 ≤ 471347295)
    × ((read_gint5 short_reader).0 < 2 ^ 32)
read_ranges_example = read_ranges short_reader (omega arith)

encode_gbyte-eq-write_example :
    (write_gchar (pos 9000) begun ≡ extend begun (encode_gbyte (pos 9000) 1))
    × (write_gshort (pos 9000) begun ≡ extend begun (encode_gbyte (pos 9000) 2))
    × (write_gint3 (pos 9000) begun ≡ extend begun (encode_gbyte (pos 9000) 3))
    × (write_gint4 (pos 9000) begun ≡ extend begun (encode_gbyte (pos 9000) 4))
encode_gbyte-eq-write_example = encode_gbyte-eq-write (pos 9000) begun

abbrev long_reader : PacketReader
long_reader = record { contents = 33 ∷ 34 ∷ 35 ∷ 31 ∷ 40 ∷ 90 ∷ []; at = 1; decode = latin_1 }
