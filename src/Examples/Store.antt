-- ===== src/Examples/Store.antt =====
-- A library of compressors that puts a header in front of its input, in the place of zlib and bz2.
use reborn_protocol.Base.{
  ℕ, refl, [], ◌∷◌, Bytes, Option, none, some, true, false, length, take, ltb, ◌==◌, if◌then◌else◌,
  arith,
}
use reborn_protocol.Encryption.Compression.{Inflated, Bunzipped, Compressors}
use reborn_protocol.Encryption.Compression.Laws.{IsLossless}

abbrev inflate_stored : Bytes → Option Bytes
inflate_stored [] = none
inflate_stored (h ∷ d) = if h == 0x78 then some d else none

abbrev inflate_within : Bytes → ℕ → Option Inflated
inflate_within [] limit = none
inflate_within (h ∷ d) limit =
    if h == 0x78
    then (if ltb (length d) limit
        then some (record { result = d; unconsumed_tail = false; eof = true })
        else some (record { result = take limit d; unconsumed_tail = true; eof = false }))
    else none

abbrev bunzip_stored : Bytes → Option Bytes
bunzip_stored [] = none
bunzip_stored (h ∷ d) = if h == b'B' then some d else none

abbrev bunzip_within : Bytes → ℕ → Option Bunzipped
bunzip_within [] limit = none
bunzip_within (h ∷ d) limit =
    if h == b'B'
    then (if ltb (length d) limit
        then some (record { result = d; needs_input = false; eof = true })
        else some (record { result = take limit d; needs_input = false; eof = false }))
    else none

abbrev pub store : Compressors
store = record {
  zlib_compress = λ d. 0x78 ∷ d;
  zlib_decompress = inflate_stored;
  zlib_decompressobj = inflate_within;
  bz2_compress = λ d. b'B' ∷ d;
  bz2_decompress = bunzip_stored;
  bz2_decompressor = bunzip_within;
}

pub store-IsLossless : IsLossless store
store-IsLossless = record {
  zlib_limited = λ d limit h. ground arith;
  zlib_whole = λ d. refl;
  zlib_header = λ d. refl;
  bz2_limited = λ d limit h. ground arith;
  bz2_whole = λ d. refl;
  bz2_nonempty = λ d. omega arith;
}
