-- ===== src/Encryption/Compression/Laws.antt =====
-- reborn_protocol/encryption.py: the compression policies and `decompress_data`.
use reborn_protocol.Base.{
  ℕ, ◌<◌, ◌≡◌, ◌≢◌, ◌⊎◌, refl, none, some, true, false, Bytes, length, get_or, arith,
}
use reborn_protocol.Encryption.Cipher.{uncompressed, zlib, bz2}
use reborn_protocol.Encryption.Compression.{
  Compressors, decoded, max_decompressed_size, CompressionPolicy, game_compression, compress,
  compress_data, decompress_data,
}

-- What the documentation of zlib and bz2 says of compressing and decompressing again: the whole
-- stream comes back, below a given size limit in one call. A zlib stream begins with its header.
pub record IsLossless (lib : Compressors) : Type 0 where
  pub zlib_limited :
      (d : Bytes) (limit : ℕ)
      → length d < limit
      → lib.zlib_decompressobj (lib.zlib_compress d) limit
        ≡ some (record { result = d; unconsumed_tail = false; eof = true })
  pub zlib_whole : (d : Bytes) → lib.zlib_decompress (lib.zlib_compress d) ≡ some d
  pub zlib_header : (d : Bytes) → get_or (lib.zlib_compress d) 0 0 ≡ 0x78
  pub bz2_limited :
      (d : Bytes) (limit : ℕ)
      → length d < limit
      → lib.bz2_decompressor (lib.bz2_compress d) limit
        ≡ some (record { result = d; needs_input = false; eof = true })
  pub bz2_whole : (d : Bytes) → lib.bz2_decompress (lib.bz2_compress d) ≡ some d
  pub bz2_nonempty : (d : Bytes) → 0 < length (lib.bz2_compress d)

module _ (lib : Compressors) where
  -- The policy of a game session chooses as `compress_data` does, on every input.
  pub compress-game_eq : (d : Bytes) → compress lib game_compression d ≡ compress_data lib d
  unfolding compress compress_data
  compress-game_eq d = refl

  -- The type byte is one of the three that a codec accepts.
  pub compress_type :
      (policy : CompressionPolicy) (d : Bytes)
      → ((compress lib policy d).1 ≡ uncompressed)
        ⊎ ((compress lib policy d).1 ≡ zlib)
        ⊎ ((compress lib policy d).1 ≡ bz2)
  unfolding compress
  compress_type policy d = ground arith

  -- Whatever its other size and the data are, a policy with no upper size for zlib never chooses
  -- bz2.
  pub compress-ne-bz2 :
      (policy : CompressionPolicy) (d : Bytes)
      → policy.zlib_max ≡ none
      → (compress lib policy d).1 ≢ bz2
  unfolding compress
  compress-ne-bz2 policy d e = ground arith

module _ (lib : Compressors) (ok : IsLossless lib) where
  -- Under every policy `decompress_data`, given the type byte that `compress` chose, returns
  -- the data, if it is smaller than `max_decompressed_size`.
  pub decompress_data-compress :
      (policy : CompressionPolicy) (d : Bytes)
      → length d < max_decompressed_size
      → decompress_data lib (compress lib policy d).0 (compress lib policy d).1 ≡ decoded d
  unfolding compress decompress_data
  decompress_data-compress policy d h =
      ground
        (arith, ok.zlib_limited d max_decompressed_size h, ok.bz2_limited d max_decompressed_size h)
