-- ===== src/Encryption/Compression.antt =====
-- reborn_protocol/encryption.py: `CompressionPolicy`, `compress_data` and `decompress_data`.
-- Python's zlib and bz2 modules are the parameter `Compressors`.
pub mod Laws
use reborn_protocol.Base.{
  ℕ, ◌*◌, Option, none, some, Bool, true, false, not, ◌&&◌, Bytes, length, ltb, leb, ◌==◌,
  if◌then◌else◌,
}
use reborn_protocol.Encryption.Cipher.{uncompressed, zlib, bz2}

-- What `decompressobj().decompress(data, max_length)` returns, with the attributes that are read.
pub record Inflated : Type 0 where
  pub result : Bytes
  pub unconsumed_tail : Bool
  pub eof : Bool

-- The same for `BZ2Decompressor().decompress(data, max_length)`.
pub record Bunzipped : Type 0 where
  pub result : Bytes
  pub needs_input : Bool
  pub eof : Bool

-- The functions that are called, where `none` stands for the exception that they raise.
pub record Compressors : Type 0 where
  pub zlib_compress : Bytes → Bytes
  pub zlib_decompress : Bytes → Option Bytes
  pub zlib_decompressobj : Bytes → ℕ → Option Inflated
  pub bz2_compress : Bytes → Bytes
  pub bz2_decompress : Bytes → Option Bytes
  pub bz2_decompressor : Bytes → ℕ → Option Bunzipped

abbrev pub max_decompressed_size : ℕ
max_decompressed_size = 8 * 1024 * 1024

-- `decompress_data` returns or raises.
pub data Decompressed : Type 0 where
  decoded : Bytes → Decompressed
  zlib_error os_error : Decompressed

-- `except (zlib.error, OSError): return None`, as the codecs have it.
abbrev pub or_none : Decompressed → Option Bytes
or_none (decoded d) = some d
or_none zlib_error = none
or_none os_error = none

-- `zlib_max` is `None` where the policy never uses bz2.
pub record CompressionPolicy : Type 0 where
  pub uncompressed_max : ℕ
  pub zlib_max : Option ℕ

abbrev pub game_compression : CompressionPolicy
game_compression = record { uncompressed_max = 55; zlib_max = some 0x2000 }

abbrev pub list_server_compression : CompressionPolicy
list_server_compression = record { uncompressed_max = 55; zlib_max = none }

-- `self.zlib_max is not None and size > self.zlib_max`
abbrev pub above : Option ℕ → ℕ → Bool
above none size = false
above (some limit) size = ltb limit size

abbrev inflated : Option Inflated → Decompressed
inflated none = zlib_error
inflated (some z) =
    if z.unconsumed_tail then zlib_error else if not z.eof then zlib_error else decoded z.result

abbrev bunzipped : Option Bunzipped → Decompressed
bunzipped none = os_error
bunzipped (some z) =
    if not z.eof && not z.needs_input
    then os_error
    else if not z.eof
    then os_error
    else decoded z.result

module _ (lib : Compressors) where
  -- CompressionPolicy.compress
  unfoldable pub compress : CompressionPolicy → Bytes → Bytes × ℕ
  compress policy d =
      if leb (length d) policy.uncompressed_max
      then (d, uncompressed)
      else if above policy.zlib_max (length d)
      then (lib.bz2_compress d, bz2)
      else (lib.zlib_compress d, zlib)

  unfoldable pub compress_data : Bytes → Bytes × ℕ
  compress_data d =
      if leb (length d) 55
      then (d, uncompressed)
      else if ltb 0x2000 (length d)
      then (lib.bz2_compress d, bz2)
      else (lib.zlib_compress d, zlib)

  unfoldable pub decompress_data : Bytes → ℕ → Decompressed
  decompress_data d compression_type =
      if compression_type == zlib
      then inflated (lib.zlib_decompressobj d max_decompressed_size)
      else if compression_type == bz2
      then bunzipped (lib.bz2_decompressor d max_decompressed_size)
      else decoded d
