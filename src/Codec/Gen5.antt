-- ===== src/Codec/Gen5.antt =====
-- reborn_protocol/codec.py: `Gen5Codec`, the client's codec. A method returns its result and the
-- codec's new state; `none` is `None`.
pub mod Sync
use reborn_protocol.Base.{
  ℕ, ◌+◌, List, [], ◌∷◌, Bytes, Bool, ◌||◌, Option, none, some, length, ltb, ◌==◌, if◌then◌else◌,
}
use reborn_protocol.Encryption.Cipher.{
  RebornEncryption, uncompressed, zlib, bz2, new_cipher, reset, limit_from_type, encrypt, decrypt,
}
use reborn_protocol.Encryption.Compression.{
  Compressors, CompressionPolicy, compress, decompress_data, or_none,
}
use reborn_protocol.Codec.Frame.{max_packet_len, frame, or_empty}

pub record Gen5Codec : Type 0 where
  pub encryption_key : ℕ
  pub compression : CompressionPolicy
  pub in_codec : RebornEncryption
  pub out_codec : RebornEncryption

unfoldable pub new_codec : ℕ → CompressionPolicy → Gen5Codec
new_codec key policy = record {
  encryption_key = key;
  compression = policy;
  in_codec = new_cipher key;
  out_codec = new_cipher key;
}

unfoldable pub set_key : ℕ → Gen5Codec → Gen5Codec
set_key key c = record c {
  encryption_key = key;
  in_codec = reset key c.in_codec;
  out_codec = reset key c.out_codec;
}

-- `compression_type in [UNCOMPRESSED, ZLIB, BZ2]`
abbrev pub is_known : ℕ → Bool
is_known compression_type =
    compression_type == uncompressed || compression_type == zlib || compression_type == bz2

-- The end of `send_packet` and of `encode_packet`: encrypt, put the type byte in front, frame.
unfoldable pub seal : RebornEncryption → Bytes → ℕ → Bytes × RebornEncryption
seal cipher compressed compression_type =
    let (encrypted, cipher') = encrypt (limit_from_type compression_type cipher) compressed in
    (or_empty (frame (compression_type ∷ encrypted)), cipher')

-- The end of `recv_packet` and of `decode_packet`: decrypt and decompress. The cipher has moved
-- on also where decompression fails.
unfoldable pub unseal : Compressors → RebornEncryption → ℕ → Bytes → Option Bytes × RebornEncryption
unseal lib cipher compression_type encrypted =
    let (decrypted, cipher') = decrypt (limit_from_type compression_type cipher) encrypted in
    (or_none (decompress_data lib decrypted compression_type), cipher')

module _ (lib : Compressors) where
  unfoldable pub send_packet : Bytes → Gen5Codec → Bytes × Gen5Codec
  send_packet d c =
      let (compressed, compression_type) = compress lib c.compression d in
      if ltb max_packet_len (length compressed + 1)
      then ([], c)
      else (let (framed, cipher) = seal c.out_codec compressed compression_type in
          (framed, record c { out_codec = cipher }))

  unfoldable pub recv_packet : Bytes → Gen5Codec → Option Bytes × Gen5Codec
  recv_packet [] c = (none, c)
  recv_packet (compression_type ∷ encrypted) c =
      if compression_type == 0x78
      then (or_none (decompress_data lib (compression_type ∷ encrypted) zlib), c)
      else if is_known compression_type
      then (let (d, cipher) = unseal lib c.in_codec compression_type encrypted in
          (d, record c { in_codec = cipher }))
      else (none, c)
