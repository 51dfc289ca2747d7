-- ===== src/Codec/Server.antt =====
-- reborn_protocol/codec.py: `ServerCodec`, whose first packet in each direction is plain zlib.
pub mod Login
use reborn_protocol.Base.{
  ℕ, ◌+◌, [], ◌∷◌, Bytes, Bool, true, false, Option, none, some, length, ltb, if◌then◌else◌,
}
use reborn_protocol.Encryption.Cipher.{RebornEncryption, zlib, new_cipher, reset}
use reborn_protocol.Encryption.Compression.{
  Compressors, Decompressed, decoded, zlib_error, os_error, compress_data, decompress_data,
}
use reborn_protocol.Codec.Frame.{max_packet_len, frame, or_empty}
use reborn_protocol.Codec.Gen5.{is_known, seal, unseal}

pub record ServerCodec : Type 0 where
  pub encryption_key : ℕ
  pub in_codec : RebornEncryption
  pub out_codec : RebornEncryption
  pub first_decode : Bool

unfoldable pub new_server : ℕ → ServerCodec
new_server key = record {
  encryption_key = key;
  in_codec = new_cipher key;
  out_codec = new_cipher key;
  first_decode = true;
}

unfoldable pub set_key : ℕ → ServerCodec → ServerCodec
set_key key c = record c {
  encryption_key = key;
  in_codec = reset key c.in_codec;
  out_codec = reset key c.out_codec;
}

unfoldable pub reset_decode_state : ServerCodec → ServerCodec
reset_decode_state c = record c { first_decode = true }

-- The login packet: the flag falls only if it could be decompressed.
abbrev first_packet : Decompressed → ServerCodec → Option Bytes × ServerCodec
first_packet (decoded d) c = (some d, record c { first_decode = false })
first_packet zlib_error c = (none, c)
first_packet os_error c = (none, c)

module _ (lib : Compressors) where
  unfoldable pub encode_packet : Bytes → Bool → ServerCodec → Bytes × ServerCodec
  encode_packet d is_login_response c =
      if is_login_response
      then (or_empty (frame (lib.zlib_compress d)), c)
      else (let (compressed, compression_type) = compress_data lib d in
          if ltb max_packet_len (length compressed + 1)
          then ([], c)
          else (let (framed, cipher) = seal c.out_codec compressed compression_type in
              (framed, record c { out_codec = cipher })))

  unfoldable pub decode_packet : Bytes → ServerCodec → Option Bytes × ServerCodec
  decode_packet [] c = (none, c)
  decode_packet (compression_type ∷ encrypted) c =
      if c.first_decode
      then first_packet (decompress_data lib (compression_type ∷ encrypted) zlib) c
      else if is_known compression_type
      then (let (d, cipher) = unseal lib c.in_codec compression_type encrypted in
          (d, record c { in_codec = cipher }))
      else (none, c)
