-- ===== src/Codec/Gen5/Sync.antt =====
-- reborn_protocol/codec.py: one packet between two ends of a GEN_5 session.
use reborn_protocol.Base.{
  ℕ, ◌+◌, ◌≤◌, ◌<◌, ◌≡◌, inl, inr, [], ◌∷◌, Bytes, true, false, some, length, ◌==◌, arith, le→ltb,
  lt→ltb,
}
use reborn_protocol.Encryption.Cipher.{RebornEncryption, limit_from_type, encrypt}
use reborn_protocol.Encryption.Cipher.Involution.{length-encrypt, decrypt-encrypt}
use reborn_protocol.Encryption.Compression.{
  Compressors, CompressionPolicy, compress, max_decompressed_size,
}
use reborn_protocol.Encryption.Compression.Laws.{
  IsLossless, compress_type, decompress_data-compress,
}
use reborn_protocol.Codec.Frame.{max_packet_len, prefixed, frame}
use reborn_protocol.Codec.Gen5.{Gen5Codec, is_known, seal, unseal, send_packet, recv_packet}

-- The bytes between the frame and the cipher.
abbrev pub sealed : RebornEncryption → Bytes → ℕ → Bytes
sealed cipher compressed compression_type =
    compression_type ∷ (encrypt (limit_from_type compression_type cipher) compressed).0

-- Whether a packet fits the length field once it is compressed.
abbrev pub Fits : Compressors → CompressionPolicy → Bytes → Type 0
Fits lib policy d = length (compress lib policy d).0 + 1 ≤ max_packet_len

pub frame-prefixed : (d : Bytes) → length d ≤ max_packet_len → frame d ≡ some (prefixed d)
unfolding frame
frame-prefixed d h = rw (le→ltb max_packet_len (length d) h)

pub seal_lem :
    (cipher : RebornEncryption) (compressed : Bytes) (compression_type : ℕ)
    → length compressed + 1 ≤ max_packet_len
    → seal cipher compressed compression_type ≡ (
      prefixed (sealed cipher compressed compression_type),
      (encrypt (limit_from_type compression_type cipher) compressed).1,
    )
unfolding seal
seal_lem cipher compressed compression_type h =
    let size = length-encrypt (limit_from_type compression_type cipher) compressed in
    rw (frame-prefixed (sealed cipher compressed compression_type) (omega (arith, size)))

-- The cipher of either end after the packet.
abbrev pub moved : Compressors → CompressionPolicy → RebornEncryption → Bytes → RebornEncryption
moved lib policy cipher d =
    let (compressed, compression_type) = compress lib policy d in
    (encrypt (limit_from_type compression_type cipher) compressed).1

-- What goes over the wire for a packet, without its length prefix.
abbrev pub sealed_packet : Compressors → CompressionPolicy → RebornEncryption → Bytes → Bytes
sealed_packet lib policy cipher d =
    let (compressed, compression_type) = compress lib policy d in
    sealed cipher compressed compression_type

module _ (lib : Compressors) (ok : IsLossless lib) where
  pub unseal_lem :
      (policy : CompressionPolicy) (cipher : RebornEncryption) (d : Bytes)
      → length d < max_decompressed_size
      → let (compressed, compression_type) = compress lib policy d in
        unseal lib cipher compression_type
          (encrypt (limit_from_type compression_type cipher) compressed).0
        ≡ (some d, moved lib policy cipher d)
  unfolding unseal
  unseal_lem policy cipher d h =
      let (compressed, compression_type) = compress lib policy d in
      rw (
        decrypt-encrypt (limit_from_type compression_type cipher) compressed,
        decompress_data-compress lib ok policy d h,
      )

module _ (lib : Compressors) where
  pub compress-is_known :
      (policy : CompressionPolicy) (d : Bytes) → is_known (compress lib policy d).1 ≡ true
  compress-is_known policy d = elim (compress_type lib policy d) [
    | inl e ↦ rw e
    | inr (inl e) ↦ rw e
    | inr (inr e) ↦ rw e
  ]

  pub compress-ne-plain :
      (policy : CompressionPolicy) (d : Bytes) → ((compress lib policy d).1 == 0x78) ≡ false
  compress-ne-plain policy d = elim (compress_type lib policy d) [
    | inl e ↦ rw e
    | inr (inl e) ↦ rw e
    | inr (inr e) ↦ rw e
  ]

  -- A packet that fits goes out in a frame; one that does not is dropped and changes nothing.
  pub send_packet-Fits :
      (d : Bytes) (c : Gen5Codec)
      → Fits lib c.compression d
      → send_packet lib d c ≡ (
        prefixed (sealed_packet lib c.compression c.out_codec d),
        record c { out_codec = moved lib c.compression c.out_codec d },
      )
  unfolding send_packet
  send_packet-Fits d c h =
      let (compressed, compression_type) = compress lib c.compression d in
      rw (
        le→ltb max_packet_len (length compressed + 1) h,
        seal_lem c.out_codec compressed compression_type h,
      )

  pub send_packet_oversize :
      (d : Bytes) (c : Gen5Codec)
      → max_packet_len < length (compress lib c.compression d).0 + 1
      → send_packet lib d c ≡ ([], c)
  unfolding send_packet
  send_packet_oversize d c h = rw (lt→ltb max_packet_len _ h)

module _ (lib : Compressors) (ok : IsLossless lib) where
  pub recv_packet-sealed :
      (policy : CompressionPolicy) (d : Bytes) (c : Gen5Codec)
      → length d < max_decompressed_size
      → recv_packet lib (sealed_packet lib policy c.in_codec d) c
        ≡ (some d, record c { in_codec = moved lib policy c.in_codec d })
  unfolding recv_packet
  recv_packet-sealed policy d c h = rw (
    compress-ne-plain lib policy d,
    compress-is_known lib policy d,
    unseal_lem lib ok policy c.in_codec d h,
  )
