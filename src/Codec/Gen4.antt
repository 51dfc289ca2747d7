-- ===== src/Codec/Gen4.antt =====
-- reborn_protocol/codec.py: `Gen4Codec`, bz2 and the cipher with no type byte.
use reborn_protocol.Base.{
  ℕ, ◌≤◌, ◌<◌, ◌≡◌, refl, [], ◌∷◌, Bytes, Option, none, some, length, ltb, if◌then◌else◌, arith,
  le→ltb,
}
use reborn_protocol.Encryption.Cipher.{
  RebornEncryption, bz2, new_cipher, reset, limit_from_type, encrypt, decrypt,
}
use reborn_protocol.Encryption.Cipher.Involution.{length-encrypt, decrypt-encrypt}
use reborn_protocol.Encryption.Compression.{Compressors}
use reborn_protocol.Encryption.Compression.Laws.{IsLossless}
use reborn_protocol.Codec.Frame.{max_packet_len, prefixed, frame, or_empty}
use reborn_protocol.Codec.Gen5.Sync.{frame-prefixed}

pub record Gen4Codec : Type 0 where
  pub encryption_key : ℕ
  pub in_codec : RebornEncryption
  pub out_codec : RebornEncryption

unfoldable pub new_codec : ℕ → Gen4Codec
new_codec key = record {
  encryption_key = key;
  in_codec = new_cipher key;
  out_codec = new_cipher key;
}

unfoldable pub set_key : ℕ → Gen4Codec → Gen4Codec
set_key key c = record {
  encryption_key = key;
  in_codec = reset key c.in_codec;
  out_codec = reset key c.out_codec;
}

module _ (lib : Compressors) where
  unfoldable pub send_packet : Bytes → Gen4Codec → Bytes × Gen4Codec
  send_packet d c =
      let compressed = lib.bz2_compress d in
      if ltb max_packet_len (length compressed)
      then ([], c)
      else (let (encrypted, cipher) = encrypt (limit_from_type bz2 c.out_codec) compressed in
          (or_empty (frame encrypted), record c { out_codec = cipher }))

  unfoldable pub recv_packet : Bytes → Gen4Codec → Option Bytes × Gen4Codec
  recv_packet [] c = (none, c)
  recv_packet (b ∷ d) c =
      let (decrypted, cipher) = decrypt (limit_from_type bz2 c.in_codec) (b ∷ d) in
      (lib.bz2_decompress decrypted, record c { in_codec = cipher })

module _ (lib : Compressors) (ok : IsLossless lib) where
  -- If the receiver's cipher agrees with the sender's, a bundle whose compressed form fits the
  -- length field is sent in a frame whose content the receiver reads as that bundle, and the
  -- ciphers agree again.
  pub recv_packet-send_packet_bz2 :
      (d : Bytes) (s r : Gen4Codec)
      → r.in_codec ≡ s.out_codec
      → length (lib.bz2_compress d) ≤ max_packet_len
      → let (wire, s') = send_packet lib d s in
        (p : Bytes) × (wire ≡ prefixed p)
        × ((recv_packet lib p r).0 ≡ some d)
        × ((recv_packet lib p r).1.in_codec ≡ s'.out_codec)
  unfolding send_packet
  recv_packet-send_packet_bz2 d s r agree fits =
      let cipher = limit_from_type bz2 s.out_codec in
      let p = (encrypt cipher (lib.bz2_compress d)).0 in
      let size = length-encrypt cipher (lib.bz2_compress d) in
      let nonempty : 0 < length p = omega (arith, size, ok.bz2_nonempty d) in
      let fits_p : length p ≤ max_packet_len = omega (arith, size) in
      let (back, moved) =
        reads p nonempty (rw agree (decrypt-encrypt cipher (lib.bz2_compress d))) in
      rw (le→ltb max_packet_len (length (lib.bz2_compress d)) fits)
        (p, rw (frame-prefixed p fits_p), back, moved)
    where
      reads :
          (p : Bytes) {after : RebornEncryption}
          → 0 < length p
          → decrypt (limit_from_type bz2 r.in_codec) p ≡ (lib.bz2_compress d, after)
          → ((recv_packet lib p r).0 ≡ some d) × ((recv_packet lib p r).1.in_codec ≡ after)
      reads [] h e = absurd (omega arith)
      reads (b ∷ p) h e = unfold recv_packet in rw e (ok.bz2_whole d, refl)
