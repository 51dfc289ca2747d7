-- ===== src/Codec/Server/Login.antt =====
-- reborn_protocol/codec.py: the beginning of a session, a `ServerCodec` with a `Gen5Codec`.
use reborn_protocol.Base.{
  ℕ, ◌≤◌, ◌<◌, ◌≡◌, refl, ap, [], ◌∷◌, Bytes, true, false, none, some, length, get_or, arith,
}
use reborn_protocol.Encryption.Cipher.{zlib, new_cipher, reset}
use reborn_protocol.Encryption.Compression.{
  Compressors, CompressionPolicy, max_decompressed_size, decoded, decompress_data, or_none,
}
use reborn_protocol.Encryption.Compression.Laws.{IsLossless}
use reborn_protocol.Codec.Frame.{max_packet_len, prefixed, or_empty}
use reborn_protocol.Codec.Gen5
use reborn_protocol.Codec.Gen5.{Gen5Codec, new_codec, recv_packet}
use reborn_protocol.Codec.Gen5.Sync.{frame-prefixed}
use reborn_protocol.Codec.Server.{ServerCodec, new_server, set_key, encode_packet, decode_packet}

module _ (lib : Compressors) where
  -- A first packet that cannot be decompressed is refused, and the server goes on waiting for
  -- the login packet in an unchanged state.
  decode_packet-refused :
      (p : Bytes) (s : ServerCodec)
      → s.first_decode ≡ true
      → or_none (decompress_data lib p zlib) ≡ none
      → decode_packet lib p s ≡ (none, s)
  unfolding decode_packet
  decode_packet-refused [] s e h = refl
  decode_packet-refused (b ∷ p) s e h = ground arith

module _ (lib : Compressors) (ok : IsLossless lib) where
  decompress_data-zlib :
      (d : Bytes)
      → length d < max_decompressed_size
      → decompress_data lib (lib.zlib_compress d) zlib ≡ decoded d
  unfolding decompress_data
  decompress_data-zlib d h = rw (ok.zlib_limited d max_decompressed_size h)

  -- How the server reads a plain zlib packet while it waits for the login.
  pub decode_packet-login :
      (d : Bytes) (s : ServerCodec)
      → length d < max_decompressed_size
      → s.first_decode ≡ true
      → decode_packet lib (lib.zlib_compress d) s ≡ (some d, record s { first_decode = false })
  decode_packet-login d s h e =
      by_header (lib.zlib_compress d) (ok.zlib_header d) (decompress_data-zlib d h)
    where
      by_header :
          (p : Bytes)
          → get_or p 0 0 ≡ 0x78
          → decompress_data lib p zlib ≡ decoded d
          → decode_packet lib p s ≡ (some d, record s { first_decode = false })
      by_header [] z q = absurd (omega arith)
      by_header (b ∷ p) z q = unfold decode_packet in rw (e, q)

  -- How the client reads a plain zlib packet, at any time.
  pub recv_packet-plain :
      (d : Bytes) (c : Gen5Codec)
      → length d < max_decompressed_size
      → recv_packet lib (lib.zlib_compress d) c ≡ (some d, c)
  recv_packet-plain d c h =
      by_header (lib.zlib_compress d) (ok.zlib_header d) (decompress_data-zlib d h)
    where
      by_header :
          (p : Bytes)
          → get_or p 0 0 ≡ 0x78
          → decompress_data lib p zlib ≡ decoded d
          → recv_packet lib p c ≡ (some d, c)
      by_header [] z q = absurd (omega arith)
      by_header (b ∷ p) z q = unfold recv_packet in let z' : b ≡ 0x78 = z in ground (arith, q)

  -- The login: a fresh server reads the client's plain packet, both sides then set the key, and
  -- the client reads the plain response. After that the ciphers agree in both directions and the
  -- server takes encrypted packets. The conditions are the sizes of the two packets.
  pub handshake :
      (key : ℕ) (policy : CompressionPolicy) (login response : Bytes)
      → length login < max_decompressed_size
      → length response < max_decompressed_size
      → length (lib.zlib_compress response) ≤ max_packet_len
      → let (got_login, server) = decode_packet lib (lib.zlib_compress login) (new_server 0) in
        let (wire, server') = encode_packet lib response true (set_key key server) in
        let client = Gen5.set_key key (new_codec 0 policy) in
        let (got_response, client') = recv_packet lib (lib.zlib_compress response) client in
        (got_login ≡ some login)
        × (wire ≡ prefixed (lib.zlib_compress response))
        × (got_response ≡ some response)
        × (server'.in_codec ≡ client'.out_codec)
        × (client'.in_codec ≡ server'.out_codec)
        × (server'.first_decode ≡ false)
  handshake key policy login response small_login small_response fits =
      let server = new_server 0 in
      let client = Gen5.set_key key (new_codec 0 policy) in
      rw
        (
          decode_packet-login login server small_login (unfold new_server in refl),
          recv_packet-plain response client small_response,
        )
        (unfold new_server set_key encode_packet Gen5.set_key new_codec reset new_cipher in
          (
            refl,
            ap or_empty (frame-prefixed (lib.zlib_compress response) fits),
            refl,
            refl,
            refl,
            refl,
          ))
