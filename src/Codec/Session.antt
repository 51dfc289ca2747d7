-- ===== src/Codec/Session.antt =====
-- A GEN_5 session between a `Gen5Codec` and a `ServerCodec` over a stream of bytes that
-- `PacketBuffer` cuts into packets: reborn_protocol/codec.py, the classes together.
use reborn_protocol.Base.{
  ℕ, ◌+◌, ◌≤◌, ◌<◌, ◌≡◌, refl, ap, ◌∙◌, inl, inr, List, [], ◌∷◌, ◌++◌, map, Bytes, false, Option,
  some, length, ltb, if◌then◌else◌, arith, All, append-nil, Bool-cases, ltb→lt, le→ltb, lt→ltb,
}
use mathlib.Core.List.{flatten}
use reborn_protocol.Encryption.Cipher.{RebornEncryption, limit_from_type}
use reborn_protocol.Encryption.Cipher.Involution.{length-encrypt}
use reborn_protocol.Encryption.Compression.{
  Compressors, CompressionPolicy, game_compression, compress, max_decompressed_size,
}
use reborn_protocol.Encryption.Compression.Laws.{IsLossless, compress-game_eq}
use reborn_protocol.Codec.Frame.{max_packet_len, prefixed}
use reborn_protocol.Codec.Buffer.{new_buffer, add_data}
use reborn_protocol.Codec.Buffer.Drain.{next_packet_nil}
use reborn_protocol.Codec.Buffer.Stream.{receive, receive-flatten, on_wire, get_packets-on_wire}
use reborn_protocol.Codec.Gen5.{Gen5Codec, send_packet, recv_packet}
use reborn_protocol.Codec.Gen5.Sync.{
  sealed_packet, moved, send_packet-Fits, send_packet_oversize, recv_packet-sealed,
  compress-is_known, unseal_lem, seal_lem,
}
use reborn_protocol.Codec.Server.{ServerCodec, encode_packet, decode_packet}

-- Calls of one method for each packet of a list, in order.
pub send_all {ℓ} : {C : Type ℓ} → (Bytes → C → Bytes × C) → List Bytes → C → Bytes × C
send_all send [] c = ([], c)
send_all send (d ∷ ds) c =
    let (bytes, c') = send d c in let (more, end) = send_all send ds c' in (bytes ++ more, end)

pub read_all {ℓ} :
    {C : Type ℓ} → (Bytes → C → Option Bytes × C) → List Bytes → C → List (Option Bytes) × C
read_all read [] c = ([], c)
read_all read (p ∷ ps) c =
    let (d, c') = read p c in let (more, end) = read_all read ps c' in (d ∷ more, end)

ltb-false : (a b : ℕ) → ltb a b ≡ false → b ≤ a
ltb-false a b h = ground arith

module _ (lib : Compressors) (policy : CompressionPolicy) where
  -- The packets that are not dropped for their size.
  pub kept : List Bytes → List Bytes
  kept [] = []
  kept (d ∷ ds) =
      if ltb max_packet_len (length (compress lib policy d).0 + 1) then kept ds else d ∷ kept ds

  -- What those packets are on the wire, and the sender's cipher at the end.
  sealed_packets : RebornEncryption → List Bytes → List Bytes × RebornEncryption
  sealed_packets cipher [] = ([], cipher)
  sealed_packets cipher (d ∷ ds) =
      let after = sealed_packets (moved lib policy cipher d) ds in
      let without = sealed_packets cipher ds in
      if ltb max_packet_len (length (compress lib policy d).0 + 1)
      then without
      else (sealed_packet lib policy cipher d ∷ after.0, after.1)

  sealed_packets_fit :
      (cipher : RebornEncryption) (ds : List Bytes)
      → All (λ p. length p ≤ max_packet_len) (sealed_packets cipher ds).0
  unfolding sealed_packets
  sealed_packets_fit cipher [] = tt
  sealed_packets_fit cipher (d ∷ ds) =
      let (compressed, compression_type) = compress lib policy d in
      elim (Bool-cases (ltb max_packet_len (length compressed + 1))) [
        | inl e ↦ rw e (sealed_packets_fit cipher ds)
        | inr e ↦ rw e (
          omega (
            arith,
            length-encrypt (limit_from_type compression_type cipher) compressed,
            fits compressed e,
          ),
          sealed_packets_fit (moved lib policy cipher d) ds,
        )
      ]
    where
      fits : (x : Bytes) → ltb max_packet_len (length x + 1) ≡ false → length x + 1 ≤ max_packet_len
      fits x e = ground arith

-- Each sender puts the frames of the sealed packets on the wire.
client_sends :
    (lib : Compressors) (ds : List Bytes) (c : Gen5Codec)
    → let (packets, cipher) = sealed_packets lib c.compression c.out_codec ds in
      send_all (send_packet lib) ds c ≡ (on_wire packets, record c { out_codec = cipher })
unfolding send_all sealed_packets on_wire
client_sends lib [] c = refl
client_sends lib (d ∷ ds) c =
    elim (Bool-cases (ltb max_packet_len (length (compress lib c.compression d).0 + 1))) [
      | inl e ↦ rw (e, send_packet_oversize lib d c (ltb→lt _ _ e)) (client_sends lib ds c)
      | inr e ↦ rw (
        e,
        send_packet-Fits lib d c (ltb-false _ _ e),
        client_sends lib ds (record c { out_codec = moved lib c.compression c.out_codec d }),
      )
    ]

abbrev pub encode : Compressors → Bytes → ServerCodec → Bytes × ServerCodec
encode lib d c = encode_packet lib d false c

encode_lem :
    (lib : Compressors) (d : Bytes) (c : ServerCodec)
    → length (compress lib game_compression d).0 + 1 ≤ max_packet_len
    → encode lib d c ≡ (
      prefixed (sealed_packet lib game_compression c.out_codec d),
      record c { out_codec = moved lib game_compression c.out_codec d },
    )
unfolding encode_packet
encode_lem lib d c h =
    let (compressed, compression_type) = compress lib game_compression d in
    rw (
      ← compress-game_eq lib d,
      le→ltb max_packet_len (length compressed + 1) h,
      seal_lem c.out_codec compressed compression_type h,
    )

encode_oversize :
    (lib : Compressors) (d : Bytes) (c : ServerCodec)
    → max_packet_len < length (compress lib game_compression d).0 + 1
    → encode lib d c ≡ ([], c)
unfolding encode_packet
encode_oversize lib d c h = rw (← compress-game_eq lib d, lt→ltb max_packet_len _ h)

server_sends :
    (lib : Compressors) (ds : List Bytes) (c : ServerCodec)
    → let (packets, cipher) = sealed_packets lib game_compression c.out_codec ds in
      send_all (encode lib) ds c ≡ (on_wire packets, record c { out_codec = cipher })
unfolding send_all sealed_packets on_wire
server_sends lib [] c = refl
server_sends lib (d ∷ ds) c =
    elim (Bool-cases (ltb max_packet_len (length (compress lib game_compression d).0 + 1))) [
      | inl e ↦ rw (e, encode_oversize lib d c (ltb→lt _ _ e)) (server_sends lib ds c)
      | inr e ↦ rw (
        e,
        encode_lem lib d c (ltb-false _ _ e),
        server_sends lib ds (record c { out_codec = moved lib game_compression c.out_codec d }),
      )
    ]

module _ (lib : Compressors) (ok : IsLossless lib) (policy : CompressionPolicy) where
  -- Each reader gets the packets that were kept back, and ends with the sender's cipher.
  client_reads :
      (ds : List Bytes) (c : Gen5Codec)
      → All (λ d. length d < max_decompressed_size) ds
      → let (packets, cipher) = sealed_packets lib policy c.in_codec ds in
        read_all (recv_packet lib) packets c
        ≡ (map some (kept lib policy ds), record c { in_codec = cipher })
  unfolding read_all sealed_packets kept
  client_reads [] c h = refl
  client_reads (d ∷ ds) c h =
      elim (Bool-cases (ltb max_packet_len (length (compress lib policy d).0 + 1))) [
        | inl e ↦ rw e (client_reads ds c h.1)
        | inr e ↦ rw (
          e,
          recv_packet-sealed lib ok policy d c h.0,
          client_reads ds (record c { in_codec = moved lib policy c.in_codec d }) h.1,
        )
      ]

  decode_packet-sealed :
      (d : Bytes) (c : ServerCodec)
      → length d < max_decompressed_size
      → c.first_decode ≡ false
      → decode_packet lib (sealed_packet lib policy c.in_codec d) c
        ≡ (some d, record c { in_codec = moved lib policy c.in_codec d })
  unfolding decode_packet
  decode_packet-sealed d c h e =
      rw (e, compress-is_known lib policy d, unseal_lem lib ok policy c.in_codec d h)

  server_reads :
      (ds : List Bytes) (c : ServerCodec)
      → All (λ d. length d < max_decompressed_size) ds
      → c.first_decode ≡ false
      → let (packets, cipher) = sealed_packets lib policy c.in_codec ds in
        read_all (decode_packet lib) packets c
        ≡ (map some (kept lib policy ds), record c { in_codec = cipher })
  unfolding read_all sealed_packets kept
  server_reads [] c h f = refl
  server_reads (d ∷ ds) c h f =
      elim (Bool-cases (ltb max_packet_len (length (compress lib policy d).0 + 1))) [
        | inl e ↦ rw e (server_reads ds c h.1 f)
        | inr e ↦ rw (
          e,
          decode_packet-sealed d c h.0 f,
          server_reads ds (record c { in_codec = moved lib policy c.in_codec d }) h.1 f,
        )
      ]

-- The frames, cut into chunks in any way, are the sealed packets again.
chunks_read :
    (lib : Compressors) (policy : CompressionPolicy) (cipher : RebornEncryption)
    (ds chunks : List Bytes)
    → flatten chunks ≡ on_wire (sealed_packets lib policy cipher ds).0
    → receive new_buffer chunks ≡ ((sealed_packets lib policy cipher ds).0, new_buffer)
unfolding add_data
chunks_read lib policy cipher ds chunks e =
    let packets = (sealed_packets lib policy cipher ds).0 in
    receive-flatten new_buffer chunks next_packet_nil
    ∙ rw (e, ← append-nil (on_wire packets))
        (get_packets-on_wire packets [] (sealed_packets_fit lib policy cipher ds) next_packet_nil)

module _ (lib : Compressors) (ok : IsLossless lib) where
  -- Whatever the client sends in a session, under any compression policy and however the bytes
  -- are cut up on the way, the server reads exactly the packets that were not dropped for their
  -- size, in order, and the two ciphers agree at the end as they did at the beginning. The
  -- conditions: the login packet is behind, the ciphers agree, and each packet is smaller than
  -- `max_decompressed_size`.
  pub client_to_server :
      (c : Gen5Codec) (s : ServerCodec) (ds chunks : List Bytes)
      → s.in_codec ≡ c.out_codec
      → s.first_decode ≡ false
      → All (λ d. length d < max_decompressed_size) ds
      → flatten chunks ≡ (send_all (send_packet lib) ds c).0
      → let (packets, rest) = receive new_buffer chunks in
        let (read, s') = read_all (decode_packet lib) packets s in
        (read ≡ map some (kept lib c.compression ds))
        × (rest ≡ new_buffer)
        × (s'.in_codec ≡ (send_all (send_packet lib) ds c).1.out_codec)
  client_to_server c s ds chunks agree began small wire =
      let sent = client_sends lib ds c in
      let got = chunks_read lib c.compression c.out_codec ds chunks (wire ∙ ap (λ r. r.0) sent) in
      let reads = server_reads lib ok c.compression ds s small began in
      rw (sent, got, ← agree, reads) (refl, refl, refl)

  -- Whatever the server sends in a session with `encode_packet`, unencrypted login responses
  -- aside, and however the bytes are cut up on the way, the client reads exactly the packets that
  -- were not dropped for their size, in order, and the two ciphers agree at the end as they did
  -- at the beginning. The conditions: the ciphers agree, and each packet is smaller than
  -- `max_decompressed_size`.
  pub server_to_client :
      (s : ServerCodec) (c : Gen5Codec) (ds chunks : List Bytes)
      → c.in_codec ≡ s.out_codec
      → All (λ d. length d < max_decompressed_size) ds
      → flatten chunks ≡ (send_all (encode lib) ds s).0
      → let (packets, rest) = receive new_buffer chunks in
        let (read, c') = read_all (recv_packet lib) packets c in
        (read ≡ map some (kept lib game_compression ds))
        × (rest ≡ new_buffer)
        × (c'.in_codec ≡ (send_all (encode lib) ds s).1.out_codec)
  server_to_client s c ds chunks agree small wire =
      let sent = server_sends lib ds s in
      let got =
        chunks_read lib game_compression s.out_codec ds chunks (wire ∙ ap (λ r. r.0) sent) in
      let reads = client_reads lib ok game_compression ds c small in
      rw (sent, got, ← agree, reads) (refl, refl, refl)
