-- ===== src/Codec/Gen2.antt =====
-- reborn_protocol/codec.py: `Gen2Codec`, zlib with no encryption.
use reborn_protocol.Base.{◌≤◌, ◌≡◌, [], ◌∷◌, Bytes, Option, none, some, length, get_or, arith}
use reborn_protocol.Encryption.Compression.{Compressors}
use reborn_protocol.Encryption.Compression.Laws.{IsLossless}
use reborn_protocol.Codec.Frame.{max_packet_len, prefixed, frame, or_empty}
use reborn_protocol.Codec.Gen5.Sync.{frame-prefixed}

-- `except (zlib.error, OSError): return data`
abbrev raw_otherwise : Option Bytes → Bytes → Option Bytes
raw_otherwise none d = some d
raw_otherwise (some x) d = some x

module _ (lib : Compressors) where
  unfoldable pub send_packet : Bytes → Bytes
  send_packet d = or_empty (frame (lib.zlib_compress d))

  unfoldable pub recv_packet : Bytes → Option Bytes
  recv_packet [] = none
  recv_packet (b ∷ d) = raw_otherwise (lib.zlib_decompress (b ∷ d)) (b ∷ d)

module _ (lib : Compressors) (ok : IsLossless lib) where
  pub recv_packet-zlib : (d : Bytes) → recv_packet lib (lib.zlib_compress d) ≡ some d
  recv_packet-zlib d = by_header (lib.zlib_compress d) (ok.zlib_header d) (ok.zlib_whole d)
    where
      by_header :
          (p : Bytes)
          → get_or p 0 0 ≡ 0x78
          → lib.zlib_decompress p ≡ some d
          → recv_packet lib p ≡ some d
      by_header [] z e = absurd (omega arith)
      by_header (b ∷ p) z e = unfold recv_packet in rw e

  -- A bundle whose compressed form fits the length field is sent in a frame, and from the
  -- content of the frame the other end reads the bundle.
  pub recv_packet-send_packet_zlib :
      (d : Bytes)
      → length (lib.zlib_compress d) ≤ max_packet_len
      → (p : Bytes) × (send_packet lib d ≡ prefixed p) × (recv_packet lib p ≡ some d)
  unfolding send_packet
  recv_packet-send_packet_zlib d fits =
      (lib.zlib_compress d, rw (frame-prefixed (lib.zlib_compress d) fits), recv_packet-zlib d)
