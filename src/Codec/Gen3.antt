-- ===== src/Codec/Gen3.antt =====
-- reborn_protocol/codec.py: `Gen3Codec`, which inserts one byte into each packet.
pub mod Insertion
use reborn_protocol.Base.{
  ℕ, ◌+◌, ◌*◌, ◌%◌, ◌^◌, [], ◌∷◌, ◌++◌, Bytes, Option, none, some, length, take, drop, ◌==◌,
  if◌then◌else◌,
}
use reborn_protocol.Encryption.Compression.{Compressors}
use reborn_protocol.Codec.Frame.{frame, or_empty}

pub record Gen3Codec : Type 0 where
  pub encryption_key : ℕ
  pub out_iterator : ℕ

abbrev iterator_start : ℕ
iterator_start = 0x04A80B38

abbrev multiplier : ℕ
multiplier = 0x8088405

unfoldable pub new_codec : ℕ → Gen3Codec
new_codec key = record { encryption_key = key % 2 ^ 8; out_iterator = iterator_start }

unfoldable pub set_key : ℕ → Gen3Codec → Gen3Codec
set_key key c = record { encryption_key = key % 2 ^ 8; out_iterator = iterator_start }

-- `data[:-1] if data.endswith(b'\n') else data`
pub without_newline : Bytes → Bytes
without_newline [] = []
without_newline (b ∷ []) = if b == 0x0A then [] else b ∷ []
without_newline (b ∷ c ∷ d) = b ∷ without_newline (c ∷ d)

-- The packet with `)` at the place that the iterator gives.
pub insert_filler : ℕ → Bytes → Bytes
insert_filler iterator body =
    let at = iterator % 2 ^ 16 % (length body + 1) in take at body ++ b')' ∷ drop at body

-- What is compressed, and the codec's new state.
unfoldable pub prepare : Bytes → Gen3Codec → Bytes × Gen3Codec
unfolding without_newline insert_filler
prepare d c =
    let iterator = (c.out_iterator * multiplier + c.encryption_key) % 2 ^ 32 in
    (insert_filler iterator (without_newline d) ++ 0x0A ∷ [], record c { out_iterator = iterator })

module _ (lib : Compressors) where
  pub send_packet : Bytes → Gen3Codec → Bytes × Gen3Codec
  send_packet d c = let (line, c') = prepare d c in (or_empty (frame (lib.zlib_compress line)), c')

  pub recv_packet : Bytes → Option Bytes
  recv_packet [] = none
  recv_packet (b ∷ d) = lib.zlib_decompress (b ∷ d)
