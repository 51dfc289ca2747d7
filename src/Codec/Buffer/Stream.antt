-- ===== src/Codec/Buffer/Stream.antt =====
-- reborn_protocol/codec.py: `PacketBuffer` as the end of a stream of frames.
use reborn_protocol.Base.{
  ℕ, zero, suc, ◌≤◌, ◌≡◌, sym, ◌∙◌, inl, inr, List, [], ◌∷◌, ◌++◌, Bytes, none, length, arith, All,
  append-nil, append_assoc, Option-cases,
}
use mathlib.Core.List.{flatten}
use reborn_protocol.Codec.Frame.{max_packet_len, prefixed}
use reborn_protocol.Codec.Buffer.{PacketBuffer, add_data, next_packet, get_packets}
use reborn_protocol.Codec.Buffer.Drain.{
  buffered, next_packet-shrinks, next_packet_nil, next_packet-append, next_packet-prefixed,
  get_packets_done, get_packets-none, get_packets-some,
}

-- Packets first, whatever follows them in the buffer.
get_packets-append_fuel :
    (fuel : ℕ) (buffer more : Bytes)
    → length buffer ≤ fuel
    → let (packets, left) = get_packets (buffered buffer) in
      let (later, end) = get_packets (buffered (left.buffer ++ more)) in
      get_packets (buffered (buffer ++ more)) ≡ (packets ++ later, end)
get_packets-append_fuel zero [] more h = rw (get_packets-none [] next_packet_nil)
get_packets-append_fuel zero (b ∷ buffer) more h = absurd (omega arith)
get_packets-append_fuel (suc fuel) buffer more h = elim (Option-cases (next_packet buffer)) [
  | inl e ↦ rw (get_packets-none buffer e)
  | inr ((packet, rest), e) ↦ rw (
    get_packets-some buffer packet rest e,
    get_packets-some (buffer ++ more) packet (rest ++ more)
        (next_packet-append buffer more packet rest e),
    get_packets-append_fuel fuel rest more
        (omega (arith, next_packet-shrinks buffer packet rest e)),
  )
]

-- Reading after each chunk that arrives: the packets of all reads, and the buffer at the end.
pub receive : PacketBuffer → List Bytes → List Bytes × PacketBuffer
receive b [] = ([], b)
receive b (chunk ∷ chunks) =
    let (packets, b') = get_packets (add_data chunk b) in
    let (later, end) = receive b' chunks in (packets ++ later, end)

-- However the bytes are cut into chunks, reading after each chunk gives the packets, and leaves
-- the bytes, that one read of all of them does; the buffer may begin with part of a packet.
pub receive-flatten :
    (b : PacketBuffer) (chunks : List Bytes)
    → next_packet b.buffer ≡ none
    → receive b chunks ≡ get_packets (add_data (flatten chunks) b)
unfolding receive add_data flatten
receive-flatten b [] h = rw append-nil (sym (get_packets-none b.buffer h))
receive-flatten b (chunk ∷ chunks) h =
    let (packets, b') = get_packets (buffered (b.buffer ++ chunk)) in
    rw (
      receive-flatten b' chunks (get_packets_done (buffered (b.buffer ++ chunk))),
      ← append_assoc b.buffer chunk (flatten chunks),
      get_packets-append_fuel (length (b.buffer ++ chunk)) (b.buffer ++ chunk) (flatten chunks)
          (omega arith),
    )

-- Packets as `_frame` sends them, one after the other.
unfoldable pub on_wire : List Bytes → Bytes
on_wire [] = []
on_wire (packet ∷ packets) = prefixed packet ++ on_wire packets

-- The frames of a list of packets, each of at most `max_packet_len` bytes, followed by part of a
-- frame, are read back as those packets, and the part of a frame stays in the buffer.
pub get_packets-on_wire :
    (packets : List Bytes) (part : Bytes)
    → All (λ packet. length packet ≤ max_packet_len) packets
    → next_packet part ≡ none
    → get_packets (buffered (on_wire packets ++ part)) ≡ (packets, buffered part)
unfolding on_wire
get_packets-on_wire [] part h e = get_packets-none part e
get_packets-on_wire (packet ∷ packets) part h e =
    let more = on_wire packets ++ part in
    rw append_assoc (
      get_packets-some (prefixed packet ++ more) packet more (next_packet-prefixed packet more h.0)
      ∙ rw (get_packets-on_wire packets part h.1 e))
