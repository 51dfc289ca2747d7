-- ===== src/Codec/Buffer/Drain.antt =====
-- reborn_protocol/codec.py: the loop of `PacketBuffer.get_packets`.
use reborn_protocol.Base.{
  ℕ, zero, suc, ◌+◌, ◌*◌, ◌/◌, ◌%◌, ◌^◌, ◌≤◌, ◌<◌, ◌≡◌, inl, inr, refl, ap, ap₂, ◌∙◌, List, [], ◌∷◌,
  ◌++◌, Bytes, none, some, length, get_or, take, drop, arith, length-append, length-drop,
  take-append_le, drop-append_le, take_append_length, drop_append_length, append-nil, append_assoc,
  Option-cases,
}
use reborn_protocol.Codec.Frame.{max_packet_len, prefixed}
use reborn_protocol.Codec.Buffer.{PacketBuffer, prefix_length, next_packet, drain, get_packets}

-- When a packet is taken, and what it is.
next_packet-some :
    (buffer : Bytes)
    → 2 + prefix_length buffer ≤ length buffer
    → next_packet buffer
      ≡ some (take (prefix_length buffer) (drop 2 buffer), drop (2 + prefix_length buffer) buffer)
unfolding next_packet
next_packet-some buffer h = ground arith

next_packet_inv :
    (buffer packet rest : Bytes)
    → next_packet buffer ≡ some (packet, rest)
    → (2 + prefix_length buffer ≤ length buffer)
      × (take (prefix_length buffer) (drop 2 buffer) ≡ packet)
      × (drop (2 + prefix_length buffer) buffer ≡ rest)
unfolding next_packet
next_packet_inv buffer packet rest e = (ground arith, ground arith, ground arith)

pub next_packet-shrinks :
    (buffer packet rest : Bytes)
    → next_packet buffer ≡ some (packet, rest)
    → length rest + 2 ≤ length buffer
next_packet-shrinks buffer packet rest e =
    let (fits, taken, left) = next_packet_inv buffer packet rest e in
    omega (arith, length-drop (2 + prefix_length buffer) buffer, ap (λ (t : Bytes). length t) left)

get_or-append_lt : (xs ys : Bytes) (i : ℕ) → i < length xs → get_or (xs ++ ys) i 0 ≡ get_or xs i 0
get_or-append_lt [] ys i h = elim h [ ]
get_or-append_lt (x ∷ xs) ys zero h = refl
get_or-append_lt (x ∷ xs) ys (suc i) h = get_or-append_lt xs ys i (omega arith)

-- A complete packet is taken in the same way whatever follows it.
pub next_packet-append :
    (buffer more packet rest : Bytes)
    → next_packet buffer ≡ some (packet, rest)
    → next_packet (buffer ++ more) ≡ some (packet, rest ++ more)
next_packet-append buffer more packet rest e =
    let (fits, taken, left) = next_packet_inv buffer packet rest e in
    let same : prefix_length (buffer ++ more) ≡ prefix_length buffer =
      ap₂ (λ (x y : ℕ). x * 2 ^ 8 + y) (get_or-append_lt buffer more 0 (omega arith))
        (get_or-append_lt buffer more 1 (omega arith)) in
    next_packet-some (buffer ++ more) (omega (arith, same, length-append buffer more))
    ∙ rw (
      same,
      drop-append_le 2 buffer more (omega arith),
      take-append_le (prefix_length buffer) (drop 2 buffer) more
          (omega (arith, length-drop 2 buffer)),
      taken,
      drop-append_le (2 + prefix_length buffer) buffer more fits,
      left,
    )

pub next_packet-prefixed :
    (packet more : Bytes)
    → length packet ≤ max_packet_len
    → next_packet (prefixed packet ++ more) ≡ some (packet, more)
next_packet-prefixed packet more h =
    let n = length packet in
    let size : n / 2 ^ 8 % 256 * 2 ^ 8 + n % 256 ≡ n = omega arith in
    let at_end : 2 + n ≡ suc (suc n) = omega arith in
    next_packet-some (prefixed packet ++ more) (omega (arith, length-append packet more))
    ∙ rw (size, at_end, take_append_length packet more, drop_append_length packet more)

-- The loop collects in front of it what it was given.
drain-acc :
    (fuel : ℕ) (buffer : Bytes) (packets : List Bytes)
    → drain fuel buffer packets ≡ (packets ++ (drain fuel buffer []).0, (drain fuel buffer []).1)
unfolding drain
drain-acc zero buffer packets = rw append-nil
drain-acc (suc fuel) buffer packets = elim (Option-cases (next_packet buffer)) [
  | inl e ↦ rw (e, drain, append-nil)
  | inr ((packet, rest), e) ↦
      rw (e, drain)
        (drain-acc fuel rest (packets ++ packet ∷ [])
          ∙ rw (drain-acc fuel rest (packet ∷ []), append_assoc))
]

pub next_packet_nil : next_packet [] ≡ none
unfolding next_packet
next_packet_nil = refl

-- With enough fuel the loop ends by its own tests.
drain_done :
    (fuel : ℕ) (buffer : Bytes) (packets : List Bytes)
    → length buffer ≤ fuel
    → next_packet (drain fuel buffer packets).1.buffer ≡ none
unfolding drain
drain_done zero [] packets h = next_packet_nil
drain_done zero (b ∷ buffer) packets h = absurd (omega arith)
drain_done (suc fuel) buffer packets h = elim (Option-cases (next_packet buffer)) [
  | inl e ↦ rw (e, drain) e
  | inr ((packet, rest), e) ↦
      rw (e, drain)
        (drain_done fuel rest (packets ++ packet ∷ [])
          (omega (arith, next_packet-shrinks buffer packet rest e)))
]

-- `get_packets` leaves no complete packet in the buffer.
pub get_packets_done : (b : PacketBuffer) → next_packet (get_packets b).1.buffer ≡ none
unfolding get_packets
get_packets_done b = drain_done (length b.buffer) b.buffer [] (omega arith)

drain_fuel :
    (f g : ℕ) (buffer : Bytes) (packets : List Bytes)
    → length buffer ≤ f
    → length buffer ≤ g
    → drain f buffer packets ≡ drain g buffer packets
unfolding drain
drain_fuel zero zero buffer packets h k = refl
drain_fuel zero (suc g) [] packets h k = rw (next_packet_nil, drain)
drain_fuel zero (suc g) (b ∷ buffer) packets h k = absurd (omega arith)
drain_fuel (suc f) zero [] packets h k = rw (next_packet_nil, drain)
drain_fuel (suc f) zero (b ∷ buffer) packets h k = absurd (omega arith)
drain_fuel (suc f) (suc g) buffer packets h k = elim (Option-cases (next_packet buffer)) [
  | inl e ↦ rw (e, drain)
  | inr ((packet, rest), e) ↦
      let less = next_packet-shrinks buffer packet rest e in
      rw (e, drain) (drain_fuel f g rest (packets ++ packet ∷ []) (omega arith) (omega arith))
]

abbrev pub buffered : Bytes → PacketBuffer
buffered buffer = record { buffer = buffer }

-- `get_packets` by its next packet: what it returns when there is none, and when there is one.
pub get_packets-none :
    (buffer : Bytes)
    → next_packet buffer ≡ none
    → get_packets (buffered buffer) ≡ ([], buffered buffer)
unfolding get_packets
get_packets-none [] e = unfold drain in refl
get_packets-none (b ∷ buffer) e = unfold drain in rw (e, drain)

pub get_packets-some :
    (buffer packet rest : Bytes)
    → next_packet buffer ≡ some (packet, rest)
    → get_packets (buffered buffer)
      ≡ (packet ∷ (get_packets (buffered rest)).0, (get_packets (buffered rest)).1)
unfolding get_packets
get_packets-some [] packet rest e = absurd (omega (arith, next_packet-shrinks [] packet rest e))
get_packets-some (b ∷ buffer) packet rest e =
    let less = next_packet-shrinks (b ∷ buffer) packet rest e in
    first
    ∙ drain-acc (length buffer) rest (packet ∷ [])
    ∙ rw (drain_fuel (length buffer) (length rest) rest [] (omega arith) (omega arith))
  where
    first : drain (length (b ∷ buffer)) (b ∷ buffer) [] ≡ drain (length buffer) rest (packet ∷ [])
    first = unfold drain in rw (e, drain)
