-- ===== src/Codec/Gen3/Insertion.antt =====
-- reborn_protocol/codec.py: the byte that `Gen3Codec` inserts, and how a server removes it, at
-- the place it computes from the length that it received.
use reborn_protocol.Base.{
  ℕ, zero, suc, ◌+◌, ◌%◌, ◌^◌, ◌≤◌, ◌≡◌, ◌≢◌, refl, ap, [], ◌∷◌, ◌++◌, Bytes, some, length, take,
  drop, All, All-append, arith, length-append, length-take, length-drop,
}
use reborn_protocol.Encryption.Compression.{Compressors}
use reborn_protocol.Encryption.Compression.Laws.{IsLossless}
use reborn_protocol.Codec.Frame.{max_packet_len, prefixed}
use reborn_protocol.Codec.Gen5.Sync.{frame-prefixed}
use reborn_protocol.Codec.Gen3.{Gen3Codec, without_newline, insert_filler, prepare, send_packet}

-- The removal as the server does it, with its own copy of the iterator.
pub remove_filler : ℕ → Bytes → Bytes
remove_filler iterator line =
    let at = iterator % 2 ^ 16 % length line in take at line ++ drop (at + 1) line

remove_at :
    (n : ℕ) (x : ℕ) (xs : Bytes)
    → n ≤ length xs
    → let line = take n xs ++ x ∷ drop n xs in take n line ++ drop (suc n) line ≡ xs
remove_at zero x xs h = refl
remove_at (suc n) x [] h = absurd (omega arith)
remove_at (suc n) x (y ∷ xs) h = ap (λ t. y ∷ t) (remove_at n x xs (omega arith))

at_most : (iterator : ℕ) (body : Bytes) → iterator % 2 ^ 16 % (length body + 1) ≤ length body
at_most iterator body = grind arith

length-insert_filler :
    (iterator : ℕ) (body : Bytes) → length (insert_filler iterator body) ≡ length body + 1
unfolding insert_filler
length-insert_filler iterator body =
    let at = iterator % 2 ^ 16 % (length body + 1) in
    omega (
      arith,
      length-append (take at body) (b')' ∷ drop at body),
      length-take at body,
      length-drop at body,
      at_most iterator body,
    )

pub remove_filler-insert_filler :
    (iterator : ℕ) (body : Bytes) → remove_filler iterator (insert_filler iterator body) ≡ body
remove_filler-insert_filler iterator body =
    let at = iterator % 2 ^ 16 % (length body + 1) in
    let next : at + 1 ≡ suc at = omega arith in
    unfold remove_filler in
    rw (length-insert_filler iterator body, next)
      (unfold insert_filler in remove_at at (b')') body (at_most iterator body))

abbrev pub HasNoNewline : Bytes → Type 0
HasNoNewline = All (λ b. b ≢ 0x0A)

HasNoNewline-take : (n : ℕ) (d : Bytes) → HasNoNewline d → HasNoNewline (take n d)
HasNoNewline-take zero d h = tt
HasNoNewline-take (suc n) [] h = tt
HasNoNewline-take (suc n) (b ∷ d) h = (h.0, HasNoNewline-take n d h.1)

HasNoNewline-drop : (n : ℕ) (d : Bytes) → HasNoNewline d → HasNoNewline (drop n d)
HasNoNewline-drop zero d h = h
HasNoNewline-drop (suc n) [] h = tt
HasNoNewline-drop (suc n) (b ∷ d) h = HasNoNewline-drop n d h.1

insert_filler-HasNoNewline :
    (iterator : ℕ) (body : Bytes) → HasNoNewline body → HasNoNewline (insert_filler iterator body)
unfolding insert_filler
insert_filler-HasNoNewline iterator body h =
    let at = iterator % 2 ^ 16 % (length body + 1) in
    All-append _ (take at body) (b')' ∷ drop at body) (HasNoNewline-take at body h)
      (omega arith, HasNoNewline-drop at body h)

without_newline-append : (d : Bytes) → HasNoNewline d → without_newline (d ++ 0x0A ∷ []) ≡ d
unfolding without_newline
without_newline-append [] h = refl
without_newline-append (b ∷ []) h = refl
without_newline-append (b ∷ c ∷ d) h = ap (λ t. b ∷ t) (without_newline-append (c ∷ d) h.1)

-- A packet that is a line, sent with its newline, is one line in the bundle too: inside the
-- frame, once decompressed, stands a line with no newline but the one at its end, and removing
-- the byte at the place that the new iterator gives leaves the packet. The conditions: the
-- packet holds no newline but its last byte, and the compressed bundle fits the length field.
pub send_packet-remove_filler :
    (lib : Compressors) (ok : IsLossless lib) (d : Bytes) (c : Gen3Codec)
    → HasNoNewline d
    → length (lib.zlib_compress (prepare (d ++ 0x0A ∷ []) c).0) ≤ max_packet_len
    → let (wire, c') = send_packet lib (d ++ 0x0A ∷ []) c in
      (p line : Bytes) × (wire ≡ prefixed p)
      × (lib.zlib_decompress p ≡ some (line ++ 0x0A ∷ []))
      × HasNoNewline line
      × (remove_filler c'.out_iterator line ≡ d)
unfolding send_packet
send_packet-remove_filler lib ok d c h fits =
    let iterator = (prepare (d ++ 0x0A ∷ []) c).1.out_iterator in
    let sent = (prepare (d ++ 0x0A ∷ []) c).0 in
    let body : sent ≡ insert_filler iterator d ++ 0x0A ∷ [] =
      unfold prepare in rw (without_newline-append d h) in
    (
      lib.zlib_compress sent,
      insert_filler iterator d,
      rw (frame-prefixed (lib.zlib_compress sent) fits),
      rw body (ok.zlib_whole (insert_filler iterator d ++ 0x0A ∷ [])),
      insert_filler-HasNoNewline iterator d h,
      remove_filler-insert_filler iterator d,
    )
