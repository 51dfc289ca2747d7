-- ===== src/Encryption/Cipher/Involution.antt =====
-- reborn_protocol/encryption.py: `RebornEncryption.encrypt` and `decrypt` together.
use reborn_protocol.Base.{
  ℕ, zero, suc, Bool, true, false, ◌+◌, ◌*◌, ◌%◌, ◌<◌, min, ◌≡◌, refl, ap, ap₂, [], ◌∷◌, Bytes,
  IsBytes, ℤ, pos, negsuc, length, get_or, ◌==◌, if◌then◌else◌, xor_twice, xor-IsByte, arith,
}
use reborn_protocol.Encryption.Cipher.{
  RebornEncryption, advance, pack_le, encrypt_loop, encrypt_within, encrypt, decrypt,
}

encrypt_loop_twice :
    (n i : ℕ) (c : RebornEncryption) (w d : Bytes)
    → encrypt_loop n i c w (encrypt_loop n i c w d).0 ≡ (d, (encrypt_loop n i c w d).1)
unfolding encrypt_loop
encrypt_loop_twice zero i c w d = refl
encrypt_loop_twice (suc n) i c w [] = refl
encrypt_loop_twice (suc n) i c w (b ∷ d) =
    let c' = if i % 4 == 0 then advance c else c in
    let w' = if i % 4 == 0 then pack_le c'.iterator else w in
    let ih = encrypt_loop_twice n (i + 1) c' w' d in
    ap₂ (λ (x : ℕ) (r : Bytes × RebornEncryption). (x ∷ r.0, r.1))
      (xor_twice b (get_or w' (i % 4) 0)) ih

pub length-encrypt_loop :
    (n i : ℕ) (c : RebornEncryption) (w d : Bytes) → length (encrypt_loop n i c w d).0 ≡ length d
unfolding encrypt_loop
length-encrypt_loop zero i c w d = refl
length-encrypt_loop (suc n) i c w [] = refl
length-encrypt_loop (suc n) i c w (b ∷ d) = ap suc (length-encrypt_loop n (i + 1) _ _ d)

-- Encryption keeps the length of its input.
pub length-encrypt : (c : RebornEncryption) (d : Bytes) → length (encrypt c d).0 ≡ length d
unfolding encrypt
length-encrypt c d = by_limit c.limit
  where
    by_limit : (l : ℤ) → length (encrypt_within l c d).0 ≡ length d
    by_limit (negsuc l) = length-encrypt_loop (length d) 0 c [] d
    by_limit (pos zero) = refl
    by_limit (pos (suc l)) = length-encrypt_loop (min (length d) (suc l * 4)) 0 c [] d

within_twice :
    (l : ℤ) (c : RebornEncryption) (d : Bytes)
    → encrypt_within l c (encrypt_within l c d).0 ≡ (d, (encrypt_within l c d).1)
unfolding encrypt_within
within_twice (negsuc l) c d =
    rw (length-encrypt_loop (length d) 0 c [] d) (encrypt_loop_twice (length d) 0 c [] d)
within_twice (pos zero) c d = refl
within_twice (pos (suc l)) c d =
    let n = min (length d) (suc l * 4) in
    rw (length-encrypt_loop n 0 c [] d) (encrypt_loop_twice n 0 c [] d)

-- From one state of the cipher, decrypting what was encrypted gives the input back and leaves
-- the cipher in the state in which encrypting left it.
pub decrypt-encrypt :
    (c : RebornEncryption) (d : Bytes) → decrypt c (encrypt c d).0 ≡ (d, (encrypt c d).1)
unfolding decrypt
decrypt-encrypt c d = within_twice c.limit c d

word_byte : (i : ℕ) (w : Bytes) → IsBytes w → get_or w i 0 < 256
word_byte i [] h = omega arith
word_byte zero (x ∷ w) h = h.0
word_byte (suc i) (x ∷ w) h = word_byte i w h.1

word_bytes : (b : Bool) (n : ℕ) (w : Bytes) → IsBytes w → IsBytes (if b then pack_le n else w)
word_bytes true n w h = omega arith
word_bytes false n w h = h

encrypt_loop-IsBytes :
    (n i : ℕ) (c : RebornEncryption) (w d : Bytes)
    → IsBytes w
    → IsBytes d
    → IsBytes (encrypt_loop n i c w d).0
unfolding encrypt_loop
encrypt_loop-IsBytes zero i c w d hw hd = hd
encrypt_loop-IsBytes (suc n) i c w [] hw hd = hd
encrypt_loop-IsBytes (suc n) i c w (b ∷ d) hw hd =
    let c' = if i % 4 == 0 then advance c else c in
    let w' = if i % 4 == 0 then pack_le c'.iterator else w in
    let hw' : IsBytes w' = word_bytes (i % 4 == 0) c'.iterator w hw in
    (
      xor-IsByte b (get_or w' (i % 4) 0) hd.0 (word_byte (i % 4) w' hw'),
      encrypt_loop-IsBytes n (i + 1) c' w' d hw' hd.1,
    )

-- Bytes are encrypted to bytes.
pub encrypt-IsBytes : (c : RebornEncryption) (d : Bytes) → IsBytes d → IsBytes (encrypt c d).0
unfolding encrypt
encrypt-IsBytes c d h = by_limit c.limit
  where
    by_limit : (l : ℤ) → IsBytes (encrypt_within l c d).0
    by_limit (negsuc l) = encrypt_loop-IsBytes (length d) 0 c [] d tt h
    by_limit (pos zero) = h
    by_limit (pos (suc l)) = encrypt_loop-IsBytes (min (length d) (suc l * 4)) 0 c [] d tt h
