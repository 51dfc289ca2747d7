-- ===== src/Encryption/Cipher/Keystream.antt =====
-- reborn_protocol/encryption.py: `RebornEncryption.encrypt`, described as a stream cipher over
-- the states of its generator.
use reborn_protocol.Base.{
  ℕ, zero, suc, ◌+◌, ◌*◌, ◌/◌, ◌%◌, ◌^◌, ◌≤◌, min, bit_xor, ◌≡◌, refl, ap, ap₂, [], ◌∷◌, Bytes, ◌⊎◌,
  inl, inr, Bool, true, false, ◌≢◌, ◌∙◌, sym, ℤ, pos, negsuc, length, get_or, ◌==◌, if◌then◌else◌,
  arith,
}
use reborn_protocol.Encryption.Cipher.{
  RebornEncryption, advance, pack_le, encrypt_loop, encrypt_within, encrypt,
}

-- The generator's state, `k` steps on.
pub lcg_after : RebornEncryption → ℕ → ℕ
lcg_after c zero = c.iterator
lcg_after c (suc k) = (lcg_after c k * c.multiplier + c.key) % 2 ^ 32

pub keystream : RebornEncryption → ℕ → ℕ
keystream c i = get_or (pack_le (lcg_after c (i / 4 + 1))) (i % 4) 0

-- `d` stands at index `i`; its first `n` bytes are combined with the key stream.
pub combine : (ℕ → ℕ) → ℕ → ℕ → Bytes → Bytes
combine key zero i d = d
combine key (suc n) i [] = []
combine key (suc n) i (b ∷ d) = bit_xor b (key i) ∷ combine key n (i + 1) d

-- How many bytes a limit lets through.
abbrev pub covered : ℤ → ℕ → ℕ
covered (negsuc l) n = n
covered (pos l) n = min n (l * 4)

-- What the loop knows at index `i` of the cipher `c0` that it began with.
record Follows (c0 : RebornEncryption) (i : ℕ) (c : RebornEncryption) (w : Bytes) : Type 0 where
  same_key : c.key ≡ c0.key
  same_multiplier : c.multiplier ≡ c0.multiplier
  at_state : c.iterator ≡ lcg_after c0 ((i + 3) / 4)
  at_word : (i % 4 ≡ 0) ⊎ (w ≡ pack_le c.iterator)

module _ (c0 : RebornEncryption) where
  Follows-step :
      (t : Bool) (i : ℕ) (c : RebornEncryption) (w : Bytes)
      → (i % 4 == 0) ≡ t
      → Follows c0 i c w
      → let c' = if t then advance c else c in
        let w' = if t then pack_le c'.iterator else w in
        Follows c0 (i + 1) c' w' × (w' ≡ pack_le (lcg_after c0 (i / 4 + 1)))
  unfolding lcg_after
  Follows-step true i c w e f =
      let before : (i + 3) / 4 ≡ i / 4 = ground arith in
      let after : (i + 1 + 3) / 4 ≡ suc (i / 4) = omega arith in
      let here : c.iterator ≡ lcg_after c0 (i / 4) = f.at_state ∙ ap (lcg_after c0) before in
      let next : (advance c).iterator ≡ lcg_after c0 (suc (i / 4)) =
        rw (here, f.same_key, f.same_multiplier) in
      let count : i / 4 + 1 ≡ suc (i / 4) = omega arith in
      (
        record {
          same_key = f.same_key;
          same_multiplier = f.same_multiplier;
          at_state = next ∙ ap (lcg_after c0) (sym after);
          at_word = inr refl;
        },
        rw count (ap pack_le next),
      )
  Follows-step false i c w e f =
      let moved : i % 4 ≢ 0 = ground arith in
      let count : (i + 3) / 4 ≡ i / 4 + 1 = omega arith in
      let after : (i + 1 + 3) / 4 ≡ (i + 3) / 4 = omega arith in
      let word : w ≡ pack_le c.iterator = elim f.at_word [ inl z ↦ absurd (moved z) | inr q ↦ q ] in
      (
        record {
          same_key = f.same_key;
          same_multiplier = f.same_multiplier;
          at_state = f.at_state ∙ ap (lcg_after c0) (sym after);
          at_word = inr word;
        },
        word ∙ ap pack_le (f.at_state ∙ ap (lcg_after c0) count),
      )

  encrypt_loop-combine :
      (n i : ℕ) (c : RebornEncryption) (w d : Bytes)
      → Follows c0 i c w
      → n ≤ length d
      → ((encrypt_loop n i c w d).0 ≡ combine (keystream c0) n i d)
        × ((encrypt_loop n i c w d).1.iterator ≡ lcg_after c0 ((i + n + 3) / 4))
  unfolding encrypt_loop combine keystream
  encrypt_loop-combine zero i c w d f h =
      let count : i + 0 + 3 ≡ i + 3 = omega arith in (refl, rw count f.at_state)
  encrypt_loop-combine (suc n) i c w [] f h = absurd (omega arith)
  encrypt_loop-combine (suc n) i c w (b ∷ d) f h =
      let (f', word) = Follows-step (i % 4 == 0) i c w refl f in
      let (bytes, state) = encrypt_loop-combine n (i + 1) _ _ d f' (omega arith) in
      let count : i + suc n + 3 ≡ i + 1 + n + 3 = omega arith in
      (
        ap₂ (λ (x : ℕ) (r : Bytes). x ∷ r) (ap (λ (v : Bytes). bit_xor b (get_or v (i % 4) 0)) word)
            bytes,
        rw count state,
      )

  begin : Follows c0 0 c0 []
  unfolding lcg_after
  begin = record { same_key = refl; same_multiplier = refl; at_state = refl; at_word = inl refl }

-- `encrypt` combines exactly the bytes that its limit covers with the key stream, leaves the
-- others as they are, and steps the generator once for each group of four covered bytes, a
-- last shorter group included.
pub encrypt-combine :
    (c : RebornEncryption) (d : Bytes)
    → let n = covered c.limit (length d) in
      ((encrypt c d).0 ≡ combine (keystream c) n 0 d)
      × ((encrypt c d).1.iterator ≡ lcg_after c ((n + 3) / 4))
unfolding encrypt
encrypt-combine c d = by_limit c.limit
  where
    from_start :
        (n : ℕ)
        → n ≤ length d
        → ((encrypt_loop n 0 c [] d).0 ≡ combine (keystream c) n 0 d)
          × ((encrypt_loop n 0 c [] d).1.iterator ≡ lcg_after c ((n + 3) / 4))
    from_start n h =
        let count : 0 + n + 3 ≡ n + 3 = omega arith in
        rw count at (encrypt_loop-combine c n 0 c [] d (begin c) h)

    by_limit :
        (l : ℤ)
        → ((encrypt_within l c d).0 ≡ combine (keystream c) (covered l (length d)) 0 d)
          × ((encrypt_within l c d).1.iterator ≡ lcg_after c ((covered l (length d) + 3) / 4))
    by_limit (negsuc l) = from_start (length d) (omega arith)
    by_limit (pos zero) =
        let none_left : min (length d) (0 * 4) ≡ 0 = omega arith in
        rw none_left (unfold combine lcg_after in (refl, refl))
    by_limit (pos (suc l)) = from_start (min (length d) (suc l * 4)) (omega arith)
