-- ===== src/Encryption/Cipher.antt =====
-- reborn_protocol/encryption.py: `RebornEncryption`, the XOR cipher over a linear congruential
-- generator. A method returns the object's new state beside its result.
pub mod Involution
pub mod Keystream
use reborn_protocol.Base.{
  ℕ, zero, suc, ◌+◌, ◌*◌, ◌/◌, ◌%◌, ◌^◌, min, bit_xor, List, [], ◌∷◌, Bytes, ℤ, pos, negsuc, length,
  get_or, ◌==◌, if◌then◌else◌,
}

-- class CompressionType
abbrev pub uncompressed : ℕ
uncompressed = 0x02

abbrev pub zlib : ℕ
zlib = 0x04

abbrev pub bz2 : ℕ
bz2 = 0x06

abbrev pub initial_iterator : ℕ
initial_iterator = 0x4A80B38

abbrev pub lcg_multiplier : ℕ
lcg_multiplier = 0x8088405

pub record RebornEncryption : Type 0 where
  pub key : ℕ
  pub iterator : ℕ
  pub limit : ℤ
  pub multiplier : ℕ

-- `__init__`
unfoldable pub new_cipher : ℕ → RebornEncryption
new_cipher key = record {
  key = key;
  iterator = initial_iterator;
  limit = negsuc 0;
  multiplier = lcg_multiplier;
}

-- `reset` leaves the multiplier alone.
unfoldable pub reset : ℕ → RebornEncryption → RebornEncryption
reset key c = record c { key = key; iterator = initial_iterator; limit = negsuc 0 }

unfoldable pub limit_from_type : ℕ → RebornEncryption → RebornEncryption
limit_from_type compression_type c =
    if compression_type == uncompressed
    then record c { limit = pos 0x0C }
    else if compression_type == zlib
    then record c { limit = pos 0x04 }
    else if compression_type == bz2
    then record c { limit = pos 0x04 }
    else c

-- `if self.limit > 0: self.limit -= 1`
abbrev pub count_down : ℤ → ℤ
count_down (pos (suc l)) = pos l
count_down l = l

-- One step of the generator, at the start of a group of four bytes.
abbrev pub advance : RebornEncryption → RebornEncryption
advance c = record c {
  iterator = (c.iterator * c.multiplier + c.key) % 2 ^ 32;
  limit = count_down c.limit;
}

-- `struct.pack('<I', iterator)`
abbrev pub pack_le : ℕ → Bytes
pack_le n = (n % 256) ∷ (n / 2 ^ 8 % 256) ∷ (n / 2 ^ 16 % 256) ∷ (n / 2 ^ 24 % 256) ∷ []

-- The loop at index `i`, with `n` rounds left and the bytes of `result` from `i` on.
pub encrypt_loop : ℕ → ℕ → RebornEncryption → Bytes → Bytes → Bytes × RebornEncryption
encrypt_loop zero i c iterator_bytes result = (result, c)
encrypt_loop (suc n) i c iterator_bytes [] = ([], c)
encrypt_loop (suc n) i c iterator_bytes (b ∷ result) =
    let c' = if i % 4 == 0 then advance c else c in
    let iterator_bytes' = if i % 4 == 0 then pack_le c'.iterator else iterator_bytes in
    let rest = encrypt_loop n (i + 1) c' iterator_bytes' result in
    (bit_xor b (get_or iterator_bytes' (i % 4) 0) ∷ rest.0, rest.1)

-- The three cases of `self.limit`.
pub encrypt_within : ℤ → RebornEncryption → Bytes → Bytes × RebornEncryption
encrypt_within (negsuc l) c d = encrypt_loop (length d) 0 c [] d
encrypt_within (pos zero) c d = (d, c)
encrypt_within (pos (suc l)) c d = encrypt_loop (min (length d) (suc l * 4)) 0 c [] d

pub encrypt : RebornEncryption → Bytes → Bytes × RebornEncryption
unfolding encrypt_within
encrypt c d = encrypt_within c.limit c d

pub decrypt : RebornEncryption → Bytes → Bytes × RebornEncryption
unfolding encrypt
decrypt c d = encrypt c d
