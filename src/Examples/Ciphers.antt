-- ===== src/Examples/Ciphers.antt =====
-- The cipher and the compression policies at concrete inputs.
use reborn_protocol.Base.{◌+◌, ◌/◌, ◌≡◌, ◌≢◌, refl, [], ◌∷◌, Bytes, IsBytes, length, arith}
use reborn_protocol.Encryption.Cipher.{
  RebornEncryption, new_cipher, limit_from_type, zlib, bz2, encrypt, decrypt,
}
use reborn_protocol.Encryption.Cipher.Involution.{decrypt-encrypt, encrypt-IsBytes}
use reborn_protocol.Encryption.Cipher.Keystream.{
  encrypt-combine, combine, covered, keystream, lcg_after,
}
use reborn_protocol.Encryption.Compression.{compress, list_server_compression}
use reborn_protocol.Encryption.Compression.Laws.{compress-ne-bz2}
use reborn_protocol.Examples.Store.{store}

-- `HELLO`
abbrev hello : Bytes
hello = 72 ∷ 69 ∷ 76 ∷ 76 ∷ 79 ∷ []

-- A cipher that lets 16 bytes through the generator.
abbrev limited : RebornEncryption
limited = limit_from_type zlib (new_cipher 7)

decrypt-encrypt_example :
    decrypt limited (encrypt limited hello).0 ≡ (hello, (encrypt limited hello).1)
decrypt-encrypt_example = decrypt-encrypt limited hello

encrypt-combine_example :
    let n = covered limited.limit (length hello) in
    ((encrypt limited hello).0 ≡ combine (keystream limited) n 0 hello)
    × ((encrypt limited hello).1.iterator ≡ lcg_after limited ((n + 3) / 4))
encrypt-combine_example = encrypt-combine limited hello

encrypt-IsBytes_example : IsBytes (encrypt limited hello).0
encrypt-IsBytes_example = encrypt-IsBytes limited hello (omega arith)

compress-ne-bz2_example : (compress store list_server_compression hello).1 ≢ bz2
compress-ne-bz2_example = compress-ne-bz2 store list_server_compression hello refl
