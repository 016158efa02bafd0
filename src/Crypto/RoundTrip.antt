-- ===== src/Crypto/RoundTrip.antt =====
-- Round trips of pkg/crypto/encryption.go.
use lilio.Prelude.{
  Text, [], ap, arith, drop, length, length-append, refl, some, suc, take, zero, ℕ, ◌++◌, ◌+◌, ◌∷◌,
  ◌≡◌,
}
use lilio.Storage.{Bytes}
use lilio.Crypto.{
  Cipher, Encryptor, decrypt, decrypt_with_password, encrypt, encrypt_with_password,
  encryption_overhead, nonce_size, salt_size,
}

-- What the program relies on: `Open` undoes `Seal` under the same key and nonce, `Seal` adds its
-- tag of 16 bytes, and PBKDF2 gives as many bytes as it is asked for.
pub record CipherIsLawful (c : Cipher) : Type 0 where
  pub unseal-seal : (k n p : Bytes) → c.unseal k n (c.seal k n p) ≡ some p
  pub length-seal : (k n p : Bytes) → length (c.seal k n p) ≡ length p + 16
  pub length-pbkdf2 : (password : Text) (salt : Bytes) → length (c.pbkdf2 password salt) ≡ 32

take-append : (n : ℕ) (xs ys : Bytes) → length xs ≡ n → take n (xs ++ ys) ≡ xs
take-append zero [] ys h = refl
take-append zero (x ∷ xs) ys h = absurd (omega arith)
take-append (suc n) [] ys h = absurd (omega arith)
take-append (suc n) (x ∷ xs) ys h = ap (◌∷◌ x) (take-append n xs ys (omega arith))

drop-append : (n : ℕ) (xs ys : Bytes) → length xs ≡ n → drop n (xs ++ ys) ≡ ys
drop-append zero [] ys h = refl
drop-append zero (x ∷ xs) ys h = absurd (omega arith)
drop-append (suc n) [] ys h = absurd (omega arith)
drop-append (suc n) (x ∷ xs) ys h = drop-append n xs ys (omega arith)

module _ (c : Cipher) (L : CipherIsLawful c) where
  decrypt_sealed :
      (e : Encryptor) (nonce plaintext : Bytes)
      → length nonce ≡ nonce_size
      → decrypt c e (nonce ++ c.seal e.key nonce plaintext) ≡ some plaintext
  unfolding decrypt
  decrypt_sealed e nonce plaintext sized =
      let body = c.seal e.key nonce plaintext in
      ground (
        arith,
        take-append 12 nonce body sized,
        drop-append 12 nonce body sized,
        L.unseal-seal e.key nonce plaintext,
        L.length-seal e.key nonce plaintext,
        length-append nonce body,
      )

  -- What Encrypt returns with a nonce of the nonce size, Decrypt with the same key turns back into
  -- the plaintext, the empty plaintext included, and it is longer by EncryptionOverhead. For a
  -- cipher that keeps CipherIsLawful.
  pub decrypt-encrypt :
      (e : Encryptor) (nonce plaintext ciphertext : Bytes)
      → length nonce ≡ nonce_size
      → encrypt c e (some nonce) plaintext ≡ some ciphertext
      → (decrypt c e ciphertext ≡ some plaintext)
        × (length ciphertext ≡ length plaintext + encryption_overhead)
  unfolding encrypt encryption_overhead
  decrypt-encrypt e nonce plaintext ciphertext sized sealed =
      let body = c.seal e.key nonce plaintext in
      let eq : ciphertext ≡ nonce ++ body = cc in
      rw eq (
        decrypt_sealed e nonce plaintext sized,
        omega (arith, length-append nonce body, L.length-seal e.key nonce plaintext),
      )

  -- EncryptWithPassword succeeds with any password when the random source gives a salt and a nonce
  -- of their sizes, and DecryptWithPassword with that password gives the plaintext back. For a
  -- cipher that keeps CipherIsLawful.
  pub decrypt_with_password-encrypt_with_password :
      (password : Text) (salt nonce plaintext : Bytes)
      → length salt ≡ salt_size
      → length nonce ≡ nonce_size
      → (ciphertext : Bytes) × (encrypt_with_password c (some salt) (some nonce) plaintext password
          ≡ some ciphertext)
        × (decrypt_with_password c ciphertext password ≡ some plaintext)
  unfolding encrypt_with_password decrypt_with_password
  decrypt_with_password-encrypt_with_password password salt nonce plaintext salted sized =
      let e : Encryptor = record { key = c.pbkdf2 password salt } in
      let body = nonce ++ c.seal e.key nonce plaintext in
      (
        salt ++ body,
        ground (arith, L.length-pbkdf2 password salt),
        ground (
          arith,
          L.length-pbkdf2 password salt,
          take-append 16 salt body salted,
          drop-append 16 salt body salted,
          decrypt_sealed e nonce plaintext sized,
          L.length-seal e.key nonce plaintext,
          length-append nonce (c.seal e.key nonce plaintext),
          length-append salt body,
        ),
      )
