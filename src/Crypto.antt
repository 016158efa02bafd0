-- ===== src/Crypto.antt =====
-- pkg/crypto/encryption.go. AES-GCM and PBKDF2 are parameters, and random bytes are arguments:
-- `none` where the random source fails.
pub mod RoundTrip
use lilio.Prelude.{
  Option, Text, drop, if◌then◌else◌, int_eq, length, ltb, nat_eq, none, some, take, text_eq, ℕ,
  ◌++◌, ◌+◌, ◌==◌,
}
use lilio.Storage.{Bytes}

-- `gcm.Seal`, `gcm.Open` under a key and a nonce, and `pbkdf2.Key` of a password and a salt with
-- the iterations and the key size of the program.
pub record Cipher : Type 0 where
  pub seal : Bytes → Bytes → Bytes → Bytes
  pub unseal : Bytes → Bytes → Bytes → Option Bytes
  pub pbkdf2 : Text → Bytes → Bytes

abbrev pub key_size : ℕ
key_size = 32

abbrev pub nonce_size : ℕ
nonce_size = 12

abbrev pub salt_size : ℕ
salt_size = 16

pub record Encryptor : Type 0 where
  pub key : Bytes

-- NewEncryptor
unfoldable pub new_encryptor : Bytes → Option Encryptor
new_encryptor k = if length k == key_size then some (record { key = k }) else none

module _ (c : Cipher) where
  -- NewEncryptorFromPassword
  unfoldable pub new_encryptor_from_password : Text → Bytes → Option Encryptor
  unfolding new_encryptor
  new_encryptor_from_password password salt =
      if length salt == salt_size then new_encryptor (c.pbkdf2 password salt) else none

  -- Encrypt: the nonce, then what `Seal` appends to it.
  unfoldable pub encrypt : Encryptor → Option Bytes → Bytes → Option Bytes
  encrypt e none plaintext = none
  encrypt e (some nonce) plaintext = some (nonce ++ c.seal e.key nonce plaintext)

  -- Decrypt
  unfoldable pub decrypt : Encryptor → Bytes → Option Bytes
  decrypt e ciphertext =
      if ltb (length ciphertext) (nonce_size + 1)
      then none
      else c.unseal e.key (take nonce_size ciphertext) (drop nonce_size ciphertext)

  -- The rest of EncryptWithPassword, once it has an encryptor.
  unfoldable pub encrypt_salted : Bytes → Option Encryptor → Option Bytes → Bytes → Option Bytes
  unfolding encrypt
  encrypt_salted salt none _ plaintext = none
  encrypt_salted salt (some e) nonce plaintext = elim (encrypt e nonce plaintext) [
    | none ↦ none
    | some ct ↦ some (salt ++ ct)
  ]

  -- EncryptWithPassword
  unfoldable pub encrypt_with_password : Option Bytes → Option Bytes → Bytes → Text → Option Bytes
  unfolding encrypt_salted new_encryptor_from_password
  encrypt_with_password none _ plaintext password = none
  encrypt_with_password (some salt) nonce plaintext password =
      encrypt_salted salt (new_encryptor_from_password password salt) nonce plaintext

  -- DecryptWithPassword
  unfoldable pub decrypt_with_password : Bytes → Text → Option Bytes
  unfolding new_encryptor_from_password decrypt
  decrypt_with_password ciphertext password =
      if ltb (length ciphertext) (salt_size + nonce_size + 1)
      then none
      else elim (new_encryptor_from_password password (take salt_size ciphertext)) [
        | none ↦ none
        | some e ↦ decrypt e (drop salt_size ciphertext)
      ]

-- EncryptionOverhead
unfoldable pub encryption_overhead : ℕ
encryption_overhead = nonce_size + 16
