-- ===== src/Coordinator/Backends/Keys.antt =====
-- The keys of encrypted buckets in pkg/storage/lilio.go.
use lilio.Prelude.{
  Option-cases, Text, arith, bytes, err, hex, inl, inr, int_eq, nat_eq, ok, some, text_eq, true, ℕ,
  ◌≡◌, ◌≢◌,
}
use lilio.Prelude.Dict.{lookup-insert}
use lilio.Storage.{Bytes}
use lilio.Metadata.{EncryptionConfig, MetaError, StoreIsLawful}
use lilio.Coordinator.{Lilio, Platform, invalid_password}
use lilio.Coordinator.Backends.{create_bucket_with_encryption, get_encryptor, unlock_bucket}
use lilio.Crypto.{new_encryptor_from_password}

module _ {P : Platform} where
  -- When the metadata store refuses the new bucket, CreateBucketWithEncryption has replaced the
  -- encryptor that the coordinator holds for the bucket of that name all the same.
  pub refused_create_replaces_key :
      (l l' : Lilio P) (now : ℕ) (salt : Bytes) (bucket password : Text) (x : MetaError)
      → create_bucket_with_encryption l now (some salt) bucket password ≡ (some (err x), l')
      → get_encryptor l' bucket ≡ new_encryptor_from_password P.cipher password salt
  unfolding create_bucket_with_encryption get_encryptor
  refused_create_replaces_key l l' now salt bucket password x h =
      elim (Option-cases (new_encryptor_from_password P.cipher password salt)) [
        | inl failed ↦ ground (arith)
        | inr (e, made) ↦ ground (arith, lookup-insert bucket bucket e l.encryptors)
      ]

module _ {P : Platform} (S : StoreIsLawful P.store) where
  -- After CreateBucketWithEncryption has succeeded, a coordinator that finds the same metadata,
  -- for instance after a restart, gets the same encryptor by UnlockBucket with the same password;
  -- with a password that has another SHA-256 it is refused, and nothing changes. For a metadata
  -- store that keeps StoreIsLawful.
  pub unlock_bucket-create_bucket_with_encryption :
      (l l' m : Lilio P) (now : ℕ) (salt : Bytes) (bucket password other : Text)
      → create_bucket_with_encryption l now (some salt) bucket password ≡ (some (ok tt), l')
      → m.metadata ≡ l'.metadata
      → hex (P.sha256 other) ≢ hex (P.sha256 password)
      → ((unlock_bucket m bucket password).0 ≡ ok tt)
        × (get_encryptor (unlock_bucket m bucket password).1 bucket ≡ get_encryptor l' bucket)
        × (unlock_bucket m bucket other ≡ (err invalid_password, m))
  unfolding create_bucket_with_encryption unlock_bucket get_encryptor
  unlock_bucket-create_bucket_with_encryption l l' m now salt bucket password other h same wrong =
      let c : EncryptionConfig = record {
        enabled = true;
        algorithm = bytes "aes256-gcm";
        salt = salt;
        key_hash = hex (P.sha256 password);
      } in
      elim (Option-cases (new_encryptor_from_password P.cipher password salt)) [
        | inl failed ↦ ground (arith)
        | inr (e, made) ↦ ground (
          arith,
          S.get_bucket-create l.metadata now bucket c,
          lookup-insert bucket bucket e l.encryptors,
          lookup-insert bucket bucket e m.encryptors,
        )
      ]
