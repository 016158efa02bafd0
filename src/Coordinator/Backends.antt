-- ===== src/Coordinator/Backends.antt =====
-- pkg/storage/lilio.go: backends, their placement and their health, and the buckets' encryptors.
pub mod Keys
pub mod Health
pub mod Agreeing
pub mod Placing
pub mod Stats
use lilio.Registry
use lilio.Prelude.{
  Bool, List, Option, Result, Text, [], bytes, err, false, hex, if◌then◌else◌, int_eq, map, nat_eq,
  none, not, ok, some, text_eq, true, ℕ, ℤ, ◌==◌, ◌∷◌,
}
use lilio.Prelude.Dict.{Dict, has_key, insert, lookup}
use lilio.Paging.{ListOptions, ListResult}
use lilio.Storage.{BackendInfo, Bytes, is_online}
use lilio.Metadata.{EncryptionConfig, MetaError}
use lilio.Crypto.{Encryptor, new_encryptor_from_password}
use lilio.Ring.{add_node, get_nodes, is_empty, remove_node}
use lilio.Coordinator.{
  FailedBackend, Lilio, LilioError, Platform, backend_health, bad_encryptor, bucket_not_encrypted,
  from_store, invalid_password, record_metric,
}
use lilio.Registry.{Registry}

module _ {P : Platform} where
  -- AddBackend
  unfoldable pub add_backend : Lilio P → P.backend.State → Bool × Lilio P
  unfolding Registry.add
  add_backend l b =
      let (added, r) = Registry.add P.backend l.registry b in
      if added
      then (
        true,
        record l {
          registry = r;
          hash_ring = add_node P.sha256 l.hash_ring (P.backend.info b).name;
        },
      )
      else (false, l)

  -- RemoveBackend
  unfoldable pub remove_backend : Lilio P → Text → Bool × Lilio P
  unfolding Registry.remove
  remove_backend l name =
      let (removed, r) = Registry.remove P.backend l.registry name in
      if removed
      then (true, record l { registry = r; hash_ring = remove_node l.hash_ring name })
      else (false, l)

  -- TrackFailedBackend
  unfoldable pub track_failed_backend : Lilio P → Text → Text → ℤ → Text → Lilio P
  track_failed_backend l name kind priority message = record l {
    failed_backends =
        insert name (record { name = name; kind = kind; priority = priority; message = message })
          l.failed_backends;
  }

  -- GetFailedBackends, a copy of the map
  unfoldable pub get_failed_backends : Lilio P → Dict Text FailedBackend
  get_failed_backends l = l.failed_backends

  -- ListBackends
  unfoldable pub list_backends : Lilio P → List BackendInfo
  unfolding Registry.list
  list_backends l = map P.backend.info (Registry.list P.backend l.registry)

  -- onlineBackends, as the names of the backends that it returns
  unfoldable pub online_backends : Lilio P → List Text → List Text
  online_backends l [] = []
  online_backends l (name ∷ names) =
      let rest = online_backends l names in
      elim (lookup name l.registry) [
        | none ↦ rest
        | some b ↦ if is_online (P.backend.info b) then name ∷ rest else rest
      ]

  -- SelectNodesForChunk; `none` where GetNodes does not return.
  unfoldable pub select_nodes_for_chunk : Lilio P → Text → Option (List Text)
  unfolding online_backends
  select_nodes_for_chunk l chunk_id =
      if is_empty l.hash_ring
      then some []
      else elim (get_nodes P.sha256 l.hash_ring chunk_id l.replication_factor) [
        | none ↦ none
        | some names ↦ some (online_backends l names)
      ]

  -- The loop of HealthCheck over what the registry reports; an entry has the flag `err == nil`.
  unfoldable pub record_health : Dict Text Bool → Lilio P → Lilio P
  record_health [] l = l
  record_health ((name, healthy) ∷ entries) l =
      record_health entries (record_metric (backend_health name healthy) l)

  -- HealthCheck
  unfoldable pub health_check : Lilio P → Dict Text Bool × Lilio P
  unfolding record_health Registry.health_check
  health_check l =
      let status = Registry.health_check P.backend l.registry in (status, record_health status l)

  -- CreateBucketWithEncryption; the salt is none where the random source fails.
  unfoldable pub create_bucket_with_encryption :
      Lilio P → ℕ → Option Bytes → Text → Text → Option (Result MetaError (Unit {0})) × Lilio P
  unfolding hex
  create_bucket_with_encryption l now none bucket password = (none, l)
  create_bucket_with_encryption l now (some salt) bucket password =
      elim (new_encryptor_from_password P.cipher password salt) [
        | none ↦ (none, l)
        | some e ↦
            let (r, m) = P.store.create_bucket_with_encryption l.metadata now bucket (record {
              enabled = true;
              algorithm = bytes "aes256-gcm";
              salt = salt;
              key_hash = hex (P.sha256 password);
            }) in
            (some r, record l { encryptors = insert bucket e l.encryptors; metadata = m })
      ]

  -- CreateBucket
  unfoldable pub create_bucket : Lilio P → ℕ → Text → Result MetaError (Unit {0}) × Lilio P
  create_bucket l now bucket =
      let (r, m) = P.store.create_bucket l.metadata now bucket in (r, record l { metadata = m })

  -- ListBuckets
  unfoldable pub list_buckets : Lilio P → Result MetaError (List Text)
  list_buckets l = P.store.list_buckets l.metadata

  -- ListObjects
  unfoldable pub list_objects : Lilio P → Text → ListOptions → Result MetaError ListResult
  list_objects l bucket o = P.store.list_objects l.metadata bucket o

  -- What UnlockBucket does with the configuration of the bucket.
  unfoldable pub unlock_with :
      Lilio P → Text → Text → EncryptionConfig → Result LilioError (Unit {0}) × Lilio P
  unfolding hex
  unlock_with l bucket password c =
      if not c.enabled
      then (err bucket_not_encrypted, l)
      else if not (hex (P.sha256 password) == c.key_hash)
      then (err invalid_password, l)
      else elim (new_encryptor_from_password P.cipher password c.salt) [
        | none ↦ (err bad_encryptor, l)
        | some e ↦ (ok tt, record l { encryptors = insert bucket e l.encryptors })
      ]

  -- UnlockBucket
  unfoldable pub unlock_bucket : Lilio P → Text → Text → Result LilioError (Unit {0}) × Lilio P
  unfolding unlock_with
  unlock_bucket l bucket password = elim (P.store.get_bucket l.metadata bucket) [
    | err e ↦ (err (from_store e), l)
    | ok b ↦ unlock_with l bucket password b.encryption
  ]

  -- IsBucketUnlocked
  unfoldable pub is_bucket_unlocked : Lilio P → Text → Bool
  is_bucket_unlocked l bucket = has_key bucket l.encryptors

  -- getEncryptor
  unfoldable pub get_encryptor : Lilio P → Text → Option Encryptor
  get_encryptor l bucket = lookup bucket l.encryptors
