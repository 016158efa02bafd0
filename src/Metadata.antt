-- ===== src/Metadata.antt =====
-- pkg/metadata/interface.go and pkg/metadata/errors.go: the data that every metadata store keeps,
-- its errors, and the interface `MetadataStore`.
pub mod Codec
pub mod Memory
pub mod Etcd
pub mod Local
pub mod Versioned
pub mod Listed
use lilio.Prelude.{Bool, List, Result, Text, err, ok, ℕ, ℤ, ◌≡◌}
use lilio.Paging.{ListOptions, ListResult}

pub record EncryptionConfig : Type 0 where
  pub enabled : Bool
  pub algorithm : Text
  pub salt : Text
  pub key_hash : Text

pub record BucketMetadata : Type 0 where
  pub name : Text
  pub created_at : ℕ
  pub encryption : EncryptionConfig

pub record ChunkInfo : Type 0 where
  pub chunk_id : Text
  pub chunk_index : ℕ
  pub size : ℕ
  pub checksum : Text
  pub storage_nodes : List Text

pub record ObjectMetadata : Type 0 where
  pub revision : ℤ
  pub object_id : Text
  pub bucket : Text
  pub key : Text
  pub size : ℕ
  pub checksum : Text
  pub chunk_size : ℕ
  pub total_chunks : ℕ
  pub chunks : List ChunkInfo
  pub created_at : ℕ
  pub content_type : Text
  pub encrypted : Bool

-- errors.go; `unavailable` is any other error of a store.
pub data MetaError : Type 0 where
  bucket_not_found bucket_exists bucket_not_empty : MetaError
  object_not_found revision_mismatch unavailable : MetaError

-- The interface `MetadataStore`: a state, and the methods on it. A write returns the state it
-- leaves beside its result; the clock's answer is an argument of what calls `time.Now`.
pub record MetadataStore : Type 1 where
  pub State : Type 0
  pub create_bucket : State → ℕ → Text → Result MetaError (Unit {0}) × State
  pub create_bucket_with_encryption :
      State → ℕ → Text → EncryptionConfig → Result MetaError (Unit {0}) × State
  pub get_bucket : State → Text → Result MetaError BucketMetadata
  pub list_buckets : State → Result MetaError (List Text)
  pub bucket_exists : State → Text → Bool
  pub delete_bucket : State → Text → Result MetaError (Unit {0}) × State
  pub compare_and_save : State → ObjectMetadata → ℤ → Result MetaError ObjectMetadata × State
  pub get_object : State → Text → Text → Result MetaError ObjectMetadata
  pub delete_object : State → Text → Text → Result MetaError (Unit {0}) × State
  pub list_objects : State → Text → ListOptions → Result MetaError ListResult

-- What the coordinator relies on: a write that succeeds is read back and differs from what was
-- given at most in its revision, one that fails changes nothing, and after a delete, or one that finds nothing to delete, there is no object.
pub record StoreIsLawful (M : MetadataStore) : Type 0 where
  pub get_bucket-create :
      (s : M.State) (now : ℕ) (name : Text) (c : EncryptionConfig)
      → (M.create_bucket_with_encryption s now name c).0 ≡ ok tt
      → M.get_bucket (M.create_bucket_with_encryption s now name c).1 name
        ≡ ok (record { name = name; created_at = now; encryption = c })
  pub get-save :
      (s : M.State) (m : ObjectMetadata) (e : ℤ) (stored : ObjectMetadata)
      → (M.compare_and_save s m e).0 ≡ ok stored
      → M.get_object (M.compare_and_save s m e).1 m.bucket m.key ≡ ok stored
  pub save-stored :
      (s : M.State) (m : ObjectMetadata) (e : ℤ) (stored : ObjectMetadata)
      → (M.compare_and_save s m e).0 ≡ ok stored
      → stored ≡ record m { revision = stored.revision }
  pub save-failed :
      (s : M.State) (m : ObjectMetadata) (e : ℤ) (x : MetaError)
      → (M.compare_and_save s m e).0 ≡ err x
      → (M.compare_and_save s m e).1 ≡ s
  pub get-delete :
      (s : M.State) (b k : Text)
      → (M.delete_object s b k).0 ≡ ok tt
      → M.get_object (M.delete_object s b k).1 b k ≡ err object_not_found
  pub get-delete_missing :
      (s : M.State) (b k : Text)
      → (M.delete_object s b k).0 ≡ err object_not_found
      → M.get_object (M.delete_object s b k).1 b k ≡ err object_not_found
