-- ===== src/Metadata/Memory/Lawful.antt =====
-- pkg/metadata/memory.go as an implementation of the interface `MetadataStore`.
use lilio.Prelude.{Text, arith, err, inc64, int_eq, nat_eq, ok, ℕ, text_eq, ℤ, ◌≡◌}
use lilio.Prelude.Dict.{has_key-eq-lookup, lookup-erase, lookup-insert}
use lilio.Metadata.{EncryptionConfig, MetaError, ObjectMetadata, StoreIsLawful, object_not_found}
use lilio.Metadata.Memory.{
  create_bucket_with_encryption, get_bucket, MemoryStore, compare_and_save, current_revision,
  delete_object, full_key, get_object, memory_store,
}

created_back :
    (s : MemoryStore) (now : ℕ) (name : Text) (c : EncryptionConfig)
    → (create_bucket_with_encryption s now name c).0 ≡ ok tt
    → get_bucket (create_bucket_with_encryption s now name c).1 name
      ≡ ok (record { name = name; created_at = now; encryption = c })
unfolding create_bucket_with_encryption get_bucket
created_back s now name c h = ground (
  arith,
  lookup-insert name name (record { name = name; created_at = now; encryption = c }) s.buckets,
)

read_back :
    (s : MemoryStore) (m : ObjectMetadata) (e : ℤ) (stored : ObjectMetadata)
    → (compare_and_save s m e).0 ≡ ok stored
    → get_object (compare_and_save s m e).1 m.bucket m.key ≡ ok stored
unfolding compare_and_save get_object
read_back s m e stored h = ground (
  arith,
  lookup-insert (full_key m.bucket m.key) (full_key m.bucket m.key)
      (record m { revision = inc64 (current_revision s m.bucket m.key) }) s.objects,
)

only_revision :
    (s : MemoryStore) (m : ObjectMetadata) (e : ℤ) (stored : ObjectMetadata)
    → (compare_and_save s m e).0 ≡ ok stored
    → stored ≡ record m { revision = stored.revision }
unfolding compare_and_save
only_revision s m e stored h = ground arith

refused_unchanged :
    (s : MemoryStore) (m : ObjectMetadata) (e : ℤ) (x : MetaError)
    → (compare_and_save s m e).0 ≡ err x
    → (compare_and_save s m e).1 ≡ s
unfolding compare_and_save
refused_unchanged s m e x h = ground arith

deleted_gone :
    (s : MemoryStore) (b k : Text) → get_object (delete_object s b k).1 b k ≡ err object_not_found
unfolding delete_object get_object
deleted_gone s b k = ground (
  arith,
  lookup-erase (full_key b k) (full_key b k) s.objects,
  has_key-eq-lookup (full_key b k) s.objects,
)

-- The memory store keeps the promises that the coordinator relies on: a bucket that was created
-- and metadata that was saved are read back, a refused save changes nothing, and a deleted object
-- is not found.
pub memory_store-IsLawful : StoreIsLawful memory_store
unfolding memory_store
memory_store-IsLawful = record {
  get_bucket-create = created_back;
  get-save = read_back;
  save-stored = only_revision;
  save-failed = refused_unchanged;
  get-delete = λ s b k _. deleted_gone s b k;
  get-delete_missing = λ s b k _. deleted_gone s b k;
}
