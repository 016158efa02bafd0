-- ===== src/Metadata/Memory.antt =====
-- pkg/metadata/memory.go: the store that keeps its maps in memory.
pub mod Revisions
pub mod Buckets
pub mod Lawful
pub mod Versioned
pub mod Listing
use lilio.Prelude.{
  Bool, List, Option, Result, Text, [], err, false, has_prefix, if◌then◌else◌, inc64, int_eq,
  nat_eq, negsuc, none, not, ok, pos, some, text_eq, trim_prefix, true, ℕ, ℤ, ◌&&◌, ◌++◌, ◌==◌, ◌∷◌,
}
use lilio.Prelude.Dict.{Dict, erase, has_key, insert, keys, lookup}
use lilio.Paging.{ListOptions, ListResult, list_page}
use lilio.Metadata.{EncryptionConfig, BucketMetadata, ObjectMetadata, MetaError, MetadataStore}
use lilio.Metadata.{bucket_not_found, bucket_exists, bucket_not_empty, object_not_found}
use lilio.Metadata.{revision_mismatch}

pub record MemoryStore : Type 0 where
  pub buckets : Dict Text BucketMetadata
  pub objects : Dict Text ObjectMetadata

unfoldable pub new_memory_store : MemoryStore
new_memory_store = record { buckets = []; objects = [] }

-- const anyRevision
abbrev pub any_revision : ℤ
any_revision = negsuc 0

-- `fmt.Sprintf("%s/%s", bucket, key)`
unfoldable pub full_key : Text → Text → Text
full_key bucket key = bucket ++ b'/' ∷ key

-- CreateBucketWithEncryption
unfoldable pub create_bucket_with_encryption :
    MemoryStore → ℕ → Text → EncryptionConfig → Result MetaError (Unit {0}) × MemoryStore
create_bucket_with_encryption s now name encryption =
    if has_key name s.buckets then (err bucket_exists, s) else (
      ok tt,
      record s {
        buckets =
            insert name (record { name = name; created_at = now; encryption = encryption })
              s.buckets;
      },
    )

abbrev plain : EncryptionConfig
plain = record { enabled = false; algorithm = []; salt = []; key_hash = [] }

-- CreateBucket
unfoldable pub create_bucket : MemoryStore → ℕ → Text → Result MetaError (Unit {0}) × MemoryStore
unfolding create_bucket_with_encryption
create_bucket s now name = create_bucket_with_encryption s now name plain

-- GetBucket
unfoldable pub get_bucket : MemoryStore → Text → Result MetaError BucketMetadata
get_bucket s name = elim (lookup name s.buckets) [ some b ↦ ok b | none ↦ err bucket_not_found ]

-- BucketExists
unfoldable pub has_bucket : MemoryStore → Text → Bool
has_bucket s name = has_key name s.buckets

-- IsBucketEncrypted
unfoldable pub is_bucket_encrypted : MemoryStore → Text → Result MetaError Bool
unfolding get_bucket
is_bucket_encrypted s name = elim (get_bucket s name) [
  | ok b ↦ ok b.encryption.enabled
  | err e ↦ err e
]

-- GetBucketEncryption
unfoldable pub get_bucket_encryption : MemoryStore → Text → Result MetaError EncryptionConfig
unfolding get_bucket
get_bucket_encryption s name = elim (get_bucket s name) [ ok b ↦ ok b.encryption | err e ↦ err e ]

-- ListBuckets
unfoldable pub list_buckets : MemoryStore → Result MetaError (List Text)
list_buckets s = ok (keys s.buckets)

-- The loop of DeleteBucket: is there an object whose full key has the prefix?
unfoldable pub any_with_prefix : Text → List Text → Bool
unfolding has_prefix
any_with_prefix prefix [] = false
any_with_prefix prefix (k ∷ ks) = if has_prefix k prefix then true else any_with_prefix prefix ks

-- DeleteBucket
unfoldable pub delete_bucket : MemoryStore → Text → Result MetaError (Unit {0}) × MemoryStore
unfolding any_with_prefix
delete_bucket s name =
    if any_with_prefix (full_key name []) (keys s.objects)
    then (err bucket_not_empty, s)
    else if has_key name s.buckets
    then (ok tt, record s { buckets = erase name s.buckets })
    else (err bucket_not_found, s)

abbrev revision_of : Option ObjectMetadata → ℤ
revision_of none = pos 0
revision_of (some m) = m.revision

-- The revision that a conditional write is compared with: that of the stored object, or 0.
unfoldable pub current_revision : MemoryStore → Text → Text → ℤ
current_revision s bucket key = revision_of (lookup (full_key bucket key) s.objects)

-- saveLocked: the metadata comes back with the revision that was assigned.
unfoldable pub save_locked :
    MemoryStore → ObjectMetadata → ℤ → Result MetaError ObjectMetadata × MemoryStore
unfolding current_revision
save_locked s meta expected =
    let current = current_revision s meta.bucket meta.key in
    if not (expected == any_revision) && not (current == expected)
    then (err revision_mismatch, s)
    else (
      ok (record meta { revision = inc64 current }),
      record s {
        objects =
            insert (full_key meta.bucket meta.key) (record meta { revision = inc64 current })
              s.objects;
      },
    )

-- SaveObjectMetadata
unfoldable pub save_object :
    MemoryStore → ObjectMetadata → Result MetaError ObjectMetadata × MemoryStore
unfolding save_locked
save_object s meta = save_locked s meta any_revision

-- CompareAndSaveObjectMetadata
unfoldable pub compare_and_save :
    MemoryStore → ObjectMetadata → ℤ → Result MetaError ObjectMetadata × MemoryStore
unfolding save_locked
compare_and_save s meta expected = save_locked s meta expected

-- GetObjectMetadata
unfoldable pub get_object : MemoryStore → Text → Text → Result MetaError ObjectMetadata
get_object s bucket key = elim (lookup (full_key bucket key) s.objects) [
  | some m ↦ ok m
  | none ↦ err object_not_found
]

-- DeleteObjectMetadata
unfoldable pub delete_object : MemoryStore → Text → Text → Result MetaError (Unit {0}) × MemoryStore
delete_object s bucket key =
    if has_key (full_key bucket key) s.objects
    then (ok tt, record s { objects = erase (full_key bucket key) s.objects })
    else (err object_not_found, s)

-- The keys of one bucket, with its prefix taken off.
unfoldable pub bucket_keys : Text → List Text → List Text
unfolding has_prefix trim_prefix
bucket_keys prefix [] = []
bucket_keys prefix (k ∷ ks) =
    let rest = bucket_keys prefix ks in
    if has_prefix k prefix then trim_prefix k prefix ∷ rest else rest

-- ListObjects
unfoldable pub list_objects : MemoryStore → Text → ListOptions → Result MetaError ListResult
unfolding bucket_keys list_page
list_objects s bucket o =
    if has_key bucket s.buckets
    then ok (list_page o (bucket_keys (full_key bucket []) (keys s.objects)))
    else err bucket_not_found

-- `var _ MetadataStore = (*MemoryStore)(nil)`
unfoldable pub memory_store : MetadataStore
memory_store = record {
  State = MemoryStore;
  create_bucket = create_bucket;
  create_bucket_with_encryption = create_bucket_with_encryption;
  get_bucket = get_bucket;
  list_buckets = list_buckets;
  bucket_exists = has_bucket;
  delete_bucket = delete_bucket;
  compare_and_save = compare_and_save;
  get_object = get_object;
  delete_object = delete_object;
  list_objects = list_objects;
}
