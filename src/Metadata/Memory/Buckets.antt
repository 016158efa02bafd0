-- ===== src/Metadata/Memory/Buckets.antt =====
-- Buckets and the keys of pkg/metadata/memory.go.
use lilio.Prelude.{
  Text, [], arith, err, has_prefix-append, if◌then◌else◌, int_eq, nat_eq, ok, some, text_eq, true,
  ℕ, ◌++◌, ◌==◌, ◌∷◌, ◌≡◌,
}
use lilio.Prelude.Dict.{Dict, keys, lookup, lookup-erase, lookup-insert}
use mathlib.Core.List.{append_assoc}
use lilio.Metadata.{
  bucket_not_found, ObjectMetadata, EncryptionConfig, bucket_not_empty, bucket_not_found,
  bucket_exists,
}
use lilio.Metadata.Memory.{
  MemoryStore, full_key, get_object, get_bucket, has_bucket, delete_bucket, any_with_prefix,
  create_bucket_with_encryption,
}

-- A bucket is created once: with a name that is taken the store is left as it was, and otherwise
-- the new bucket is found under its name and every other name finds what it found before.
pub create_bucket_lem :
    (s : MemoryStore) (now : ℕ) (name other : Text) (c : EncryptionConfig)
    → let (r, s') = create_bucket_with_encryption s now name c in
      if has_bucket s name
      then (r ≡ err bucket_exists) × (s' ≡ s)
      else (r ≡ ok tt)
        × (get_bucket s' other ≡ (
            if other == name
            then ok (record { name = name; created_at = now; encryption = c })
            else get_bucket s other))
unfolding create_bucket_with_encryption has_bucket get_bucket
create_bucket_lem s now name other c = ground (
  arith,
  lookup-insert other name (record { name = name; created_at = now; encryption = c }) s.buckets,
)

full_key-append : (b k : Text) → full_key b k ≡ full_key b [] ++ k
unfolding full_key
full_key-append b k = rw append_assoc

any_of_lookup :
    {V : Type 0} (p k : Text) (d : Dict Text V) (v : V)
    → lookup (p ++ k) d ≡ some v
    → any_with_prefix p (keys d) ≡ true
unfolding any_with_prefix lookup
any_of_lookup p k [] v h = cc
any_of_lookup p k ((j, w) ∷ d) v h = ground (arith, any_of_lookup p k d v, has_prefix-append p k)

lookup_of_get_object :
    (s : MemoryStore) (b k : Text) (m : ObjectMetadata)
    → get_object s b k ≡ ok m
    → lookup (full_key b k) s.objects ≡ some m
unfolding get_object
lookup_of_get_object s b k m h = ground arith

-- A bucket that holds an object cannot be deleted, and the attempt changes nothing.
pub delete_bucket-not-empty :
    (s : MemoryStore) (bucket key : Text) (m : ObjectMetadata)
    → get_object s bucket key ≡ ok m
    → delete_bucket s bucket ≡ (err bucket_not_empty, s)
unfolding delete_bucket
delete_bucket-not-empty s bucket key m held =
    let found : lookup (full_key bucket [] ++ key) s.objects ≡ some m =
      rw (← full_key-append) (lookup_of_get_object s bucket key m held) in
    rw (any_of_lookup (full_key bucket []) key s.objects m found)

-- A delete that succeeds takes away that bucket, and nothing else.
pub delete_bucket-eq-ok :
    (s : MemoryStore) (bucket : Text) {s' : MemoryStore}
    → delete_bucket s bucket ≡ (ok tt, s')
    → (s'.objects ≡ s.objects)
      × (has_bucket s bucket ≡ true)
      × ((b : Text)
          → get_bucket s' b ≡ (if b == bucket then err bucket_not_found else get_bucket s b))
unfolding delete_bucket has_bucket get_bucket
delete_bucket-eq-ok s bucket h =
    (ground arith, ground arith, λ b. ground (arith, lookup-erase b bucket s.buckets))

full_key_alias : (a b key : Text) → full_key (full_key a b) key ≡ full_key a (full_key b key)
unfolding full_key
full_key_alias a b key = append_assoc a (b'/' ∷ b) (b'/' ∷ key)

-- A bucket's name may hold a slash, and the two parts of a full key are not told apart by the
-- store: what is read in bucket `a/b` under a key is what is read in bucket `a` under `b/` and
-- the key.
pub get_object_alias :
    (s : MemoryStore) (a b key : Text)
    → get_object s (full_key a b) key ≡ get_object s a (full_key b key)
unfolding get_object
get_object_alias s a b key = rw (get_object, full_key_alias)

-- So a bucket `a` without an object of its own cannot be deleted while `a/b` has one.
pub delete_bucket_alias :
    (s : MemoryStore) (a b key : Text) (m : ObjectMetadata)
    → get_object s (full_key a b) key ≡ ok m
    → delete_bucket s a ≡ (err bucket_not_empty, s)
delete_bucket_alias s a b key m held =
    delete_bucket-not-empty s a (full_key b key) m (rw (← get_object_alias s a b key) held)
