-- ===== src/Metadata/Versioned.antt =====
-- What optimistic concurrency needs of a store of pkg/metadata/interface.go: the revisions that
-- CompareAndSaveObjectMetadata compares.
use lilio.Prelude.{Text, err, max_int64, ok, pos, ℕ, ℤ, ◌+◌, ◌<◌, ◌≡◌, ◌≢◌, ◌⊎◌}
use lilio.Metadata.{MetadataStore, ObjectMetadata, object_not_found, revision_mismatch}

-- A key has the revision of its object, and 0 without one. A write on the condition of another
-- revision is refused and changes nothing. Below the largest int64, one write adds at most 1 to a
-- revision, and one that succeeds adds 1 to that of its key.
pub record StoreIsVersioned (M : MetadataStore) : Type 0 where
  pub revision : M.State → Text → Text → ℤ
  pub revision-found :
      (s : M.State) (b k : Text) (m : ObjectMetadata)
      → M.get_object s b k ≡ ok m
      → revision s b k ≡ m.revision
  pub revision-missing :
      (s : M.State) (b k : Text)
      → M.get_object s b k ≡ err object_not_found
      → revision s b k ≡ pos 0
  pub stale :
      (s : M.State) (m : ObjectMetadata) (n : ℕ)
      → revision s m.bucket m.key ≢ pos n
      → M.compare_and_save s m (pos n) ≡ (err revision_mismatch, s)
  pub revision-save :
      (s : M.State) (m : ObjectMetadata) (e : ℤ) (b k : Text) (n : ℕ)
      → revision s b k ≡ pos n
      → n < max_int64
      → (revision (M.compare_and_save s m e).1 b k ≡ pos n)
        ⊎ (revision (M.compare_and_save s m e).1 b k ≡ pos (n + 1))
  pub revision-saved :
      (s : M.State) (m stored : ObjectMetadata) (e : ℤ) (n : ℕ)
      → (M.compare_and_save s m e).0 ≡ ok stored
      → revision s m.bucket m.key ≡ pos n
      → n < max_int64
      → revision (M.compare_and_save s m e).1 m.bucket m.key ≡ pos (n + 1)
