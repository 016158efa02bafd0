-- ===== src/Metadata/Memory/Versioned.antt =====
-- The revisions of pkg/metadata/memory.go are fit for optimistic concurrency.
use lilio.Prelude.{Text, arith, err, int_eq, max_int64, ok, pos, ℕ, ℤ, ◌+◌, ◌<◌, ◌≡◌}
use lilio.Metadata.{ObjectMetadata, object_not_found}
use lilio.Metadata.Versioned.{StoreIsVersioned}
use lilio.Metadata.Memory.{
  MemoryStore, compare_and_save, current_revision, get_object, memory_store,
}
use lilio.Metadata.Memory.Revisions.{
  compare_and_save-mismatch, current_revision-compare_and_save, inc64_pos, save_step,
}

found_revision :
    (s : MemoryStore) (b k : Text) (m : ObjectMetadata)
    → get_object s b k ≡ ok m
    → current_revision s b k ≡ m.revision
unfolding get_object current_revision
found_revision s b k m h = ground arith

missing_revision :
    (s : MemoryStore) (b k : Text)
    → get_object s b k ≡ err object_not_found
    → current_revision s b k ≡ pos 0
unfolding get_object current_revision
missing_revision s b k h = ground arith

saved_revision :
    (s : MemoryStore) (m stored : ObjectMetadata) (e : ℤ) (n : ℕ)
    → (compare_and_save s m e).0 ≡ ok stored
    → current_revision s m.bucket m.key ≡ pos n
    → n < max_int64
    → current_revision (compare_and_save s m e).1 m.bucket m.key ≡ pos (n + 1)
unfolding compare_and_save
saved_revision s m stored e n saved now small =
    rw current_revision-compare_and_save (ground (arith, inc64_pos n small))

pub memory_store-IsVersioned : StoreIsVersioned memory_store
unfolding memory_store
memory_store-IsVersioned = record {
  revision = current_revision;
  revision-found = found_revision;
  revision-missing = missing_revision;
  stale = λ s m n other. compare_and_save-mismatch s m (pos n) (λ h. absurd (ground arith)) other;
  revision-save = save_step;
  revision-saved = saved_revision;
}
