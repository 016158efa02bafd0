-- ===== src/Metadata/Memory/Revisions.antt =====
-- Conditional writes of pkg/metadata/memory.go: saveLocked and what reads its effect.
use lilio.Prelude.{
  List, Text, [], arith, err, if◌then◌else◌, inc64, inl, inr, int_eq, length, max_int64, nat_eq,
  not, ok, pos, text_eq, ℕ, ℤ, ◌&&◌, ◌+◌, ◌<◌, ◌==◌, ◌∙◌, ◌∷◌, ◌≡◌, ◌≢◌, ◌≤◌, ◌⊎◌,
}
use lilio.Prelude.Dict.{has_key-eq-lookup, lookup-erase, lookup-insert}
use lilio.Metadata.{ObjectMetadata, revision_mismatch}
use lilio.Metadata.Memory.{MemoryStore, any_revision, full_key, current_revision}
use lilio.Metadata.Memory.{save_locked, compare_and_save, get_object, delete_object}

pub current_revision-compare_and_save :
    (s : MemoryStore) (m : ObjectMetadata) (e : ℤ) (b k : Text)
    → current_revision (compare_and_save s m e).1 b k ≡ (
        if not (e == any_revision) && not (current_revision s m.bucket m.key == e)
        then current_revision s b k
        else if full_key b k == full_key m.bucket m.key
        then inc64 (current_revision s m.bucket m.key)
        else current_revision s b k)
unfolding compare_and_save current_revision
current_revision-compare_and_save s m e b k = ground (
  arith,
  lookup-insert (full_key b k) (full_key m.bucket m.key)
      (record m { revision = inc64 (current_revision s m.bucket m.key) }) s.objects,
)

-- A conditional write that does not expect the stored revision is refused and changes nothing.
pub compare_and_save-mismatch :
    (s : MemoryStore) (m : ObjectMetadata) (e : ℤ)
    → e ≢ any_revision
    → current_revision s m.bucket m.key ≢ e
    → compare_and_save s m e ≡ (err revision_mismatch, s)
unfolding compare_and_save save_locked
compare_and_save-mismatch s m e conditional stale = ground arith

module _ (s : MemoryStore) (m : ObjectMetadata) (e : ℤ) {m' : ObjectMetadata} {s' : MemoryStore}
    (saved : compare_and_save s m e ≡ (ok m', s')) where
  -- What a successful write stores is read back, and every other full key reads as before.
  pub get_object-compare_and_save :
      (b k : Text)
      → get_object s' b k ≡ (
          if full_key b k == full_key m.bucket m.key
          then ok (record m { revision = inc64 (current_revision s m.bucket m.key) })
          else get_object s b k)
  unfolding compare_and_save save_locked get_object
  get_object-compare_and_save b k = ground (
    arith,
    lookup-insert (full_key b k) (full_key m.bucket m.key)
        (record m { revision = inc64 (current_revision s m.bucket m.key) }) s.objects,
  )

  pub compare_and_save-eq-ok :
      ((e ≡ any_revision) ⊎ (current_revision s m.bucket m.key ≡ e))
      × (m' ≡ record m { revision = inc64 (current_revision s m.bucket m.key) })
  unfolding compare_and_save save_locked
  compare_and_save-eq-ok = ground arith

-- One write each: the metadata and the revision that it expects.
unfoldable pub run_saves : MemoryStore → List (ObjectMetadata × ℤ) → MemoryStore
run_saves s [] = s
run_saves s ((m, e) ∷ writes) = run_saves (compare_and_save s m e).1 writes

pub inc64_pos : (n : ℕ) → n < max_int64 → inc64 (pos n) ≡ pos (n + 1)
unfolding inc64
inc64_pos n h = ground arith

same_revision :
    (s : MemoryStore) (b k c j : Text)
    → full_key b k ≡ full_key c j
    → current_revision s b k ≡ current_revision s c j
unfolding current_revision
same_revision s b k c j h = rw h

-- Below the largest revision, one write leaves a key's revision alone or adds 1 to it.
pub save_step :
    (s : MemoryStore) (m : ObjectMetadata) (e : ℤ) (b k : Text) (n : ℕ)
    → current_revision s b k ≡ pos n
    → n < max_int64
    → (current_revision (compare_and_save s m e).1 b k ≡ pos n)
      ⊎ (current_revision (compare_and_save s m e).1 b k ≡ pos (n + 1))
save_step s m e b k n now small =
    rw current_revision-compare_and_save
      (ground (arith, same_revision s b k m.bucket m.key, inc64_pos n small))

-- So does a run of writes, by no more than their number.
run_saves_grows :
    (writes : List (ObjectMetadata × ℤ)) (s : MemoryStore) (b k : Text) (n : ℕ)
    → current_revision s b k ≡ pos n
    → n + length writes < max_int64
    → (n' : ℕ) × (current_revision (run_saves s writes) b k ≡ pos n') × (n ≤ n')
unfolding run_saves
run_saves_grows [] s b k n now small = (n, now, omega arith)
run_saves_grows ((m, e) ∷ writes) s b k n now small =
    elim (save_step s m e b k n now (omega arith)) [
      | inl same ↦ run_saves_grows writes (compare_and_save s m e).1 b k n same (omega arith)
      | inr more ↦
          let (n', at_end, grown) =
            run_saves_grows writes (compare_and_save s m e).1 b k (n + 1) more (omega arith) in
          (n', at_end, omega arith)
    ]

-- No lost update. Two writers read the object at revision `n` and both write on the condition
-- that it still has it. Once the first has committed, the second is refused and changes nothing,
-- whatever other writes of any kind come between them (but no delete), while the revision has
-- not come near the largest int64.
pub stale_write_refused :
    (s : MemoryStore) (first second : ObjectMetadata) (writes : List (ObjectMetadata × ℤ)) (n : ℕ)
    → current_revision s first.bucket first.key ≡ pos n
    → second.bucket ≡ first.bucket
    → second.key ≡ first.key
    → n + length writes + 1 < max_int64
    → let t = run_saves (compare_and_save s first (pos n)).1 writes in
      compare_and_save t second (pos n) ≡ (err revision_mismatch, t)
stale_write_refused s first second writes n now b_eq k_eq small =
    let committed : current_revision (compare_and_save s first (pos n)).1 first.bucket first.key
        ≡ pos (n + 1) =
      rw current_revision-compare_and_save (ground (arith, inc64_pos n (omega arith))) in
    let (n', at_end, grown) =
      run_saves_grows writes (compare_and_save s first (pos n)).1 first.bucket first.key (n + 1)
        committed (omega arith) in
    compare_and_save-mismatch _ second (pos n) (λ h. cc)
      (rw (b_eq, k_eq, at_end) (λ h. absurd (ground arith)))

compare_and_save-match :
    (s : MemoryStore) (m : ObjectMetadata) (e : ℤ)
    → current_revision s m.bucket m.key ≡ e
    → (compare_and_save s m e).0 ≡ ok (record m { revision = inc64 e })
unfolding compare_and_save
compare_and_save-match s m e h = ground arith

current_revision-delete :
    (s : MemoryStore) (b k : Text) → current_revision (delete_object s b k).1 b k ≡ pos 0
unfolding delete_object current_revision
current_revision-delete s b k = ground (
  arith,
  lookup-erase (full_key b k) (full_key b k) s.objects,
  has_key-eq-lookup (full_key b k) s.objects,
)

-- Revisions start again when an object is deleted and written anew. A writer that read revision 1
-- of the old object and writes on that condition is then accepted over the new object, although
-- the object changed in between.
pub recreated_write_accepted :
    (s : MemoryStore) (fresh stale : ObjectMetadata)
    → current_revision s stale.bucket stale.key ≡ pos 1
    → fresh.bucket ≡ stale.bucket
    → fresh.key ≡ stale.key
    → let deleted = (delete_object s stale.bucket stale.key).1 in
      let recreated = compare_and_save deleted fresh (pos 0) in
      (recreated.0 ≡ ok (record fresh { revision = pos 1 }))
      × ((compare_and_save recreated.1 stale (pos 1)).0 ≡ ok (record stale { revision = pos 2 }))
recreated_write_accepted s fresh stale read b_eq k_eq =
    let deleted = (delete_object s stale.bucket stale.key).1 in
    let gone : current_revision deleted fresh.bucket fresh.key ≡ pos 0 =
      rw (b_eq, k_eq) (current_revision-delete s stale.bucket stale.key) in
    let again : current_revision (compare_and_save deleted fresh (pos 0)).1 stale.bucket stale.key
        ≡ pos 1 =
      rw (current_revision-compare_and_save, ← b_eq, ← k_eq)
        (ground (arith, inc64_pos 0 (omega arith))) in
    (
      compare_and_save-match deleted fresh (pos 0) gone ∙ rw (inc64_pos 0 (omega arith)),
      compare_and_save-match _ stale (pos 1) again ∙ rw (inc64_pos 1 (omega arith)),
    )
