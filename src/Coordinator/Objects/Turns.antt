-- ===== src/Coordinator/Objects/Turns.antt =====
-- What other requests do to the state of pkg/storage/lilio.go between the steps of one PutObject.
use lilio.Prelude.{
  Bool, Bool-cases, List, Option, Option-cases, Text, [], arith, if◌then◌else◌, inl, inr, max_int64,
  pos, refl, suc, text_eq, ℕ, ℤ, ◌+◌, ◌++◌, ◌<◌, ◌==◌, ◌∙◌, ◌∷◌, ◌≡◌, ◌≤◌, ◌⊎◌,
}
use lilio.Prelude.Dict.{lookup}
use lilio.Storage.{Bytes}
use lilio.Crypto.{Encryptor}
use lilio.Metadata.{ChunkInfo, ObjectMetadata}
use lilio.Metadata.Versioned.{StoreIsVersioned}
use lilio.Coordinator.{Lilio, Platform, checksum_of, read_repaired, record_metric}
use lilio.Coordinator.Replicas.{
  delete_chunks, order_replicas, read_repair, retrieve_chunk, serve, store_on, try_replicas,
}
use lilio.Coordinator.Backends.{
  add_backend, create_bucket, create_bucket_with_encryption, remove_backend, unlock_bucket,
  unlock_with,
}
use lilio.Coordinator.Scrub.{ScrubOptions, scrub_chunk}
use lilio.Coordinator.Scrub.Steps.{scrub_chunk_metadata}
use lilio.Coordinator.Objects.{PutRequest, commit, delete_object, put_chunk}
use lilio.Coordinator.Objects.Rest.{delete_chunks-SameRest, put_chunk-SameRest}

module _ {P : Platform} where
  read_repair_metadata :
      (names : List Text) (l : Lilio P) (id : Text) (d : Bytes)
      → (read_repair l id d names).metadata ≡ l.metadata
  unfolding read_repair store_on
  read_repair_metadata [] l id d = refl
  read_repair_metadata (name ∷ names) l id d = elim (Option-cases (lookup name l.registry)) [
    | inl gone ↦ rw (gone, read_repair) (read_repair_metadata names l id d)
    | inr (b, here) ↦
        let (stored, l2) = store_on l name b id d in
        let l3 = if stored then record_metric (read_repaired name) l2 else l2 in
        rw (here, read_repair) (ground (arith, read_repair_metadata names l3 id d))
  ]

  try_replicas_metadata :
      (names : List Text) (l : Lilio P) (alive : ℕ → Bool) (c : ChunkInfo) (i attempted : ℕ)
      (corrupt : List Text)
      → (try_replicas l alive c names i attempted corrupt).1.metadata ≡ l.metadata
  unfolding try_replicas serve
  try_replicas_metadata [] l alive c i attempted corrupt = refl
  try_replicas_metadata (name ∷ names) l alive c i attempted corrupt =
      let rest = try_replicas_metadata names l alive c (i + 1) in
      elim (Bool-cases (alive i)) [
        | inr dead ↦ rw (dead, try_replicas) refl
        | inl awake ↦ elim (Option-cases (lookup name l.registry)) [
          | inl gone ↦ rw (awake, gone, try_replicas) (rest attempted corrupt)
          | inr (b, here) ↦ elim (Option-cases (P.backend.retrieve_chunk b c.chunk_id)) [
            | inl silent ↦ rw (awake, here, silent, try_replicas) (rest (attempted + 1) corrupt)
            | inr (d, told) ↦ elim (Bool-cases (checksum_of P d == c.checksum)) [
              | inl intact ↦
                  rw (awake, here, told, intact, try_replicas)
                    (read_repair_metadata corrupt _ c.chunk_id d)
              | inr damaged ↦
                  rw (awake, here, told, damaged, try_replicas)
                    (rest (attempted + 1) (corrupt ++ name ∷ []))
            ]
          ]
        ]
      ]

  retrieve_chunk_metadata :
      (l : Lilio P) (alive : ℕ → Bool) (c : ChunkInfo)
      → (retrieve_chunk l alive c).1.metadata ≡ l.metadata
  unfolding retrieve_chunk
  retrieve_chunk_metadata l alive c =
      try_replicas_metadata (order_replicas l c.storage_nodes) l alive c 0 0 []

  unlock_bucket_metadata :
      (l : Lilio P) (bucket password : Text)
      → (unlock_bucket l bucket password).1.metadata ≡ l.metadata
  unfolding unlock_bucket unlock_with
  unlock_bucket_metadata l bucket password = ground arith

  add_backend_metadata :
      (l : Lilio P) (b : P.backend.State) → (add_backend l b).1.metadata ≡ l.metadata
  unfolding add_backend
  add_backend_metadata l b = ground arith

  remove_backend_metadata :
      (l : Lilio P) (name : Text) → (remove_backend l name).1.metadata ≡ l.metadata
  unfolding remove_backend
  remove_backend_metadata l name = ground arith

module _ {P : Platform} (S : StoreIsVersioned P.store) (b k : Text) where
  -- One step of another request: a round of the loop of a PutObject, a chunk that is read,
  -- scrubbed, or removed with others, the commit of a PutObject, a bucket that is unlocked, a
  -- backend that joins or leaves; and a DeleteObject, or a bucket that is made or deleted, where
  -- this leaves the revision of this key alone.
  pub data Turn : Lilio P → Lilio P → Type 0 where
    stores :
        (l : Lilio P) (rq : PutRequest) (e : Option Encryptor) (d : Bytes) (i : ℕ)
        → Turn l (put_chunk l rq e d i).1
    reads : (l : Lilio P) (alive : ℕ → Bool) (c : ChunkInfo) → Turn l (retrieve_chunk l alive c).1
    removes : (l : Lilio P) (chunks : List ChunkInfo) → Turn l (delete_chunks l chunks)
    commits :
        (l : Lilio P) (meta : ObjectMetadata) (e : ℤ) (superseded : List ChunkInfo)
        → Turn l (commit l meta e superseded).1
    deletes :
        (l : Lilio P) (b' k' : Text)
        → S.revision (delete_object l b' k').1.metadata b k ≡ S.revision l.metadata b k
        → Turn l (delete_object l b' k').1
    scrubs :
        (l : Lilio P) (b' k' : Text) (c : ChunkInfo) (o : ScrubOptions)
        → Turn l (scrub_chunk l b' k' c o).1
    unlocks : (l : Lilio P) (b' password : Text) → Turn l (unlock_bucket l b' password).1
    joins : (l : Lilio P) (new : P.backend.State) → Turn l (add_backend l new).1
    leaves : (l : Lilio P) (name : Text) → Turn l (remove_backend l name).1
    makes_bucket :
        (l : Lilio P) (now : ℕ) (b' : Text)
        → S.revision (create_bucket l now b').1.metadata b k ≡ S.revision l.metadata b k
        → Turn l (create_bucket l now b').1
    makes_encrypted_bucket :
        (l : Lilio P) (now : ℕ) (salt : Option Bytes) (b' password : Text)
        → S.revision (create_bucket_with_encryption l now salt b' password).1.metadata b k
          ≡ S.revision l.metadata b k
        → Turn l (create_bucket_with_encryption l now salt b' password).1
    deletes_bucket :
        (l : Lilio P) (b' : Text)
        → S.revision (P.store.delete_bucket l.metadata b').1 b k ≡ S.revision l.metadata b k
        → Turn l (record l { metadata = (P.store.delete_bucket l.metadata b').1 })

  -- So many steps in a row, of any number of requests.
  pub data Turns (l : Lilio P) : ℕ → Lilio P → Type 0 where
    here : Turns l 0 l
    next : {n : ℕ} {l' l'' : Lilio P} → Turns l n l' → Turn l' l'' → Turns l (suc n) l''

  abbrev revision_in : Lilio P → ℤ
  revision_in l = S.revision l.metadata b k

  pub commit_metadata :
      (l : Lilio P) (meta : ObjectMetadata) (e : ℤ) (superseded : List ChunkInfo)
      → (commit l meta e superseded).1.metadata ≡ (P.store.compare_and_save l.metadata meta e).1
  unfolding commit
  commit_metadata l meta e superseded =
      let (saved, m) = P.store.compare_and_save l.metadata meta e in
      let l2 : Lilio P = record l { metadata = m } in
      ground
        (arith, (delete_chunks-SameRest meta.chunks l2).0, (delete_chunks-SameRest superseded l2).0)

  Turn-revision :
      {l l' : Lilio P} (n : ℕ)
      → Turn l l'
      → revision_in l ≡ pos n
      → n < max_int64
      → (revision_in l' ≡ pos n) ⊎ (revision_in l' ≡ pos (n + 1))
  Turn-revision n (stores l rq e d i) now small =
      inl (rw ((put_chunk-SameRest l rq e d i).0, revision_in) now)
  Turn-revision n (reads l alive c) now small =
      inl (rw (retrieve_chunk_metadata l alive c, revision_in) now)
  Turn-revision n (removes l chunks) now small =
      inl (rw ((delete_chunks-SameRest chunks l).0, revision_in) now)
  Turn-revision n (commits l meta e superseded) now small =
      rw (commit_metadata l meta e superseded, revision_in)
        (S.revision-save l.metadata meta e b k n now small)
  Turn-revision n (deletes l b' k' kept) now small = inl (kept ∙ now)
  Turn-revision n (scrubs l b' k' c o) now small =
      inl (rw (scrub_chunk_metadata l b' k' c o, revision_in) now)
  Turn-revision n (unlocks l b' password) now small =
      inl (rw (unlock_bucket_metadata l b' password, revision_in) now)
  Turn-revision n (joins l new) now small = inl (rw (add_backend_metadata l new, revision_in) now)
  Turn-revision n (leaves l name) now small =
      inl (rw (remove_backend_metadata l name, revision_in) now)
  Turn-revision n (makes_bucket l m b' kept) now small = inl (kept ∙ now)
  Turn-revision n (makes_encrypted_bucket l m salt b' password kept) now small = inl (kept ∙ now)
  Turn-revision n (deletes_bucket l b' kept) now small = inl (kept ∙ now)

  -- While the revision is not near the largest int64, the steps do not lower it.
  pub Turns-revision :
      {l l' : Lilio P} (n turns : ℕ)
      → Turns l turns l'
      → revision_in l ≡ pos n
      → n + turns < max_int64
      → (n' : ℕ) × (revision_in l' ≡ pos n') × (n ≤ n') × (n' ≤ n + turns)
  Turns-revision n _ here now small = (n, now, omega arith, omega arith)
  Turns-revision n _ (next {n = m} r t) now small =
      let (n', then_now, lower, upper) = Turns-revision n m r now (omega arith) in
      elim (Turn-revision n' t then_now (omega arith)) [
        | inl same ↦ (n', same, lower, omega arith)
        | inr more ↦ (n' + 1, more, omega arith, omega arith)
      ]
