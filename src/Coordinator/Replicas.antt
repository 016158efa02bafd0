-- ===== src/Coordinator/Replicas.antt =====
-- pkg/storage/lilio.go: one chunk on its replicas. A chunk is stored on several backends at once
-- in the source; here the stores run one after another, in the order of the target nodes.
pub mod Reading
pub mod Effects
use lilio.Prelude.{
  Bool, List, Result, Text, [], err, false, if◌then◌else◌, int_eq, length, ltb, map, nat_eq, none,
  ok, some, text_eq, true, ℕ, ◌++◌, ◌+◌, ◌==◌, ◌∷◌,
}
use lilio.Prelude.Dict.{insert, lookup}
use lilio.Prelude.Sorting.{sort_slice}
use lilio.Storage.{Bytes, is_online}
use lilio.Metadata.{ChunkInfo}
use lilio.Coordinator.{
  Lilio, LilioError, Platform, cancelled, checksum_of, chunk_deleted, chunk_retrieved,
  no_intact_replica, quorum_read, read_repaired, record_metric,
}

-- `int(^uint(0) >> 1)`
abbrev pub lowest_priority : ℕ
lowest_priority = 9223372036854775807

pub record Candidate : Type 0 where
  pub name : Text
  pub is_up : Bool
  pub priority : ℕ

-- The order of orderReplicas: backends that are up first, then by priority.
unfoldable pub preferred : Candidate → Candidate → Bool
preferred a b =
    if a.is_up
    then (if b.is_up then ltb a.priority b.priority else true)
    else if b.is_up
    then false
    else ltb a.priority b.priority

module _ {P : Platform} where
  unfoldable pub candidate_of : Lilio P → Text → Candidate
  candidate_of l name = elim (lookup name l.registry) [
    | none ↦ record { name = name; is_up = false; priority = lowest_priority }
    | some b ↦ record {
      name = name;
      is_up = is_online (P.backend.info b);
      priority = (P.backend.info b).priority;
    }
  ]

  -- orderReplicas
  unfoldable pub order_replicas : Lilio P → List Text → List Text
  unfolding sort_slice preferred candidate_of
  order_replicas l names = map (λ c. c.name) (sort_slice preferred (map (candidate_of l) names))

  -- `backend.StoreChunk` on a registered backend, whose new state the registry then refers to.
  unfoldable pub store_on : Lilio P → Text → P.backend.State → Text → Bytes → Bool × Lilio P
  store_on l name b chunk_id d =
      let (stored, b') = P.backend.store_chunk b chunk_id d in
      (stored, record l { registry = insert name b' l.registry })

  -- `backend.DeleteChunk` on a registered backend.
  unfoldable pub delete_on : Lilio P → Text → P.backend.State → Text → Bool × Lilio P
  delete_on l name b chunk_id =
      let (deleted, b') = P.backend.delete_chunk b chunk_id in
      (deleted, record l { registry = insert name b' l.registry })

  -- readRepair; it runs beside the read that starts it, and here at its end.
  unfoldable pub read_repair : Lilio P → Text → Bytes → List Text → Lilio P
  unfolding store_on
  read_repair l chunk_id d [] = l
  read_repair l chunk_id d (name ∷ names) = elim (lookup name l.registry) [
    | none ↦ read_repair l chunk_id d names
    | some b ↦
        let (stored, l') = store_on l name b chunk_id d in
        read_repair (if stored then record_metric (read_repaired name) l' else l') chunk_id d names
  ]

  -- The end of a read that found a good copy on `name`.
  unfoldable pub serve :
      Lilio P → Text → Text → ℕ → List Text → Bytes → Result LilioError Bytes × Lilio P
  unfolding read_repair
  serve l chunk_id name attempted corrupt d = (
    ok d,
    read_repair
        (record_metric (quorum_read true attempted 1)
          (record_metric (chunk_retrieved name (length d)) l))
        chunk_id d corrupt,
  )

  -- The loop of retrieveChunk. `alive i` says that the context is not cancelled when candidate
  -- number `i` is about to be tried.
  unfoldable pub try_replicas :
      Lilio P
      → (ℕ → Bool)
      → ChunkInfo
      → List Text
      → ℕ
      → ℕ
      → List Text
      → Result LilioError Bytes × Lilio P
  unfolding serve checksum_of
  try_replicas l alive chunk [] i attempted corrupt =
      (err no_intact_replica, record_metric (quorum_read false attempted 0) l)
  try_replicas l alive chunk (name ∷ names) i attempted corrupt =
      let unreachable = try_replicas l alive chunk names (i + 1) attempted corrupt in
      let silent = try_replicas l alive chunk names (i + 1) (attempted + 1) corrupt in
      let damaged =
        try_replicas l alive chunk names (i + 1) (attempted + 1) (corrupt ++ name ∷ []) in
      if alive i
      then elim (lookup name l.registry) [
        | none ↦ unreachable
        | some b ↦ elim (P.backend.retrieve_chunk b chunk.chunk_id) [
          | none ↦ silent
          | some d ↦
              if checksum_of P d == chunk.checksum
              then serve l chunk.chunk_id name (attempted + 1) corrupt d
              else damaged
        ]
      ]
      else (err cancelled, l)

  -- retrieveChunk
  unfoldable pub retrieve_chunk :
      Lilio P → (ℕ → Bool) → ChunkInfo → Result LilioError Bytes × Lilio P
  unfolding try_replicas order_replicas
  retrieve_chunk l alive chunk =
      try_replicas l alive chunk (order_replicas l chunk.storage_nodes) 0 0 []

  -- The inner loop of deleteChunks.
  unfoldable pub delete_from : Lilio P → Text → List Text → Lilio P
  unfolding delete_on
  delete_from l chunk_id [] = l
  delete_from l chunk_id (name ∷ names) = elim (lookup name l.registry) [
    | none ↦ delete_from l chunk_id names
    | some b ↦
        let (deleted, l') = delete_on l name b chunk_id in
        delete_from (if deleted then record_metric (chunk_deleted name) l' else l') chunk_id names
  ]

  -- deleteChunks
  unfoldable pub delete_chunks : Lilio P → List ChunkInfo → Lilio P
  unfolding delete_from
  delete_chunks l [] = l
  delete_chunks l (c ∷ cs) = delete_chunks (delete_from l c.chunk_id c.storage_nodes) cs
