-- ===== src/Coordinator/Replicas/Reading.antt =====
-- What retrieveChunk of pkg/storage/lilio.go returns.
use lilio.Prelude.{
  Bool, List, Option, Text, [], any, any-map, ap, arith, false, int_eq, is_ok, map, nat_eq, none,
  ok, refl, some, sym, text_eq, true, ℕ, ◌++◌, ◌+◌, ◌==◌, ◌∙◌, ◌∷◌, ◌≡◌,
}
use lilio.Prelude.Dict.{lookup}
use lilio.Prelude.Sorting.{any-sort_slice, sort_slice}
use lilio.Storage.{Bytes}
use lilio.Metadata.{ChunkInfo}
use lilio.Coordinator.{Lilio, Platform, checksum_of}
use lilio.Coordinator.Replicas.{
  Candidate, candidate_of, order_replicas, preferred, retrieve_chunk, serve, try_replicas,
}

module _ {P : Platform} where
  -- What the backend of that name answers for a chunk; none if there is no such backend.
  abbrev pub reads : Lilio P → Text → Text → Option Bytes
  reads l name chunk_id = elim (lookup name l.registry) [
    | none ↦ none
    | some b ↦ P.backend.retrieve_chunk b chunk_id
  ]

  -- The backend of that name answers with those bytes.
  abbrev pub supplies : Lilio P → Text → Bytes → Text → Bool
  supplies l chunk_id d name = elim (reads l name chunk_id) [
    | none ↦ false
    | some found ↦ found == d
  ]

  -- The backend of that name has a copy that matches the checksum in the metadata.
  abbrev pub is_intact : Lilio P → ChunkInfo → Text → Bool
  is_intact l chunk name = elim (reads l name chunk.chunk_id) [
    | none ↦ false
    | some d ↦ checksum_of P d == chunk.checksum
  ]

  names_of_candidates :
      (l : Lilio P) (names : List Text) → map (λ c. c.name) (map (candidate_of l) names) ≡ names
  unfolding candidate_of
  names_of_candidates l [] = refl
  names_of_candidates l (name ∷ names) = ground (arith, names_of_candidates l names)

  any-order_replicas :
      (l : Lilio P) (p : Text → Bool) (names : List Text)
      → any p (order_replicas l names) ≡ any p names
  unfolding order_replicas
  any-order_replicas l p names =
      any-map p (λ (c : Candidate). c.name) (sort_slice preferred (map (candidate_of l) names))
      ∙ any-sort_slice preferred (λ c. p c.name) (map (candidate_of l) names)
      ∙ sym (any-map p (λ (c : Candidate). c.name) (map (candidate_of l) names))
      ∙ ap (any p) (names_of_candidates l names)

  try_replicas_sound :
      (l : Lilio P) (alive : ℕ → Bool) (chunk : ChunkInfo) (names : List Text) (i n : ℕ)
      (corrupt : List Text) (d : Bytes)
      → (try_replicas l alive chunk names i n corrupt).0 ≡ ok d
      → (checksum_of P d ≡ chunk.checksum) × (any (supplies l chunk.chunk_id d) names ≡ true)
  unfolding try_replicas serve
  try_replicas_sound l alive chunk [] i n corrupt d h = cc
  try_replicas_sound l alive chunk (name ∷ names) i n corrupt d h = ground (
    arith,
    try_replicas_sound l alive chunk names (i + 1) n corrupt d,
    try_replicas_sound l alive chunk names (i + 1) (n + 1) corrupt d,
    try_replicas_sound l alive chunk names (i + 1) (n + 1) (corrupt ++ name ∷ []) d,
  )

  -- What retrieveChunk returns matches the checksum in the metadata, and it is what one of the
  -- chunk's own replicas answered.
  pub retrieve_chunk_sound :
      (l : Lilio P) (alive : ℕ → Bool) (chunk : ChunkInfo) (d : Bytes)
      → (retrieve_chunk l alive chunk).0 ≡ ok d
      → (checksum_of P d ≡ chunk.checksum)
        × (any (supplies l chunk.chunk_id d) chunk.storage_nodes ≡ true)
  unfolding retrieve_chunk
  retrieve_chunk_sound l alive chunk d h =
      let (sum, found) =
        try_replicas_sound l alive chunk (order_replicas l chunk.storage_nodes) 0 0 [] d h in
      (sum, rw any-order_replicas at found)

  try_replicas-available :
      (l : Lilio P) (alive : ℕ → Bool) (chunk : ChunkInfo) (names : List Text) (i n : ℕ)
      (corrupt : List Text)
      → ((j : ℕ) → alive j ≡ true)
      → is_ok (try_replicas l alive chunk names i n corrupt).0 ≡ any (is_intact l chunk) names
  unfolding try_replicas serve
  try_replicas-available l alive chunk [] i n corrupt h = refl
  try_replicas-available l alive chunk (name ∷ names) i n corrupt h = ground (
    arith,
    h i,
    try_replicas-available l alive chunk names (i + 1) n corrupt h,
    try_replicas-available l alive chunk names (i + 1) (n + 1) corrupt h,
    try_replicas-available l alive chunk names (i + 1) (n + 1) (corrupt ++ name ∷ []) h,
  )

  -- A chunk is readable exactly as long as one of its replicas has an intact copy: as long as the
  -- context is not cancelled, retrieveChunk succeeds if and only if some replica answers with
  -- bytes that match the checksum.
  pub retrieve_chunk-available :
      (l : Lilio P) (alive : ℕ → Bool) (chunk : ChunkInfo)
      → ((j : ℕ) → alive j ≡ true)
      → is_ok (retrieve_chunk l alive chunk).0 ≡ any (is_intact l chunk) chunk.storage_nodes
  unfolding retrieve_chunk
  retrieve_chunk-available l alive chunk h =
      try_replicas-available l alive chunk (order_replicas l chunk.storage_nodes) 0 0 [] h
      ∙ any-order_replicas l (is_intact l chunk) chunk.storage_nodes
