-- ===== src/Coordinator/Replicas/Effects.antt =====
-- What the methods of pkg/storage/lilio.go that store chunks do to the replicas.
use lilio.Prelude.{
  Bool, List, Option-cases, Text, [], arith, if◌then◌else◌, inl, inr, int_eq, length, nat_eq, refl,
  some, text_eq, true, ℕ, ◌&&◌, ◌++◌, ◌+◌, ◌==◌, ◌∷◌, ◌≡◌, ◌⊎◌,
}
use lilio.Prelude.Dict.{lookup, lookup-insert}
use lilio.Storage.{Bytes, IsLawful}
use lilio.Metadata.{ChunkInfo}
use lilio.Coordinator.{
  Lilio, Platform, checksum_of, chunk_retrieved, quorum_read, read_repaired, record_metric,
}
use lilio.Coordinator.Replicas.{
  order_replicas, read_repair, retrieve_chunk, serve, store_on, try_replicas,
}
use lilio.Coordinator.Replicas.Reading.{is_intact, reads}

module _ {P : Platform} where
  -- A replica of some chunk answers as before, or it is now an intact copy of the chunk in hand.
  abbrev pub ImprovesAt : ChunkInfo → Text → Text → Lilio P → Lilio P → Type 0
  ImprovesAt chunk n c l l' =
      (reads l' n c ≡ reads l n c) ⊎ ((c ≡ chunk.chunk_id) × (is_intact l' chunk n ≡ true))

  -- So for every replica of every chunk whose ID passes the test.
  abbrev pub Improves : (Text → Bool) → ChunkInfo → Lilio P → Lilio P → Type 0
  Improves ids chunk l l' = (n c : Text) → ids c ≡ true → ImprovesAt chunk n c l l'

  pub ImprovesAt-trans :
      (chunk : ChunkInfo) (n c : Text) (l l' l'' : Lilio P)
      → ImprovesAt chunk n c l l'
      → ImprovesAt chunk n c l' l''
      → ImprovesAt chunk n c l l''
  ImprovesAt-trans chunk n c l l' l'' first second = ground arith

module _ {P : Platform} {ids : Text → Bool} (L : IsLawful P.backend ids) where
  pub reads-store_on :
      (l : Lilio P) (name : Text) (b : P.backend.State) (id : Text) (d : Bytes) (n c : Text)
      → ids id ≡ true
      → ids c ≡ true
      → lookup name l.registry ≡ some b
      → reads (store_on l name b id d).1 n c
        ≡ (if n == name && c == id && (store_on l name b id d).0 then some d else reads l n c)
  unfolding store_on
  reads-store_on l name b id d n c named asked here = ground (
    arith,
    lookup-insert n name (P.backend.store_chunk b id d).1 l.registry,
    L.retrieve-store b id d named,
    L.retrieve-store_failed b id d named,
    L.retrieve-store_ne b id c d named asked,
  )

  pub store_on-ImprovesAt :
      (l : Lilio P) (name : Text) (b : P.backend.State) (chunk : ChunkInfo) (d : Bytes) (n c : Text)
      → ids chunk.chunk_id ≡ true
      → ids c ≡ true
      → lookup name l.registry ≡ some b
      → checksum_of P d ≡ chunk.checksum
      → ImprovesAt chunk n c l (store_on l name b chunk.chunk_id d).1
  store_on-ImprovesAt l name b chunk d n c named asked here good =
      ground (arith, reads-store_on l name b chunk.chunk_id d n c named asked here)

  read_repair-ImprovesAt :
      (names : List Text) (l : Lilio P) (chunk : ChunkInfo) (d : Bytes) (n c : Text)
      → ids chunk.chunk_id ≡ true
      → ids c ≡ true
      → checksum_of P d ≡ chunk.checksum
      → ImprovesAt chunk n c l (read_repair l chunk.chunk_id d names)
  unfolding read_repair
  read_repair-ImprovesAt [] l chunk d n c named asked good = inl refl
  read_repair-ImprovesAt (name ∷ names) l chunk d n c named asked good =
      elim (Option-cases (lookup name l.registry)) [
        | inl gone ↦
            rw (gone, read_repair) (read_repair-ImprovesAt names l chunk d n c named asked good)
        | inr (b, here) ↦
            let (stored, l') = store_on l name b chunk.chunk_id d in
            let l2 : Lilio P = if stored then record_metric (read_repaired name) l' else l' in
            let first : ImprovesAt chunk n c l l2 =
              ground (arith, store_on-ImprovesAt l name b chunk d n c named asked here good) in
            rw (here, read_repair)
              (ImprovesAt-trans chunk n c l l2 (read_repair l2 chunk.chunk_id d names) first
                (read_repair-ImprovesAt names l2 chunk d n c named asked good))
      ]

  serve-ImprovesAt :
      (l : Lilio P) (chunk : ChunkInfo) (name : Text) (tried : ℕ) (corrupt : List Text) (d : Bytes)
      (n c : Text)
      → ids chunk.chunk_id ≡ true
      → ids c ≡ true
      → checksum_of P d ≡ chunk.checksum
      → ImprovesAt chunk n c l (serve l chunk.chunk_id name tried corrupt d).1
  unfolding serve
  serve-ImprovesAt l chunk name tried corrupt d n c named asked good =
      read_repair-ImprovesAt corrupt
        (record_metric (quorum_read true tried 1)
          (record_metric (chunk_retrieved name (length d)) l))
        chunk d n c named asked good

  try_replicas-ImprovesAt :
      (l : Lilio P) (alive : ℕ → Bool) (chunk : ChunkInfo) (names : List Text) (i tried : ℕ)
      (corrupt : List Text) (n c : Text)
      → ids chunk.chunk_id ≡ true
      → ids c ≡ true
      → ImprovesAt chunk n c l (try_replicas l alive chunk names i tried corrupt).1
  unfolding try_replicas
  try_replicas-ImprovesAt l alive chunk [] i tried corrupt n c named asked = inl refl
  try_replicas-ImprovesAt l alive chunk (name ∷ names) i tried corrupt n c named asked =
      let skipped =
        try_replicas-ImprovesAt l alive chunk names (i + 1) tried corrupt n c named asked in
      let silent =
        try_replicas-ImprovesAt l alive chunk names (i + 1) (tried + 1) corrupt n c named asked in
      let damaged =
        try_replicas-ImprovesAt l alive chunk names (i + 1) (tried + 1) (corrupt ++ name ∷ []) n c
          named asked in
      elim (Option-cases (lookup name l.registry)) [
        | inl gone ↦ ground (arith, skipped)
        | inr (b, here) ↦ elim (Option-cases (P.backend.retrieve_chunk b chunk.chunk_id)) [
          | inl failed ↦ ground (arith, silent)
          | inr (d, got) ↦
              ground (
                arith,
                damaged,
                serve-ImprovesAt l chunk name (tried + 1) corrupt d n c named asked,
              )
        ]
      ]

  -- A read does no harm, on backends that keep IsLawful: after retrieveChunk, whatever it
  -- returned, each replica of each chunk answers as it did before, except that replicas of the
  -- chunk that was read may have become intact. For chunk IDs that pass the test of IsLawful.
  pub retrieve_chunk-Improves :
      (l : Lilio P) (alive : ℕ → Bool) (chunk : ChunkInfo)
      → ids chunk.chunk_id ≡ true
      → Improves ids chunk l (retrieve_chunk l alive chunk).1
  unfolding retrieve_chunk
  retrieve_chunk-Improves l alive chunk named n c asked =
      try_replicas-ImprovesAt l alive chunk (order_replicas l chunk.storage_nodes) 0 0 [] n c named
        asked
