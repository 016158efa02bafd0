-- ===== src/Coordinator/Objects/Holding.antt =====
-- What the backends hold of an object between PutObject and GetObject of pkg/storage/lilio.go.
use lilio.Prelude.{
  All, Bool, List, Option-cases, Result-cases, Text, [], any, ap, arith, bytes, if◌then◌else◌, inl,
  inr, int_eq, is_ok, itoa, itoa_injective, length, nat_eq, none, ok, refl, select, some, strip,
  strip-append, sym, text_eq, true, ℕ, ◌++◌, ◌<◌, ◌∙◌, ◌∷◌, ◌≡◌, ◌≢◌, ◌⊎◌,
}
use lilio.Prelude.Dict.{lookup, lookup-insert}
use lilio.Storage.{Bytes, IsLawful}
use lilio.Metadata.{ChunkInfo}
use lilio.Coordinator.{Lilio, Platform, chunk_deleted, record_metric}
use lilio.Coordinator.Replicas.{delete_chunks, delete_from, delete_on, retrieve_chunk, store_on}
use lilio.Coordinator.Replicas.Reading.{
  is_intact, reads, retrieve_chunk-available, retrieve_chunk_sound, supplies,
}
use lilio.Coordinator.Replicas.Effects.{reads-store_on, retrieve_chunk-Improves}
use lilio.Coordinator.Backends.{online_backends}
use lilio.Coordinator.Objects.{chunk_id_of, store_all}

-- `fmt.Sprintf` gives different chunks of an object different IDs.
pub chunk_id_of_injective : (id : Text) (i j : ℕ) → chunk_id_of id i ≡ chunk_id_of id j → i ≡ j
unfolding chunk_id_of
chunk_id_of_injective id i j h =
    let prefix = id ++ bytes "_chunk_" in
    itoa_injective i j (
      sym (strip-append prefix (itoa i))
      ∙ ap (λ t. strip t prefix) h
      ∙ strip-append prefix (itoa j))

pub any_of_select :
    (p : Text → Bool) (names : List Text) → 0 < length (select p names) → any p names ≡ true
any_of_select p [] h = absurd (omega arith)
any_of_select p (n ∷ names) h = ground (arith, any_of_select p names)

module _ {P : Platform} where
  -- All backends answer as before for a chunk.
  abbrev pub SameReads : Lilio P → Lilio P → Text → Type 0
  SameReads l l' id = (n : Text) → reads l' n id ≡ reads l n id

  -- No backend has other bytes under the ID.
  abbrev pub OnlyAs : Lilio P → Text → Bytes → Type 0
  OnlyAs l id d = (n : Text) → (reads l n id ≡ none) ⊎ (reads l n id ≡ some d)

  -- A chunk can be read, and nothing but its bytes can be read under its ID.
  abbrev pub Held : Lilio P → ChunkInfo → Bytes → Type 0
  Held l c d = OnlyAs l c.chunk_id d × (any (is_intact l c) c.storage_nodes ≡ true)

  same_any :
      (l l' : Lilio P) (c : ChunkInfo) (names : List Text)
      → SameReads l l' c.chunk_id
      → any (is_intact l' c) names ≡ any (is_intact l c) names
  same_any l l' c [] same = refl
  same_any l l' c (n ∷ names) same = ground (arith, same n, same_any l l' c names same)

  pub Held-stable :
      (l l' : Lilio P) (c : ChunkInfo) (d : Bytes)
      → SameReads l l' c.chunk_id
      → Held l c d
      → Held l' c d
  Held-stable l l' c d same (only, intact) =
      (λ n. rw (same n) (only n), same_any l l' c c.storage_nodes same ∙ intact)

  supplied_value :
      (l : Lilio P) (id : Text) (s d : Bytes) (names : List Text)
      → OnlyAs l id s
      → any (supplies l id d) names ≡ true
      → d ≡ s
  supplied_value l id s d [] only h = ground arith
  supplied_value l id s d (n ∷ names) only h =
      ground (arith, only n, supplied_value l id s d names only)

  -- retrieveChunk gives back the bytes that are held, as long as the context is not cancelled.
  pub retrieve_chunk-Held :
      (l : Lilio P) (alive : ℕ → Bool) (c : ChunkInfo) (s : Bytes)
      → ((j : ℕ) → alive j ≡ true)
      → Held l c s
      → (retrieve_chunk l alive c).0 ≡ ok s
  retrieve_chunk-Held l alive c s live (only, intact) =
      let found : is_ok (retrieve_chunk l alive c).0 ≡ true =
        retrieve_chunk-available l alive c live ∙ intact in
      elim (Result-cases (retrieve_chunk l alive c).0) [
        | inl (x, failed) ↦ ground arith
        | inr (d, got) ↦
            got
            ∙ ap ok (
                supplied_value l c.chunk_id s d c.storage_nodes only
                  (retrieve_chunk_sound l alive c d got).1)
      ]

  pub any-online_backends :
      (l : Lilio P) (p : Text → Bool) (names : List Text)
      → any p (online_backends l names) ≡ true
      → any p names ≡ true
  unfolding online_backends
  any-online_backends l p [] h = h
  any-online_backends l p (n ∷ names) h = ground (arith, any-online_backends l p names)

module _ {P : Platform} {ids : Text → Bool} (L : IsLawful P.backend ids) where
  pub store_all-OnlyAs :
      (targets : List Text) (l : Lilio P) (id : Text) (d : Bytes) (done : List Text)
      → ids id ≡ true
      → OnlyAs l id d
      → OnlyAs (store_all l id d targets done).1 id d
  unfolding store_all
  store_all-OnlyAs [] l id d done named only = only
  store_all-OnlyAs (name ∷ targets) l id d done named only =
      elim (Option-cases (lookup name l.registry)) [
        | inl gone ↦ rw (gone, store_all) (store_all-OnlyAs targets l id d done named only)
        | inr (b, here) ↦
            let (stored, l2) = store_on l name b id d in
            let done2 = if stored then done ++ (P.backend.info b).name ∷ [] else done in
            let only2 : OnlyAs l2 id d =
              λ n. ground (arith, only n, reads-store_on L l name b id d n id named named here) in
            rw (here, store_all) (store_all-OnlyAs targets l2 id d done2 named only2)
      ]

  delete_from-SameReads :
      (names : List Text) (l : Lilio P) (id c : Text)
      → ids id ≡ true
      → ids c ≡ true
      → c ≢ id
      → SameReads l (delete_from l id names) c
  unfolding delete_from delete_on
  delete_from-SameReads [] l id c named asked ne n = refl
  delete_from-SameReads (name ∷ names) l id c named asked ne n =
      elim (Option-cases (lookup name l.registry)) [
        | inl gone ↦ rw (gone, delete_from) (delete_from-SameReads names l id c named asked ne n)
        | inr (b, here) ↦
            let (deleted, l2) = delete_on l name b id in
            let l3 : Lilio P = if deleted then record_metric (chunk_deleted name) l2 else l2 in
            let kept : reads l3 n c ≡ reads l n c = ground (
              arith,
              lookup-insert n name (P.backend.delete_chunk b id).1 l.registry,
              L.retrieve-delete_ne b id c named asked,
            ) in
            rw (here, delete_from) (delete_from-SameReads names l3 id c named asked ne n ∙ kept)
      ]

  -- deleteChunks leaves the chunks alone that it is not given.
  pub delete_chunks-SameReads :
      (chunks : List ChunkInfo) (l : Lilio P) (id : Text)
      → ids id ≡ true
      → All (λ c. (ids c.chunk_id ≡ true) × (id ≢ c.chunk_id)) chunks
      → SameReads l (delete_chunks l chunks) id
  unfolding delete_chunks
  delete_chunks-SameReads [] l id asked ne n = refl
  delete_chunks-SameReads (c ∷ chunks) l id asked ((named, ne), nes) n =
      delete_chunks-SameReads chunks (delete_from l c.chunk_id c.storage_nodes) id asked nes n
      ∙ delete_from-SameReads c.storage_nodes l c.chunk_id id named asked ne n

  pub retrieve_chunk-SameReads :
      (l : Lilio P) (alive : ℕ → Bool) (c : ChunkInfo) (id : Text)
      → ids c.chunk_id ≡ true
      → ids id ≡ true
      → id ≢ c.chunk_id
      → SameReads l (retrieve_chunk l alive c).1 id
  retrieve_chunk-SameReads l alive c id named asked ne n =
      elim (retrieve_chunk-Improves L l alive c named n id asked) [
        | inl same ↦ same
        | inr (e, _) ↦ absurd (ne e)
      ]
