-- ===== src/Coordinator/Objects/Rest.antt =====
-- What the methods of pkg/storage/lilio.go that store and delete chunks leave alone.
use lilio.Prelude.{
  List, Option, Option-cases, Result-cases, Text, [], arith, if◌then◌else◌, inl, inr, int_eq,
  length, nat_eq, none, refl, some, text_eq, true, ℕ, ◌++◌, ◌∙◌, ◌∷◌, ◌≡◌,
}
use lilio.Prelude.Dict.{lookup}
use lilio.Prelude.Sorting.{sort_strings}
use lilio.Storage.{Bytes}
use lilio.Metadata.{ChunkInfo}
use lilio.Crypto.{Encryptor}
use lilio.Coordinator.{Lilio, Platform, chunk_deleted, chunk_stored, quorum_write, record_metric}
use lilio.Coordinator.Objects.{
  PutRequest, choose_targets, chunk_id_of, place_chunk, put_chunk, put_chunks, record_stored,
  seal_chunk, send_chunk, store_all, write_chunk,
}
use lilio.Coordinator.Replicas.{delete_chunks, delete_from, delete_on, store_on}
use lilio.Ring.{get_nodes}
use lilio.Coordinator.Backends.{online_backends}

module _ {P : Platform} where
  -- Nothing but the backends and the metrics differs.
  abbrev pub SameRest : Lilio P → Lilio P → Type 0
  SameRest l l' =
      (l'.metadata ≡ l.metadata) × (l'.encryptors ≡ l.encryptors) × (l'.quorum ≡ l.quorum)

  pub SameRest-trans : (l l' l'' : Lilio P) → SameRest l l' → SameRest l' l'' → SameRest l l''
  SameRest-trans l l' l'' (m, e, q) (m', e', q') = (m' ∙ m, e' ∙ e, q' ∙ q)

  pub store_all-SameRest :
      (targets : List Text) (l : Lilio P) (id : Text) (d : Bytes) (done : List Text)
      → SameRest l (store_all l id d targets done).1
  unfolding store_all store_on
  store_all-SameRest [] l id d done = (refl, refl, refl)
  store_all-SameRest (name ∷ targets) l id d done = elim (Option-cases (lookup name l.registry)) [
    | inl gone ↦ rw (gone, store_all) (store_all-SameRest targets l id d done)
    | inr (b, here) ↦ rw (here, store_all) (store_all-SameRest targets _ id d _)
  ]

  pub record_stored-SameRest :
      (names : List Text) (size : ℕ) (l : Lilio P) → SameRest l (record_stored names size l)
  unfolding record_stored
  record_stored-SameRest [] size l = (refl, refl, refl)
  record_stored-SameRest (name ∷ names) size l =
      record_stored-SameRest names size (record_metric (chunk_stored name size) l)

  pub write_chunk-SameRest :
      (l : Lilio P) (id : Text) (i size : ℕ) (d : Bytes) (intended targets : List Text)
      → SameRest l (write_chunk l id i size d intended targets).1
  unfolding write_chunk
  write_chunk-SameRest l id i size d intended targets =
      let (successful, l1) = store_all l id d targets [] in
      let l2 = record_metric (quorum_write true (length targets) (length successful)) l1 in
      ground (
        arith,
        store_all-SameRest targets l id d [],
        record_stored-SameRest (sort_strings successful) size l2,
      )

  send_chunk-SameRest :
      (l : Lilio P) (id : Text) (i size : ℕ) (d : Bytes) (intended targets : List Text)
      → SameRest l (send_chunk l id i size d intended targets).1
  unfolding send_chunk
  send_chunk-SameRest l id i size d intended [] = (refl, refl, refl)
  send_chunk-SameRest l id i size d intended (target ∷ targets) =
      write_chunk-SameRest l id i size d intended (target ∷ targets)

  choose_targets-SameRest :
      (l : Lilio P) (id : Text) (i size : ℕ) (d : Bytes) (nodes : Option (List Text))
      → SameRest l (choose_targets l id i size d nodes).1
  unfolding choose_targets
  choose_targets-SameRest l id i size d none = (refl, refl, refl)
  choose_targets-SameRest l id i size d (some []) = (refl, refl, refl)
  choose_targets-SameRest l id i size d (some (node ∷ nodes)) =
      send_chunk-SameRest l id i size d (node ∷ nodes) (online_backends l (node ∷ nodes))

  pub put_chunk-SameRest :
      (l : Lilio P) (rq : PutRequest) (e : Option Encryptor) (d : Bytes) (i : ℕ)
      → SameRest l (put_chunk l rq e d i).1
  unfolding put_chunk place_chunk
  put_chunk-SameRest l rq e d i = elim (Option-cases (seal_chunk P.cipher e (rq.nonces i) d)) [
    | inl no_nonce ↦ rw (no_nonce, put_chunk) (refl, refl, refl)
    | inr (sealed, done) ↦
        rw (done, put_chunk)
          (choose_targets-SameRest l (chunk_id_of rq.object_id i) i (length d) sealed
            (get_nodes P.sha256 l.hash_ring (chunk_id_of rq.object_id i) l.replication_factor))
  ]

  pub put_chunks-SameRest :
      (chunks : List (Bytes × ℕ)) (l : Lilio P) (rq : PutRequest) (e : Option Encryptor)
      (infos : List ChunkInfo)
      → SameRest l (put_chunks l rq e chunks infos).1
  unfolding put_chunks
  put_chunks-SameRest [] l rq e infos = (refl, refl, refl)
  put_chunks-SameRest ((d, i) ∷ chunks) l rq e infos =
      let (stored, l2) = put_chunk l rq e d i in
      let kept = put_chunk-SameRest l rq e d i in
      elim (Result-cases stored) [
        | inl (x, refused) ↦ rw (refused, put_chunks) kept
        | inr (info, done) ↦
            rw (done, put_chunks)
              (SameRest-trans l l2 (put_chunks l2 rq e chunks (infos ++ info ∷ [])).1 kept
                (put_chunks-SameRest chunks l2 rq e (infos ++ info ∷ [])))
      ]

  delete_from-SameRest :
      (names : List Text) (l : Lilio P) (id : Text) → SameRest l (delete_from l id names)
  unfolding delete_from delete_on
  delete_from-SameRest [] l id = (refl, refl, refl)
  delete_from-SameRest (name ∷ names) l id = elim (Option-cases (lookup name l.registry)) [
    | inl gone ↦ rw (gone, delete_from) (delete_from-SameRest names l id)
    | inr (b, here) ↦
        let (deleted, l2) = delete_on l name b id in
        let l3 = if deleted then record_metric (chunk_deleted name) l2 else l2 in
        let kept : SameRest l l3 = ground arith in
        rw (here, delete_from)
          (SameRest-trans l l3 (delete_from l3 id names) kept (delete_from-SameRest names l3 id))
  ]

  pub delete_chunks-SameRest :
      (chunks : List ChunkInfo) (l : Lilio P) → SameRest l (delete_chunks l chunks)
  unfolding delete_chunks
  delete_chunks-SameRest [] l = (refl, refl, refl)
  delete_chunks-SameRest (c ∷ chunks) l =
      SameRest-trans l (delete_from l c.chunk_id c.storage_nodes)
        (delete_chunks (delete_from l c.chunk_id c.storage_nodes) chunks)
        (delete_from-SameRest c.storage_nodes l c.chunk_id)
        (delete_chunks-SameRest chunks (delete_from l c.chunk_id c.storage_nodes))
