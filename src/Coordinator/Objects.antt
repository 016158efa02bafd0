-- ===== src/Coordinator/Objects.antt =====
-- pkg/storage/lilio.go: objects, from PutObject to DeleteObject.
pub mod Writing
pub mod Rest
pub mod Holding
pub mod Chunks
pub mod Puts
pub mod Turns
pub mod Racing
pub mod RoundTrip
pub mod Commit
pub mod Old
use mathlib.Core.List.{flatten}
use lilio.Prelude.{
  Bool, List, Option, Result, Text, [], bytes, err, false, hex, if◌then◌else◌, int_eq, is_ok, itoa,
  leb, length, ltb, nat_eq, none, not, ok, pos, some, text_eq, true, ℕ, ℤ, ◌++◌, ◌+◌, ◌∷◌,
}
use lilio.Prelude.Dict.{lookup}
use lilio.Prelude.Sorting.{sort_slice, sort_strings}
use lilio.Storage.{Bytes}
use lilio.Metadata.{ChunkInfo, MetaError, ObjectMetadata, object_not_found, revision_mismatch}
use lilio.Crypto.{Cipher, Encryptor, decrypt, encrypt}
use lilio.Ring.{get_nodes}
use lilio.Chunking.{NextChunk, end_of_input}
use lilio.Coordinator.{
  Lilio, LilioError, Platform, bucket_locked, checksum_of, chunk_stored, concurrent_write,
  decryption_failed, encryption_failed, from_store, no_backends, no_healthy_backends,
  no_such_bucket, object_deleted, object_got, object_put, placement_diverges, quorum_failed,
  quorum_write, read_failed, record_metric, writer_failed,
}
use lilio.Coordinator.Backends.{get_encryptor, online_backends}
use lilio.Coordinator.Replicas.{delete_chunks, retrieve_chunk, store_on}

-- What a PUT is given: the key, the type, and what Go's library answers to it: the object ID from
-- generateUUID, the time, and the random nonce for each chunk.
pub record PutRequest : Type 0 where
  pub bucket : Text
  pub key : Text
  pub content_type : Text
  pub object_id : Text
  pub now : ℕ
  pub nonces : ℕ → Option Bytes

-- `fmt.Sprintf("%s_chunk_%d", objectId, chunkIndex)`
unfoldable pub chunk_id_of : Text → ℕ → Text
unfolding itoa
chunk_id_of object_id i = object_id ++ bytes "_chunk_" ++ itoa i

-- The bytes of a chunk as they are stored.
unfoldable pub seal_chunk : Cipher → Option Encryptor → Option Bytes → Bytes → Option Bytes
seal_chunk c none _ d = some d
seal_chunk c (some e) nonce d = encrypt c e nonce d

-- The bytes that the client sent.
abbrev pub input_bytes : List (Bytes × ℕ) → Bytes
input_bytes [] = []
input_bytes ((d, i) ∷ rest) = d ++ input_bytes rest

-- The revision that a PUT replaces, and its chunks; 0 and none if there is no object to read.
abbrev pub previous : Result MetaError ObjectMetadata → ℤ × List ChunkInfo
previous (ok m) = (m.revision, m.chunks)
previous (err e) = (pos 0, [])

-- The order in which GetObject reads chunks.
abbrev pub by_index : ChunkInfo → ChunkInfo → Bool
by_index a b = ltb a.chunk_index b.chunk_index

-- The bytes of a chunk as the client gets them.
unfoldable pub open_chunk : Cipher → Option Encryptor → Bytes → Option Bytes
open_chunk c none d = some d
open_chunk c (some e) d = decrypt c e d

-- What PutObject records of a chunk: all the nodes that it belongs on, not only those that have it.
abbrev pub info_of : Platform → Text → ℕ → ℕ → Bytes → List Text → ChunkInfo
info_of P id i size d intended = record {
  chunk_id = id;
  chunk_index = i;
  size = size;
  checksum = checksum_of P d;
  storage_nodes = sort_strings intended;
}

module _ {P : Platform} where
  -- The goroutines that store one chunk on its target nodes, one after another: the names of the
  -- backends that accepted it.
  unfoldable pub store_all : Lilio P → Text → Bytes → List Text → List Text → List Text × Lilio P
  unfolding store_on
  store_all l chunk_id d [] successful = (successful, l)
  store_all l chunk_id d (name ∷ names) successful = elim (lookup name l.registry) [
    | none ↦ store_all l chunk_id d names successful
    | some b ↦
        let (stored, l') = store_on l name b chunk_id d in
        store_all l' chunk_id d names
          (if stored then successful ++ (P.backend.info b).name ∷ [] else successful)
  ]

  -- The last loop of a chunk in PutObject.
  unfoldable pub record_stored : List Text → ℕ → Lilio P → Lilio P
  record_stored [] size l = l
  record_stored (name ∷ names) size l =
      record_stored names size (record_metric (chunk_stored name size) l)

  -- A chunk of PutObject behind the choice of its nodes: the stores, the quorum and its record.
  unfoldable pub write_chunk :
      Lilio P → Text → ℕ → ℕ → Bytes → List Text → List Text → Result LilioError ChunkInfo × Lilio P
  write_chunk l chunk_id i size d intended targets =
      let (successful, l1) = store_all l chunk_id d targets [] in
      let reached = leb l.quorum.w (length successful) in
      let l2 = record_metric (quorum_write reached (length targets) (length successful)) l1 in
      if reached
      then (
        ok (info_of P chunk_id i size d intended),
        record_stored (sort_strings successful) size l2,
      )
      else (err quorum_failed, l2)

  -- The test on the target nodes.
  unfoldable pub send_chunk :
      Lilio P → Text → ℕ → ℕ → Bytes → List Text → List Text → Result LilioError ChunkInfo × Lilio P
  send_chunk l chunk_id i size d intended [] = (err no_healthy_backends, l)
  send_chunk l chunk_id i size d intended (target ∷ targets) =
      write_chunk l chunk_id i size d intended (target ∷ targets)

  -- The test on the intended nodes, and of those the ones that are up.
  unfoldable pub choose_targets :
      Lilio P → Text → ℕ → ℕ → Bytes → Option (List Text) → Result LilioError ChunkInfo × Lilio P
  unfolding send_chunk
  choose_targets l chunk_id i size d none = (err placement_diverges, l)
  choose_targets l chunk_id i size d (some []) = (err no_backends, l)
  choose_targets l chunk_id i size d (some (node ∷ nodes)) =
      send_chunk l chunk_id i size d (node ∷ nodes) (online_backends l (node ∷ nodes))

  -- A chunk of PutObject from the hash ring on.
  unfoldable pub place_chunk :
      Lilio P → Text → ℕ → ℕ → Bytes → Result LilioError ChunkInfo × Lilio P
  unfolding choose_targets
  place_chunk l chunk_id i size d =
      choose_targets l chunk_id i size d
        (get_nodes P.sha256 l.hash_ring chunk_id l.replication_factor)

  -- One round of the loop of PutObject.
  unfoldable pub put_chunk :
      Lilio P → PutRequest → Option Encryptor → Bytes → ℕ → Result LilioError ChunkInfo × Lilio P
  put_chunk l rq e d i = elim (seal_chunk P.cipher e (rq.nonces i) d) [
    | none ↦ (err encryption_failed, l)
    | some sealed ↦ place_chunk l (chunk_id_of rq.object_id i) i (length d) sealed
  ]

  -- The loop of PutObject over the chunks that the ChunkReader gives, with their indices.
  unfoldable pub put_chunks :
      Lilio P
      → PutRequest
      → Option Encryptor
      → List (Bytes × ℕ)
      → List ChunkInfo
      → Result LilioError (List ChunkInfo) × Lilio P
  unfolding put_chunk
  put_chunks l rq e [] infos = (ok infos, l)
  put_chunks l rq e ((d, i) ∷ rest) infos =
      let (stored, l') = put_chunk l rq e d i in
      elim stored [ err x ↦ (err x, l') | ok info ↦ put_chunks l' rq e rest (infos ++ info ∷ []) ]

  -- The metadata that PutObject commits.
  unfoldable pub new_metadata :
      Lilio P → PutRequest → Bool → Bytes → List ChunkInfo → ObjectMetadata
  unfolding hex
  new_metadata l rq encrypted whole infos = record {
    revision = pos 0;
    object_id = rq.object_id;
    bucket = rq.bucket;
    key = rq.key;
    size = length whole;
    checksum = hex (P.sha256 whole);
    chunk_size = l.chunk_size;
    total_chunks = length infos;
    chunks = infos;
    created_at = rq.now;
    content_type = rq.content_type;
    encrypted = encrypted;
  }

  -- The commit of PutObject and what follows it. The chunks of a write that lost a race are
  -- removed, and so are those of the object that a committed write replaces.
  unfoldable pub commit :
      Lilio P → ObjectMetadata → ℤ → List ChunkInfo → Result LilioError ObjectMetadata × Lilio P
  commit l meta expected superseded =
      let (saved, m) = P.store.compare_and_save l.metadata meta expected in
      let l' : Lilio P = record l { metadata = m } in
      elim saved [
        | err revision_mismatch ↦ (err concurrent_write, delete_chunks l' meta.chunks)
        | err e ↦ (err (from_store e), l')
        | ok stored ↦ (
          ok stored,
          record_metric (object_put meta.bucket meta.size) (delete_chunks l' superseded),
        )
      ]

  -- PutObject behind its loop: what the loop stored, and the answer of NextChunk that ended it.
  unfoldable pub finish_put :
      Lilio P
      → PutRequest
      → Bool
      → ℤ
      → List ChunkInfo
      → Bytes
      → Result LilioError (List ChunkInfo)
      → NextChunk
      → Result LilioError ObjectMetadata × Lilio P
  finish_put l rq encrypted expected superseded whole (err x) ending = (err x, l)
  finish_put l rq encrypted expected superseded whole (ok infos) end_of_input =
      commit l (new_metadata l rq encrypted whole infos) expected superseded
  finish_put l rq encrypted expected superseded whole (ok infos) _ = (err read_failed, l)

  -- PutObject from the loop on.
  unfoldable pub put_with :
      Lilio P
      → PutRequest
      → Bool
      → Option Encryptor
      → ℤ
      → List ChunkInfo
      → List (Bytes × ℕ) × NextChunk
      → Result LilioError ObjectMetadata × Lilio P
  unfolding finish_put
  put_with l rq encrypted e expected superseded (chunks, ending) =
      let (stored, l') = put_chunks l rq e chunks [] in
      finish_put l' rq encrypted expected superseded (input_bytes chunks) stored ending

  -- `isEncrypted, _ := s.Metadata.IsBucketEncrypted(ctx, bucket)`
  unfoldable pub is_encrypted : Lilio P → Text → Bool
  is_encrypted l bucket = elim (P.store.get_bucket l.metadata bucket) [
    | ok b ↦ b.encryption.enabled
    | err e ↦ false
  ]

  -- PutObject. The input is what a loop over NextChunk meets: `read_chunks` of the reader.
  unfoldable pub put_object :
      Lilio P
      → PutRequest
      → List (Bytes × ℕ) × NextChunk
      → Result LilioError ObjectMetadata × Lilio P
  put_object l rq input =
      let (expected, superseded) = previous (P.store.get_object l.metadata rq.bucket rq.key) in
      if not (P.store.bucket_exists l.metadata rq.bucket)
      then (err no_such_bucket, l)
      else if is_encrypted l rq.bucket
      then elim (get_encryptor l rq.bucket) [
        | none ↦ (err bucket_locked, l)
        | some e ↦ put_with l rq true (some e) expected superseded input
      ]
      else put_with l rq false none expected superseded input

  -- The loop of GetObject; `out` is what was written. `alive j` are the answers of the context
  -- while chunk number `j` is fetched, `accepts j` whether the writer takes it.
  unfoldable pub stream :
      Lilio P
      → (ℕ → ℕ → Bool)
      → (ℕ → Bool)
      → Option Encryptor
      → List ChunkInfo
      → ℕ
      → Bytes
      → Result LilioError (Unit {0}) × Bytes × Lilio P
  unfolding open_chunk
  stream l alive accepts e [] j out = (ok tt, out, l)
  stream l alive accepts e (c ∷ cs) j out =
      let (fetched, l') = retrieve_chunk l (alive j) c in
      elim fetched [
        | err x ↦ (err x, out, l')
        | ok d ↦ elim (open_chunk P.cipher e d) [
          | none ↦ (err decryption_failed, out, l')
          | some plain ↦
              let rest = stream l' alive accepts e cs (j + 1) (out ++ plain) in
              if accepts j then rest else (err writer_failed, out, l')
        ]
      ]

  -- GetObject once it has the metadata and the encryptor.
  unfoldable pub get_with :
      Lilio P
      → (ℕ → ℕ → Bool)
      → (ℕ → Bool)
      → Option Encryptor
      → Text
      → ObjectMetadata
      → Result LilioError (Unit {0}) × Bytes × Lilio P
  unfolding stream sort_slice
  get_with l alive accepts e bucket meta =
      let (r, out, l') = stream l alive accepts e (sort_slice by_index meta.chunks) 0 [] in
      (r, out, if is_ok r then record_metric (object_got bucket meta.size) l' else l')

  -- GetObject: its result and what it has written.
  unfoldable pub get_object :
      Lilio P
      → (ℕ → ℕ → Bool)
      → (ℕ → Bool)
      → Text
      → Text
      → Result LilioError (Unit {0}) × Bytes × Lilio P
  unfolding get_with get_encryptor
  get_object l alive accepts bucket key = elim (P.store.get_object l.metadata bucket key) [
    | err e ↦ (err (from_store e), [], l)
    | ok meta ↦
        if meta.encrypted
        then elim (get_encryptor l bucket) [
          | none ↦ (err bucket_locked, [], l)
          | some e ↦ get_with l alive accepts (some e) bucket meta
        ]
        else get_with l alive accepts none bucket meta
  ]

  -- HeadObject
  unfoldable pub head_object : Lilio P → Text → Text → Result MetaError ObjectMetadata
  head_object l bucket key = P.store.get_object l.metadata bucket key

  -- DeleteObject
  unfoldable pub delete_object : Lilio P → Text → Text → Result LilioError (Unit {0}) × Lilio P
  delete_object l bucket key = elim (P.store.get_object l.metadata bucket key) [
    | err object_not_found ↦ (ok tt, l)
    | err e ↦ (err (from_store e), l)
    | ok meta ↦
        let (deleted, m) = P.store.delete_object l.metadata bucket key in
        let l' : Lilio P = record l { metadata = m } in
        elim deleted [
          | err object_not_found ↦ (ok tt, l')
          | err e ↦ (err (from_store e), l')
          | ok _ ↦ (ok tt, record_metric (object_deleted bucket) (delete_chunks l' meta.chunks))
        ]
  ]
