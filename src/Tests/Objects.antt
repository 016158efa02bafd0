-- ===== src/Tests/Objects.antt =====
-- Tests of the coordinator, on three backends with two replicas of each chunk.
use lilio.Prelude.{
  All, Bool, List, Option, Result, Text, [], any, ap, arith, bytes, contains, err, false, int_eq,
  is_ok, length, nat_eq, none, not, ok, pos, refl, select, some, text_eq, true, ℕ, ◌↔◌, ◌∷◌, ◌≡◌,
  ◌≤◌,
}
use lilio.Prelude.Dict.{has_key}
use lilio.Storage.{Bytes}
use lilio.Metadata.{ChunkInfo, MetaError, ObjectMetadata, bucket_exists, object_not_found}
use lilio.Coordinator.{Lilio, LilioError, checksum_of, invalid_password}
use lilio.Coordinator.Replicas.{retrieve_chunk}
use lilio.Coordinator.Replicas.Reading.{
  is_intact, retrieve_chunk-available, retrieve_chunk_sound, supplies,
}
use lilio.Coordinator.Objects.{
  PutRequest, delete_object, get_object, head_object, info_of, put_object, write_chunk,
}
use lilio.Coordinator.Objects.Commit.{delete_object_idempotent, put_object_commits}
use lilio.Coordinator.Scrub.{scrub_chunk}
use lilio.Coordinator.Scrub.Chunk.{scrub_chunk-eq-none}
use lilio.Metadata.Memory.Lawful.{memory_store-IsLawful}
use lilio.Coordinator.Backends.{
  create_bucket_with_encryption, get_encryptor, health_check, unlock_bucket,
}
use lilio.Coordinator.Backends.Keys.{
  refused_create_replaces_key, unlock_bucket-create_bucket_with_encryption,
}
use lilio.Coordinator.Backends.Health.{health_check_lem, tells_healthy}
use lilio.Crypto.{new_encryptor_from_password}
use lilio.Tests.Platforms.{Disk, quick_hash, small, tagging, zeros}
use lilio.Ring.{HashRing, get_nodes}
use lilio.Chunking.{NextChunk, end_of_input}
use lilio.Tests.Stores.{one_object}

abbrev pub disk : Text → Bool → Disk
disk name up = record { label = name; up = up; held = [] }

abbrev pub ring : HashRing
ring = record {
  ring = 5 ∷ 10 ∷ 20 ∷ [];
  position_to_node = (5, bytes "d1") ∷ (10, bytes "d2") ∷ (20, bytes "d3") ∷ [];
  node_to_positions = (bytes "d1", 5 ∷ []) ∷ (bytes "d2", 10 ∷ []) ∷ (bytes "d3", 20 ∷ []) ∷ [];
  virtual_nodes = 1;
}

abbrev pub demo : Lilio small
unfolding lilio.Metadata.Memory.memory_store
demo = record {
  chunk_size = 4;
  replication_factor = 2;
  registry =
      (bytes "d1", disk (bytes "d1") true)
      ∷ (bytes "d2", disk (bytes "d2") true)
      ∷ (bytes "d3", disk (bytes "d3") false)
      ∷ [];
  failed_backends = [];
  metadata = one_object;
  hash_ring = ring;
  metrics = [];
  encryptors = [];
  quorum = record { n = 2; w = 1 };
}

wraps_around :
    get_nodes quick_hash ring (bytes "cccccccccccccccccccccccccccccccc") 2
    ≡ some (bytes "d1" ∷ bytes "d2" ∷ [])
unfolding get_nodes nat_eq text_eq lilio.Prelude.Dict.lookup
wraps_around = refl

abbrev pub request : PutRequest
request = record {
  bucket = bytes "a";
  key = bytes "new";
  content_type = [];
  object_id = bytes "id";
  now = 5;
  nonces = λ i. none;
}

abbrev pub input : List (Bytes × ℕ) × NextChunk
input = ((bytes "abcd", 0) ∷ (bytes "ef", 1) ∷ [], end_of_input)

abbrev pub outcome : Result LilioError ObjectMetadata × Lilio small
outcome = put_object demo request input

committed : is_ok outcome.0 ≡ true
unfolding put_object lilio.Metadata.Memory.memory_store lilio.Metadata.Memory.has_bucket
    lilio.Prelude.Dict.has_key lilio.Prelude.Dict.insert text_eq one_object int_eq
    lilio.Prelude.Dict.lookup lilio.Tests.Stores.a_bucket lilio.Coordinator.Objects.is_encrypted
    lilio.Metadata.Memory.get_bucket lilio.Coordinator.Objects.put_with
    lilio.Coordinator.Objects.put_chunks lilio.Coordinator.Objects.seal_chunk
    lilio.Coordinator.Objects.place_chunk lilio.Prelude.nat_eq lilio.Ring.get_nodes
    lilio.Coordinator.Objects.store_all lilio.Coordinator.Objects.record_stored
    lilio.Coordinator.Objects.commit lilio.Coordinator.Objects.new_metadata
    lilio.Metadata.Memory.compare_and_save lilio.Coordinator.Backends.online_backends
    lilio.Coordinator.Replicas.delete_chunks lilio.Prelude.inc64 lilio.Metadata.Memory.full_key
    lilio.Metadata.Memory.get_object lilio.Coordinator.Objects.chunk_id_of
    lilio.Coordinator.Objects.write_chunk lilio.Prelude.Sorting.sort_strings
committed = refl

put_object_commits_example :
    (is_ok outcome.0 ≡ false → outcome.1.metadata ≡ demo.metadata)
    × ((stored : ObjectMetadata)
        → outcome.0 ≡ ok stored
        → head_object outcome.1 (bytes "a") (bytes "new") ≡ ok stored)
put_object_commits_example =
    put_object_commits memory_store-IsLawful demo outcome.1 request input outcome.0 refl

abbrev after_delete : Lilio small
after_delete = (delete_object outcome.1 (bytes "a") (bytes "new")).1

deletes : (delete_object outcome.1 (bytes "a") (bytes "new")).0 ≡ ok tt
unfolding delete_object lilio.Metadata.Memory.delete_object lilio.Prelude.Dict.erase put_object
    lilio.Metadata.Memory.memory_store lilio.Metadata.Memory.has_bucket lilio.Prelude.Dict.has_key
    lilio.Prelude.Dict.insert text_eq one_object int_eq lilio.Prelude.Dict.lookup
    lilio.Tests.Stores.a_bucket lilio.Coordinator.Objects.is_encrypted
    lilio.Metadata.Memory.get_bucket lilio.Coordinator.Objects.put_with
    lilio.Coordinator.Objects.put_chunks lilio.Coordinator.Objects.seal_chunk
    lilio.Coordinator.Objects.place_chunk lilio.Prelude.nat_eq lilio.Ring.get_nodes
    lilio.Coordinator.Objects.store_all lilio.Coordinator.Objects.record_stored
    lilio.Coordinator.Objects.commit lilio.Coordinator.Objects.new_metadata
    lilio.Metadata.Memory.compare_and_save lilio.Coordinator.Backends.online_backends
    lilio.Coordinator.Replicas.delete_chunks lilio.Prelude.inc64 lilio.Metadata.Memory.full_key
    lilio.Metadata.Memory.get_object lilio.Coordinator.Objects.chunk_id_of
    lilio.Coordinator.Objects.write_chunk lilio.Prelude.Sorting.sort_strings
deletes = refl

delete_object_idempotent_example :
    (delete_object after_delete (bytes "a") (bytes "new") ≡ (ok tt, after_delete))
    × (head_object after_delete (bytes "a") (bytes "new") ≡ err object_not_found)
delete_object_idempotent_example =
    delete_object_idempotent memory_store-IsLawful outcome.1 after_delete (bytes "a") (bytes "new")
      (ap (λ r. (r, after_delete)) deletes)

abbrev nodes : List Text
nodes = bytes "d1" ∷ bytes "d2" ∷ []

abbrev written : Result LilioError ChunkInfo × Lilio small
written = write_chunk demo (bytes "c") 0 4 (bytes "abcd") nodes nodes

abbrev the_chunk : ChunkInfo
the_chunk = info_of small (bytes "c") 0 4 (bytes "abcd") nodes

accepted : written.0 ≡ ok the_chunk
unfolding write_chunk lilio.Prelude.Dict.has_key lilio.Prelude.Dict.insert text_eq
    lilio.Coordinator.Objects.store_all lilio.Prelude.Dict.lookup demo
accepted = refl

-- One replica of the chunk was never written.
abbrev missing : Lilio small
missing = (write_chunk demo (bytes "c") 0 4 (bytes "abcd") nodes (bytes "d2" ∷ [])).1

retrieve_chunk-available_example :
    is_ok (retrieve_chunk missing (λ j. true) the_chunk).0
    ≡ any (is_intact missing the_chunk) the_chunk.storage_nodes
retrieve_chunk-available_example =
    retrieve_chunk-available missing (λ j. true) the_chunk (λ j. refl)

reads_back : (retrieve_chunk missing (λ j. true) the_chunk).0 ≡ ok (bytes "abcd")
unfolding retrieve_chunk lilio.Prelude.Sorting.sort_strings lilio.Prelude.Dict.lookup write_chunk
    lilio.Prelude.Dict.has_key lilio.Prelude.Dict.insert text_eq lilio.Coordinator.Objects.store_all
    lilio.Coordinator.Objects.record_stored demo
reads_back = refl

retrieve_chunk_sound_example :
    (checksum_of small (bytes "abcd") ≡ the_chunk.checksum)
    × (any (supplies missing (bytes "c") (bytes "abcd")) the_chunk.storage_nodes ≡ true)
retrieve_chunk_sound_example =
    retrieve_chunk_sound missing (λ j. true) the_chunk (bytes "abcd") reads_back

scrub_chunk-eq-none_example :
    ((scrub_chunk missing
        (bytes "a")
        (bytes "k")
        the_chunk
        (record { deep = true; dry_run = false })).0
      ≡ none)
    ↔ (any (λ n. not (is_intact missing the_chunk n)) the_chunk.storage_nodes ≡ false)
scrub_chunk-eq-none_example = scrub_chunk-eq-none missing (bytes "a") (bytes "k") the_chunk false

abbrev unlocked : Option (Result MetaError (Unit {0})) × Lilio small
unlocked = create_bucket_with_encryption demo 7 (some (zeros 16)) (bytes "secret") (bytes "pass")

unlock_bucket-create_bucket_with_encryption_example :
    ((unlock_bucket unlocked.1 (bytes "secret") (bytes "pass")).0 ≡ ok tt)
    × (get_encryptor (unlock_bucket unlocked.1 (bytes "secret") (bytes "pass")).1 (bytes "secret")
        ≡ get_encryptor unlocked.1 (bytes "secret"))
    × (unlock_bucket unlocked.1 (bytes "secret") (bytes "other")
        ≡ (err invalid_password, unlocked.1))
unfolding create_bucket_with_encryption new_encryptor_from_password nat_eq
    lilio.Metadata.Memory.memory_store lilio.Metadata.Memory.create_bucket_with_encryption
    lilio.Prelude.Dict.has_key one_object int_eq lilio.Prelude.Dict.lookup
    lilio.Tests.Stores.a_bucket lilio.Prelude.Dict.insert text_eq
unlock_bucket-create_bucket_with_encryption_example =
    unlock_bucket-create_bucket_with_encryption memory_store-IsLawful demo unlocked.1 unlocked.1 7
      (zeros 16) (bytes "secret") (bytes "pass") (bytes "other") refl refl (ground arith)

abbrev refused : Option (Result MetaError (Unit {0})) × Lilio small
refused = create_bucket_with_encryption demo 7 (some (zeros 16)) (bytes "a") (bytes "pass")

refused_create_replaces_key_example :
    get_encryptor refused.1 (bytes "a")
    ≡ new_encryptor_from_password tagging (bytes "pass") (zeros 16)
unfolding create_bucket_with_encryption new_encryptor_from_password nat_eq
    lilio.Metadata.Memory.memory_store lilio.Metadata.Memory.create_bucket_with_encryption
    lilio.Prelude.Dict.has_key one_object int_eq lilio.Prelude.Dict.lookup
    lilio.Tests.Stores.a_bucket lilio.Prelude.Dict.insert text_eq
refused_create_replaces_key_example =
    refused_create_replaces_key demo refused.1 7 (zeros 16) (bytes "a") (bytes "pass") bucket_exists
      refl

health_check_lem_example :
    (has_key (bytes "d3") (health_check demo).0 ≡ true)
    × (any tells_healthy (health_check demo).1.metrics ≡ false)
unfolding demo lilio.Prelude.Dict.lookup text_eq
health_check_lem_example = health_check_lem demo (bytes "d3") (refl, (refl, (refl, tt)))
