-- ===== src/Tests/Pods.antt =====
-- Tests of the coordinator on local backends, whose directories are maps.
use lilio.Prelude.{
  All, Bool, List, Option, Result, Text, [], any, ap, arith, bytes, err, false, int_eq, is_ok,
  length, nat_eq, none, not, ok, pos, refl, select, some, text_eq, true, ℕ, ◌∷◌, ◌≡◌, ◌≤◌,
}
use lilio.Storage.{IsLawful}
use lilio.Metadata.{ChunkInfo, ObjectMetadata}
use lilio.Metadata.Memory.{memory_store}
use lilio.Metadata.Memory.Lawful.{memory_store-IsLawful}
use lilio.Coordinator.{Lilio, LilioError, Platform}
use lilio.Coordinator.Objects.{chunk_id_of, get_object, info_of, put_object, write_chunk}
use lilio.Coordinator.Objects.Chunks.{Fresh}
use lilio.Coordinator.Objects.RoundTrip.{get_object-put_object}
use lilio.Coordinator.Objects.Writing.{write_chunk-quorum}
use lilio.Coordinator.Replicas.Reading.{is_intact}
use lilio.Coordinator.Replicas.{retrieve_chunk}
use lilio.Coordinator.Replicas.Reading.{reads}
use lilio.Coordinator.Replicas.Effects.{Improves, retrieve_chunk-Improves}
use lilio.Coordinator.Scrub.{ChunkIssue, scrub_chunk}
use lilio.Coordinator.Scrub.Repair.{scrub_chunk-Improves, scrub_chunk_heals}
use lilio.Coordinator.Scrub.Periodic.{
  cancelled, run_periodic_scrub, run_periodic_scrub_keeps_data, ticked,
}
use lilio.Coordinator.Scrub.Keeps.{is_held, Named}
use lilio.Files.{LocalBackendPod}
use lilio.Files.Backend.{chunk_file, is_object_id, local_backend, local_backend-IsLawful}
use lilio.Tests.Files.{folders, folders-FilesAreLawful}
use lilio.Tests.Platforms.{quick_hash, tagging, tagging-IsLawful}
use lilio.Tests.Objects.{input, request, ring}
use lilio.Tests.Stores.{one_object}

abbrev pub on_files : Platform
on_files = record {
  store = memory_store;
  backend = local_backend folders;
  cipher = tagging;
  sha256 = quick_hash;
  md5 = λ d. d;
}

abbrev pod : Text → LocalBackendPod folders
pod name = record {
  pod_name = name;
  directory = [];
  pod_priority = 0;
  chunks_stored = pos 0;
  bytes_stored = pos 0;
}

id_without_dots : is_object_id (bytes "id") ≡ true
unfolding nat_eq
id_without_dots = refl

pub lawful : IsLawful on_files.backend (chunk_file folders)
lawful =
    (local_backend-IsLawful folders folders-FilesAreLawful (pod (bytes "d1")) (bytes "id") 0
      id_without_dots).0

unfoldable pub pods : Lilio on_files
unfolding lilio.Metadata.Memory.memory_store local_backend
pods = record {
  chunk_size = 4;
  replication_factor = 2;
  registry = (bytes "d1", pod (bytes "d1")) ∷ (bytes "d2", pod (bytes "d2")) ∷ [];
  failed_backends = [];
  metadata = one_object;
  hash_ring = ring;
  metrics = [];
  encryptors = [];
  quorum = record { n = 2; w = 1 };
}

abbrev nodes : List Text
nodes = bytes "d1" ∷ bytes "d2" ∷ []

abbrev written : Result LilioError ChunkInfo × Lilio on_files
written = write_chunk pods (bytes "c") 0 4 (bytes "abcd") nodes nodes

abbrev the_chunk : ChunkInfo
the_chunk = info_of on_files (bytes "c") 0 4 (bytes "abcd") nodes

c_named : chunk_file folders (bytes "c") ≡ true
unfolding nat_eq text_eq lilio.Files.is_temp
c_named = refl

accepted : written.0 ≡ ok the_chunk
unfolding write_chunk pods text_eq local_backend lilio.Coordinator.Objects.store_all
    lilio.Prelude.Dict.lookup lilio.Prelude.Dict.insert
accepted = refl

write_chunk-quorum_example :
    (the_chunk ≡ info_of on_files (bytes "c") 0 4 (bytes "abcd") nodes)
    × (pods.quorum.w ≤ length (select (is_intact written.1 the_chunk) nodes))
write_chunk-quorum_example =
    write_chunk-quorum lawful pods (bytes "c") 0 4 (bytes "abcd") nodes nodes the_chunk c_named
      accepted

-- One replica of the chunk was never written.
abbrev missing : Lilio on_files
missing = (write_chunk pods (bytes "c") 0 4 (bytes "abcd") nodes (bytes "d2" ∷ [])).1

retrieve_chunk-Improves_example :
    Improves (chunk_file folders) the_chunk missing (retrieve_chunk missing (λ j. true) the_chunk).1
retrieve_chunk-Improves_example =
    retrieve_chunk-Improves lawful missing (λ j. true) the_chunk c_named

scrub_chunk-Improves_example :
    Improves
      (chunk_file folders)
      the_chunk
      missing
      (scrub_chunk missing
        (bytes "a")
        (bytes "k")
        the_chunk
        (record { deep = false; dry_run = false })).1
scrub_chunk-Improves_example =
    scrub_chunk-Improves lawful missing (bytes "a") (bytes "k") the_chunk
      (record { deep = false; dry_run = false }) c_named

abbrev repaired : ChunkIssue
repaired = record {
  bucket = bytes "a";
  key = bytes "k";
  chunk_id = bytes "c";
  expected_on = nodes;
  healthy_on = bytes "d2" ∷ [];
  repaired_on = bytes "d1" ∷ [];
  failed_on = [];
  unrepairable = false;
}

repairs :
    (scrub_chunk missing
      (bytes "a")
      (bytes "k")
      the_chunk
      (record { deep = true; dry_run = false })).0
    ≡ some repaired
unfolding scrub_chunk lilio.Coordinator.Scrub.inspect lilio.Prelude.Sorting.sort_strings
    lilio.Prelude.Dict.lookup write_chunk lilio.Prelude.Dict.has_key lilio.Prelude.Dict.insert
    text_eq lilio.Coordinator.Objects.store_all lilio.Coordinator.Objects.record_stored
    lilio.Coordinator.Scrub.handle_damage lilio.Coordinator.Scrub.repair pods
    lilio.Prelude.Dict.erase
repairs = refl

scrub_chunk_heals_example :
    let l' =
      (scrub_chunk missing
        (bytes "a")
        (bytes "k")
        the_chunk
        (record { deep = true; dry_run = false })).1 in
    (scrub_chunk l' (bytes "a") (bytes "k") the_chunk (record { deep = true; dry_run = true })).0
    ≡ none
scrub_chunk_heals_example =
    scrub_chunk_heals lawful missing (bytes "a") (bytes "k") the_chunk false true repaired c_named
      repairs refl

holds : reads missing (bytes "d2") (bytes "c") ≡ some (bytes "abcd")
unfolding write_chunk lilio.Prelude.Dict.lookup pods lilio.Coordinator.Objects.store_all text_eq
    lilio.Coordinator.Objects.record_stored lilio.Prelude.Sorting.sort_strings
    lilio.Prelude.Dict.insert lilio.Prelude.Dict.has_key lilio.Prelude.Dict.erase
holds = refl

-- The only object that the metadata store has is without chunks.
without_chunks :
    (bucket key : Text) (meta : ObjectMetadata)
    → on_files.store.get_object pods.metadata bucket key ≡ ok meta
    → meta.chunks ≡ []
unfolding lilio.Metadata.Memory.memory_store lilio.Metadata.Memory.get_object
    lilio.Prelude.Dict.lookup one_object int_eq lilio.Tests.Stores.a_bucket text_eq
    lilio.Prelude.Dict.has_key lilio.Prelude.Dict.insert pods
without_chunks bucket key meta h = ground (arith)

same_metadata : missing.metadata ≡ pods.metadata
unfolding pods write_chunk lilio.Prelude.Dict.lookup lilio.Coordinator.Objects.store_all text_eq
    lilio.Coordinator.Objects.record_stored lilio.Prelude.Sorting.sort_strings
    lilio.Prelude.Dict.insert lilio.Prelude.Dict.has_key lilio.Prelude.Dict.erase
same_metadata = refl

missing-Named : Named (chunk_file folders) missing
missing-Named bucket key meta h =
    let none_there = without_chunks bucket key meta (rw same_metadata at h) in rw none_there tt

still_held : is_held (reads missing (bytes "d2") (bytes "c")) ≡ true
still_held = rw holds refl

-- Two passes, a deep one with repairs and one that is cancelled at once, and the end.
run_periodic_scrub_keeps_data_example :
    is_held (
      reads
        (run_periodic_scrub missing
          (record { deep = true; dry_run = false })
          (ticked 3 (λ i. true) ∷ ticked 3 (λ i. false) ∷ cancelled ∷ [])).1
        (bytes "d2")
        (bytes "c"))
    ≡ true
run_periodic_scrub_keeps_data_example =
    run_periodic_scrub_keeps_data lawful missing (record { deep = true; dry_run = false })
      (ticked 3 (λ i. true) ∷ ticked 3 (λ i. false) ∷ cancelled ∷ []) (bytes "d2") (bytes "c")
      missing-Named c_named still_held

id_named : (i : ℕ) → chunk_file folders (chunk_id_of (bytes "id") i) ≡ true
id_named i =
    (local_backend-IsLawful folders folders-FilesAreLawful (pod (bytes "d1")) (bytes "id") i
      id_without_dots).1

abbrev outcome : Result LilioError ObjectMetadata × Lilio on_files
outcome = put_object pods request input

abbrev made : ObjectMetadata
made = elim outcome.0 [
  | ok m ↦ m
  | err x ↦ record {
    revision = pos 0;
    object_id = [];
    bucket = [];
    key = [];
    size = 0;
    checksum = [];
    chunk_size = 0;
    total_chunks = 0;
    chunks = [];
    created_at = 0;
    content_type = [];
    encrypted = false;
  }
]

stored_as : outcome ≡ (ok made, outcome.1)
unfolding put_object lilio.Metadata.Memory.memory_store lilio.Metadata.Memory.has_bucket
    lilio.Prelude.Dict.has_key lilio.Prelude.Dict.insert text_eq one_object int_eq
    lilio.Prelude.Dict.lookup lilio.Tests.Stores.a_bucket lilio.Coordinator.Objects.is_encrypted
    lilio.Metadata.Memory.get_bucket lilio.Coordinator.Objects.put_with
    lilio.Coordinator.Objects.put_chunks lilio.Coordinator.Objects.seal_chunk
    lilio.Coordinator.Objects.place_chunk lilio.Prelude.nat_eq lilio.Ring.get_nodes
    lilio.Coordinator.Objects.store_all lilio.Coordinator.Objects.record_stored
    lilio.Coordinator.Objects.commit lilio.Coordinator.Objects.new_metadata
    lilio.Metadata.Memory.compare_and_save lilio.Coordinator.Backends.online_backends
    lilio.Coordinator.Replicas.delete_chunks lilio.Prelude.inc64 lilio.Metadata.Memory.full_key
    lilio.Metadata.Memory.get_object lilio.Coordinator.Objects.chunk_id_of
    lilio.Coordinator.Objects.write_chunk lilio.Prelude.Sorting.sort_strings pods
    lilio.Prelude.Dict.erase
stored_as = refl

unused : Fresh pods (bytes "id") 0
unfolding pods lilio.Prelude.Dict.lookup
unused n i le = ground arith

get_object-put_object_example :
    ((get_object outcome.1 (λ j i. true) (λ j. true) (bytes "a") (bytes "new")).0 ≡ ok tt)
    × ((get_object outcome.1 (λ j i. true) (λ j. true) (bytes "a") (bytes "new")).1
        ≡ bytes "abcdef")
unfolding lilio.Metadata.Memory.memory_store lilio.Metadata.Memory.get_object
    lilio.Prelude.Dict.lookup one_object int_eq lilio.Tests.Stores.a_bucket
    lilio.Prelude.Dict.has_key lilio.Prelude.Dict.insert text_eq lilio.Metadata.Memory.full_key pods
get_object-put_object_example =
    get_object-put_object lawful memory_store-IsLawful tagging-IsLawful pods outcome.1 request
      (bytes "abcd" ∷ bytes "ef" ∷ []) made (λ j i. true) (λ j. true) id_named (λ i. tt)
      (λ i n h. ground arith) (omega arith) unused stored_as (λ j i. refl) (λ j. refl)
