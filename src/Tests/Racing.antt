-- ===== src/Tests/Racing.antt =====
-- Two requests that put the same key at once.
use lilio.Prelude.{
  All, Text, [], arith, bytes, err, ok, pos, refl, inr, nat_eq, none, text_eq, true, ◌∷◌, ◌≡◌, ◌≢◌,
}
use lilio.Metadata.{ChunkInfo, ObjectMetadata, object_not_found}
use lilio.Metadata.Memory.Versioned.{memory_store-IsVersioned}
use lilio.Coordinator.{Lilio, concurrent_write}
use lilio.Coordinator.Objects.{commit, head_object, put_chunk}
use lilio.Coordinator.Objects.Holding.{SameReads}
use lilio.Coordinator.Objects.Turns.{here, next, stores}
use lilio.Coordinator.Objects.Racing.{lost_race}
use lilio.Files.Backend.{chunk_file}
use lilio.Tests.Files.{folders}
use lilio.Tests.Pods.{lawful, on_files, pods}
use lilio.Tests.Stores.{object}
use lilio.Tests.Objects.{request}

abbrev chunk : Text → ChunkInfo
chunk id = record {
  chunk_id = id;
  chunk_index = 0;
  size = 4;
  checksum = [];
  storage_nodes = bytes "d1" ∷ [];
}

abbrev new_object : Text → ObjectMetadata
new_object id = record (object (bytes "a") (bytes "new") 0) { chunks = chunk id ∷ [] }

abbrev first : Lilio on_files
first = (commit pods (new_object (bytes "w")) (pos 0) []).1

-- The loser stores a chunk after the winner's commit.
abbrev second : Lilio on_files
second = (put_chunk first request none (bytes "abcd") 0).1

not_there : head_object pods (bytes "a") (bytes "new") ≡ err object_not_found
unfolding head_object lilio.Metadata.Memory.memory_store lilio.Metadata.Memory.get_object
    lilio.Prelude.Dict.lookup lilio.Tests.Stores.one_object lilio.Prelude.int_eq
    lilio.Tests.Stores.a_bucket lilio.Prelude.Dict.has_key lilio.Prelude.Dict.insert text_eq
    lilio.Metadata.Memory.full_key pods
not_there = refl

wins :
    (commit pods (new_object (bytes "w")) (pos 0) []).0
    ≡ ok (record (new_object (bytes "w")) { revision = pos 1 })
unfolding commit lilio.Metadata.Memory.memory_store lilio.Metadata.Memory.compare_and_save
    lilio.Prelude.Dict.lookup lilio.Tests.Stores.one_object lilio.Prelude.int_eq
    lilio.Tests.Stores.a_bucket lilio.Prelude.Dict.has_key lilio.Prelude.Dict.insert text_eq
    lilio.Metadata.Memory.full_key lilio.Prelude.inc64 pods
wins = refl

w_named : chunk_file folders (bytes "w") ≡ true
unfolding nat_eq text_eq lilio.Files.is_temp
w_named = refl

x_named : chunk_file folders (bytes "x") ≡ true
unfolding nat_eq text_eq lilio.Files.is_temp
x_named = refl

other_id : bytes "w" ≢ bytes "x"
other_id h = ground arith

lost_race_example :
    ((commit second (new_object (bytes "x")) (pos 0) []).0 ≡ err concurrent_write)
    × ((commit second (new_object (bytes "x")) (pos 0) []).1.metadata ≡ second.metadata)
    × SameReads second (commit second (new_object (bytes "x")) (pos 0) []).1 (bytes "w")
lost_race_example =
    lost_race memory_store-IsVersioned lawful pods pods second (new_object (bytes "w"))
      (new_object (bytes "x")) (record (new_object (bytes "w")) { revision = pos 1 }) (pos 0) [] []
      0 0 1 (bytes "w") (inr (not_there, refl)) here refl refl wins
      (next here (stores first request none (bytes "abcd") 0)) (omega arith) w_named
      ((x_named, other_id), tt)
