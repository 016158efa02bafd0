-- ===== src/Tests/Backends.antt =====
-- Tests of the registry and of a coordinator that has just been made.
use lilio.Registry
use lilio.Prelude.{
  Option, any, arith, bytes, false, if◌then◌else◌, length, none, not, refl, some, text_eq, true,
  pos, [], ◌&&◌, ◌*◌, ◌<◌, ◌==◌, ◌∷◌, ◌≡◌, ◌≤◌,
}
use lilio.Prelude.Dict.{NodupKeys, has_key, lookup, values}
use lilio.Prelude.Ordered.{Ordered}
use lilio.Coordinator.{Lilio, QuorumConfig, new_lilio}
use lilio.Coordinator.Quorum.{new_lilio-quorum}
use lilio.Registry.Names.{add_lem, list_lem, remove_lem}
use lilio.Ring.{new_hash_ring}
use lilio.Tests.Platforms.{Disk, disk_backend, small}
use lilio.Metadata.Memory.{memory_store}
use lilio.Tests.Stores.{one_object}

abbrev first : Disk
first = record { label = bytes "d1"; up = true; held = [] }

abbrev second : Disk
second = record { label = bytes "d2"; up = false; held = [] }

abbrev pair : Registry.Registry disk_backend
pair = (bytes "d1", first) ∷ (bytes "d2", second) ∷ []

nodup : NodupKeys pair
unfolding lookup text_eq
nodup = (refl, (refl, tt))

add_lem_example :
    let taken = has_key (bytes "d1") pair in
    let (added, r') = Registry.add disk_backend pair first in
    (added ≡ not taken)
    × (Registry.get disk_backend r' (bytes "d2") ≡ (
        if not taken && bytes "d2" == bytes "d1"
        then some first
        else Registry.get disk_backend pair (bytes "d2")))
    × (taken ≡ true → r' ≡ pair)
    × NodupKeys r'
add_lem_example = add_lem disk_backend pair first (bytes "d2") nodup

removed_one :
    let (removed, r') = Registry.remove disk_backend pair (bytes "d1") in
    (removed ≡ has_key (bytes "d1") pair)
    × (Registry.get disk_backend r' (bytes "d2")
        ≡ (if bytes "d2" == bytes "d1" then none else Registry.get disk_backend pair (bytes "d2")))
    × NodupKeys r'
removed_one = remove_lem disk_backend pair (bytes "d1") (bytes "d2") nodup

lists_both :
    Ordered (λ b. (disk_backend.info b).priority) (Registry.list disk_backend pair)
    × (length (Registry.list disk_backend pair) ≡ Registry.count disk_backend pair)
    × (any (λ b. b.up) (Registry.list disk_backend pair) ≡ any (λ b. b.up) (values pair))
lists_both = list_lem disk_backend pair (λ b. b.up)

abbrev start : small.store.State
unfolding memory_store
start = one_object

abbrev unset : Option QuorumConfig
unset = none

abbrev three_replicas : Lilio small
unfolding new_hash_ring
three_replicas = record {
  chunk_size = 4;
  replication_factor = 3;
  registry = [];
  failed_backends = [];
  metadata = start;
  hash_ring = new_hash_ring (pos 150);
  metrics = [];
  encryptors = [];
  quorum = record { n = 3; w = 2 };
}

made : new_lilio {P = small} start unset 4 3 ≡ some three_replicas
unfolding new_lilio
made = refl

too_many_writes : new_lilio {P = small} start (some (record { n = 2; w = 3 })) 4 3 ≡ none
unfolding new_lilio
too_many_writes = refl

new_lilio-quorum_example :
    (0 < three_replicas.quorum.w)
    × (three_replicas.quorum.w ≤ three_replicas.quorum.n)
    × (unset ≡ none → three_replicas.quorum.n < three_replicas.quorum.w * 2)
new_lilio-quorum_example =
    new_lilio-quorum {P = small} start unset 4 3 three_replicas (omega arith) made
