-- ===== src/Tests/Placing.antt =====
-- A coordinator with a backend, as pkg/storage/lilio.go makes one.
use Prim.Native.Nat.{min}
use lilio.Prelude.{
  All, Bool, List, Text, [], arith, bytes, drop, false, int_eq, length, nat_eq, none, not, pos,
  refl, some, suc, text_eq, true, zero, ℕ, ◌&&◌, ◌+◌, ◌-◌, ◌∷◌, ◌≡◌, ◌≤◌, ◌++◌,
}
use lilio.Prelude.Dict.{Dict, has_key, has_key-eq-lookup, insert, lookup}
use lilio.Prelude.Distinct.{Distinct}
use lilio.Ring.{HashRing, hash, max_collision_retries, new_hash_ring, probe, virtual_key}
use lilio.Ring.Placement.{Clear, chosen, occupy}
use lilio.Coordinator.{Lilio, Platform, new_lilio}
use lilio.Coordinator.Backends.{add_backend, select_nodes_for_chunk}
use lilio.Coordinator.Backends.Agreeing.{Formed, created, joined}
use lilio.Coordinator.Backends.Placing.{select_nodes_for_chunk_lem, serves, unavailable}
use lilio.Metadata.Memory.{memory_store, new_memory_store}
use lilio.Registry
use lilio.Tests.Platforms.{Disk, disk_backend, small}

-- A hash that tells the virtual nodes of short names apart.
abbrev short_hash : Text → List ℕ
short_hash [] = 0 ∷ 0 ∷ 0 ∷ 0 ∷ []
short_hash (c ∷ t) = c ∷ drop (length t - 2) (c ∷ t)

clear_at : HashRing → Text → ℕ → ℕ → Bool
unfolding has_key probe hash virtual_key
clear_at hr name zero i = true
clear_at hr name (suc left) i =
    let c = chosen short_hash hr name i in
    let hr' = record hr {
      position_to_node = insert c name hr.position_to_node;
      ring = hr.ring ++ c ∷ [];
    } in
    let rest = clear_at hr' name left (i + 1) in not (has_key c hr.position_to_node) && rest

both_hold : (a b : Bool) → (not a && b) ≡ true → (a ≡ false) × (b ≡ true)
both_hold a b h = ground arith

no_key : (c : ℕ) (d : Dict ℕ Text) → has_key c d ≡ false → lookup c d ≡ none
no_key c d h = ground (arith, has_key-eq-lookup c d)

clear_at-Clear :
    (hr : HashRing) (name : Text) (left i : ℕ)
    → clear_at hr name left i ≡ true
    → Clear short_hash hr name left i
unfolding clear_at
clear_at-Clear hr name zero i h = tt
clear_at-Clear hr name (suc left) i h =
    let c = chosen short_hash hr name i in
    let (free, rest) = both_hold (has_key c hr.position_to_node) _ h in
    (
      no_key c hr.position_to_node free,
      clear_at-Clear (occupy short_hash hr name i) name left (i + 1) rest,
    )

abbrev tiny : Platform
tiny = record small { sha256 = short_hash }

abbrev fresh : Lilio tiny
unfolding memory_store new_hash_ring
fresh = record {
  chunk_size = 4;
  replication_factor = 2;
  registry = [];
  failed_backends = [];
  metadata = new_memory_store;
  hash_ring = new_hash_ring (pos 150);
  metrics = [];
  encryptors = [];
  quorum = record { n = 2; w = 2 };
}

abbrev disk_d : Disk
disk_d = record { label = bytes "d"; up = true; held = [] }

abbrev disk_e : Disk
disk_e = record { label = bytes "e"; up = false; held = [] }

abbrev one_disk : Lilio tiny
one_disk = (add_backend fresh disk_d).1

abbrev two_disks : Lilio tiny
two_disks = (add_backend one_disk disk_e).1

fresh-Formed : Formed fresh
unfolding new_lilio memory_store new_hash_ring
fresh-Formed = created new_memory_store none 4 2 refl

room_for_d : clear_at fresh.hash_ring (bytes "d") fresh.hash_ring.virtual_nodes 0 ≡ true
unfolding clear_at new_hash_ring nat_eq insert text_eq lookup fresh
room_for_d = refl

room_for_e : clear_at one_disk.hash_ring (bytes "e") one_disk.hash_ring.virtual_nodes 0 ≡ true
unfolding clear_at new_hash_ring nat_eq insert text_eq lookup add_backend fresh lilio.Ring.add_node
room_for_e = refl

two_disks-Formed : Formed two_disks
two_disks-Formed =
    joined disk_e
      (joined disk_d fresh-Formed
        (clear_at-Clear fresh.hash_ring (bytes "d") fresh.hash_ring.virtual_nodes 0 room_for_d))
      (clear_at-Clear one_disk.hash_ring (bytes "e") one_disk.hash_ring.virtual_nodes 0 room_for_e)

select_nodes_for_chunk_lem_example :
    (nodes : List Text) × (select_nodes_for_chunk two_disks (bytes "o_chunk_0") ≡ some nodes)
    × Distinct nodes
    × All (λ name. serves two_disks name ≡ true) nodes
    × (length nodes ≤ two_disks.replication_factor)
    × (min two_disks.replication_factor (Registry.count disk_backend two_disks.registry)
        ≤ length nodes + length (unavailable two_disks))
select_nodes_for_chunk_lem_example =
    select_nodes_for_chunk_lem two_disks (bytes "o_chunk_0") two_disks-Formed
