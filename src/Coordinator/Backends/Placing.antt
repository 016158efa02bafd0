-- ===== src/Coordinator/Backends/Placing.antt =====
-- Where SelectNodesForChunk of pkg/storage/lilio.go puts the replicas of a chunk.
use Prim.Native.Nat.{min}
use lilio.Prelude.{
  All, ap, Bool, Bool-cases, List, Text, [], arith, contains, false, inl, inr, int_eq, length,
  nat_eq, none, not, refl, select, some, sym, text_eq, true, ℕ, ◌+◌, ◌==◌, ◌∙◌, ◌∷◌, ◌≡◌, ◌≤◌,
}
use lilio.Prelude.Dict.{has_key, has_key-eq-lookup, keys, lookup}
use lilio.Prelude.Distinct.{
  Distinct, contains-keys, length-le_of_keys, length-select-not, length-Distinct, select-All,
  select-All_in, select-Distinct,
}
use lilio.Ring.{HashRing, get_nodes, is_empty, node_count}
use lilio.Ring.Covering.{Built-Covered}
use lilio.Ring.Nodes.{get_nodes_lem, is_placed}
use lilio.Ring.Owners.{placed_node}
use lilio.Ring.Placement.{Built}
use lilio.Storage.{Bytes, is_online}
use lilio.Registry
use lilio.Coordinator.{Lilio, Platform}
use lilio.Coordinator.Backends.{online_backends, select_nodes_for_chunk}
use lilio.Coordinator.Backends.Agreeing.{Formed, Formed-Placeable, RingAgrees}

get_nodes_empty :
    (sha256 : Text → Bytes) (hr : HashRing) (key : Text) (count : ℕ)
    → (length hr.ring == 0) ≡ true
    → get_nodes sha256 hr key count ≡ some []
unfolding get_nodes
get_nodes_empty sha256 hr key count h = rw (h, get_nodes) refl

placed-All :
    (sha256 : Text → Bytes) (hr : HashRing) (ks nodes : List Text)
    → Built sha256 hr
    → ((name : Text) → has_key name hr.node_to_positions ≡ true → contains ks name ≡ true)
    → All (λ x. is_placed hr x ≡ true) nodes
    → All (λ x. contains ks x ≡ true) nodes
placed-All sha256 hr ks [] built sub h = tt
placed-All sha256 hr ks (x ∷ nodes) built sub (placed, h) =
    (sub x (placed_node sha256 hr x built placed), placed-All sha256 hr ks nodes built sub h)

module _ {P : Platform} where
  -- A backend of that name is registered and online.
  abbrev pub serves : Lilio P → Text → Bool
  serves l name = elim (lookup name l.registry) [
    | none ↦ false
    | some b ↦ is_online (P.backend.info b)
  ]

  -- The registered backends that are not online.
  abbrev pub unavailable : Lilio P → List Text
  unavailable l = select (λ name. not (serves l name)) (keys l.registry)

  online_backends-eq-select :
      (l : Lilio P) (names : List Text) → online_backends l names ≡ select (serves l) names
  unfolding online_backends
  online_backends-eq-select l [] = refl
  online_backends-eq-select l (name ∷ names) = ground (arith, online_backends-eq-select l names)

  has_key-agrees :
      (l : Lilio P)
      → RingAgrees l
      → (name : Text) → has_key name l.hash_ring.node_to_positions ≡ has_key name l.registry
  has_key-agrees l agrees name = ground (
    arith,
    agrees name,
    has_key-eq-lookup name l.hash_ring.node_to_positions,
    has_key-eq-lookup name l.registry,
  )

  -- SelectNodesForChunk is onlineBackends of what GetNodes gives.
  select_nodes_for_chunk-eq :
      (l : Lilio P) (chunk_id : Text) (names : List Text)
      → get_nodes P.sha256 l.hash_ring chunk_id l.replication_factor ≡ some names
      → select_nodes_for_chunk l chunk_id ≡ some (select (serves l) names)
  unfolding select_nodes_for_chunk is_empty
  select_nodes_for_chunk-eq l chunk_id names h = elim (Bool-cases (length l.hash_ring.ring == 0)) [
    | inr filled ↦
        rw (filled, select_nodes_for_chunk, is_empty, h)
          (ap some (online_backends-eq-select l names))
    | inl empty ↦
        let e = get_nodes_empty P.sha256 l.hash_ring chunk_id l.replication_factor empty in
        let no_names : names ≡ [] = ground arith in
        rw (empty, select_nodes_for_chunk, is_empty, no_names) refl
  ]

  -- Placement works on every coordinator that NewLilioInstance, AddBackend, RemoveBackend and
  -- TrackFailedBackend make, if AddNode finds free positions: SelectNodesForChunk returns distinct
  -- registered backends that are online, and with the backends that are not online they are at
  -- least as many as the replication factor, or as all backends if those are fewer; and never
  -- more than the replication factor.
  pub select_nodes_for_chunk_lem :
      (l : Lilio P) (chunk_id : Text)
      → Formed l
      → (nodes : List Text) × (select_nodes_for_chunk l chunk_id ≡ some nodes)
        × Distinct nodes
        × All (λ name. serves l name ≡ true) nodes
        × (length nodes ≤ l.replication_factor)
        × (min l.replication_factor (Registry.count P.backend l.registry)
            ≤ length nodes + length (unavailable l))
  unfolding Registry.count node_count
  select_nodes_for_chunk_lem l chunk_id formed =
      let (built, once, agrees) = Formed-Placeable l formed in
      let hr = l.hash_ring in
      let covered = Built-Covered P.sha256 hr built in
      let (names, found, size, distinct, placed) =
        get_nodes_lem P.sha256 hr chunk_id l.replication_factor covered in
      let same = has_key-agrees l agrees in
      let registered : All (λ x. contains (keys l.registry) x ≡ true) names =
        placed-All P.sha256 hr (keys l.registry) names built
          (λ name h. contains-keys name l.registry ∙ sym (same name) ∙ h) placed in
      let off : Text → Bool = λ name. not (serves l name) in
      let dropped : length (select off names) ≤ length (unavailable l) =
        length-Distinct (select off names) (unavailable l) (select-Distinct off names distinct)
          (select-All_in off names (keys l.registry) registered) in
      let as_many : length l.registry ≤ length hr.node_to_positions =
        length-le_of_keys l.registry hr.node_to_positions once (λ k h. same k ∙ h) in
      let split = length-select-not (serves l) names in
      (
        select (serves l) names,
        select_nodes_for_chunk-eq l chunk_id names found,
        select-Distinct (serves l) names distinct,
        select-All (serves l) names,
        omega (arith, size, split),
        omega (arith, size, split, dropped, as_many),
      )
