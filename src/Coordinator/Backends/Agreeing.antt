-- ===== src/Coordinator/Backends/Agreeing.antt =====
-- The registry and the hash ring of the coordinator in pkg/storage/lilio.go have the same nodes.
use lilio.Prelude.{
  Bool-cases, Option, Option-cases, Text, [], arith, false, inl, inr, int_eq, is_some, nat_eq, none,
  not, pos, refl, some, text_eq, true, ℕ, ℤ, ◌&&◌, ◌==◌, ◌||◌, ◌≡◌,
}
use lilio.Prelude.Dict.{
  NodupKeys, erase-NodupKeys, has_key, has_key-eq-lookup, insert, insert-NodupKeys, lookup,
  lookup-erase, lookup-insert,
}
use lilio.Ring.{HashRing, add_node, new_hash_ring, place, remove_node}
use lilio.Ring.Placement.{Built, Clear, added, removed, started}
use lilio.Storage.{Bytes}
use lilio.Registry
use lilio.Coordinator.{Lilio, Platform, QuorumConfig, choose_quorum, new_lilio}
use lilio.Coordinator.Backends.{add_backend, remove_backend, track_failed_backend}

-- AddNode enters the node in the ring's map, and keeps the nodes that are there.
pub add_node-nodes :
    (sha256 : Text → Bytes) (hr : HashRing) (node name : Text)
    → is_some (lookup name (add_node sha256 hr node).node_to_positions)
      ≡ (name == node || is_some (lookup name hr.node_to_positions))
unfolding add_node
add_node-nodes sha256 hr node name =
    let positions = (place sha256 hr node hr.virtual_nodes 0 []).0 in
    ground (
      arith,
      has_key-eq-lookup node hr.node_to_positions,
      lookup-insert name node positions hr.node_to_positions,
    )

-- RemoveNode removes the node from the ring's map, and keeps the others.
remove_node-nodes :
    (hr : HashRing) (node name : Text)
    → is_some (lookup name (remove_node hr node).node_to_positions)
      ≡ (not (name == node) && is_some (lookup name hr.node_to_positions))
unfolding remove_node
remove_node-nodes hr node name = elim (Option-cases (lookup node hr.node_to_positions)) [
  | inl missing ↦ rw (missing, remove_node) (ground arith)
  | inr (positions, found) ↦
      rw (found, remove_node) (ground (arith, lookup-erase name node hr.node_to_positions))
]

module _ {P : Platform} where
  -- A backend is registered if and only if it is a node of the hash ring.
  abbrev pub RingAgrees : Lilio P → Type 0
  RingAgrees l =
      (name : Text)
      → is_some (lookup name l.hash_ring.node_to_positions) ≡ is_some (lookup name l.registry)

  pub add_backend_new :
      (l : Lilio P) (b : P.backend.State)
      → lookup (P.backend.info b).name l.registry ≡ none
      → add_backend l b ≡ (
        true,
        record l {
          registry = insert (P.backend.info b).name b l.registry;
          hash_ring = add_node P.sha256 l.hash_ring (P.backend.info b).name;
        },
      )
  unfolding add_backend Registry.add
  add_backend_new l b free =
      let free' : has_key (P.backend.info b).name l.registry ≡ false =
        ground (arith, has_key-eq-lookup (P.backend.info b).name l.registry) in
      rw (free', add_backend) refl

  -- What the coordinator keeps of its backends: a ring that AddNode and RemoveNode made, and a
  -- registry that names each of its nodes once.
  abbrev pub Placeable : Lilio P → Type 0
  Placeable l = Built P.sha256 l.hash_ring × NodupKeys l.registry × RingAgrees l

  -- The coordinators that NewLilioInstance, AddBackend, RemoveBackend and TrackFailedBackend make,
  -- where AddNode finds free positions.
  pub data Formed : Lilio P → Type 0 where
    created :
        {l : Lilio P} (m : P.store.State) (q : Option QuorumConfig) (chunk_size rf : ℕ)
        → new_lilio m q chunk_size rf ≡ some l
        → Formed l
    joined :
        {l : Lilio P} (b : P.backend.State)
        → Formed l
        → Clear P.sha256 l.hash_ring (P.backend.info b).name l.hash_ring.virtual_nodes 0
        → Formed (add_backend l b).1
    left : {l : Lilio P} (name : Text) → Formed l → Formed (remove_backend l name).1
    failed :
        {l : Lilio P} (name kind : Text) (priority : ℤ) (message : Text)
        → Formed l
        → Formed (track_failed_backend l name kind priority message)

  new_lilio-Placeable :
      (m : P.store.State) (q : Option QuorumConfig) (chunk_size rf : ℕ) (l : Lilio P)
      → new_lilio m q chunk_size rf ≡ some l
      → Placeable l
  unfolding new_lilio lookup
  new_lilio-Placeable m q chunk_size rf l h = elim (Option-cases (choose_quorum q rf)) [
    | inl refused ↦ absurd (ground arith)
    | inr (c, chosen) ↦
        let ring' : l.hash_ring ≡ new_hash_ring (pos 150) = ground arith in
        let registry' : l.registry ≡ [] = ground arith in
        (
          rw ring' (started (pos 150)),
          rw registry' tt,
          λ name. rw (ring', registry') (unfold new_hash_ring in refl),
        )
  ]

  add_backend-Placeable :
      (l : Lilio P) (b : P.backend.State)
      → Clear P.sha256 l.hash_ring (P.backend.info b).name l.hash_ring.virtual_nodes 0
      → Placeable l
      → Placeable (add_backend l b).1
  unfolding add_backend Registry.add
  add_backend-Placeable l b clear (built, once, agrees) =
      let node = (P.backend.info b).name in
      elim (Option-cases (lookup node l.registry)) [
        | inl free ↦ rw (add_backend_new l b free) (
          added node built clear,
          insert-NodupKeys node b l.registry once,
          λ name. ground (
            arith,
            agrees name,
            add_node-nodes P.sha256 l.hash_ring node name,
            lookup-insert name node b l.registry,
          ),
        )
        | inr (other, taken) ↦
            let known : has_key node l.registry ≡ true =
              ground (arith, has_key-eq-lookup node l.registry) in
            rw (known, add_backend, Registry.add) (built, once, agrees)
      ]

  remove_backend-Placeable :
      (l : Lilio P) (name : Text) → Placeable l → Placeable (remove_backend l name).1
  unfolding remove_backend Registry.remove
  remove_backend-Placeable l name (built, once, agrees) =
      elim (Bool-cases (has_key name l.registry)) [
        | inl known ↦
            rw (known, remove_backend, Registry.remove)
              (
                removed name built,
                erase-NodupKeys name l.registry once,
                λ n. ground (
                  arith,
                  agrees n,
                  remove_node-nodes l.hash_ring name n,
                  lookup-erase n name l.registry,
                ),
              )
        | inr unknown ↦ rw (unknown, remove_backend, Registry.remove) (built, once, agrees)
      ]

  pub Formed-Placeable : (l : Lilio P) → Formed l → Placeable l
  unfolding track_failed_backend
  Formed-Placeable l (created m q chunk_size rf h) = new_lilio-Placeable m q chunk_size rf l h
  Formed-Placeable _ (joined {l} b formed clear) =
      add_backend-Placeable l b clear (Formed-Placeable l formed)
  Formed-Placeable _ (left {l} name formed) =
      remove_backend-Placeable l name (Formed-Placeable l formed)
  Formed-Placeable _ (failed {l} name kind priority message formed) = Formed-Placeable l formed
