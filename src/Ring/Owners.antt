-- ===== src/Ring/Owners.antt =====
-- Every position that pkg/hashing/consistent.go gives to a node is in the node's list.
use lilio.Prelude.{
  ap, any, Bool, Bool-cases, List, Option-cases, Text, [], arith, contains, false, inl, inr, int_eq,
  nat_eq, some, text_eq, true, ℕ, ◌==◌, ◌∙◌, ◌∷◌, ◌≡◌,
}
use lilio.Prelude.Dict.{has_key, has_key-eq-lookup, lookup, lookup-erase, lookup-insert}
use lilio.Ring.{HashRing, add_node, new_hash_ring, node_at, place, remove_node}
use lilio.Ring.Nodes.{is_placed}
use lilio.Ring.Placement.{Built, Clear, added, lookup-forget, removed, started}
use lilio.Ring.Removal.{node_at-eq}
use lilio.Ring.Strays.{NoStray-Built, Takes, place-Takes, stray}

abbrev InList : HashRing → Type 0
InList hr =
    (p : ℕ) (name : Text)
    → lookup p hr.position_to_node ≡ some name
    → (ps : List ℕ) × (lookup name hr.node_to_positions ≡ some ps) × (contains ps p ≡ true)

remove_node-InList : (hr : HashRing) (name : Text) → InList hr → InList (remove_node hr name)
unfolding remove_node
remove_node-InList hr name all = elim (Option-cases (lookup name hr.node_to_positions)) [
  | inl missing ↦ rw (missing, remove_node) all
  | inr (positions, found) ↦
      rw (found, remove_node)
        λ p other e.
          let old : lookup p hr.position_to_node ≡ some other =
            ground (arith, lookup-forget p positions hr.position_to_node) in
          let (ps, listed, there) = all p other old in
          (
            ps,
            ground (
              arith,
              lookup-erase other name hr.node_to_positions,
              lookup-forget p positions hr.position_to_node,
            ),
            there,
          )
]

module _ (sha256 : Text → List ℕ) where
  add_node-InList :
      (hr : HashRing) (name : Text)
      → Clear sha256 hr name hr.virtual_nodes 0
      → InList hr
      → InList (add_node sha256 hr name)
  unfolding add_node Takes
  add_node-InList hr name clear all =
      let placed = place sha256 hr name hr.virtual_nodes 0 [] in
      let (taken, listed, _, owners, _) = place-Takes sha256 hr name hr.virtual_nodes 0 [] clear in
      elim (Bool-cases (has_key name hr.node_to_positions)) [
        | inl known ↦ rw (known, add_node) all
        | inr new ↦
            rw (new, add_node)
              λ p other e. elim (Bool-cases (contains taken p)) [
                | inl mine ↦ (
                  placed.0,
                  ground (arith, owners p, lookup-insert other name placed.0 hr.node_to_positions),
                  ap (λ ps. contains ps p) listed ∙ mine,
                )
                | inr before ↦
                    let (ps, found, there) = all p other (ground (arith, owners p)) in
                    (
                      ps,
                      ground (
                        arith,
                        has_key-eq-lookup name hr.node_to_positions,
                        lookup-insert other name placed.0 hr.node_to_positions,
                      ),
                      there,
                    )
              ]
      ]

  Built-InList : (hr : HashRing) → Built sha256 hr → InList hr
  unfolding new_hash_ring lookup
  Built-InList _ (started v) = λ p name e. absurd (ground arith)
  Built-InList _ (added {hr} name b clear) = add_node-InList hr name clear (Built-InList hr b)
  Built-InList _ (removed {hr} name b) = remove_node-InList hr name (Built-InList hr b)

found_at :
    (f g : ℕ → Bool) (ps : List ℕ)
    → any f ps ≡ true
    → any g ps ≡ false
    → (p : ℕ) × (f p ≡ true) × (g p ≡ false)
found_at f g [] h k = absurd (ground arith)
found_at f g (p ∷ ps) h k = elim (Bool-cases (f p)) [
  | inl here ↦ (p, here, ground arith)
  | inr there ↦ found_at f g ps (ground arith) (ground arith)
]

-- On a ring that AddNode and RemoveNode made, what has a position is a node.
pub placed_node :
    (sha256 : Text → List ℕ) (hr : HashRing) (name : Text)
    → Built sha256 hr
    → is_placed hr name ≡ true
    → has_key name hr.node_to_positions ≡ true
placed_node sha256 hr name built placed =
    let (p, mine, owned) =
      found_at (λ p. node_at hr.position_to_node p == name) (stray hr) hr.ring placed
        (NoStray-Built sha256 hr built) in
    elim (Option-cases (lookup p hr.position_to_node)) [
      | inl free ↦ absurd (ground (arith, has_key-eq-lookup p hr.position_to_node))
      | inr (other, e) ↦
          let same = node_at-eq hr.position_to_node p other e in
          let (ps, found, _) = Built-InList sha256 hr built p other e in
          ground (arith, same, has_key-eq-lookup name hr.node_to_positions)
    ]
