-- ===== src/Tests/Ring.antt =====
-- A test of pkg/hashing/consistent.go.
use Prim.Native.Nat.{min}
use lilio.Prelude.{
  All, List, Text, ℕ, ◌∷◌, ◌==◌, pos, false, arith, bytes, int_eq, length, nat_eq, refl, some,
  text_eq, true, ◌≡◌, ◌⊎◌,
}
use lilio.Prelude.Dict.{has_key, lookup}
use lilio.Prelude.Distinct.{Distinct}
use lilio.Ring.{
  HashRing, add_node, get_node, get_nodes, new_hash_ring, node_at, node_count, remove_node,
}
use lilio.Ring.Placement.{Built, Clear, added, started}
use lilio.Ring.Adding.{get_node-add_node}
use lilio.Ring.Removal.{get_node-remove_node}
use lilio.Ring.Nodes.{Covered, get_nodes_lem, is_placed}
use lilio.Tests.Platforms.{quick_hash}
use lilio.Tests.Objects.{ring}

covered : Covered ring
unfolding has_key lookup text_eq nat_eq node_at
covered = ((refl, (refl, (refl, tt))), λ name h. ground arith)

get_nodes_lem_example :
    (nodes : List Text) × (get_nodes quick_hash ring (bytes "key") 2 ≡ some nodes)
    × (length nodes ≡ min 2 (node_count ring))
    × Distinct nodes
    × All (λ x. is_placed ring x ≡ true) nodes
get_nodes_lem_example = get_nodes_lem quick_hash ring (bytes "key") 2 covered

abbrev two_byte_hash : Text → List ℕ
two_byte_hash t = 0 ∷ 0 ∷ t

abbrev two_nodes : HashRing
unfolding new_hash_ring
two_nodes =
    add_node two_byte_hash (add_node two_byte_hash (new_hash_ring (pos 1)) (bytes "a")) (bytes "b")

two_nodes-Built : Built two_byte_hash two_nodes
unfolding add_node new_hash_ring nat_eq lookup has_key lilio.Prelude.Dict.insert text_eq
two_nodes-Built = added (bytes "b") (added (bytes "a") (started (pos 1)) (refl, tt)) (refl, tt)

served_by_a : (get_node two_byte_hash two_nodes (bytes "kk") == bytes "b") ≡ false
unfolding get_node text_eq nat_eq two_nodes add_node has_key lilio.Prelude.Dict.insert lookup
served_by_a = refl

get_node-remove_node_example :
    get_node two_byte_hash (remove_node two_nodes (bytes "b")) (bytes "kk")
    ≡ get_node two_byte_hash two_nodes (bytes "kk")
get_node-remove_node_example =
    get_node-remove_node two_byte_hash two_nodes (bytes "b") (bytes "kk") two_nodes-Built
      served_by_a

abbrev one_node : HashRing
unfolding new_hash_ring
one_node = add_node two_byte_hash (new_hash_ring (pos 1)) (bytes "a")

one_node-Built : Built two_byte_hash one_node
unfolding add_node new_hash_ring nat_eq lookup has_key lilio.Prelude.Dict.insert text_eq
one_node-Built = added (bytes "a") (started (pos 1)) (refl, tt)

b_is_new : has_key (bytes "b") one_node.node_to_positions ≡ false
unfolding add_node new_hash_ring nat_eq lookup has_key lilio.Prelude.Dict.insert text_eq
b_is_new = refl

room_for_b : Clear two_byte_hash one_node (bytes "b") one_node.virtual_nodes 0
unfolding add_node new_hash_ring nat_eq lookup has_key lilio.Prelude.Dict.insert text_eq
room_for_b = (refl, tt)

get_node-add_node_example :
    ((get_node two_byte_hash (add_node two_byte_hash one_node (bytes "b")) (bytes "kk") ≡ bytes "b")
      ⊎ (get_node two_byte_hash (add_node two_byte_hash one_node (bytes "b")) (bytes "kk")
          ≡ get_node two_byte_hash one_node (bytes "kk")))
    × (get_node two_byte_hash
          (remove_node (add_node two_byte_hash one_node (bytes "b")) (bytes "b"))
          (bytes "kk")
        ≡ get_node two_byte_hash one_node (bytes "kk"))
get_node-add_node_example =
    get_node-add_node two_byte_hash one_node (bytes "b") (bytes "kk") one_node-Built b_is_new
      room_for_b
