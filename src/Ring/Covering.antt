-- ===== src/Ring/Covering.antt =====
-- Every node that AddNode of pkg/hashing/consistent.go adds has a position on the ring.
use lilio.Prelude.{
  ap, any, any-append, Bool, Bool-cases, List, Option-cases, Text, [], arith, contains, inl, inr,
  int_eq, ltb, nat_eq, not, pos, negsuc, refl, select, some, suc, text_eq, true, zero, ℕ, ℤ, ◌+◌,
  ◌++◌, ◌<◌, ◌==◌, ◌∙◌, ◌∷◌, ◌≡◌, ◌||◌,
}
use lilio.Prelude.Dict.{
  NodupKeys, erase-NodupKeys, has_key, has_key-eq-lookup, insert-NodupKeys, lookup, lookup-erase,
  lookup-insert,
}
use lilio.Prelude.Sorting.{any-sort_slice}
use lilio.Ring.{HashRing, add_node, new_hash_ring, node_at, place, remove_node}
use lilio.Ring.Nodes.{Covered}
use lilio.Ring.Placement.{
  Built, Built-WellPlaced, Clear, WellPlaced, added, chosen, occupy, removed, started,
}
use lilio.Ring.Removal.{node_at-eq}
use lilio.Ring.Strays.{Takes, place-Takes}

-- The position is among those.
abbrev among : ℕ → List ℕ → Bool
among p ps = any (λ q. p == q) ps

-- A node that lists positions lists one that the ring has.
abbrev Rooted : HashRing → Type 0
Rooted hr =
    (name : Text) (ps : List ℕ)
    → lookup name hr.node_to_positions ≡ some ps
    → (p : ℕ) × (contains ps p ≡ true) × (among p hr.ring ≡ true)

-- What the rings that AddNode and RemoveNode make keep.
abbrev Grounded : HashRing → Type 0
Grounded hr = (0 < hr.virtual_nodes) × NodupKeys hr.node_to_positions × Rooted hr

any_at : (f : ℕ → Bool) (p : ℕ) (ps : List ℕ) → among p ps ≡ true → f p ≡ true → any f ps ≡ true
any_at f p [] h e = ground arith
any_at f p (q ∷ ps) h e = ground (arith, any_at f p ps)

among-select :
    (keep : ℕ → Bool) (p : ℕ) (ps : List ℕ)
    → among p ps ≡ true
    → keep p ≡ true
    → among p (select keep ps) ≡ true
among-select keep p [] h e = ground arith
among-select keep p (q ∷ ps) h e = ground (arith, among-select keep p ps)

Covered-Grounded : (hr : HashRing) → WellPlaced hr → Grounded hr → Covered hr
Covered-Grounded hr (_, owned) (_, once, rooted) = (
  once,
  λ name h. elim (Option-cases (lookup name hr.node_to_positions)) [
    | inl missing ↦ absurd (ground (arith, has_key-eq-lookup name hr.node_to_positions))
    | inr (ps, found) ↦
        let (p, listed, there) = rooted name ps found in
        let owner = node_at-eq hr.position_to_node p name (owned name ps p found listed) in
        any_at (λ q. node_at hr.position_to_node q == name) p hr.ring there (ground (arith, owner))
  ],
)

remove_node-Grounded :
    (hr : HashRing) (name : Text) → WellPlaced hr → Grounded hr → Grounded (remove_node hr name)
unfolding remove_node
remove_node-Grounded hr name (_, owned) (enough, once, rooted) =
    elim (Option-cases (lookup name hr.node_to_positions)) [
      | inl missing ↦ rw (missing, remove_node) (enough, once, rooted)
      | inr (positions, found) ↦
          rw (found, remove_node)
            (
              enough,
              erase-NodupKeys name hr.node_to_positions once,
              λ other ps e.
                  let old : lookup other hr.node_to_positions ≡ some ps =
                    ground (arith, lookup-erase other name hr.node_to_positions) in
                  let (p, listed, there) = rooted other ps old in
                  let mine = owned other ps p old listed in
                  let kept : not (contains positions p) ≡ true =
                    elim (Bool-cases (contains positions p)) [
                      | inr free ↦ ap not free
                      | inl gone ↦
                          let theirs = owned name positions p found gone in
                          absurd (ground (arith, lookup-erase other name hr.node_to_positions))
                    ] in
                  (p, listed, among-select (λ q. not (contains positions q)) p hr.ring there kept),
            )
    ]

among_head : (c : ℕ) (taken : List ℕ) → contains (c ∷ taken) c ≡ true
among_head c taken = ground arith

among_last : (c : ℕ) (ps : List ℕ) (rest : Bool) → (any (λ q. c == q) (ps ++ c ∷ []) || rest) ≡ true
among_last c ps rest = ground (arith, any-append (λ q. c == q) ps (c ∷ []))

enough_virtual_nodes : (v : ℤ) → 0 < (new_hash_ring v).virtual_nodes
unfolding new_hash_ring
enough_virtual_nodes (pos n) = ground arith
enough_virtual_nodes (negsuc n) = ground arith

module _ (sha256 : Text → List ℕ) where
  place-kept :
      (hr : HashRing) (name : Text) (left i : ℕ) (positions : List ℕ)
      → (place sha256 hr name left i positions).1.virtual_nodes ≡ hr.virtual_nodes
  unfolding place
  place-kept hr name zero i positions = refl
  place-kept hr name (suc left) i positions =
      place-kept (occupy sha256 hr name i) name left (i + 1)
        (positions ++ chosen sha256 hr name i ∷ [])

  place_first :
      (hr : HashRing) (name : Text) (n : ℕ)
      → 0 < n
      → Clear sha256 hr name n 0
      → (p : ℕ) × (contains (place sha256 hr name n 0 []).0 p ≡ true)
        × (among p (place sha256 hr name n 0 []).1.ring ≡ true)
  unfolding place Takes
  place_first hr name zero enough clear = absurd (omega arith)
  place_first hr name (suc n) enough (free, clear) =
      let c = chosen sha256 hr name 0 in
      let (taken, listed, ring', _, _) =
        place-Takes sha256 (occupy sha256 hr name 0) name n 1 (c ∷ []) clear in
      let test : ℕ → Bool = λ q. c == q in
      (
        c,
        ap (λ ps. contains ps c) listed ∙ among_head c taken,
        ap (any test) ring'
            ∙ any-append test (hr.ring ++ c ∷ []) taken
            ∙ among_last c hr.ring (any test taken),
      )

  add_node-Grounded :
      (hr : HashRing) (name : Text)
      → Clear sha256 hr name hr.virtual_nodes 0
      → Grounded hr
      → Grounded (add_node sha256 hr name)
  unfolding add_node Takes
  add_node-Grounded hr name clear (enough, once, rooted) =
      let placed = place sha256 hr name hr.virtual_nodes 0 [] in
      let (taken, _, ring', _, _) = place-Takes sha256 hr name hr.virtual_nodes 0 [] clear in
      let (first, mine, there) = place_first hr name hr.virtual_nodes enough clear in
      elim (Bool-cases (has_key name hr.node_to_positions)) [
        | inl known ↦ rw (known, add_node) (enough, once, rooted)
        | inr new ↦
            rw (new, add_node)
              (
                omega (arith, place-kept hr name hr.virtual_nodes 0 []),
                insert-NodupKeys name placed.0 hr.node_to_positions once,
                λ other ps e. elim (Bool-cases (other == name)) [
                  | inl same ↦
                      let is_mine : ps ≡ placed.0 =
                        ground (arith, lookup-insert other name placed.0 hr.node_to_positions) in
                      (
                        first,
                        ap (λ qs. contains qs first) is_mine ∙ mine,
                        any-sort_slice ltb (λ q. first == q) placed.1.ring ∙ there,
                      )
                  | inr different ↦
                      let old : lookup other hr.node_to_positions ≡ some ps =
                        ground (arith, lookup-insert other name placed.0 hr.node_to_positions) in
                      let (p, listed, at) = rooted other ps old in
                      let test : ℕ → Bool = λ q. p == q in
                      (
                        p,
                        listed,
                        any-sort_slice ltb test placed.1.ring
                            ∙ ap (any test) ring'
                            ∙ any-append test hr.ring taken
                            ∙ rw at refl,
                      )
                ],
              )
      ]

  Built-Grounded : (hr : HashRing) → Built sha256 hr → Grounded hr
  unfolding new_hash_ring lookup
  Built-Grounded _ (started v) = (enough_virtual_nodes v, tt, λ name ps e. absurd (ground arith))
  Built-Grounded _ (added {hr} name b clear) = add_node-Grounded hr name clear (Built-Grounded hr b)
  Built-Grounded _ (removed {hr} name b) =
      remove_node-Grounded hr name (Built-WellPlaced sha256 hr b) (Built-Grounded hr b)

  -- The rings that AddNode and RemoveNode make have a position of each node.
  pub Built-Covered : (hr : HashRing) → Built sha256 hr → Covered hr
  Built-Covered hr b = Covered-Grounded hr (Built-WellPlaced sha256 hr b) (Built-Grounded hr b)
