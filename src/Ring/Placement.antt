-- ===== src/Ring/Placement.antt =====
-- Which positions of the ring pkg/hashing/consistent.go gives to a node.
use lilio.Prelude.{
  All, Bool, Bool-cases, List, Option-cases, Text, [], arith, contains, if◌then◌else◌, inl, inr,
  int_eq, nat_eq, none, not, refl, select, some, suc, text_eq, true, zero, ℕ, ℤ, ◌+◌, ◌++◌, ◌==◌,
  ◌∷◌, ◌≡◌, ◌≤◌, ◌||◌,
}
use lilio.Prelude.Dict.{Dict, erase, has_key, insert, lookup, lookup-erase, lookup-insert}
use lilio.Prelude.Ordered.{Ordered, sort_slice-Ordered}
use lilio.Ring.{
  HashRing, add_node, forget, hash, max_collision_retries, new_hash_ring, place, probe, remove_node,
  virtual_key,
}
use lilio.Ring.Search.{}

-- The ring is in order, and each position that a node lists is the node's.
abbrev pub WellPlaced : HashRing → Type 0
WellPlaced hr =
    Ordered (λ p. p) hr.ring
    × ((name : Text) (ps : List ℕ) (p : ℕ)
        → lookup name hr.node_to_positions ≡ some ps
        → contains ps p ≡ true
        → lookup p hr.position_to_node ≡ some name)

All-select :
    (k : ℕ) (keep : ℕ → Bool) (ps : List ℕ)
    → All (λ y. k ≤ y) ps
    → All (λ y. k ≤ y) (select keep ps)
All-select k keep [] h = tt
All-select k keep (p ∷ ps) (le, h) = ground (arith, All-select k keep ps h)

select-Ordered :
    (keep : ℕ → Bool) (ps : List ℕ) → Ordered (λ p. p) ps → Ordered (λ p. p) (select keep ps)
select-Ordered keep [] h = tt
select-Ordered keep (p ∷ ps) (all, h) =
    ground (arith, All-select p keep ps all, select-Ordered keep ps h)

pub lookup-forget :
    (p : ℕ) (ps : List ℕ) (d : Dict ℕ Text)
    → lookup p (forget ps d) ≡ (if contains ps p then none else lookup p d)
unfolding forget
lookup-forget p [] d = refl
lookup-forget p (q ∷ ps) d = ground (arith, lookup-forget p ps (erase q d), lookup-erase p q d)

pub remove_node-WellPlaced :
    (hr : HashRing) (name : Text) → WellPlaced hr → WellPlaced (remove_node hr name)
unfolding remove_node
remove_node-WellPlaced hr name (ordered, owned) =
    elim (Option-cases (lookup name hr.node_to_positions)) [
      | inl missing ↦ rw (missing, remove_node) (ordered, owned)
      | inr (positions, found) ↦
          rw (found, remove_node)
            (
              select-Ordered (λ p. not (contains positions p)) hr.ring ordered,
              λ other ps p e h.
                  let old : lookup other hr.node_to_positions ≡ some ps =
                    ground (arith, lookup-erase other name hr.node_to_positions) in
                  let mine = owned other ps p old h in
                  elim (Bool-cases (contains positions p)) [
                    | inr kept ↦ ground (arith, lookup-forget p positions hr.position_to_node)
                    | inl gone ↦
                        let theirs = owned name positions p found gone in
                        absurd (ground (arith, lookup-erase other name hr.node_to_positions))
                  ],
            )
    ]

contains-snoc_position :
    (ps : List ℕ) (p q : ℕ) → contains (ps ++ p ∷ []) q ≡ (contains ps q || q == p)
contains-snoc_position [] p q = ground arith
contains-snoc_position (r ∷ ps) p q = ground (arith, contains-snoc_position ps p q)

lookup-insert_free :
    (d : Dict ℕ Text) (c : ℕ) (name : Text) (p : ℕ) (other : Text)
    → lookup c d ≡ none
    → lookup p d ≡ some other
    → lookup p (insert c name d) ≡ some other
lookup-insert_free d c name p other free h = ground (arith, lookup-insert p c name d)

lookup-insert_taken :
    (d : Dict ℕ Text) (c : ℕ) (name : Text) (ps : List ℕ) (p : ℕ)
    → (contains ps p ≡ true → lookup p d ≡ some name)
    → contains (ps ++ c ∷ []) p ≡ true
    → lookup p (insert c name d) ≡ some name
lookup-insert_taken d c name ps p mine h =
    ground (arith, lookup-insert p c name d, contains-snoc_position ps c p)

module _ (sha256 : Text → List ℕ) where
  -- The position that AddNode takes for a virtual node.
  abbrev pub chosen : HashRing → Text → ℕ → ℕ
  chosen hr name i =
      probe sha256 hr.position_to_node name i max_collision_retries 0
        (hash sha256 (virtual_key sha256 name i))

  abbrev pub occupy : HashRing → Text → ℕ → HashRing
  occupy hr name i = record hr {
    position_to_node = insert (chosen hr name i) name hr.position_to_node;
    ring = hr.ring ++ chosen hr name i ∷ [];
  }

  -- Each position that AddNode takes is free, as it is unless all its retries meet others.
  abbrev pub Clear : HashRing → Text → ℕ → ℕ → Type 0
  Clear hr name zero i = Unit
  Clear hr name (suc left) i =
      (lookup (chosen hr name i) hr.position_to_node ≡ none)
      × Clear (occupy hr name i) name left (i + 1)

  -- The rings that AddNode and RemoveNode make of an empty one.
  pub data Built : HashRing → Type 0 where
    started : (v : ℤ) → Built (new_hash_ring v)
    added :
        {hr : HashRing} (name : Text)
        → Built hr
        → Clear hr name hr.virtual_nodes 0
        → Built (add_node sha256 hr name)
    removed : {hr : HashRing} (name : Text) → Built hr → Built (remove_node hr name)

  -- What AddNode's loop leaves: the positions that were taken are still their nodes', and those
  -- that it returns are the new node's.
  Places : HashRing → Text → List ℕ × HashRing → Type 0
  Places hr name (positions, hr') =
      ((p : ℕ) (other : Text)
        → lookup p hr.position_to_node ≡ some other
        → lookup p hr'.position_to_node ≡ some other)
      × ((p : ℕ) → contains positions p ≡ true → lookup p hr'.position_to_node ≡ some name)

  place-Places :
      (hr : HashRing) (name : Text) (left i : ℕ) (positions : List ℕ)
      → Clear hr name left i
      → ((p : ℕ) → contains positions p ≡ true → lookup p hr.position_to_node ≡ some name)
      → Places hr name (place sha256 hr name left i positions)
  unfolding place Places
  place-Places hr name zero i positions clear mine = ((λ p other h. h), mine)
  place-Places hr name (suc left) i positions (free, clear) mine =
      let c = chosen hr name i in
      let d = hr.position_to_node in
      let (keeps, new) =
        place-Places (occupy hr name i) name left (i + 1) (positions ++ c ∷ []) clear
          (λ p h. lookup-insert_taken d c name positions p (mine p) h) in
      ((λ p other h. keeps p other (lookup-insert_free d c name p other free h)), new)

  add_node-WellPlaced :
      (hr : HashRing) (name : Text)
      → WellPlaced hr
      → Clear hr name hr.virtual_nodes 0
      → WellPlaced (add_node sha256 hr name)
  unfolding add_node Places
  add_node-WellPlaced hr name (ordered, owned) clear =
      let placed = place sha256 hr name hr.virtual_nodes 0 [] in
      let (keeps, new) =
        place-Places hr name hr.virtual_nodes 0 [] clear (λ p h. absurd (ground arith)) in
      elim (Bool-cases (has_key name hr.node_to_positions)) [
        | inl known ↦ rw (known, add_node) (ordered, owned)
        | inr unknown ↦
            rw (unknown, add_node)
              (
                sort_slice-Ordered (λ p. p) placed.1.ring,
                λ other ps p e h. elim (Bool-cases (other == name)) [
                  | inl same ↦
                      ground (arith, lookup-insert other name placed.0 hr.node_to_positions, new p)
                  | inr different ↦ keeps p other (
                      owned other ps p
                        (ground (arith, lookup-insert other name placed.0 hr.node_to_positions)) h)
                ],
              )
      ]

  pub Built-WellPlaced : (hr : HashRing) → Built hr → WellPlaced hr
  unfolding new_hash_ring lookup
  Built-WellPlaced _ (started v) = (tt, λ name ps p e h. absurd (ground arith))
  Built-WellPlaced _ (added {hr} name b clear) =
      add_node-WellPlaced hr name (Built-WellPlaced hr b) clear
  Built-WellPlaced _ (removed {hr} name b) = remove_node-WellPlaced hr name (Built-WellPlaced hr b)
