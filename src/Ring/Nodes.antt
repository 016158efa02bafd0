-- ===== src/Ring/Nodes.antt =====
-- What GetNodes of pkg/hashing/consistent.go returns.
use native.Mathlib.Nat.{mod_self, mod-eq_of_lt, mod-lt}
use Prim.Native.Nat.{min}
use lilio.Prelude.{
  All, Bool, Bool-cases, List, Option, Text, [], any, arith, contains, false, if◌then◌else◌, inl,
  inr, int_eq, length, length-append, ltb, ltb→le, ltb→lt, nat_eq, refl, some, suc, sym, text_eq,
  true, zero, ℕ, ◌%◌, ◌++◌, ◌+◌, ◌<◌, ◌==◌, ◌∙◌, ◌∷◌, ◌≡◌, ◌≤◌, ◌⊎◌,
}
use lilio.Prelude.Dict.{NodupKeys, has_key, keys}
use lilio.Prelude.Distinct.{
  Distinct, keys-All, keys-Distinct, length-keys, contains-snoc, length-Distinct, snoc-Distinct,
}
use lilio.Ring.{
  HashRing, get_nodes, get_nodes_loop, hash, node_at, node_count, position_at, search, wrap,
}

-- The node at an index of the ring.
abbrev owner : HashRing → ℕ → Text
owner hr i = node_at hr.position_to_node (position_at hr.ring i)

-- A position of the ring is the node's.
abbrev pub is_placed : HashRing → Text → Bool
is_placed hr name = any (λ p. node_at hr.position_to_node p == name) hr.ring

-- Every node of the ring has a position on it, and is in the map once.
abbrev pub Covered : HashRing → Type 0
Covered hr =
    NodupKeys hr.node_to_positions
    × ((name : Text) → has_key name hr.node_to_positions ≡ true → is_placed hr name ≡ true)

-- The loop will still come to index `j` when it is at `idx` with `fuel` turns left.
abbrev Ahead : ℕ → ℕ → ℕ → ℕ → Type 0
Ahead n idx fuel j = ((idx ≤ j) × (j < idx + fuel)) ⊎ ((j < idx) × (j + n < idx + fuel))

next_index :
    (n idx : ℕ) → idx < n → ((idx + 1) % n ≡ idx + 1) ⊎ ((idx + 1 ≡ n) × ((idx + 1) % n ≡ 0))
next_index n idx h = elim (Bool-cases (ltb (idx + 1) n)) [
  | inl less ↦ inl (mod-eq_of_lt (ltb→lt (idx + 1) n less))
  | inr more ↦
      let e : idx + 1 ≡ n = omega (arith, ltb→le (idx + 1) n more) in inr (e, rw e (mod_self n))
]

Ahead-next :
    (n idx fuel j : ℕ)
    → idx < n
    → j < n
    → Ahead n idx (suc fuel) j
    → (j ≡ idx) ⊎ Ahead n ((idx + 1) % n) fuel j
Ahead-next n idx fuel j h lt ahead = ground (arith, next_index n idx h)

module _ (hr : HashRing) where
  -- What is known of the nodes that the loop has found.
  abbrev Found : List Text → List Text → ℕ → Type 0
  Found seen result count =
      ((x : Text) → contains seen x ≡ contains result x)
      × Distinct result
      × All (λ x. is_placed hr x ≡ true) result
      × (length result ≤ count)

  -- Each index of the ring has been met or will be.
  abbrev Sweeps : ℕ → ℕ → List Text → Type 0
  Sweeps idx fuel result =
      (j : ℕ)
      → j < length hr.ring
      → (contains result (owner hr j) ≡ true) ⊎ Ahead (length hr.ring) idx fuel j

  -- A list with the nodes of all positions is long enough.
  abbrev Enough : ℕ → Type 0
  Enough count =
      (nodes : List Text)
      → ((j : ℕ) → j < length hr.ring → contains nodes (owner hr j) ≡ true)
      → count ≤ length nodes

  owner_placed :
      (ps : List ℕ) (j : ℕ)
      → j < length ps
      → any
          (λ p. node_at hr.position_to_node p == node_at hr.position_to_node (position_at ps j))
          ps
        ≡ true
  unfolding position_at
  owner_placed [] j h = absurd (omega arith)
  owner_placed (p ∷ ps) zero h = ground arith
  owner_placed (p ∷ ps) (suc j) h = ground (arith, owner_placed ps j (omega arith))

  All-snoc :
      (xs : List Text) (y : Text)
      → All (λ x. is_placed hr x ≡ true) xs
      → is_placed hr y ≡ true
      → All (λ x. is_placed hr x ≡ true) (xs ++ y ∷ [])
  All-snoc [] y h p = (p, tt)
  All-snoc (x ∷ xs) y (px, h) p = (px, All-snoc xs y h p)

  Returns : ℕ → Option (List Text) → Type 0
  Returns count out =
      (nodes : List Text) × (out ≡ some nodes)
      × (length nodes ≡ count)
      × Distinct nodes
      × All (λ x. is_placed hr x ≡ true) nodes

  full :
      (count : ℕ) (seen result : List Text)
      → Found seen result count
      → ltb (length result) count ≡ false
      → Returns count (some result)
  unfolding Returns
  full count seen result (same, distinct, placed, short) h =
      (result, refl, omega (arith, ltb→le (length result) count h), distinct, placed)

  get_nodes_loop-Returns :
      (fuel count idx : ℕ) (seen result : List Text)
      → idx < length hr.ring
      → Enough count
      → Found seen result count
      → Sweeps idx fuel result
      → Returns count (get_nodes_loop hr fuel count idx seen result)
  unfolding get_nodes_loop
  get_nodes_loop-Returns zero count idx seen result inside enough found sweeps =
      let all : (j : ℕ) → j < length hr.ring → contains result (owner hr j) ≡ true =
        λ j lt. elim (sweeps j lt) [ inl met ↦ met | inr ahead ↦ ground arith ] in
      let stop : ltb (length result) count ≡ false = ground (arith, enough result all) in
      rw (stop, get_nodes_loop) (full count seen result found stop)
  get_nodes_loop-Returns (suc fuel) count idx seen result inside enough found sweeps =
      elim (Bool-cases (ltb (length result) count)) [
        | inr stop ↦ rw (stop, get_nodes_loop) (full count seen result found stop)
        | inl room ↦
            let n = length hr.ring in
            let node = owner hr idx in
            let (same, distinct, placed, short) = found in
            elim (Bool-cases (contains seen node)) [
              | inl met ↦
                  let sweeps' : Sweeps ((idx + 1) % n) fuel result = λ j lt. elim (sweeps j lt) [
                    | inl known ↦ inl known
                    | inr ahead ↦ elim (Ahead-next n idx fuel j inside lt ahead) [
                      | inl e ↦ inl (rw e (sym (same node) ∙ met))
                      | inr later ↦ inr later
                    ]
                  ] in
                  rw (room, met, get_nodes_loop)
                    (get_nodes_loop-Returns fuel count ((idx + 1) % n) seen result
                      (mod-lt (idx + 1) (omega arith)) enough found sweeps')
              | inr new ↦
                  let result' = result ++ node ∷ [] in
                  let found' : Found (node ∷ seen) result' count = (
                    λ x. ground (arith, contains-snoc result node x, same x),
                    snoc-Distinct result node (sym (same node) ∙ new) distinct,
                    All-snoc result node placed (owner_placed hr.ring idx inside),
                    ground (arith, length-append result (node ∷ [])),
                  ) in
                  let sweeps' : Sweeps ((idx + 1) % n) fuel result' = λ j lt. elim (sweeps j lt) [
                    | inl known ↦ inl (ground (arith, contains-snoc result node (owner hr j)))
                    | inr ahead ↦ elim (Ahead-next n idx fuel j inside lt ahead) [
                      | inl e ↦ inl (rw e (ground (arith, contains-snoc result node node)))
                      | inr later ↦ inr later
                    ]
                  ] in
                  rw (room, new, get_nodes_loop)
                    (get_nodes_loop-Returns fuel count ((idx + 1) % n) (node ∷ seen) result'
                      (mod-lt (idx + 1) (omega arith)) enough found' sweeps')
            ]
      ]

  met_name :
      (ps : List ℕ) (nodes : List Text) (name : Text)
      → ((j : ℕ)
          → j < length ps
          → contains nodes (node_at hr.position_to_node (position_at ps j)) ≡ true)
      → any (λ p. node_at hr.position_to_node p == name) ps ≡ true
      → contains nodes name ≡ true
  unfolding position_at
  met_name [] nodes name all h = ground arith
  met_name (p ∷ ps) nodes name all h =
      ground
        (arith, all 0 (omega arith), met_name ps nodes name (λ j lt. all (suc j) (omega arith)))

-- The loop of GetNodes ends, after one turn of the ring at most: on a ring on which each node has
-- a position, GetNodes returns as many nodes as are asked for, or all if there are fewer. They are
-- distinct, and each has a position on the ring.
pub get_nodes_lem :
    (sha256 : Text → List ℕ) (hr : HashRing) (key : Text) (count : ℕ)
    → Covered hr
    → (nodes : List Text) × (get_nodes sha256 hr key count ≡ some nodes)
      × (length nodes ≡ min count (node_count hr))
      × Distinct nodes
      × All (λ x. is_placed hr x ≡ true) nodes
unfolding get_nodes node_count Returns
get_nodes_lem sha256 hr key count (once, placed) =
    let n = length hr.ring in
    let unique = length hr.node_to_positions in
    let wanted = if ltb unique count then unique else count in
    let idx = search n (λ i. ltb (hash sha256 key) (position_at hr.ring i)) in
    let enough : Enough hr wanted = λ nodes all.
      let names =
        keys-All nodes hr.node_to_positions hr.node_to_positions
          (λ k h. met_name hr hr.ring nodes k all (placed k h)) (λ k h. h) in
      let le : length (keys hr.node_to_positions) ≤ length nodes =
        length-Distinct (keys hr.node_to_positions) nodes (keys-Distinct hr.node_to_positions once)
          names in
      ground (arith, le, length-keys hr.node_to_positions) in
    let amount : wanted ≡ min count unique = ground arith in
    elim (Bool-cases (n == 0)) [
      | inl empty ↦
          let none_at_all : wanted ≤ 0 = enough [] (λ j lt. absurd (ground arith)) in
          rw (empty, get_nodes) ([], refl, omega arith, tt, tt)
      | inr some_position ↦
          let inside : wrap n idx < n = ground arith in
          let sweeps : Sweeps hr (wrap n idx) n [] = λ j lt. inr (ground arith) in
          let (nodes, e, size, distinct, owned) =
            get_nodes_loop-Returns hr n wanted (wrap n idx) [] [] inside enough
              ((λ x. refl), tt, tt, omega arith) sweeps in
          rw (some_position, get_nodes) (nodes, e, size ∙ amount, distinct, owned)
    ]
