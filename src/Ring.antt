-- ===== src/Ring.antt =====
-- pkg/hashing/consistent.go: the consistent hash ring. SHA-256 is a parameter.
pub mod Nodes
pub mod Placement
pub mod Removal
pub mod Strays
pub mod Adding
pub mod Covering
pub mod Owners
pub mod Search
use lilio.Prelude.{
  Bool, List, Option, Text, [], bytes, contains, if◌then◌else◌, int_eq, itoa, leb, length, ltb,
  nat_eq, negsuc, none, not, pos, select, some, suc, text_eq, zero, ℕ, ℤ, ◌%◌, ◌*◌, ◌++◌, ◌+◌, ◌/◌,
  ◌==◌, ◌∷◌,
}
use lilio.Prelude.Dict.{Dict, erase, has_key, insert, keys, lookup}
use lilio.Prelude.Sorting.{sort_slice, sort_strings}

-- DefaultvirtualNodes, MaxCollisionRetries
abbrev pub default_virtual_nodes : ℕ
default_virtual_nodes = 150

abbrev pub max_collision_retries : ℕ
max_collision_retries = 100

pub record HashRing : Type 0 where
  pub ring : List ℕ
  pub position_to_node : Dict ℕ Text
  pub node_to_positions : Dict Text (List ℕ)
  pub virtual_nodes : ℕ

-- NewHashRing
unfoldable pub new_hash_ring : ℤ → HashRing
new_hash_ring v = record {
  ring = [];
  position_to_node = [];
  node_to_positions = [];
  virtual_nodes = elim v [
    | pos n ↦ if n == 0 then default_virtual_nodes else n
    | negsuc n ↦ default_virtual_nodes
  ];
}

-- binary.BigEndian.Uint32 of the first four bytes
unfoldable pub big_endian_uint32 : List ℕ → ℕ
big_endian_uint32 (a ∷ b ∷ c ∷ d ∷ rest) = a * 16777216 + b * 65536 + c * 256 + d
big_endian_uint32 _ = 0

-- `m[k]` on a map of strings, where a missing key reads as the empty string
unfoldable pub node_at : Dict ℕ Text → ℕ → Text
node_at d p = elim (lookup p d) [ some n ↦ n | none ↦ [] ]

-- The loop of `sort.Search` over [i, j), on fuel: j - i is enough.
unfoldable pub search_loop : ℕ → ℕ → ℕ → (ℕ → Bool) → ℕ
search_loop zero i j test = i
search_loop (suc fuel) i j test =
    let h = (i + j) / 2 in
    let right = search_loop fuel (h + 1) j test in
    let left = search_loop fuel i h test in if ltb i j then (if test h then left else right) else i

-- `sort.Search(n, test)`
unfoldable pub search : ℕ → (ℕ → Bool) → ℕ
unfolding search_loop
search n test = search_loop n 0 n test

-- `ring[i]`; every use of it is within the ring.
unfoldable pub position_at : List ℕ → ℕ → ℕ
position_at [] i = 0
position_at (p ∷ ps) zero = p
position_at (p ∷ ps) (suc i) = position_at ps i

-- `idx >= len(ring)` wraps round to the start.
abbrev pub wrap : ℕ → ℕ → ℕ
wrap n idx = if ltb idx n then idx else 0

-- getNodeForPosition
unfoldable pub get_node_for_position : HashRing → ℕ → Text
unfolding search position_at node_at
get_node_for_position hr position =
    let n = length hr.ring in
    let idx = search n (λ i. leb position (position_at hr.ring i)) in
    node_at hr.position_to_node (position_at hr.ring (wrap n idx))

-- The loop of GetNodes. `none` says that the fuel ran out with fewer than `count` nodes found.
unfoldable pub get_nodes_loop : HashRing → ℕ → ℕ → ℕ → List Text → List Text → Option (List Text)
unfolding position_at node_at
get_nodes_loop hr zero count idx seen result =
    if ltb (length result) count then none else some result
get_nodes_loop hr (suc fuel) count idx seen result =
    let node = node_at hr.position_to_node (position_at hr.ring idx) in
    let next = (idx + 1) % length hr.ring in
    let rest =
      get_nodes_loop hr fuel count next (if contains seen node then seen else node ∷ seen)
        (if contains seen node then result else result ++ node ∷ []) in
    if ltb (length result) count then rest else some result

module _ (sha256 : Text → List ℕ) where
  unfoldable pub hash : Text → ℕ
  unfolding big_endian_uint32
  hash key = big_endian_uint32 (sha256 key)

  -- `fmt.Sprintf("%s#%d", nodeName, i)`
  unfoldable pub virtual_key : Text → ℕ → Text
  unfolding itoa
  virtual_key name i = name ++ b'#' ∷ itoa i

  -- `fmt.Sprintf("%s#%d#retry%d", nodeName, i, retryCount)`
  unfoldable pub retry_key : Text → ℕ → ℕ → Text
  unfolding itoa
  retry_key name i n = name ++ b'#' ∷ itoa i ++ bytes "#retry" ++ itoa n

  -- The collision loop: `left` retries remain, `tried` were made.
  unfoldable pub probe : Dict ℕ Text → Text → ℕ → ℕ → ℕ → ℕ → ℕ
  unfolding node_at retry_key hash
  probe taken name i zero tried position = position
  probe taken name i (suc left) tried position =
      let again = probe taken name i left (tried + 1) (hash (retry_key name i tried)) in
      if node_at taken position == [] then position else again

  -- The loop of AddNode over the virtual nodes: `left` remain, `i` is the next.
  unfoldable pub place : HashRing → Text → ℕ → ℕ → List ℕ → List ℕ × HashRing
  unfolding probe virtual_key hash
  place hr name zero i positions = (positions, hr)
  place hr name (suc left) i positions =
      let position =
        probe hr.position_to_node name i max_collision_retries 0 (hash (virtual_key name i)) in
      place
        (record hr {
          position_to_node = insert position name hr.position_to_node;
          ring = hr.ring ++ position ∷ [];
        })
        name left (i + 1) (positions ++ position ∷ [])

  -- AddNode
  unfoldable pub add_node : HashRing → Text → HashRing
  unfolding place sort_slice
  add_node hr name =
      let (positions, hr') = place hr name hr.virtual_nodes 0 [] in
      if has_key name hr.node_to_positions then hr else record hr' {
        node_to_positions = insert name positions hr.node_to_positions;
        ring = sort_slice ltb hr'.ring;
      }

  -- GetNode
  unfoldable pub get_node : HashRing → Text → Text
  unfolding get_node_for_position hash
  get_node hr key = if length hr.ring == 0 then [] else get_node_for_position hr (hash key)

  -- GetNodes. One turn of the ring is fuel enough, since later turns meet no new node.
  unfoldable pub get_nodes : HashRing → Text → ℕ → Option (List Text)
  unfolding get_nodes_loop search position_at hash
  get_nodes hr key count =
      let n = length hr.ring in
      let unique = length hr.node_to_positions in
      let wanted = if ltb unique count then unique else count in
      let idx = search n (λ i. ltb (hash key) (position_at hr.ring i)) in
      if n == 0 then some [] else get_nodes_loop hr n wanted (wrap n idx) [] []

-- `for _, pos := range positions { delete(hr.positionToNode, pos) }`
unfoldable pub forget : List ℕ → Dict ℕ Text → Dict ℕ Text
forget [] d = d
forget (p ∷ ps) d = forget ps (erase p d)

-- RemoveNode
unfoldable pub remove_node : HashRing → Text → HashRing
unfolding forget
remove_node hr name = elim (lookup name hr.node_to_positions) [
  | none ↦ hr
  | some positions ↦ record hr {
    position_to_node = forget positions hr.position_to_node;
    node_to_positions = erase name hr.node_to_positions;
    ring = select (λ p. not (contains positions p)) hr.ring;
  }
]

-- GetAllNodes
unfoldable pub get_all_nodes : HashRing → List Text
unfolding sort_strings
get_all_nodes hr = sort_strings (keys hr.node_to_positions)

-- NodeCount
unfoldable pub node_count : HashRing → ℕ
node_count hr = length hr.node_to_positions

-- IsEmpty
unfoldable pub is_empty : HashRing → Bool
is_empty hr = length hr.ring == 0

-- GetNodeLoad
unfoldable pub get_node_load : Dict Text (List ℕ) → Dict Text ℕ
get_node_load [] = []
get_node_load ((node, positions) ∷ d) = (node, length positions) ∷ get_node_load d
