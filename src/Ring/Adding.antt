-- ===== src/Ring/Adding.antt =====
-- What AddNode of pkg/hashing/consistent.go moves.
use mathlib.Core.List.{append-nil}
use lilio.Prelude.{
  ap, any, Bool, Bool-cases, List, Text, [], arith, contains, false, if◌then◌else◌, inl, inr,
  int_eq, leb, ltb, nat_eq, none, not, refl, select, select-nil, some, sym, text_eq, true, ℕ, ◌++◌,
  ◌==◌, ◌∙◌, ◌∷◌, ◌≡◌, ◌⊎◌,
}
use lilio.Prelude.Dict.{Dict, has_key, has_key-eq-lookup, lookup}
use lilio.Prelude.Ordered.{Ordered, sort_slice_in_place}
use lilio.Prelude.Sorting.{sort_slice}
use lilio.Prelude.StrictOrder.{StrictOrder, select-sort_slice}
use lilio.Ring.{HashRing, add_node, forget, get_node, hash, node_at, remove_node}
use lilio.Ring.Placement.{Built, Built-WellPlaced, Clear, added, lookup-forget}
use lilio.Ring.Removal.{get_node_lem, serving, remove_node-listed, get_node-remove_node}
use lilio.Ring.Strays.{Adds, NoStray, NoStray-Built, add_node-Adds, any_mono, any_none, stray}

ltb-StrictOrder : StrictOrder ltb
ltb-StrictOrder = record { asym = λ x y h. ground arith; below = λ x y z h k. ground arith }

select_all :
    (keep : ℕ → Bool) (ps : List ℕ) → any (λ p. not (keep p)) ps ≡ false → select keep ps ≡ ps
select_all keep [] h = refl
select_all keep (p ∷ ps) h = ground (arith, select_all keep ps)

select-append :
    (keep : ℕ → Bool) (ps qs : List ℕ) → select keep (ps ++ qs) ≡ select keep ps ++ select keep qs
select-append keep [] qs = refl
select-append keep (p ∷ ps) qs = ground (arith, select-append keep ps qs)

node_at_same : (d d' : Dict ℕ Text) (p : ℕ) → lookup p d' ≡ lookup p d → node_at d' p ≡ node_at d p
unfolding node_at
node_at_same d d' p h = rw (h, node_at) refl

get_node_same :
    (sha256 : Text → List ℕ) (hr hr' : HashRing) (key : Text)
    → Ordered (λ p. p) hr.ring
    → hr'.ring ≡ hr.ring
    → ((p : ℕ) → lookup p hr'.position_to_node ≡ lookup p hr.position_to_node)
    → get_node sha256 hr' key ≡ get_node sha256 hr key
get_node_same sha256 hr hr' key ordered ring' owners =
    let x = serving (leb (hash sha256 key)) hr.ring in
    let ordered' : Ordered (λ p. p) hr'.ring = rw ring' ordered in
    let before = get_node_lem sha256 hr key ordered in
    let after = get_node_lem sha256 hr' key ordered' in
    rw (after, before, ring', node_at_same hr.position_to_node hr'.position_to_node x (owners x))
      refl

-- Without the positions that a new node took, the ring is what it was.
ring_restored :
    (hr : HashRing) (taken : List ℕ)
    → Ordered (λ p. p) hr.ring
    → NoStray hr
    → ((p : ℕ) → contains taken p ≡ true → lookup p hr.position_to_node ≡ none)
    → select (λ p. not (contains taken p)) (sort_slice ltb (hr.ring ++ taken)) ≡ hr.ring
ring_restored hr taken ordered owned unowned =
    let keep : ℕ → Bool = λ p. not (contains taken p) in
    let old : select keep hr.ring ≡ hr.ring = select_all keep hr.ring (
      any_mono (λ p. not (keep p)) (stray hr) hr.ring
        (λ p h. ground (arith, unowned p, has_key-eq-lookup p hr.position_to_node)) owned) in
    let gone : select keep taken ≡ [] =
      select-nil keep taken (any_none keep taken λ p h. ap not h) in
    select-sort_slice ltb-StrictOrder keep (hr.ring ++ taken)
    ∙ ap (sort_slice ltb) (select-append keep hr.ring taken ∙ rw (old, gone) (append-nil hr.ring))
    ∙ sort_slice_in_place (λ p. p) hr.ring ordered

lookup_restored :
    (d d' : Dict ℕ Text) (name : Text) (taken : List ℕ) (p : ℕ)
    → lookup p d' ≡ (if contains taken p then some name else lookup p d)
    → (contains taken p ≡ true → lookup p d ≡ none)
    → lookup p (forget taken d') ≡ lookup p d
lookup_restored d d' name taken p owner unowned = ground (arith, lookup-forget p taken d')

module _ (sha256 : Text → List ℕ) (hr : HashRing) (name key : Text) (built : Built sha256 hr)
    (new : has_key name hr.node_to_positions ≡ false)
    (clear : Clear sha256 hr name hr.virtual_nodes 0) where
  get_node-remove_node-add_node :
      get_node sha256 (remove_node (add_node sha256 hr name) name) key ≡ get_node sha256 hr key
  unfolding Adds
  get_node-remove_node-add_node =
      let hr' = add_node sha256 hr name in
      let (taken, listed, ring', owners, unowned) = add_node-Adds sha256 hr name new clear in
      let (ring'', map'') = remove_node-listed hr' name taken listed in
      let (ordered, _) = Built-WellPlaced sha256 hr built in
      let restored = ring_restored hr taken ordered (NoStray-Built sha256 hr built) unowned in
      get_node_same sha256 hr (remove_node hr' name) key ordered
        (ring'' ∙ ap (select (λ p. not (contains taken p))) ring' ∙ restored)
        (λ p.
          ap (lookup p) map''
          ∙ lookup_restored hr.position_to_node hr'.position_to_node name taken p (owners p)
              (unowned p))

  -- AddNode moves keys only to the node that it adds, a node that the ring does not have yet, on
  -- a ring that AddNode and RemoveNode made and if AddNode finds free positions: GetNode gives
  -- each key the new node or the node that it gave before, and the latter for all keys once
  -- RemoveNode has removed the new node again.
  pub get_node-add_node :
      ((get_node sha256 (add_node sha256 hr name) key ≡ name)
        ⊎ (get_node sha256 (add_node sha256 hr name) key ≡ get_node sha256 hr key))
      × (get_node sha256 (remove_node (add_node sha256 hr name) name) key ≡ get_node sha256 hr key)
  get_node-add_node =
      let restored = get_node-remove_node-add_node in
      elim (Bool-cases (get_node sha256 (add_node sha256 hr name) key == name)) [
        | inl moved ↦ (inl (ground arith), restored)
        | inr stays ↦
            let same =
              get_node-remove_node sha256 (add_node sha256 hr name) name key
                (added name built clear) stays in
            (inr (sym same ∙ restored), restored)
      ]
