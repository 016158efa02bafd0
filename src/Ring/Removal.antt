-- ===== src/Ring/Removal.antt =====
-- What RemoveNode of pkg/hashing/consistent.go moves.
use lilio.Prelude.{
  ap, Bool, Bool-cases, List, Option-cases, Text, [], any, arith, contains, false, if◌then◌else◌,
  inl, inr, int_eq, leb, length, nat_eq, none, not, refl, select, some, sym, text_eq, true, ℕ, ◌==◌,
  ◌∙◌, ◌∷◌, ◌≡◌, ◌||◌,
}
use lilio.Prelude.Dict.{Dict, lookup}
use lilio.Prelude.Ordered.{Ordered}
use lilio.Ring.{
  HashRing, forget, get_node, get_node_for_position, hash, node_at, position_at, remove_node,
}
use lilio.Ring.Search.{first_or, position_at-search}
use lilio.Ring.Placement.{Built, Built-WellPlaced, lookup-forget, remove_node-WellPlaced}

-- Dropping positions that are not the first one to pass a test does not change which one that is.
first_or-select :
    (d e : ℕ) (test keep : ℕ → Bool) (ps : List ℕ)
    → any test ps ≡ true
    → keep (first_or d test ps) ≡ true
    → first_or e test (select keep ps) ≡ first_or d test ps
first_or-select d e test keep [] h kept = absurd (ground arith)
first_or-select d e test keep (p ∷ ps) h kept = ground (arith, first_or-select d e test keep ps)

first_or-eq-default :
    (d : ℕ) (test : ℕ → Bool) (ps : List ℕ) → any test ps ≡ false → first_or d test ps ≡ d
first_or-eq-default d test [] h = refl
first_or-eq-default d test (p ∷ ps) h = ground (arith, first_or-eq-default d test ps)

any-select_none :
    (test keep : ℕ → Bool) (ps : List ℕ) → any test ps ≡ false → any test (select keep ps) ≡ false
any-select_none test keep [] h = refl
any-select_none test keep (p ∷ ps) h = ground (arith, any-select_none test keep ps)

-- The position that serves a point, with the wrap to the first one.
abbrev pub serving : (ℕ → Bool) → List ℕ → ℕ
serving test ps = first_or (position_at ps 0) test ps

serving-select :
    (test keep : ℕ → Bool) (p : ℕ) (ps : List ℕ)
    → keep (serving test (p ∷ ps)) ≡ true
    → serving test (select keep (p ∷ ps)) ≡ serving test (p ∷ ps)
unfolding position_at
serving-select test keep p ps kept = elim (Bool-cases (any test (p ∷ ps))) [
  | inl passes ↦
      first_or-select p (position_at (select keep (p ∷ ps)) 0) test keep (p ∷ ps) passes kept
  | inr fails ↦
      let whole = first_or-eq-default p test (p ∷ ps) fails in
      let part =
        first_or-eq-default (position_at (select keep (p ∷ ps)) 0) test (select keep (p ∷ ps))
          (any-select_none test keep (p ∷ ps) fails) in
      let kept' : keep p ≡ true = ap keep (sym whole) ∙ kept in
      let head : position_at (select keep (p ∷ ps)) 0 ≡ p = rw kept' refl in part ∙ head ∙ sym whole
]

-- GetNode on a ring that is not empty, by the position that serves the key.
pub get_node_lem :
    (sha256 : Text → List ℕ) (hr : HashRing) (key : Text)
    → Ordered (λ p. p) hr.ring
    → get_node sha256 hr key ≡ (
        if length hr.ring == 0
        then []
        else node_at hr.position_to_node (serving (leb (hash sha256 key)) hr.ring))
unfolding get_node get_node_for_position
get_node_lem sha256 hr key ordered = rw (position_at-search hr.ring (hash sha256 key) ordered) refl

first_or-any :
    (d : ℕ) (test keep : ℕ → Bool) (ps : List ℕ)
    → keep (first_or d test ps) ≡ true
    → (keep d || any keep ps) ≡ true
first_or-any d test keep [] h = ground arith
first_or-any d test keep (p ∷ ps) h = ground (arith, first_or-any d test keep ps)

length-select-any :
    (keep : ℕ → Bool) (ps : List ℕ) → any keep ps ≡ true → (length (select keep ps) == 0) ≡ false
length-select-any keep [] h = absurd (ground arith)
length-select-any keep (p ∷ ps) h = ground (arith, length-select-any keep ps)

-- A list that keeps the position that serves a point still has it serve the point.
serving_kept :
    (test keep : ℕ → Bool) (ps : List ℕ)
    → (length ps == 0) ≡ false
    → keep (serving test ps) ≡ true
    → ((length (select keep ps) == 0) ≡ false) × (serving test (select keep ps) ≡ serving test ps)
unfolding position_at
serving_kept test keep [] some_position kept = absurd (ground arith)
serving_kept test keep (p ∷ ps) some_position kept =
    let found : any keep (p ∷ ps) ≡ true = ground (arith, first_or-any p test keep (p ∷ ps) kept) in
    (length-select-any keep (p ∷ ps) found, serving-select test keep p ps kept)

select-empty :
    (keep : ℕ → Bool) (ps : List ℕ)
    → (length ps == 0) ≡ true
    → (length (select keep ps) == 0) ≡ true
select-empty keep [] h = h
select-empty keep (p ∷ ps) h = absurd (ground arith)

pub node_at-eq :
    (d : Dict ℕ Text) (p : ℕ) (name : Text) → lookup p d ≡ some name → node_at d p ≡ name
unfolding node_at
node_at-eq d p name h = rw (h, node_at) refl

node_at-forget :
    (d : Dict ℕ Text) (ps : List ℕ) (p : ℕ)
    → contains ps p ≡ false
    → node_at (forget ps d) p ≡ node_at d p
unfolding node_at
node_at-forget d ps p h = ground (arith, lookup-forget p ps d)

pub remove_node-missing :
    (hr : HashRing) (name : Text)
    → lookup name hr.node_to_positions ≡ none
    → remove_node hr name ≡ hr
unfolding remove_node
remove_node-missing hr name h = rw (h, remove_node) refl

pub remove_node-listed :
    (hr : HashRing) (name : Text) (positions : List ℕ)
    → lookup name hr.node_to_positions ≡ some positions
    → ((remove_node hr name).ring ≡ select (λ p. not (contains positions p)) hr.ring)
      × ((remove_node hr name).position_to_node ≡ forget positions hr.position_to_node)
unfolding remove_node
remove_node-listed hr name positions h = rw (h, remove_node) (refl, refl)

-- On a ring that AddNode and RemoveNode made, RemoveNode moves only the keys of the node that it
-- removes, provided that AddNode found free positions: GetNode gives every other key the same
-- node as before.
pub get_node-remove_node :
    (sha256 : Text → List ℕ) (hr : HashRing) (name key : Text)
    → Built sha256 hr
    → (get_node sha256 hr key == name) ≡ false
    → get_node sha256 (remove_node hr name) key ≡ get_node sha256 hr key
get_node-remove_node sha256 hr name key built other =
    let (ordered, owned) = Built-WellPlaced sha256 hr built in
    let (ordered', _) = remove_node-WellPlaced hr name (ordered, owned) in
    let test = leb (hash sha256 key) in
    let before = get_node_lem sha256 hr key ordered in
    let after = get_node_lem sha256 (remove_node hr name) key ordered' in
    elim (Option-cases (lookup name hr.node_to_positions)) [
      | inl missing ↦ ap (λ r. get_node sha256 r key) (remove_node-missing hr name missing)
      | inr (positions, found) ↦
          let (ring', map') = remove_node-listed hr name positions found in
          let keep : ℕ → Bool = λ p. not (contains positions p) in
          let x = serving test hr.ring in
          elim (Bool-cases (length hr.ring == 0)) [
            | inl empty ↦
                let none_left = select-empty keep hr.ring empty in
                rw (before, after, ring', none_left, empty) refl
            | inr some_position ↦ elim (Bool-cases (contains positions x)) [
              | inl gone ↦
                  let theirs =
                    node_at-eq hr.position_to_node x name (owned name positions x found gone) in
                  absurd (ground (arith, before, theirs))
              | inr kept ↦
                  let (filled, same) = serving_kept test keep hr.ring some_position (ap not kept) in
                  rw (before, after, ring', map', filled, same, some_position)
                    (node_at-forget hr.position_to_node positions x kept)
            ]
          ]
    ]
