-- ===== src/Ring/Strays.antt =====
-- The positions that AddNode of pkg/hashing/consistent.go takes: no other node has them, and the
-- ring has none without a node.
use mathlib.Core.List.{append-nil, append_assoc}
use lilio.Prelude.{
  ap, any, any-append, Bool, Bool-cases, List, Option, Option-cases, Text, [], arith, contains,
  false, if◌then◌else◌, inl, inr, int_eq, ltb, nat_eq, none, not, refl, select, some, suc, sym,
  text_eq, true, zero, ℕ, ◌+◌, ◌++◌, ◌∙◌, ◌∷◌, ◌≡◌,
}
use lilio.Prelude.Dict.{Dict, has_key, has_key-eq-lookup, insert, lookup, lookup-insert}
use lilio.Prelude.Sorting.{any-sort_slice, sort_slice}
use lilio.Ring.{HashRing, add_node, forget, new_hash_ring, place, remove_node}
use lilio.Ring.Placement.{Built, Clear, added, chosen, lookup-forget, occupy, removed, started}
use lilio.Ring.Removal.{remove_node-missing, remove_node-listed}

pub any_mono :
    (f g : ℕ → Bool) (ps : List ℕ)
    → ((p : ℕ) → f p ≡ true → g p ≡ true)
    → any g ps ≡ false
    → any f ps ≡ false
any_mono f g [] sub h = refl
any_mono f g (p ∷ ps) sub h = ground (arith, sub p, any_mono f g ps sub)

pub any_none :
    (f : ℕ → Bool) (ps : List ℕ) → ((p : ℕ) → contains ps p ≡ true → f p ≡ false) → any f ps ≡ false
any_none f [] h = refl
any_none f (p ∷ ps) h = ground (arith, h p, any_none f ps (λ q e. h q (ground arith)))

any-select_mono :
    (f g keep : ℕ → Bool) (ps : List ℕ)
    → ((p : ℕ) → keep p ≡ true → f p ≡ true → g p ≡ true)
    → any g ps ≡ false
    → any f (select keep ps) ≡ false
any-select_mono f g keep [] sub h = refl
any-select_mono f g keep (p ∷ ps) sub h = ground (arith, sub p, any-select_mono f g keep ps sub)

lookup_inserted :
    (name : Text) (ps : List ℕ) (d : Dict Text (List ℕ)) → lookup name (insert name ps d) ≡ some ps
lookup_inserted name ps d = ground (arith, lookup-insert name name ps d)

-- A position of the ring that no node has.
abbrev pub stray : HashRing → ℕ → Bool
stray hr p = not (has_key p hr.position_to_node)

-- Every position of the ring is some node's.
abbrev pub NoStray : HashRing → Type 0
NoStray hr = any (stray hr) hr.ring ≡ false

owner_taken :
    (d : Dict ℕ Text) (c : ℕ) (name : Text) (taken : List ℕ) (p : ℕ) (o : Option Text)
    → o ≡ (if contains taken p then some name else lookup p (insert c name d))
    → o ≡ (if contains (c ∷ taken) p then some name else lookup p d)
owner_taken d c name taken p o h = ground (arith, lookup-insert p c name d)

taken_free :
    (d : Dict ℕ Text) (c : ℕ) (name : Text) (taken : List ℕ) (p : ℕ)
    → lookup c d ≡ none
    → (contains taken p ≡ true → lookup p (insert c name d) ≡ none)
    → contains (c ∷ taken) p ≡ true
    → lookup p d ≡ none
taken_free d c name taken p free rest h = ground (arith, lookup-insert p c name d)

stray_before :
    (d d' : Dict ℕ Text) (name : Text) (taken : List ℕ) (p : ℕ)
    → lookup p d' ≡ (if contains taken p then some name else lookup p d)
    → not (has_key p d') ≡ true
    → not (has_key p d) ≡ true
stray_before d d' name taken p owner h =
    ground (arith, has_key-eq-lookup p d, has_key-eq-lookup p d')

taken_owned :
    (d d' : Dict ℕ Text) (name : Text) (taken : List ℕ) (p : ℕ)
    → lookup p d' ≡ (if contains taken p then some name else lookup p d)
    → contains taken p ≡ true
    → not (has_key p d') ≡ false
taken_owned d d' name taken p owner h = ground (arith, has_key-eq-lookup p d')

stray_kept :
    (d : Dict ℕ Text) (ps : List ℕ) (p : ℕ)
    → not (contains ps p) ≡ true
    → not (has_key p (forget ps d)) ≡ true
    → not (has_key p d) ≡ true
stray_kept d ps p kept h =
    ground (arith, has_key-eq-lookup p d, has_key-eq-lookup p (forget ps d), lookup-forget p ps d)

module _ (sha256 : Text → List ℕ) where
  -- What AddNode's loop adds: positions that were free, for the new node.
  unfoldable pub Takes : HashRing → Text → List ℕ → List ℕ × HashRing → Type 0
  Takes hr name positions (positions', hr') =
      (taken : List ℕ) × (positions' ≡ positions ++ taken)
      × (hr'.ring ≡ hr.ring ++ taken)
      × ((p : ℕ)
          → lookup p hr'.position_to_node
            ≡ (if contains taken p then some name else lookup p hr.position_to_node))
      × ((p : ℕ) → contains taken p ≡ true → lookup p hr.position_to_node ≡ none)

  pub place-Takes :
      (hr : HashRing) (name : Text) (left i : ℕ) (positions : List ℕ)
      → Clear sha256 hr name left i
      → Takes hr name positions (place sha256 hr name left i positions)
  unfolding place Takes
  place-Takes hr name zero i positions clear = (
    [],
    sym (append-nil positions),
    sym (append-nil hr.ring),
    (λ p. refl),
    λ p h. absurd (ground arith),
  )
  place-Takes hr name (suc left) i positions (free, clear) =
      let c = chosen sha256 hr name i in
      let (taken, listed, ring', owners, unowned) =
        place-Takes (occupy sha256 hr name i) name left (i + 1) (positions ++ c ∷ []) clear in
      (
        c ∷ taken,
        listed ∙ append_assoc positions (c ∷ []) taken,
        ring' ∙ append_assoc hr.ring (c ∷ []) taken,
        (λ p. owner_taken hr.position_to_node c name taken p _ (owners p)),
        λ p h. taken_free hr.position_to_node c name taken p free (unowned p) h,
      )

  pub add_node-known :
      (hr : HashRing) (name : Text)
      → has_key name hr.node_to_positions ≡ true
      → add_node sha256 hr name ≡ hr
  unfolding add_node
  add_node-known hr name h = rw (h, add_node) refl

  -- What AddNode does to a ring that does not have the node.
  unfoldable pub Adds : HashRing → Text → HashRing → Type 0
  Adds hr name hr' =
      (taken : List ℕ) × (lookup name hr'.node_to_positions ≡ some taken)
      × (hr'.ring ≡ sort_slice ltb (hr.ring ++ taken))
      × ((p : ℕ)
          → lookup p hr'.position_to_node
            ≡ (if contains taken p then some name else lookup p hr.position_to_node))
      × ((p : ℕ) → contains taken p ≡ true → lookup p hr.position_to_node ≡ none)

  pub add_node-Adds :
      (hr : HashRing) (name : Text)
      → has_key name hr.node_to_positions ≡ false
      → Clear sha256 hr name hr.virtual_nodes 0
      → Adds hr name (add_node sha256 hr name)
  unfolding add_node Takes Adds
  add_node-Adds hr name new clear =
      let (taken, listed, ring', owners, unowned) =
        place-Takes hr name hr.virtual_nodes 0 [] clear in
      let positions = (place sha256 hr name hr.virtual_nodes 0 []).0 in
      rw (new, add_node)
        (
          taken,
          lookup_inserted name positions hr.node_to_positions ∙ ap some listed,
          ap (sort_slice ltb) ring',
          owners,
          unowned,
        )

  add_node-NoStray :
      (hr : HashRing) (name : Text)
      → Clear sha256 hr name hr.virtual_nodes 0
      → NoStray hr
      → NoStray (add_node sha256 hr name)
  unfolding Adds
  add_node-NoStray hr name clear owned = elim (Bool-cases (has_key name hr.node_to_positions)) [
    | inl known ↦ rw (add_node-known hr name known) owned
    | inr new ↦
        let hr' = add_node sha256 hr name in
        let (taken, _, ring', owners, _) = add_node-Adds hr name new clear in
        let old : any (stray hr') hr.ring ≡ false =
          any_mono (stray hr') (stray hr) hr.ring
            (λ p h. stray_before hr.position_to_node hr'.position_to_node name taken p (owners p) h)
            owned in
        let mine : any (stray hr') taken ≡ false =
          any_none (stray hr') taken (λ p h.
            taken_owned hr.position_to_node hr'.position_to_node name taken p (owners p) h) in
        ap (any (stray hr')) ring'
        ∙ any-sort_slice ltb (stray hr') (hr.ring ++ taken)
        ∙ any-append (stray hr') hr.ring taken
        ∙ rw (old, mine) refl
  ]

remove_node-NoStray : (hr : HashRing) (name : Text) → NoStray hr → NoStray (remove_node hr name)
remove_node-NoStray hr name owned = elim (Option-cases (lookup name hr.node_to_positions)) [
  | inl missing ↦ rw (remove_node-missing hr name missing) owned
  | inr (ps, found) ↦
      let (ring', map') = remove_node-listed hr name ps found in
      let hr' = remove_node hr name in
      ap (any (stray hr')) ring'
      ∙ any-select_mono (stray hr') (stray hr) (λ p. not (contains ps p)) hr.ring
          (λ p kept h.
            stray_kept hr.position_to_node ps p kept (sym (ap (λ d. not (has_key p d)) map') ∙ h))
          owned
]

pub NoStray-Built : (sha256 : Text → List ℕ) (hr : HashRing) → Built sha256 hr → NoStray hr
NoStray-Built sha256 _ (started v) = (unfold new_hash_ring in refl)
NoStray-Built sha256 _ (added {hr} name b clear) =
    add_node-NoStray sha256 hr name clear (NoStray-Built sha256 hr b)
NoStray-Built sha256 _ (removed {hr} name b) =
    remove_node-NoStray hr name (NoStray-Built sha256 hr b)
