-- ===== src/Prelude/StrictOrder.antt =====
-- What Go's `sort.Slice` gives with a strict order.
use mathlib.Core.Bool.{Bool, true, false}
use mathlib.Core.Path.{◌≡◌, refl}
use mathlib.Core.List.{List, [], ◌∷◌}
use mathlib.Core.Logic.{inl, inr}
use native.Mathlib.Omega.{arith}
use lilio.Prelude.Equality.{text_eq, nat_eq}
use lilio.Prelude.Tests.{Bool-cases, if◌then◌else◌}
use lilio.Prelude.Lists.{All, select}
use lilio.Prelude.Sorting.{insert_sorted, sort_from, sort_slice}

pub record StrictOrder {ℓ} {A : Type ℓ} (less : A → A → Bool) : Type ℓ where
  pub asym : (x y : A) → less x y ≡ true → less y x ≡ false
  pub below : (x y z : A) → less x y ≡ true → less z y ≡ false → less x z ≡ true

module _ {ℓ} {A : Type ℓ} (less : A → A → Bool) where
  -- No element is less than one in front of it.
  abbrev pub Sorted : List A → Type 0
  Sorted [] = Unit
  Sorted (x ∷ xs) = All (λ y. less y x ≡ false) xs × Sorted xs

  -- Each element is less than those behind it.
  abbrev pub Rising : List A → Type 0
  Rising [] = Unit
  Rising (x ∷ xs) = All (λ y. less x y ≡ true) xs × Rising xs

module _ {ℓ} {A : Type ℓ} {less : A → A → Bool} (O : StrictOrder less) where
  All-insert_sorted :
      (z x : A) (xs : List A)
      → less x z ≡ false
      → All (λ y. less y z ≡ false) xs
      → All (λ y. less y z ≡ false) (insert_sorted less x xs)
  unfolding insert_sorted
  All-insert_sorted z x [] h all = (h, tt)
  All-insert_sorted z x (y ∷ ys) h (le, all) = ground (arith, All-insert_sorted z x ys h all)

  All-below :
      (x y : A) (ys : List A)
      → less x y ≡ true
      → All (λ z. less z y ≡ false) ys
      → All (λ z. less x z ≡ true) ys
  All-below x y [] h all = tt
  All-below x y (z ∷ ys) h (le, all) = (O.below x y z h le, All-below x y ys h all)

  All-asym : (x : A) (ys : List A) → All (λ z. less x z ≡ true) ys → All (λ z. less z x ≡ false) ys
  All-asym x [] all = tt
  All-asym x (z ∷ ys) (lt, all) = (O.asym x z lt, All-asym x ys all)

  insert_sorted-Sorted :
      (x : A) (xs : List A) → Sorted less xs → Sorted less (insert_sorted less x xs)
  unfolding insert_sorted
  insert_sorted-Sorted x [] h = (tt, tt)
  insert_sorted-Sorted x (y ∷ ys) (all, h) = elim (Bool-cases (less x y)) [
    | inl lt ↦
        rw (lt, insert_sorted) ((O.asym x y lt, All-asym x ys (All-below x y ys lt all)), (all, h))
    | inr ge ↦ rw (ge, insert_sorted) (All-insert_sorted y x ys ge all, insert_sorted-Sorted x ys h)
  ]

  insert_first :
      (x : A) (ys : List A) → All (λ z. less x z ≡ true) ys → insert_sorted less x ys ≡ x ∷ ys
  unfolding insert_sorted
  insert_first x [] all = refl
  insert_first x (y ∷ ys) (lt, all) = rw (lt, insert_sorted) refl

  All-select : (P : A → Type 0) (keep : A → Bool) (xs : List A) → All P xs → All P (select keep xs)
  All-select P keep [] all = tt
  All-select P keep (x ∷ xs) (p, all) = elim (Bool-cases (keep x)) [
    | inl kept ↦ rw kept (p, All-select P keep xs all)
    | inr dropped ↦ rw dropped (All-select P keep xs all)
  ]

  select-insert_sorted :
      (keep : A → Bool) (x : A) (ys : List A)
      → Sorted less ys
      → select keep (insert_sorted less x ys)
        ≡ (if keep x then insert_sorted less x (select keep ys) else select keep ys)
  unfolding insert_sorted
  select-insert_sorted keep x [] h = ground arith
  select-insert_sorted keep x (y ∷ ys) (all, h) = elim (Bool-cases (less x y)) [
    | inl lt ↦
        let first =
          insert_first x (select keep (y ∷ ys))
            (All-select (λ z. less x z ≡ true) keep (y ∷ ys) (lt, All-below x y ys lt all)) in
        ground arith
    | inr ge ↦ ground (arith, select-insert_sorted keep x ys h)
  ]

  select-sort_from :
      (keep : A → Bool) (done xs : List A)
      → Sorted less done
      → select keep (sort_from less done xs) ≡ sort_from less (select keep done) (select keep xs)
  unfolding sort_from
  select-sort_from keep done [] h = refl
  select-sort_from keep done (x ∷ xs) h =
      let rest =
        select-sort_from keep (insert_sorted less x done) xs (insert_sorted-Sorted x done h) in
      let one = select-insert_sorted keep x done h in
      elim (Bool-cases (keep x)) [
        | inl kept ↦ rw (rest, one, kept) refl
        | inr dropped ↦ rw (rest, one, dropped) refl
      ]

  -- Selecting and sorting may change places.
  pub select-sort_slice :
      (keep : A → Bool) (xs : List A)
      → select keep (sort_slice less xs) ≡ sort_slice less (select keep xs)
  unfolding sort_slice
  select-sort_slice keep xs = select-sort_from keep [] xs tt

  sort_from-Sorted : (done xs : List A) → Sorted less done → Sorted less (sort_from less done xs)
  unfolding sort_from
  sort_from-Sorted done [] h = h
  sort_from-Sorted done (x ∷ xs) h =
      sort_from-Sorted (insert_sorted less x done) xs (insert_sorted-Sorted x done h)

  pub sort_slice-Sorted : (xs : List A) → Sorted less (sort_slice less xs)
  unfolding sort_slice
  sort_slice-Sorted xs = sort_from-Sorted [] xs tt
