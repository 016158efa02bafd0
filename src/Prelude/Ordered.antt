-- ===== src/Prelude/Ordered.antt =====
-- What Go's `sort.Slice` gives when it compares by a number.
use Prim.Native.Nat.{ℕ, ◌≤◌}
use mathlib.Core.Bool.{Bool, false}
use mathlib.Core.Path.{◌≡◌, refl, sym, ap, ◌∙◌}
use mathlib.Core.List.{List, [], ◌∷◌, ◌++◌, append-nil, append_assoc}
use mathlib.Core.Logic.{inl, inr}
use native.Mathlib.Omega.{arith}
use lilio.Prelude.Tests.{Bool-cases, ltb, ltb→lt, ltb→le}
use lilio.Prelude.Lists.{All}
use lilio.Prelude.Sorting.{insert_sorted, sort_from, sort_slice}

module _ {ℓ} {A : Type ℓ} (key : A → ℕ) where
  -- Each element is at most as large as those behind it.
  abbrev pub Ordered : List A → Type 0
  Ordered [] = Unit
  Ordered (x ∷ xs) = All (λ y. key x ≤ key y) xs × Ordered xs

  abbrev pub by_key : A → A → Bool
  by_key a b = ltb (key a) (key b)

  All-le_trans : (j k : ℕ) (xs : List A) → j ≤ k → All (λ y. k ≤ key y) xs → All (λ y. j ≤ key y) xs
  All-le_trans j k [] h all = tt
  All-le_trans j k (x ∷ xs) h (le, all) = (omega arith, All-le_trans j k xs h all)

  All-insert_sorted :
      (k : ℕ) (x : A) (xs : List A)
      → k ≤ key x
      → All (λ y. k ≤ key y) xs
      → All (λ y. k ≤ key y) (insert_sorted by_key x xs)
  unfolding insert_sorted
  All-insert_sorted k x [] h all = (h, tt)
  All-insert_sorted k x (y ∷ ys) h (le, all) = ground (arith, All-insert_sorted k x ys h all)

  insert_sorted-Ordered : (x : A) (xs : List A) → Ordered xs → Ordered (insert_sorted by_key x xs)
  unfolding insert_sorted
  insert_sorted-Ordered x [] h = (tt, tt)
  insert_sorted-Ordered x (y ∷ ys) (all, h) = elim (Bool-cases (by_key x y)) [
    | inl less ↦
        let lt = ltb→lt (key x) (key y) less in
        rw (less, insert_sorted)
          ((omega arith, All-le_trans (key x) (key y) ys (omega arith) all), (all, h))
    | inr more ↦
        let le = ltb→le (key x) (key y) more in
        rw (more, insert_sorted)
          (All-insert_sorted (key y) x ys le all, insert_sorted-Ordered x ys h)
  ]

  sort_from-Ordered : (done xs : List A) → Ordered done → Ordered (sort_from by_key done xs)
  unfolding sort_from
  sort_from-Ordered done [] h = h
  sort_from-Ordered done (x ∷ xs) h =
      sort_from-Ordered (insert_sorted by_key x done) xs (insert_sorted-Ordered x done h)

  pub sort_slice-Ordered : (xs : List A) → Ordered (sort_slice by_key xs)
  unfolding sort_slice
  sort_slice-Ordered xs = sort_from-Ordered [] xs tt

  All-append {κ} : (P : A → Type κ) (xs : List A) (y : A) (ys : List A) → All P (xs ++ y ∷ ys) → P y
  All-append P [] y ys (py, _) = py
  All-append P (x ∷ xs) y ys (_, all) = All-append P xs y ys all

  insert_last :
      (x : A) (done rest : List A)
      → Ordered (done ++ x ∷ rest)
      → insert_sorted by_key x done ≡ done ++ x ∷ []
  unfolding insert_sorted
  insert_last x [] rest h = refl
  insert_last x (y ∷ ys) rest (all, h) =
      let le : key y ≤ key x = All-append (λ z. key y ≤ key z) ys x rest all in
      let no : by_key x y ≡ false = ground arith in
      rw (no, insert_sorted) (ap (◌∷◌ y) (insert_last x ys rest h))

  sort_from_in_place :
      (xs done : List A) → Ordered (done ++ xs) → sort_from by_key done xs ≡ done ++ xs
  unfolding sort_from
  sort_from_in_place [] done h = sym (append-nil done)
  sort_from_in_place (x ∷ xs) done h =
      let e : (done ++ x ∷ []) ++ xs ≡ done ++ x ∷ xs = append_assoc done (x ∷ []) xs in
      ap (λ d. sort_from by_key d xs) (insert_last x done xs h)
      ∙ sort_from_in_place xs (done ++ x ∷ []) (rw e h)
      ∙ e

  -- Elements that are in order already stay where they are.
  pub sort_slice_in_place : (xs : List A) → Ordered xs → sort_slice by_key xs ≡ xs
  unfolding sort_slice
  sort_slice_in_place xs h = sort_from_in_place xs [] h
