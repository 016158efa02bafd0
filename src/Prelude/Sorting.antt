-- ===== src/Prelude/Sorting.antt =====
-- Go's `sort` package as the program uses it: an insertion sort, which is stable.
use Prim.Native.Nat.{suc, ◌+◌}
use mathlib.Core.Bool.{Bool, true, false, ◌||◌}
use mathlib.Core.List.{List, [], ◌∷◌}
use mathlib.Core.Path.{◌≡◌, refl}
use native.Mathlib.Omega.{arith}
use lilio.Prelude.Equality.{Text}
use lilio.Prelude.Tests.{ltb, if◌then◌else◌}
use lilio.Prelude.Lists.{length, any}

module _ {ℓ} {A : Type ℓ} (less : A → A → Bool) where
  -- An element goes in front of the first one that it is strictly less than.
  unfoldable pub insert_sorted : A → List A → List A
  insert_sorted x [] = x ∷ []
  insert_sorted x (y ∷ ys) = if less x y then x ∷ y ∷ ys else y ∷ insert_sorted x ys

  unfoldable pub sort_from : List A → List A → List A
  unfolding insert_sorted
  sort_from done [] = done
  sort_from done (x ∷ xs) = sort_from (insert_sorted x done) xs

  unfoldable pub sort_slice : List A → List A
  unfolding sort_from
  sort_slice xs = sort_from [] xs

  pub length-insert_sorted : (x : A) (ys : List A) → length (insert_sorted x ys) ≡ suc (length ys)
  unfolding insert_sorted
  length-insert_sorted x [] = refl
  length-insert_sorted x (y ∷ ys) = ground (arith, length-insert_sorted x ys)

  length-sort_from : (done xs : List A) → length (sort_from done xs) ≡ length done + length xs
  unfolding sort_from
  length-sort_from done [] = omega arith
  length-sort_from done (x ∷ xs) =
      omega (arith, length-sort_from (insert_sorted x done) xs, length-insert_sorted x done)

  pub length-sort_slice : (xs : List A) → length (sort_slice xs) ≡ length xs
  unfolding sort_slice
  length-sort_slice xs = omega (arith, length-sort_from [] xs)

-- The order of Go's strings: byte by byte, a prefix first.
abbrev pub text_less : Text → Text → Bool
text_less [] [] = false
text_less [] (c ∷ t) = true
text_less (b ∷ s) [] = false
text_less (b ∷ s) (c ∷ t) =
    let rest = text_less s t in if ltb b c then true else if ltb c b then false else rest

-- `sort.Strings`
unfoldable pub sort_strings : List Text → List Text
unfolding sort_slice
sort_strings = sort_slice text_less

-- Sorting keeps the elements: some element passes a test exactly when one did before.
module _ {ℓ} {A : Type ℓ} (less : A → A → Bool) (p : A → Bool) where
  any-insert_sorted : (x : A) (ys : List A) → any p (insert_sorted less x ys) ≡ (p x || any p ys)
  unfolding insert_sorted
  any-insert_sorted x [] = refl
  any-insert_sorted x (y ∷ ys) = ground (arith, any-insert_sorted x ys)

  any-sort_from : (done xs : List A) → any p (sort_from less done xs) ≡ (any p xs || any p done)
  unfolding sort_from
  any-sort_from done [] = refl
  any-sort_from done (x ∷ xs) =
      ground (arith, any-sort_from (insert_sorted less x done) xs, any-insert_sorted x done)

  pub any-sort_slice : (xs : List A) → any p (sort_slice less xs) ≡ any p xs
  unfolding sort_slice
  any-sort_slice xs = ground (arith, any-sort_from [] xs)

pub any-sort_strings : (p : Text → Bool) (xs : List Text) → any p (sort_strings xs) ≡ any p xs
unfolding sort_strings
any-sort_strings p xs = any-sort_slice text_less p xs
