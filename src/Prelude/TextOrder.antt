-- ===== src/Prelude/TextOrder.antt =====
-- Distinct texts in the order of `sort.Strings`.
use mathlib.Core.Bool.{true, false, ◌||◌}
use mathlib.Core.Path.{◌≡◌, refl, sym, ◌∙◌}
use mathlib.Core.List.{List, [], ◌∷◌}
use mathlib.Core.Logic.{inl, inr}
use native.Mathlib.Omega.{arith}
use lilio.Prelude.Equality.{Text, contains, ◌==◌, text_eq, nat_eq}
use lilio.Prelude.Tests.{Bool-cases}
use lilio.Prelude.Lists.{All, any}
use lilio.Prelude.Distinct.{Distinct}
use lilio.Prelude.Sorting.{
  any-sort_strings, insert_sorted, sort_from, sort_slice, sort_strings, text_less,
}
use lilio.Prelude.StrictOrder.{Rising, Sorted, StrictOrder, sort_slice-Sorted}

text_less-asym : (s t : Text) → text_less s t ≡ true → text_less t s ≡ false
text_less-asym [] [] h = ground arith
text_less-asym [] (c ∷ t) h = refl
text_less-asym (b ∷ s) [] h = ground arith
text_less-asym (b ∷ s) (c ∷ t) h = ground (arith, text_less-asym s t)

text_less-below :
    (s t u : Text) → text_less s t ≡ true → text_less u t ≡ false → text_less s u ≡ true
text_less-below [] [] u h k = ground arith
text_less-below [] (c ∷ t) [] h k = ground arith
text_less-below [] (c ∷ t) (d ∷ u) h k = refl
text_less-below (b ∷ s) [] u h k = ground arith
text_less-below (b ∷ s) (c ∷ t) [] h k = ground arith
text_less-below (b ∷ s) (c ∷ t) (d ∷ u) h k = ground (arith, text_less-below s t u)

-- The order of `sort.Strings` is strict.
pub text_less-StrictOrder : StrictOrder text_less
text_less-StrictOrder = record { asym = text_less-asym; below = text_less-below }

text_less-total : (s t : Text) → text_less s t ≡ false → text_less t s ≡ false → s ≡ t
text_less-total [] [] h k = refl
text_less-total [] (c ∷ t) h k = ground arith
text_less-total (b ∷ s) [] h k = ground arith
text_less-total (b ∷ s) (c ∷ t) h k = ground (arith, text_less-total s t)

contains-eq-any : (xs : List Text) (a : Text) → contains xs a ≡ any (λ y. a == y) xs
contains-eq-any [] a = refl
contains-eq-any (x ∷ xs) a = ground (arith, contains-eq-any xs a)

-- Sorting texts keeps what is among them.
pub contains-sort_strings :
    (xs : List Text) (a : Text) → contains (sort_strings xs) a ≡ contains xs a
contains-sort_strings xs a =
    contains-eq-any (sort_strings xs) a
    ∙ any-sort_strings (λ y. a == y) xs
    ∙ sym (contains-eq-any xs a)

contains-insert_sorted :
    (x a : Text) (ys : List Text)
    → contains (insert_sorted text_less x ys) a ≡ (a == x || contains ys a)
unfolding insert_sorted
contains-insert_sorted x a [] = refl
contains-insert_sorted x a (y ∷ ys) = ground (arith, contains-insert_sorted x a ys)

insert_sorted-Distinct :
    (x : Text) (ys : List Text)
    → contains ys x ≡ false
    → Distinct ys
    → Distinct (insert_sorted text_less x ys)
unfolding insert_sorted
insert_sorted-Distinct x [] new h = (refl, tt)
insert_sorted-Distinct x (y ∷ ys) new (other, h) = elim (Bool-cases (text_less x y)) [
  | inl lt ↦ rw (lt, insert_sorted) (new, (other, h))
  | inr ge ↦
      rw (ge, insert_sorted)
        (
          ground (arith, contains-insert_sorted x y ys),
          insert_sorted-Distinct x ys (ground arith) h,
        )
]

-- No text of one list is in the other.
abbrev Apart : List Text → List Text → Type 0
Apart xs ys = All (λ x. contains ys x ≡ false) xs

Apart-insert_sorted :
    (x : Text) (xs ys : List Text)
    → contains xs x ≡ false
    → Apart xs ys
    → Apart xs (insert_sorted text_less x ys)
Apart-insert_sorted x [] ys new h = tt
Apart-insert_sorted x (z ∷ xs) ys new (out, h) =
    (ground (arith, contains-insert_sorted x z ys), Apart-insert_sorted x xs ys (ground arith) h)

sort_from-Distinct :
    (done xs : List Text)
    → Distinct done
    → Distinct xs
    → Apart xs done
    → Distinct (sort_from text_less done xs)
unfolding sort_from
sort_from-Distinct done [] d h apart = d
sort_from-Distinct done (x ∷ xs) d (new, h) (out, apart) =
    sort_from-Distinct (insert_sorted text_less x done) xs (insert_sorted-Distinct x done out d) h
      (Apart-insert_sorted x xs done new apart)

Apart-nil : (xs : List Text) → Apart xs []
Apart-nil [] = tt
Apart-nil (x ∷ xs) = (refl, Apart-nil xs)

pub sort_strings-Distinct : (xs : List Text) → Distinct xs → Distinct (sort_strings xs)
unfolding sort_strings sort_slice
sort_strings-Distinct xs h = sort_from-Distinct [] xs tt h (Apart-nil xs)

All-above :
    (x : Text) (xs : List Text)
    → contains xs x ≡ false
    → All (λ y. text_less y x ≡ false) xs
    → All (λ y. text_less x y ≡ true) xs
All-above x [] new all = tt
All-above x (y ∷ ys) new (le, all) = (
  elim (Bool-cases (text_less x y)) [
    | inl lt ↦ lt
    | inr ge ↦ absurd (ground (arith, text_less-total x y ge le))
  ],
  All-above x ys (ground arith) all,
)

Sorted-Rising : (xs : List Text) → Sorted text_less xs → Distinct xs → Rising text_less xs
Sorted-Rising [] h d = tt
Sorted-Rising (x ∷ xs) (all, h) (new, d) = (All-above x xs new all, Sorted-Rising xs h d)

-- `sort.Strings` puts distinct texts in rising order.
pub sort_strings-Rising : (xs : List Text) → Distinct xs → Rising text_less (sort_strings xs)
unfolding sort_strings
sort_strings-Rising xs d =
    Sorted-Rising (sort_strings xs) (sort_slice-Sorted text_less-StrictOrder xs)
      (sort_strings-Distinct xs d)
