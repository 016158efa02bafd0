-- ===== src/Prelude/Distinct.antt =====
-- Lists of texts without repetition.
use Prim.Native.Nat.{suc, ◌+◌, ◌≤◌}
use mathlib.Core.Bool.{Bool, true, false, not, ◌&&◌, ◌||◌}
use mathlib.Core.Path.{◌≡◌, refl, ap}
use mathlib.Core.List.{List, [], ◌∷◌, ◌++◌}
use native.Mathlib.Omega.{arith}
use lilio.Prelude.Equality.{Text, contains, ◌==◌, text_eq, nat_eq}
use lilio.Prelude.Tests.{if◌then◌else◌}
use lilio.Prelude.Lists.{All, length, select}
use lilio.Prelude.Dict.{Dict, NodupKeys, has_key, has_key-eq-lookup, keys}

abbrev pub Distinct : List Text → Type 0
Distinct [] = Unit
Distinct (x ∷ xs) = (contains xs x ≡ false) × Distinct xs

pub contains-snoc :
    (xs : List Text) (y z : Text) → contains (xs ++ y ∷ []) z ≡ (contains xs z || z == y)
contains-snoc [] y z = ground arith
contains-snoc (x ∷ xs) y z = ground (arith, contains-snoc xs y z)

pub snoc-Distinct :
    (xs : List Text) (y : Text) → contains xs y ≡ false → Distinct xs → Distinct (xs ++ y ∷ [])
snoc-Distinct [] y new h = (refl, tt)
snoc-Distinct (x ∷ xs) y new (other, h) =
    (ground (arith, contains-snoc xs y x), snoc-Distinct xs y (ground arith) h)

-- The list without the first occurrence of a text.
without : Text → List Text → List Text
without y [] = []
without y (x ∷ xs) = let rest = without y xs in if y == x then xs else x ∷ rest

length-without :
    (y : Text) (xs : List Text) → contains xs y ≡ true → suc (length (without y xs)) ≡ length xs
unfolding without
length-without y [] h = ground arith
length-without y (x ∷ xs) h = ground (arith, length-without y xs)

contains-without :
    (y z : Text) (xs : List Text)
    → (z == y) ≡ false
    → contains xs z ≡ true
    → contains (without y xs) z ≡ true
unfolding without
contains-without y z [] ne h = h
contains-without y z (x ∷ xs) ne h = ground (arith, contains-without y z xs ne)

All-without :
    (y : Text) (xs ys : List Text)
    → contains xs y ≡ false
    → All (λ x. contains ys x ≡ true) xs
    → All (λ x. contains (without y ys) x ≡ true) xs
All-without y [] ys new h = tt
All-without y (x ∷ xs) ys new (here, h) =
    (contains-without y x ys (ground arith) here, All-without y xs ys (ground arith) h)

-- Distinct texts that all occur in a list are no more than the list is long.
pub length-Distinct :
    (xs ys : List Text) → Distinct xs → All (λ x. contains ys x ≡ true) xs → length xs ≤ length ys
length-Distinct [] ys d h = omega arith
length-Distinct (x ∷ xs) ys (new, d) (here, h) = omega (
  arith,
  length-without x ys here,
  length-Distinct xs (without x ys) d (All-without x xs ys new h),
)

module _ {κ} {V : Type κ} where
  pub contains-keys : (k : Text) (d : Dict Text V) → contains (keys d) k ≡ has_key k d
  unfolding has_key
  contains-keys k [] = refl
  contains-keys k ((j, v) ∷ d) = ground (arith, contains-keys k d)

  -- The keys of a map are distinct.
  pub keys-Distinct : (d : Dict Text V) → NodupKeys d → Distinct (keys d)
  keys-Distinct [] h = tt
  keys-Distinct ((k, v) ∷ d) (new, h) =
      (ground (arith, contains-keys k d, has_key-eq-lookup k d), keys-Distinct d h)

  pub keys-All :
      (xs : List Text) (d e : Dict Text V)
      → ((k : Text) → has_key k e ≡ true → contains xs k ≡ true)
      → ((k : Text) → has_key k d ≡ true → has_key k e ≡ true)
      → All (λ k. contains xs k ≡ true) (keys d)
  unfolding has_key
  keys-All xs [] e all sub = tt
  keys-All xs ((k, v) ∷ d) e all sub =
      (all k (sub k (ground arith)), keys-All xs d e all λ j h. sub j (ground arith))

  pub length-keys : (d : Dict Text V) → length (keys d) ≡ length d
  length-keys [] = refl
  length-keys (_ ∷ d) = ap suc (length-keys d)

-- A map has no more entries than another one with all its keys.
pub length-le_of_keys {κ ι} :
    {V : Type κ} {W : Type ι} (d : Dict Text V) (e : Dict Text W)
    → NodupKeys d
    → ((k : Text) → has_key k d ≡ true → has_key k e ≡ true)
    → length d ≤ length e
length-le_of_keys d e once sub =
    let all =
      keys-All (keys e) d d (λ k h. ground (arith, sub k h, contains-keys k e)) (λ k h. h) in
    omega (
      arith,
      length-Distinct (keys d) (keys e) (keys-Distinct d once) all,
      length-keys d,
      length-keys e,
    )

pub contains-select :
    (f : Text → Bool) (x : Text) (xs : List Text)
    → contains (select f xs) x ≡ (contains xs x && f x)
contains-select f x [] = refl
contains-select f x (y ∷ xs) = ground (arith, contains-select f x xs)

pub select-Distinct : (f : Text → Bool) (xs : List Text) → Distinct xs → Distinct (select f xs)
select-Distinct f [] h = tt
select-Distinct f (x ∷ xs) (new, h) = ground (arith, contains-select f x xs, select-Distinct f xs h)

pub select-All : (f : Text → Bool) (xs : List Text) → All (λ x. f x ≡ true) (select f xs)
select-All f [] = tt
select-All f (x ∷ xs) = ground (arith, select-All f xs)

-- What is selected of some texts is in what is selected of all.
pub select-All_in :
    (f : Text → Bool) (xs ys : List Text)
    → All (λ x. contains ys x ≡ true) xs
    → All (λ x. contains (select f ys) x ≡ true) (select f xs)
select-All_in f [] ys h = tt
select-All_in f (x ∷ xs) ys (here, h) =
    ground (arith, contains-select f x ys, select-All_in f xs ys h)

pub length-select-not :
    (f : Text → Bool) (xs : List Text)
    → length xs ≡ length (select f xs) + length (select (λ x. not (f x)) xs)
length-select-not f [] = omega arith
length-select-not f (x ∷ xs) = ground (arith, length-select-not f xs)
