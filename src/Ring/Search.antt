-- ===== src/Ring/Search.antt =====
-- The binary search of pkg/hashing/consistent.go, on the positions of a ring.
use lilio.Prelude.{
  All, Bool, Bool-cases, List, [], arith, false, if◌then◌else◌, inl, inr, leb, length, ltb, ltb→le,
  ltb→lt, nat_eq, suc, true, zero, ℕ, ◌+◌, ◌/◌, ◌<◌, ◌∷◌, ◌≡◌, ◌≤◌,
}
use lilio.Prelude.Ordered.{Ordered}
use lilio.Ring.{position_at, search, search_loop, wrap}

-- The test fails below `k` and holds from `k` on, between `i` and `j`.
abbrev pub Splits : (ℕ → Bool) → ℕ → ℕ → ℕ → Type 0
Splits test i j k =
    (i ≤ k)
    × (k ≤ j)
    × ((m : ℕ) → i ≤ m → m < k → test m ≡ false)
    × ((m : ℕ) → k ≤ m → m < j → test m ≡ true)

-- Once the test holds it goes on to hold.
abbrev pub Rises : (ℕ → Bool) → ℕ → Type 0
Rises test n = (a b : ℕ) → a ≤ b → b < n → test a ≡ true → test b ≡ true

search_loop-Splits :
    (test : ℕ → Bool) (n fuel i j : ℕ)
    → Rises test n
    → i ≤ j
    → j ≤ i + fuel
    → j ≤ n
    → Splits test i j (search_loop fuel i j test)
unfolding search_loop
search_loop-Splits test n zero i j rises le enough inside =
    (omega arith, omega arith, λ m a b. absurd (omega arith), λ m a b. absurd (omega arith))
search_loop-Splits test n (suc fuel) i j rises le enough inside = elim (Bool-cases (ltb i j)) [
  | inr stop ↦
      let ge : j ≤ i = ltb→le i j stop in
      rw (stop, search_loop)
        ((omega arith, omega arith, λ m a b. absurd (omega arith), λ m a b. absurd (omega arith)))
  | inl more ↦
      let lt : i < j = ltb→lt i j more in
      let h = (i + j) / 2 in
      let lower : i ≤ h = omega arith in
      let upper : h < j = omega arith in
      elim (Bool-cases (test h)) [
        | inl holds ↦
            let (a, b, below, above) =
              search_loop-Splits test n fuel i h rises lower (omega arith) (omega arith) in
            rw (more, holds, search_loop)
              (
                a,
                omega arith,
                below,
                λ m p q. elim (Bool-cases (ltb m h)) [
                  | inl early ↦ above m p (ltb→lt m h early)
                  | inr late ↦ rises h m (ltb→le m h late) (omega arith) holds
                ],
              )
        | inr fails ↦
            let (a, b, below, above) =
              search_loop-Splits test n fuel (h + 1) j rises (omega arith) (omega arith) inside in
            rw (more, fails, search_loop)
              (
                omega arith,
                b,
                λ m p q. elim (Bool-cases (ltb m (h + 1))) [
                  | inr late ↦ below m (ltb→le m (h + 1) late) q
                  | inl early ↦ elim (Bool-cases (test m)) [
                    | inr f ↦ f
                    | inl t ↦
                        let now =
                          rises m h (ground (arith, ltb→lt m (h + 1) early)) (omega arith) t in
                        absurd (ground (arith, now, fails))
                  ]
                ],
                above,
              )
      ]
]

-- `sort.Search` gives the first index at which a test that goes on to hold does so.
search-Splits : (test : ℕ → Bool) (n : ℕ) → Rises test n → Splits test 0 n (search n test)
unfolding search
search-Splits test n rises =
    search_loop-Splits test n n 0 n rises (omega arith) (omega arith) (omega arith)

-- The first position that passes a test, or `p`.
abbrev pub first_or : ℕ → (ℕ → Bool) → List ℕ → ℕ
first_or p test [] = p
first_or p test (q ∷ ps) = if test q then q else first_or p test ps

position_at-Ordered :
    (k : ℕ) (ps : List ℕ) (j : ℕ) → All (λ y. k ≤ y) ps → j < length ps → k ≤ position_at ps j
unfolding position_at
position_at-Ordered k [] j h lt = absurd (omega arith)
position_at-Ordered k (p ∷ ps) zero (le, h) lt = le
position_at-Ordered k (p ∷ ps) (suc j) (le, h) lt = position_at-Ordered k ps j h (omega arith)

position_at-le :
    (ps : List ℕ) (a b : ℕ)
    → Ordered (λ p. p) ps
    → a ≤ b
    → b < length ps
    → position_at ps a ≤ position_at ps b
unfolding position_at
position_at-le [] a b h le lt = absurd (omega arith)
position_at-le (p ∷ ps) zero zero h le lt = omega arith
position_at-le (p ∷ ps) (suc a) zero h le lt = absurd (omega arith)
position_at-le (p ∷ ps) zero (suc b) (all, h) le lt = position_at-Ordered p ps b all (omega arith)
position_at-le (p ∷ ps) (suc a) (suc b) (all, h) le lt =
    position_at-le ps a b h (omega arith) (omega arith)

-- The position at the index that splits a list is the first one that passes.
position_at-Splits :
    (test : ℕ → Bool) (d : ℕ) (ps : List ℕ) (k : ℕ)
    → Splits (λ i. test (position_at ps i)) 0 (length ps) k
    → (if ltb k (length ps) then position_at ps k else d) ≡ first_or d test ps
unfolding position_at
position_at-Splits test d [] k split = ground arith
position_at-Splits test d (p ∷ ps) zero (a, b, below, above) =
    let holds : test p ≡ true = above 0 (omega arith) (omega arith) in rw holds (ground arith)
position_at-Splits test d (p ∷ ps) (suc k) (a, b, below, above) =
    let fails : test p ≡ false = below 0 (omega arith) (omega arith) in
    let rest = position_at-Splits test d ps k (
      omega arith,
      omega arith,
      λ m x y. below (suc m) (omega arith) (omega arith),
      λ m x y. above (suc m) (omega arith) (omega arith),
    ) in
    rw fails (ground (arith, rest))

-- On a ring in order, the search that wraps round at the end gives the first position at or
-- behind a point, and the ring's first one if there is none.
pub position_at-search :
    (ps : List ℕ) (point : ℕ)
    → Ordered (λ p. p) ps
    → position_at ps (wrap (length ps) (search (length ps) (λ i. leb point (position_at ps i))))
      ≡ first_or (position_at ps 0) (leb point) ps
position_at-search ps point ordered =
    let rises : Rises (λ i. leb point (position_at ps i)) (length ps) =
      λ a b le lt holds. ground (arith, position_at-le ps a b ordered le lt) in
    let k = search (length ps) (λ i. leb point (position_at ps i)) in
    let split = search-Splits (λ i. leb point (position_at ps i)) (length ps) rises in
    ground (arith, position_at-Splits (leb point) (position_at ps 0) ps k split)
