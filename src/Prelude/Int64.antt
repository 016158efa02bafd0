-- ===== src/Prelude/Int64.antt =====
-- Signed integers over the native numbers, and Go's `int64` increment.
use Prim.Native.Nat.{ℕ, zero, suc, ◌+◌}
use Prim.Native.Nat.{compare, Ordering}
use native.Mathlib.Decide.{ℕ_discrete}
use lilio.Prelude.Equality.{Eq}

-- `negsuc n` is -(n + 1).
pub data ℤ : Type 0 where
  pos : ℕ → ℤ
  negsuc : ℕ → ℤ

unfoldable pub ℤ_discrete : Discrete ℤ
unfolding ℕ_discrete
ℤ_discrete = hlevel ℕ_discrete

instance unfoldable pub int_eq : Eq ℤ
unfolding ℤ_discrete
int_eq = record { dec = ℤ_discrete }

abbrev pub max_int64 : ℕ
max_int64 = 9223372036854775807

-- `x + 1` on an `int64`: the largest value wraps round to the smallest.
unfoldable pub inc64 : ℤ → ℤ
inc64 (pos n) = elim (compare n max_int64) [ Ordering.lt ↦ pos (n + 1) | _ ↦ negsuc max_int64 ]
inc64 (negsuc zero) = pos 0
inc64 (negsuc (suc n)) = negsuc n

-- `x - 1` on an `int64`: the smallest value wraps round to the largest.
unfoldable pub dec64 : ℤ → ℤ
dec64 (pos zero) = negsuc 0
dec64 (pos (suc n)) = pos n
dec64 (negsuc n) = elim (compare n max_int64) [ Ordering.lt ↦ negsuc (n + 1) | _ ↦ pos max_int64 ]

-- `x + n` on an `int64`, as that many increments.
unfoldable pub add64 : ℕ → ℤ → ℤ
unfolding inc64
add64 zero x = x
add64 (suc n) x = inc64 (add64 n x)
