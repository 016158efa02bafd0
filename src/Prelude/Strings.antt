-- ===== src/Prelude/Strings.antt =====
-- The parts of Go's `strings` and `fmt` that the program uses on names and keys.
use Prim.Native.Nat.{ℕ, zero, suc, ◌+◌, ◌-◌, ◌*◌, ◌/◌, ◌%◌, ◌<◌}
use mathlib.Core.Path.{◌≡◌, refl, sym, ap, ◌∙◌}
use mathlib.Core.Logic.{inl, inr}
use mathlib.Core.Bool.{Bool, true, false, ◌||◌}
use mathlib.Core.List.{[], ◌∷◌, ◌++◌}
use native.Mathlib.Omega.{arith}
use lilio.Prelude.Equality.{Text, contains, ◌==◌, nat_eq}
use lilio.Prelude.Tests.{Bool-cases, ltb, ltb→le, ltb→lt, if◌then◌else◌}

-- `strings.HasPrefix(s, prefix)`
unfoldable pub has_prefix : Text → Text → Bool
has_prefix s [] = true
has_prefix [] (c ∷ p) = false
has_prefix (b ∷ s) (c ∷ p) = if b == c then has_prefix s p else false

-- The rest of `s` behind as many bytes as `prefix` has.
unfoldable pub strip : Text → Text → Text
strip s [] = s
strip [] (c ∷ p) = []
strip (b ∷ s) (c ∷ p) = strip s p

-- `strings.TrimPrefix(s, prefix)`
unfoldable pub trim_prefix : Text → Text → Text
unfolding has_prefix strip
trim_prefix s p = if has_prefix s p then strip s p else s

-- The decimal digits of a number, on fuel: the number itself is enough.
unfoldable pub digits_on : ℕ → ℕ → Text
digits_on zero n = []
digits_on (suc fuel) n =
    let more = digits_on fuel (n / 10) in
    if ltb n 10 then (n + b'0') ∷ [] else more ++ ((n % 10 + b'0') ∷ [])

-- `%d`
unfoldable pub itoa : ℕ → Text
unfolding digits_on
itoa n = digits_on (suc n) n

hex_digit : ℕ → ℕ
hex_digit n = if ltb n 10 then n + b'0' else n + 87

-- hex.EncodeToString
unfoldable pub hex : Text → Text
unfolding hex_digit
hex [] = []
hex (b ∷ bs) = hex_digit (b / 16) ∷ hex_digit (b % 16) ∷ hex bs

pub has_prefix-append : (p s : Text) → has_prefix (p ++ s) p ≡ true
unfolding has_prefix
has_prefix-append [] s = refl
has_prefix-append (c ∷ p) s = ground (arith, has_prefix-append p s)

pub strip-append : (p s : Text) → strip (p ++ s) p ≡ s
unfolding strip
strip-append [] s = refl
strip-append (c ∷ p) s = strip-append p s

-- A text with a prefix is the prefix and what `strip` leaves.
pub append-strip : (p s : Text) → has_prefix s p ≡ true → p ++ strip s p ≡ s
unfolding has_prefix strip
append-strip [] s h = refl
append-strip (c ∷ p) [] h = ground arith
append-strip (c ∷ p) (b ∷ s) h = ground (arith, append-strip p s)

pub trim_prefix-append : (p s : Text) → trim_prefix (p ++ s) p ≡ s
unfolding trim_prefix
trim_prefix-append p s = ground (arith, has_prefix-append p s, strip-append p s)

-- The number that decimal digits stand for, behind a number that is already read.
value_from : ℕ → Text → ℕ
value_from n [] = n
value_from n (c ∷ t) = value_from (n * 10 + (c - b'0')) t

value_from-snoc :
    (n c : ℕ) (s : Text) → value_from n (s ++ c ∷ []) ≡ value_from n s * 10 + (c - b'0')
unfolding value_from
value_from-snoc n c [] = refl
value_from-snoc n c (b ∷ s) = value_from-snoc (n * 10 + (b - b'0')) c s

value-digits_on : (fuel n : ℕ) → n < fuel → value_from 0 (digits_on fuel n) ≡ n
unfolding digits_on value_from
value-digits_on zero n h = absurd (omega arith)
value-digits_on (suc fuel) n h = elim (Bool-cases (ltb n 10)) [
  | inl small ↦ rw (small, digits_on) (omega (arith, ltb→lt n 10 small))
  | inr large ↦
      let le = ltb→le n 10 large in
      let more = digits_on fuel (n / 10) in
      let ih = value-digits_on fuel (n / 10) (omega arith) in
      rw (large, digits_on, value_from-snoc 0 (n % 10 + b'0') more, ih) (omega arith)
]

-- Different numbers have different digits.
pub itoa_injective : (m n : ℕ) → itoa m ≡ itoa n → m ≡ n
unfolding itoa
itoa_injective m n h =
    sym (value-digits_on (suc m) m (omega arith))
    ∙ ap (value_from 0) h
    ∙ value-digits_on (suc n) n (omega arith)

pub contains-append_byte :
    (s t : Text) (b : ℕ) → contains (s ++ t) b ≡ (contains s b || contains t b)
contains-append_byte [] t b = refl
contains-append_byte (c ∷ s) t b = ground (arith, contains-append_byte s t b)

digits_on_digits : (fuel n b : ℕ) → b < b'0' → contains (digits_on fuel n) b ≡ false
unfolding digits_on
digits_on_digits zero n b h = refl
digits_on_digits (suc fuel) n b h = ground (
  arith,
  digits_on_digits fuel (n / 10) b h,
  contains-append_byte (digits_on fuel (n / 10)) ((n % 10 + b'0') ∷ []) b,
)

-- The decimal digits have no byte below that of 0.
pub contains-itoa : (n b : ℕ) → b < b'0' → contains (itoa n) b ≡ false
unfolding itoa
contains-itoa n b h = digits_on_digits (suc n) n b h
