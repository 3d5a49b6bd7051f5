-- ===== src/Prelude/Decimal.antt =====
-- `strconv.Itoa` and `strconv.Atoi` on natural numbers.
use Prim.Native.Nat.{ℕ, zero, suc, ◌+◌, ◌-◌, ◌*◌, ◌/◌, ◌%◌, ◌<◌}
use mathlib.Core.Path.{◌≡◌}
use mathlib.Core.Logic.{inl, inr}
use mathlib.Core.Bool.{false, ◌&&◌}
use mathlib.Core.Option.{Option, none, some}
use mathlib.Core.List.{[], ◌∷◌}
use native.Mathlib.Omega.{arith}
use thrive.Prelude.Tests.{ltb, leb, Bool-cases, if◌then◌else◌}
use thrive.Prelude.Texts.{Text}
use thrive.Prelude.Cuts.{has}

-- Decimal digits, most significant first, in front of `acc`; the fuel bounds their number.
unfoldable pub digits_onto : ℕ → ℕ → Text → Text
digits_onto zero n acc = acc
digits_onto (suc fuel) n acc =
    let rest = digits_onto fuel (n / 10) ((48 + n % 10) ∷ acc) in
    if ltb n 10 then (48 + n) ∷ acc else rest

-- A number has at most as many digits as one more than itself.
unfoldable pub itoa : ℕ → Text
unfolding digits_onto
itoa n = digits_onto (suc n) n []

unfoldable pub digits_value : ℕ → Text → Option ℕ
digits_value acc [] = some acc
digits_value acc (c ∷ s) =
    let rest = digits_value (acc * 10 + (c - 48)) s in if leb 48 c && leb c 57 then rest else none

-- Digits only. `strconv.Atoi` also takes a sign, and refuses what overflows an int.
unfoldable pub parse_digits : Text → Option ℕ
unfolding digits_value
parse_digits [] = none
parse_digits (c ∷ s) = digits_value 0 (c ∷ s)

digits_value-digits_onto :
    (fuel n : ℕ) (acc : Text)
    → n < fuel
    → digits_value 0 (digits_onto fuel n acc) ≡ digits_value n acc
unfolding digits_onto digits_value
digits_value-digits_onto zero n acc h = absurd (omega arith)
digits_value-digits_onto (suc fuel) n acc h = elim (Bool-cases (ltb n 10)) [
  | inl small ↦ let same : 0 * 10 + (48 + n - 48) ≡ n = omega arith in rw small (ground arith)
  | inr large ↦
      let next = digits_value-digits_onto fuel (n / 10) ((48 + n % 10) ∷ acc) (ground arith) in
      let same : n / 10 * 10 + (48 + n % 10 - 48) ≡ n = omega arith in
      rw (large, next) (ground arith)
]

-- A byte that is no digit does not stand in a printed number.
has-digits_onto :
    (c fuel n : ℕ) (acc : Text)
    → n < fuel
    → (leb 48 c && leb c 57) ≡ false
    → has c (digits_onto fuel n acc) ≡ has c acc
unfolding digits_onto has
has-digits_onto c zero n acc h d = absurd (omega arith)
has-digits_onto c (suc fuel) n acc h d =
    ground (arith, has-digits_onto c fuel (n / 10) ((48 + n % 10) ∷ acc))

pub has-itoa : (c n : ℕ) → (leb 48 c && leb c 57) ≡ false → has c (itoa n) ≡ false
unfolding itoa has
has-itoa c n d = has-digits_onto c (suc n) n [] (omega arith) d

-- Something is printed.
digits_onto-nonempty :
    (fuel n : ℕ) (acc : Text) → n < fuel → (c : ℕ) × (s : Text) × (digits_onto fuel n acc ≡ c ∷ s)
unfolding digits_onto
digits_onto-nonempty zero n acc h = absurd (omega arith)
digits_onto-nonempty (suc fuel) n acc h = elim (Bool-cases (ltb n 10)) [
  | inl small ↦ (48 + n, acc, rw small)
  | inr large ↦
      let (c, s, e) = digits_onto-nonempty fuel (n / 10) ((48 + n % 10) ∷ acc) (ground arith) in
      (c, s, rw large e)
]

pub itoa-nonempty : (n : ℕ) → (c : ℕ) × (s : Text) × (itoa n ≡ c ∷ s)
unfolding itoa
itoa-nonempty n = digits_onto-nonempty (suc n) n [] (omega arith)

-- A printed number is read back.
pub parse_digits-itoa : (n : ℕ) → parse_digits (itoa n) ≡ some n
parse_digits-itoa n =
    let (c, s, e) = itoa-nonempty n in
    let value : digits_value 0 (itoa n) ≡ some n =
      unfold itoa digits_value in digits_value-digits_onto (suc n) n [] (omega arith) in
    rw e (unfold parse_digits in rw e at value)
