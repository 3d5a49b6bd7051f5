-- ===== src/Prelude/Integers.antt =====
-- Integers over the native numbers, under the library's names, and `strconv.Atoi`.
use Prim.Native.Nat.{ℕ, zero, suc, ◌^◌, ◌<◌}
use mathlib.Core.Path.{◌≡◌, refl}
use mathlib.Core.Option.{Option, none, some}
use mathlib.Core.List.{[], ◌∷◌}
use native.Mathlib.Omega.{arith}
use thrive.Prelude.Tests.{ltb, ◌==◌, if◌then◌else◌}
use thrive.Prelude.Texts.{Text}
use thrive.Prelude.Cuts.{has}
use thrive.Prelude.Decimal.{itoa, parse_digits, parse_digits-itoa, itoa-nonempty, has-itoa}

pub data ℤ : Type 0 where
  pos : ℕ → ℤ
  negsuc : ℕ → ℤ

-- The values of an int.
abbrev positive : Option ℕ → Option ℤ
positive none = none
positive (some n) = if ltb n (2 ^ 63) then some (pos n) else none

abbrev negative : Option ℕ → Option ℤ
negative none = none
negative (some zero) = some (pos 0)
negative (some (suc n)) = if ltb n (2 ^ 63) then some (negsuc n) else none

-- One sign, then digits, and no more than 64 bits.
unfoldable pub atoi : Text → Option ℤ
atoi [] = none
atoi (c ∷ s) =
    let minus = negative (parse_digits s) in
    let plus = positive (parse_digits s) in
    let plain = positive (parse_digits (c ∷ s)) in
    if c == b'-' then minus else if c == b'+' then plus else plain

pub atoi-itoa : (n : ℕ) → n < 2 ^ 63 → atoi (itoa n) ≡ some (pos n)
unfolding atoi
atoi-itoa n small =
    let (c, s, e) = itoa-nonempty n in
    let value = parse_digits-itoa n in
    let no_minus = has-itoa b'-' n refl in
    let no_plus = has-itoa b'+' n refl in
    unfold has in rw e (ground (arith, value, no_minus, no_plus, e))
