-- ===== src/Prelude/Sort.antt =====
-- `sort.Strings`: insertion of each string into the sorted rest.
pub mod Unique
use Prim.Native.Nat.{suc}
use mathlib.Core.Path.{◌≡◌, refl}
use mathlib.Core.Bool.{false, ◌||◌}
use mathlib.Core.List.{List, [], ◌∷◌}
use native.Mathlib.Omega.{arith}
use thrive.Prelude.Tests.{if◌then◌else◌}
use thrive.Prelude.Lists.{length, All}
use thrive.Prelude.Texts.{Text, ◌=ᵗ◌, eq_iff, less}
use thrive.Prelude.Dicts.{contains, IsNodup}

unfoldable pub sort_insert : Text → List Text → List Text
sort_insert a [] = a ∷ []
sort_insert a (x ∷ xs) = let rest = sort_insert a xs in if less x a then x ∷ rest else a ∷ x ∷ xs

unfoldable pub sort : List Text → List Text
unfolding sort_insert
sort [] = []
sort (x ∷ xs) = sort_insert x (sort xs)

contains-sort_insert :
    (a : Text) (xs : List Text) (b : Text)
    → contains (sort_insert a xs) b ≡ ((a =ᵗ b) || contains xs b)
unfolding sort_insert contains
contains-sort_insert a [] b = refl
contains-sort_insert a (x ∷ xs) b = ground (arith, contains-sort_insert a xs b)

pub contains-sort : (xs : List Text) (b : Text) → contains (sort xs) b ≡ contains xs b
unfolding sort contains
contains-sort [] b = refl
contains-sort (x ∷ xs) b = ground (arith, contains-sort_insert x (sort xs) b, contains-sort xs b)

length-sort_insert : (a : Text) (xs : List Text) → length (sort_insert a xs) ≡ suc (length xs)
unfolding sort_insert
length-sort_insert a [] = refl
length-sort_insert a (x ∷ xs) = ground (arith, length-sort_insert a xs)

pub length-sort : (xs : List Text) → length (sort xs) ≡ length xs
unfolding sort
length-sort [] = refl
length-sort (x ∷ xs) = ground (arith, length-sort_insert x (sort xs), length-sort xs)

IsNodup-sort_insert :
    (a : Text) (xs : List Text) → contains xs a ≡ false → IsNodup xs → IsNodup (sort_insert a xs)
unfolding sort_insert contains
IsNodup-sort_insert a [] h n = (refl, tt)
IsNodup-sort_insert a (x ∷ xs) h n =
    ground (arith, IsNodup-sort_insert a xs, contains-sort_insert a xs x, eq_iff a x, eq_iff x a)

pub IsNodup-sort : (xs : List Text) → IsNodup xs → IsNodup (sort xs)
unfolding sort
IsNodup-sort [] n = tt
IsNodup-sort (x ∷ xs) n =
    IsNodup-sort_insert x (sort xs) (rw contains-sort n.0) (IsNodup-sort xs n.1)

-- Ascending order.
abbrev pub IsSorted : List Text → Type 0
IsSorted [] = Unit
IsSorted (x ∷ xs) = All (λ y. less y x ≡ false) xs × IsSorted xs
