-- ===== src/Prelude/Sort/Unique.antt =====
-- A sorted list is determined by what it holds: `sort` gives one result for every order of its
-- input, so the order in which Go iterates over a map does not show in it.
use thrive.Prelude.Tests.{Bool-cases, if◌then◌else◌}
use thrive.Prelude.Lists.{All}
use thrive.Prelude.Texts.{Text, ◌=ᵗ◌, eq_iff, eq_refl, less, less_trans, less_irrefl, less_antisym}
use thrive.Prelude.Dicts.{contains, IsNodup}
use thrive.Prelude.Sort.{sort_insert, sort, IsSorted}
use Prim.Native.Nat.{ℕ, suc, ◌<◌}
use mathlib.Core.Path.{◌≡◌, refl, ap₂}
use mathlib.Core.Logic.{inl, inr}
use mathlib.Core.Bool.{true, false}
use mathlib.Core.List.{List, [], ◌∷◌}
use native.Mathlib.Omega.{arith}

-- How often a string stands in a list.
unfoldable pub count : Text → List Text → ℕ
count a [] = 0
count a (x ∷ xs) = let rest = count a xs in if x =ᵗ a then suc rest else rest

All-count : (P : Text → Type 0) (xs : List Text) (a : Text) → All P xs → 0 < count a xs → P a
unfolding count
All-count P [] a h pos = elim pos [ ]
All-count P (x ∷ xs) a h pos = elim (Bool-cases (x =ᵗ a)) [
  | inl e ↦ let same : x ≡ a = (eq_iff x a).0 e in rw (← same) h.0
  | inr n ↦ All-count P xs a h.1 (rw n at pos)
]

pub sorted_unique :
    (xs ys : List Text)
    → IsSorted xs
    → IsSorted ys
    → ((a : Text) → count a xs ≡ count a ys)
    → xs ≡ ys
unfolding count
sorted_unique [] [] hx hy same = refl
sorted_unique [] (y ∷ ys) hx hy same = absurd (ground (arith, same y, eq_refl y))
sorted_unique (x ∷ xs) [] hx hy same = absurd (ground (arith, same x, eq_refl x))
sorted_unique (x ∷ xs) (y ∷ ys) hx hy same =
    let heads : x ≡ y = less_antisym x y below above in
    ap₂ ◌∷◌ heads (sorted_unique xs ys hx.1 hy.1 (λ a. ground (arith, same a)))
  where
    below : less x y ≡ false
    below = elim (Bool-cases (x =ᵗ y)) [
      | inl e ↦ ground (arith, eq_iff x y, less_irrefl x)
      | inr n ↦
          All-count (λ z. less z y ≡ false) ys x hy.0
            (ground (arith, same x, eq_refl x, eq_iff y x, eq_iff x y))
    ]

    above : less y x ≡ false
    above = elim (Bool-cases (x =ᵗ y)) [
      | inl e ↦ ground (arith, eq_iff x y, less_irrefl x)
      | inr n ↦
          All-count (λ z. less z x ≡ false) xs y hx.0
            (ground (arith, same y, eq_refl y, eq_iff y x, eq_iff x y))
    ]

count-sort_insert :
    (a : Text) (xs : List Text) (b : Text) → count b (sort_insert a xs) ≡ count b (a ∷ xs)
unfolding sort_insert count
count-sort_insert a [] b = refl
count-sort_insert a (x ∷ xs) b = ground (arith, count-sort_insert a xs b)

pub count-sort : (xs : List Text) (b : Text) → count b (sort xs) ≡ count b xs
unfolding sort count
count-sort [] b = refl
count-sort (x ∷ xs) b = ground (arith, count-sort_insert x (sort xs) b, count-sort xs b)

All-sort_insert :
    (P : Text → Type 0) (a : Text) (xs : List Text) → P a → All P xs → All P (sort_insert a xs)
unfolding sort_insert
All-sort_insert P a [] pa h = (pa, tt)
All-sort_insert P a (x ∷ xs) pa h = elim (Bool-cases (less x a)) [
  | inl lt ↦ rw lt (h.0, All-sort_insert P a xs pa h.1)
  | inr ge ↦ rw ge (pa, h)
]

All-mono : (P Q : Text → Type 0) (xs : List Text) → ((x : Text) → P x → Q x) → All P xs → All Q xs
All-mono P Q [] f h = tt
All-mono P Q (x ∷ xs) f h = (f x h.0, All-mono P Q xs f h.1)

-- Not below: the order that `sort` produces.
pub not_less_trans : (x y z : Text) → less y x ≡ false → less z y ≡ false → less z x ≡ false
not_less_trans x y z h k = elim (Bool-cases (less z x)) [
  | inr n ↦ n
  | inl lt ↦ elim (Bool-cases (less x y)) [
    | inl up ↦ ground (arith, less_trans z x y)
    | inr level ↦ ground (arith, less_antisym x y)
  ]
]

pub less_asym : (x y : Text) → less x y ≡ true → less y x ≡ false
less_asym x y h = elim (Bool-cases (less y x)) [
  | inr n ↦ n
  | inl up ↦ ground (arith, less_trans x y x, less_irrefl x)
]

IsSorted-sort_insert : (a : Text) (xs : List Text) → IsSorted xs → IsSorted (sort_insert a xs)
unfolding sort_insert
IsSorted-sort_insert a [] h = (tt, tt)
IsSorted-sort_insert a (x ∷ xs) h = elim (Bool-cases (less x a)) [
  | inl lt ↦ rw lt (
    All-sort_insert (λ y. less y x ≡ false) a xs (less_asym x a lt) h.0,
    IsSorted-sort_insert a xs h.1,
  )
  | inr ge ↦ rw ge (
    (
      ge,
      All-mono (λ y. less y x ≡ false) (λ y. less y a ≡ false) xs (λ y k. not_less_trans a x y ge k)
          h.0,
    ),
    h,
  )
]

pub IsSorted-sort : (xs : List Text) → IsSorted (sort xs)
unfolding sort
IsSorted-sort [] = tt
IsSorted-sort (x ∷ xs) = IsSorted-sort_insert x (sort xs) (IsSorted-sort xs)

-- Lists with the same strings, as often, have one sorted list.
pub sort_eq_of_count :
    (xs ys : List Text) → ((a : Text) → count a xs ≡ count a ys) → sort xs ≡ sort ys
sort_eq_of_count xs ys same =
    sorted_unique (sort xs) (sort ys) (IsSorted-sort xs) (IsSorted-sort ys)
      (λ a. ground (arith, count-sort xs a, count-sort ys a, same a))

count_of_IsNodup :
    (xs : List Text) (a : Text) → IsNodup xs → count a xs ≡ (if contains xs a then 1 else 0)
unfolding count contains
count_of_IsNodup [] a n = refl
count_of_IsNodup (x ∷ xs) a n = ground (arith, count_of_IsNodup xs a n.1, eq_iff x a)

-- Two listings of one set have one sorted list.
pub sort_eq_of_same :
    (xs ys : List Text)
    → IsNodup xs
    → IsNodup ys
    → ((a : Text) → contains xs a ≡ contains ys a)
    → sort xs ≡ sort ys
sort_eq_of_same xs ys n m same =
    sort_eq_of_count xs ys
      (λ a. ground (arith, count_of_IsNodup xs a n, count_of_IsNodup ys a m, same a))
