-- ===== src/Prelude/Sets.antt =====
-- Lists of strings read as sets: selection, quantifiers, unions and counting.
use Prim.Native.Nat.{◌≤◌, ◌<◌}
use mathlib.Core.Path.{◌≡◌, refl}
use mathlib.Core.Logic.{inl, inr}
use mathlib.Core.Bool.{Bool, true, false, ◌&&◌}
use mathlib.Core.List.{List, [], ◌∷◌, ◌++◌, append_assoc, append-nil}
use native.Mathlib.Omega.{arith}
use thrive.Prelude.Tests.{Bool-cases}
use thrive.Prelude.Lists.{length, select, every, is_empty}
use thrive.Prelude.Texts.{Text, ◌=ᵗ◌, eq_iff, eq_refl}
use thrive.Prelude.Dicts.{contains, contains-append, IsNodup, length-le_of_subset}

pub contains-select :
    (p : Text → Bool) (xs : List Text) (a : Text)
    → contains (select p xs) a ≡ (contains xs a && p a)
unfolding contains select
contains-select p [] a = refl
contains-select p (x ∷ xs) a = ground (arith, contains-select p xs a, eq_iff x a)

pub IsNodup-select : (p : Text → Bool) (xs : List Text) → IsNodup xs → IsNodup (select p xs)
unfolding select
IsNodup-select p [] n = tt
IsNodup-select p (x ∷ xs) n = ground (arith, IsNodup-select p xs, contains-select p xs x)

pub every_sound :
    (p : Text → Bool) (ds : List Text) (d : Text)
    → every p ds ≡ true
    → contains ds d ≡ true
    → p d ≡ true
unfolding every contains
every_sound p [] d h m = cc
every_sound p (x ∷ ds) d h m = ground (arith, every_sound p ds d, eq_iff x d)

pub every-false :
    (p : Text → Bool) (ds : List Text)
    → every p ds ≡ false
    → (d : Text) × (contains ds d ≡ true) × (p d ≡ false)
unfolding every contains
every-false p [] h = cc
every-false p (x ∷ ds) h = elim (Bool-cases (p x)) [
  | inl yes_x ↦ let (d, m, f) = every-false p ds (ground arith) in (d, ground arith, f)
  | inr no_x ↦ (x, ground (arith, eq_refl x), no_x)
]

pub IsNodup-append :
    (xs ys : List Text)
    → IsNodup xs
    → IsNodup ys
    → ((a : Text) → contains ys a ≡ true → contains xs a ≡ false)
    → IsNodup (xs ++ ys)
unfolding contains
IsNodup-append [] ys n m d = m
IsNodup-append (x ∷ xs) ys n m d = (
  ground (arith, contains-append xs ys x, d x, eq_refl x),
  IsNodup-append xs ys n.1 m (λ a h. ground (arith, d a h)),
)

-- The strings of a list of lists, in order.
unfoldable pub concat : List (List Text) → List Text
concat [] = []
concat (l ∷ ls) = l ++ concat ls

pub concat-snoc : (ls : List (List Text)) (l : List Text) → concat (ls ++ l ∷ []) ≡ concat ls ++ l
unfolding concat
concat-snoc [] l = rw append-nil
concat-snoc (k ∷ ls) l = rw (concat-snoc ls l, append_assoc)

-- A longer duplicate-free list holds a string that the shorter one lacks.
pub missing :
    (xs ys : List Text)
    → IsNodup ys
    → length xs < length ys
    → (a : Text) × (contains ys a ≡ true) × (contains xs a ≡ false)
missing xs ys n h = elim (Bool-cases (every (contains xs) ys)) [
  | inl all ↦
      absurd
        (omega (arith, length-le_of_subset ys xs n (λ a m. every_sound (contains xs) ys a all m)))
  | inr some ↦ every-false (contains xs) ys some
]

-- A duplicate-free part that is as long as the whole holds all of it.
pub whole_of_length :
    (xs ys : List Text) (a : Text)
    → IsNodup xs
    → ((b : Text) → contains xs b ≡ true → contains ys b ≡ true)
    → length ys ≤ length xs
    → contains ys a ≡ true
    → contains xs a ≡ true
whole_of_length xs ys a n sub le m = elim (Bool-cases (contains xs a)) [
  | inl in_xs ↦ in_xs
  | inr out ↦ absurd (
      omega (
        arith,
        length-le_of_subset (a ∷ xs) ys (out, n)
            (unfold contains in λ b h. ground (arith, sub b, eq_iff a b)),
      ))
]

-- A weaker test selects at least as many, and strictly more if it passes one string more.
pub length-select_mono :
    (p q : Text → Bool) (xs : List Text)
    → ((a : Text) → p a ≡ true → q a ≡ true)
    → length (select p xs) ≤ length (select q xs)
unfolding select
length-select_mono p q [] h = omega arith
length-select_mono p q (x ∷ xs) h = ground (arith, h x, length-select_mono p q xs h)

pub length-select-lt :
    (p q : Text → Bool) (xs : List Text) (a : Text)
    → ((b : Text) → p b ≡ true → q b ≡ true)
    → contains xs a ≡ true
    → p a ≡ false
    → q a ≡ true
    → length (select p xs) < length (select q xs)
unfolding select contains
length-select-lt p q [] a h m f t = cc
length-select-lt p q (x ∷ xs) a h m f t = elim (Bool-cases (x =ᵗ a)) [
  | inl e ↦ ground (arith, h x, length-select_mono p q xs h, eq_iff x a)
  | inr n ↦ ground (arith, h x, length-select-lt p q xs a h)
]

pub not-is_empty : (xs : List Text) (a : Text) → contains xs a ≡ true → is_empty xs ≡ false
unfolding contains
not-is_empty [] a h = cc
not-is_empty (x ∷ xs) a h = refl
