-- ===== src/Prelude/Dicts.antt =====
-- Go maps with string keys, as association lists in the order of their iteration, and sets of
-- strings (`map[string]bool` read as a set).
use Prim.Native.Nat.{suc, ◌≤◌}
use mathlib.Core.Path.{◌≡◌, refl, ap}
use mathlib.Core.Logic.{inl, inr}
use mathlib.Core.Bool.{Bool, true, false, ◌||◌}
use mathlib.Core.Option.{Option, none, some}
use mathlib.Core.List.{List, [], ◌∷◌, ◌++◌}
use native.Mathlib.Omega.{arith}
use thrive.Prelude.Tests.{Bool-cases, if◌then◌else◌}
use thrive.Prelude.Lists.{length}
use thrive.Prelude.Texts.{Text, ◌=ᵗ◌, eq_iff, eq_refl}

abbrev pub Dict {ℓ} : Type ℓ → Type ℓ
Dict V = List (Text × V)

module _ {ℓ} {V : Type ℓ} where
  -- m[k]
  unfoldable pub lookup : Text → Dict V → Option V
  lookup k [] = none
  lookup k ((j, v) ∷ m) = if j =ᵗ k then some v else lookup k m

  -- m[k] = v
  unfoldable pub insert : Text → V → Dict V → Dict V
  insert k v [] = (k, v) ∷ []
  insert k v ((j, w) ∷ m) = let rest = insert k v m in if j =ᵗ k then (j, v) ∷ m else (j, w) ∷ rest

  -- delete(m, k)
  unfoldable pub remove : Text → Dict V → Dict V
  remove k [] = []
  remove k ((j, v) ∷ m) = let rest = remove k m in if j =ᵗ k then rest else (j, v) ∷ rest

  -- The keys, in the order of iteration.
  unfoldable pub keys : Dict V → List Text
  keys [] = []
  keys ((j, v) ∷ m) = j ∷ keys m

  pub lookup-insert :
      (at key : Text) (new : V) (dict : Dict V)
      → lookup key (insert at new dict) ≡ (if at =ᵗ key then some new else lookup key dict)
  unfolding insert lookup
  lookup-insert at key new [] = refl
  lookup-insert at key new ((first, old) ∷ dict) =
      ground
        (arith, lookup-insert at key new dict, eq_iff at key, eq_iff first at, eq_iff first key)

  pub lookup-insert_same : (k : Text) (v : V) (m : Dict V) → lookup k (insert k v m) ≡ some v
  lookup-insert_same k v m = rw (lookup-insert, eq_refl k) (λ i. some v)

  pub lookup-insert_other :
      (k j : Text) (v : V) (m : Dict V) → (k =ᵗ j) ≡ false → lookup j (insert k v m) ≡ lookup j m
  lookup-insert_other k j v m n = rw (lookup-insert, n) (λ i. lookup j m)

  pub lookup-remove :
      (k j : Text) (m : Dict V) → lookup j (remove k m) ≡ (if k =ᵗ j then none else lookup j m)
  unfolding lookup remove
  lookup-remove k j [] = ground arith
  lookup-remove k j ((i, w) ∷ m) =
      ground (arith, eq_iff k j, eq_iff i k, eq_iff i j, lookup-remove k j m)

-- Membership of a string in a list or a set of strings.
unfoldable pub contains : List Text → Text → Bool
contains [] a = false
contains (x ∷ xs) a = (x =ᵗ a) || contains xs a

-- set[a] = true
unfoldable pub add_key : List Text → Text → List Text
add_key xs a = if contains xs a then xs else xs ++ a ∷ []

-- No string twice.
abbrev pub IsNodup : List Text → Type 0
IsNodup [] = Unit
IsNodup (x ∷ xs) = (contains xs x ≡ false) × IsNodup xs

pub contains-append :
    (xs ys : List Text) (a : Text) → contains (xs ++ ys) a ≡ (contains xs a || contains ys a)
unfolding contains
contains-append [] ys a = refl
contains-append (x ∷ xs) ys a = ground (arith, contains-append xs ys a)

pub contains-singleton : (x a : Text) → contains (x ∷ []) a ≡ (x =ᵗ a)
unfolding contains
contains-singleton x a = ground arith

pub contains-snoc :
    (xs : List Text) (x a : Text) → contains (xs ++ x ∷ []) a ≡ (contains xs a || (x =ᵗ a))
contains-snoc xs x a = rw (contains-append, contains-singleton)

pub contains-add_key :
    (xs : List Text) (k a : Text) → contains (add_key xs k) a ≡ (contains xs a || (k =ᵗ a))
unfolding add_key
contains-add_key xs k a = ground (arith, contains-snoc xs k a, eq_iff k a)

pub IsNodup-snoc :
    (xs : List Text) (a : Text) → contains xs a ≡ false → IsNodup xs → IsNodup (xs ++ a ∷ [])
unfolding contains
IsNodup-snoc [] a h n = (refl, tt)
IsNodup-snoc (x ∷ xs) a h n = (
  ground (arith, contains-snoc xs a x, eq_iff a x, eq_iff x a),
  IsNodup-snoc xs a (ground arith) n.1,
)

pub IsNodup-add_key : (xs : List Text) (a : Text) → IsNodup xs → IsNodup (add_key xs a)
unfolding add_key
IsNodup-add_key xs a n = ground (arith, IsNodup-snoc xs a)

-- Removing one occurrence, to count.
unfoldable pub erase : Text → List Text → List Text
erase a [] = []
erase a (x ∷ xs) = let rest = erase a xs in if x =ᵗ a then xs else x ∷ rest

pub length-erase :
    (a : Text) (xs : List Text) → contains xs a ≡ true → suc (length (erase a xs)) ≡ length xs
unfolding erase contains
length-erase a [] h = cc
length-erase a (x ∷ xs) h = ground (arith, length-erase a xs)

pub contains-erase :
    (a b : Text) (xs : List Text)
    → contains xs b ≡ true
    → (a =ᵗ b) ≡ false
    → contains (erase a xs) b ≡ true
unfolding erase contains
contains-erase a b [] h n = cc
contains-erase a b (x ∷ xs) h n =
    ground (arith, contains-erase a b xs, eq_iff x a, eq_iff x b, eq_iff a b)

-- A duplicate-free list whose elements all stand in another is no longer than it.
pub length-le_of_subset :
    (xs ys : List Text)
    → IsNodup xs
    → ((a : Text) → contains xs a ≡ true → contains ys a ≡ true)
    → length xs ≤ length ys
unfolding contains
length-le_of_subset [] ys n sub = omega arith
length-le_of_subset (x ∷ xs) ys n sub =
    let at = sub x (ground (arith, eq_refl x)) in
    let less =
      length-le_of_subset xs (erase x ys) n.1
        (λ a h. contains-erase x a ys (sub a (ground arith)) (ground (arith, eq_iff x a))) in
    omega (arith, less, length-erase x ys at)

module _ {ℓ} {V : Type ℓ} where
  pub contains-keys :
      (m : Dict V) (k : Text) (v : V) → lookup k m ≡ some v → contains (keys m) k ≡ true
  unfolding lookup keys contains
  contains-keys [] k v h = cc
  contains-keys ((j, w) ∷ m) k v h = ground (arith, contains-keys m k v)

  pub lookup_of_keys :
      (m : Dict V) (k : Text) → contains (keys m) k ≡ true → (v : V) × (lookup k m ≡ some v)
  unfolding lookup keys contains
  lookup_of_keys [] k h = cc
  lookup_of_keys ((j, w) ∷ m) k h = elim (Bool-cases (j =ᵗ k)) [
    | inl e ↦ (w, rw e)
    | inr n ↦ let (v, f) = lookup_of_keys m k (ground arith) in (v, rw n f)
  ]

  pub length-keys : (m : Dict V) → length (keys m) ≡ length m
  unfolding keys
  length-keys [] = refl
  length-keys ((j, w) ∷ m) = ap suc (length-keys m)

-- The keys after an insertion and a removal.
module _ {ℓ} {V : Type ℓ} where
  pub keys-insert :
      (k : Text) (v : V) (m : Dict V) (a : Text)
      → contains (keys (insert k v m)) a ≡ (contains (keys m) a || (k =ᵗ a))
  unfolding insert keys contains
  keys-insert k v [] a = ground arith
  keys-insert k v ((j, w) ∷ m) a =
      ground (arith, keys-insert k v m a, eq_iff j k, eq_iff j a, eq_iff k a)

  pub insert-IsNodup :
      (k : Text) (v : V) (m : Dict V) → IsNodup (keys m) → IsNodup (keys (insert k v m))
  unfolding insert keys
  insert-IsNodup k v [] n = unfold contains in (refl, tt)
  insert-IsNodup k v ((j, w) ∷ m) n = elim (Bool-cases (j =ᵗ k)) [
    | inl e ↦ rw e n
    | inr o ↦
        rw o (
          ground (arith, keys-insert k v m j, eq_iff j k, eq_iff k j, n.0),
          insert-IsNodup k v m n.1,
        )
  ]

  pub keys-remove :
      (k : Text) (m : Dict V) (a : Text)
      → contains (keys (remove k m)) a ≡ (if k =ᵗ a then false else contains (keys m) a)
  unfolding remove keys contains
  keys-remove k [] a = ground arith
  keys-remove k ((j, w) ∷ m) a =
      ground (arith, keys-remove k m a, eq_iff j k, eq_iff j a, eq_iff k a)

  pub remove-IsNodup : (k : Text) (m : Dict V) → IsNodup (keys m) → IsNodup (keys (remove k m))
  unfolding remove keys
  remove-IsNodup k [] n = tt
  remove-IsNodup k ((j, w) ∷ m) n = elim (Bool-cases (j =ᵗ k)) [
    | inl e ↦ rw e (remove-IsNodup k m n.1)
    | inr o ↦ rw o (ground (arith, keys-remove k m j, n.0), remove-IsNodup k m n.1)
  ]
