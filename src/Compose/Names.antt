-- ===== src/Compose/Names.antt =====
-- `serviceIDs` and `sortStrings` of compose.go: the containers of a service, found by the prefix of
-- their names. The entries are the directories under /run/thrive/containers, `none` if unreadable.
use thrive.Prelude.{
  ℕ, ◌+◌, ◌≡◌, refl, inl, inr, Bool, true, false, not, ◌&&◌, Option, none, some, List, [], ◌∷◌,
  ◌++◌, arith, Text, text, less, cut_prefix, cut_prefix-append, contains, contains-select,
  contains-sort, select, is_empty, not-is_empty, sort, All, IsSorted, Bool-cases, itoa,
  if◌then◌else◌,
}
use thrive.Prelude.Sort.Unique.{
  count, count-sort, IsSorted-sort, sorted_unique, not_less_trans, less_asym,
}
use mathlib.Core.List.{append_assoc}

-- The inner loop of `sortStrings`, on the sorted part turned round: the new string moves past
-- each string that it is less than.
unfoldable pub sift : Text → List Text → List Text
sift a [] = a ∷ []
sift a (x ∷ xs) = let rest = sift a xs in if less a x then x ∷ rest else a ∷ x ∷ xs

-- The outer loop, from the sorted part turned round.
unfoldable pub sort_from : List Text → List Text → List Text
unfolding sift
sort_from done [] = done
sort_from done (x ∷ xs) = sort_from (sift x done) xs

unfoldable pub turn : List Text → List Text → List Text
turn acc [] = acc
turn acc (x ∷ xs) = turn (x ∷ acc) xs

unfoldable pub sort_strings : List Text → List Text
unfolding sort_from turn
sort_strings s = turn [] (sort_from [] s)

abbrev pub service_prefix : Text → Text → Text
service_prefix project service = project ++ b'-' ∷ (service ++ b'-' ∷ [])

abbrev pub container_name : Text → Text → Text
container_name project service = project ++ b'-' ∷ (service ++ text "-1")

-- len(name) > len(prefix) && name[:len(prefix)] == prefix
unfoldable pub extends : Text → Text → Bool
extends prefix name = elim (cut_prefix prefix name) [
  | none ↦ false
  | some rest ↦ not (is_empty rest)
]

unfoldable pub service_ids : Option (List Text) → Text → Text → List Text
unfolding sort_strings extends
service_ids none project service = container_name project service ∷ []
service_ids (some entries) project service =
    let ids = sort_strings (select (extends (service_prefix project service)) entries) in
    if is_empty ids then container_name project service ∷ [] else ids

-- The id that `startServiceAt` gives to a replica.
abbrev pub replica_id : Text → Text → ℕ → Text
replica_id project service index = project ++ b'-' ∷ (service ++ b'-' ∷ itoa index)

-- Descending order.
abbrev IsFalling : List Text → Type 0
IsFalling [] = Unit
IsFalling (x ∷ xs) = All (λ y. less x y ≡ false) xs × IsFalling xs

count-sift : (a : Text) (xs : List Text) (b : Text) → count b (sift a xs) ≡ count b (a ∷ xs)
unfolding sift count
count-sift a [] b = refl
count-sift a (x ∷ xs) b = ground (arith, count-sift a xs b)

count-sort_from :
    (done xs : List Text) (b : Text) → count b (sort_from done xs) ≡ count b done + count b xs
unfolding sort_from count
count-sort_from done [] b = omega arith
count-sort_from done (x ∷ xs) b =
    ground (arith, count-sort_from (sift x done) xs b, count-sift x done b)

count-turn : (acc xs : List Text) (b : Text) → count b (turn acc xs) ≡ count b acc + count b xs
unfolding turn count
count-turn acc [] b = omega arith
count-turn acc (x ∷ xs) b = ground (arith, count-turn (x ∷ acc) xs b)

All-sift : (P : Text → Type 0) (a : Text) (xs : List Text) → P a → All P xs → All P (sift a xs)
unfolding sift
All-sift P a [] pa h = (pa, tt)
All-sift P a (x ∷ xs) pa h = elim (Bool-cases (less a x)) [
  | inl lt ↦ rw lt (h.0, All-sift P a xs pa h.1)
  | inr ge ↦ rw ge (pa, h)
]

falls :
    (x a : Text) (xs : List Text)
    → less a x ≡ false
    → All (λ y. less x y ≡ false) xs
    → All (λ y. less a y ≡ false) xs
falls x a [] h all = tt
falls x a (y ∷ xs) h all = (not_less_trans y x a all.0 h, falls x a xs h all.1)

IsFalling-sift : (a : Text) (xs : List Text) → IsFalling xs → IsFalling (sift a xs)
unfolding sift
IsFalling-sift a [] h = (tt, tt)
IsFalling-sift a (x ∷ xs) h = elim (Bool-cases (less a x)) [
  | inl lt ↦
      rw lt (All-sift (λ y. less x y ≡ false) a xs (less_asym a x lt) h.0, IsFalling-sift a xs h.1)
  | inr ge ↦ rw ge ((ge, falls x a xs ge h.0), h)
]

IsFalling-sort_from : (done xs : List Text) → IsFalling done → IsFalling (sort_from done xs)
unfolding sort_from
IsFalling-sort_from done [] h = h
IsFalling-sort_from done (x ∷ xs) h = IsFalling-sort_from (sift x done) xs (IsFalling-sift x done h)

abbrev AllAbove : List Text → List Text → Type 0
AllAbove [] ys = Unit
AllAbove (x ∷ xs) ys = All (λ y. less y x ≡ false) ys × AllAbove xs ys

AllAbove-cons :
    (a : Text) (xs acc : List Text)
    → All (λ y. less a y ≡ false) xs
    → AllAbove xs acc
    → AllAbove xs (a ∷ acc)
AllAbove-cons a [] acc h k = tt
AllAbove-cons a (x ∷ xs) acc h k = ((h.0, k.0), AllAbove-cons a xs acc h.1 k.1)

IsSorted-turn :
    (acc xs : List Text) → IsSorted acc → IsFalling xs → AllAbove xs acc → IsSorted (turn acc xs)
unfolding turn
IsSorted-turn acc [] s f a = s
IsSorted-turn acc (x ∷ xs) s f a =
    IsSorted-turn (x ∷ acc) xs (a.0, s) f.1 (AllAbove-cons x xs acc f.0 a.1)

AllAbove-nil : (xs : List Text) → AllAbove xs []
AllAbove-nil [] = tt
AllAbove-nil (x ∷ xs) = (tt, AllAbove-nil xs)

-- The hand-written insertion sort gives what `sort.Strings` gives, on every input.
pub sort_strings-eq-sort : (s : List Text) → sort_strings s ≡ sort s
unfolding sort_strings
sort_strings-eq-sort s =
    sorted_unique (turn [] (sort_from [] s)) (sort s)
      (IsSorted-turn [] (sort_from [] s) tt (IsFalling-sort_from [] s tt)
        (AllAbove-nil (sort_from [] s)))
      (IsSorted-sort s)
      (unfold count in
        λ a.
          omega (arith, count-turn [] (sort_from [] s) a, count-sort_from [] s a, count-sort s a))

-- Where a directory has the prefix of the service, the ids of the service are exactly the directories
-- that have it.
pub contains-service_ids :
    (entries : List Text) (project service id : Text)
    → contains entries id ≡ true
    → extends (service_prefix project service) id ≡ true
    → (other : Text)
    → contains (service_ids (some entries) project service) other
      ≡ (contains entries other && extends (service_prefix project service) other)
unfolding service_ids
contains-service_ids entries project service id m e other =
    let test = extends (service_prefix project service) in
    let ids = select test entries in
    let found = λ (a : Text). contains-select test entries a in
    let some_id : contains (sort ids) id ≡ true = ground (arith, contains-sort ids id, found id) in
    rw (sort_strings-eq-sort ids, not-is_empty (sort ids) id some_id, contains-sort ids other)
      (found other)

pub extends-append :
    (prefix rest tail : Text) (c : ℕ) → extends prefix (prefix ++ (rest ++ c ∷ tail)) ≡ true
unfolding extends
extends-append prefix [] tail c = rw (cut_prefix-append, extends)
extends-append prefix (x ∷ rest) tail c = rw (cut_prefix-append, extends)

-- A container of the service "SERVICE-REST" is also taken for one of the service "SERVICE" of the
-- project: the ids that the commands on the shorter name act on hold it.
pub service_ids-collision :
    (entries : List Text) (project service rest : Text) (index : ℕ)
    → contains entries (replica_id project (service ++ b'-' ∷ rest) index) ≡ true
    → contains
        (service_ids (some entries) project service)
        (replica_id project (service ++ b'-' ∷ rest) index)
      ≡ true
service_ids-collision entries project service rest index m =
    let id = replica_id project (service ++ b'-' ∷ rest) index in
    let split : id ≡ service_prefix project service ++ (rest ++ b'-' ∷ itoa index) =
      simp append_assoc in
    let taken : extends (service_prefix project service) id ≡ true =
      rw split (extends-append (service_prefix project service) rest (itoa index) b'-') in
    ground (arith, contains-service_ids entries project service id m taken id, m, taken)
