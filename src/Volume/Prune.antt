-- ===== src/Volume/Prune.antt =====
-- `Prune` of volume.go.
use thrive.Prelude.{
  ◌≡◌, refl, inl, inr, Bool, true, false, not, ◌&&◌, ◌||◌, Option, none, some, List, [], ◌∷◌, arith,
  Text, ◌=ᵗ◌, eq_iff, eq_refl, lookup, keys, IsNodup, contains, contains-snoc, contains-keys,
  lookup-remove, Bool-cases, Option-cases, if◌then◌else◌,
}
use thrive.Volume.{Volume, Store, remove_volume, is_used, list, prune_one, prune_all, prune}
use thrive.Volume.Keeps.{IsStore}

-- Whether a volume of the list has the name and is not used.
unfoldable condemned : Option (Text → Bool) → List Volume → Text → Bool
condemned used [] name = false
condemned used (v ∷ volumes) name =
    (not (is_used used v.path) && (v.name =ᵗ name)) || condemned used volumes name

abbrev is_there : Option Volume → Bool
is_there none = false
is_there (some v) = true

abbrev targeted : Option (Text → Bool) → Option Volume → Bool
targeted used none = false
targeted used (some v) = not (is_used used v.path)

module _ (used : Option (Text → Bool)) where
  -- Lookups and removed names after one round and after all.
  record IsRound (gone : Bool) (name : Text) (s : Store) (names : List Text) (p : Store × List Text)
      : Type 0 where
    found : lookup name p.0 ≡ (if gone then none else lookup name s)
    listed : contains p.1 name ≡ (contains names name || (gone && is_there (lookup name s)))

  prune_one-IsRound :
      (v : Volume) (name : Text) (s : Store) (names : List Text)
      → IsRound
          (not (is_used used v.path) && (v.name =ᵗ name))
          name
          s
          names
          (prune_one used v (s, names))
  unfolding prune_one remove_volume
  prune_one-IsRound v name s names = elim (Bool-cases (is_used used v.path)) [
    | inl e ↦ rw e (record { found = refl; listed = ground arith })
    | inr e ↦ elim (Option-cases (lookup v.name s)) [
      | inl f ↦
          rw (e, f, remove_volume)
            (record {
              found = ground (arith, f, eq_iff v.name name);
              listed = ground (arith, f, eq_iff v.name name);
            })
      | inr (w, f) ↦
          rw (e, f, remove_volume)
            (record {
              found = ground (arith, lookup-remove v.name name s);
              listed = ground (arith, f, eq_iff v.name name, contains-snoc names v.name name);
            })
    ]
  ]

  prune_all-IsRound :
      (volumes : List Volume) (name : Text) (s : Store) (names : List Text)
      → IsRound (condemned used volumes name) name s names (prune_all used volumes (s, names))
  unfolding prune_all condemned
  prune_all-IsRound [] name s names = record { found = refl; listed = ground arith }
  prune_all-IsRound (v ∷ volumes) name s names =
      let next = prune_one used v (s, names) in
      let first = prune_one-IsRound v name s names in
      let rest = prune_all-IsRound volumes name next.0 next.1 in
      record {
        found = ground (arith, first.found, rest.found);
        listed = ground (arith, first.found, first.listed, rest.found, rest.listed);
      }

  -- In the list of a store, a name is condemned if its volume is not used.
  condemned-list :
      (s : Store) (name : Text)
      → IsNodup (keys s)
      → ((directory : Text) (v : Volume) → lookup directory s ≡ some v → v.name ≡ directory)
      → condemned used (list s) name ≡ targeted used (lookup name s)
  unfolding condemned list lookup keys
  condemned-list [] name n h = refl
  condemned-list ((directory, v) ∷ s) name n h =
      let named = h directory v (rw (eq_refl directory) refl) in
      let rest =
        condemned-list s name n.1
          (λ d w e. h d w (ground (arith, e, contains-keys s d w, eq_iff directory d, n.0))) in
      elim (Bool-cases (directory =ᵗ name)) [
        | inr other ↦ rw other (ground (arith, rest, named, other))
        | inl same ↦ elim (Option-cases (lookup name s)) [
          | inl missing ↦ rw same (ground (arith, rest, named, same, missing))
          | inr (w, e) ↦
              absurd (ground (arith, e, contains-keys s name w, eq_iff directory name, n.0))
        ]
      ]

-- What is left of a store, and the names that are returned.
pub record IsPruned (used : Option (Text → Bool)) (s : Store) (p : Store × List Text) : Type 0 where
  pub kept :
      (name : Text) (v : Volume)
      → lookup name s ≡ some v
      → is_used used v.path ≡ true
      → (lookup name p.0 ≡ some v) × (contains p.1 name ≡ false)
  pub gone :
      (name : Text) (v : Volume)
      → lookup name s ≡ some v
      → is_used used v.path ≡ false
      → (lookup name p.0 ≡ none) × (contains p.1 name ≡ true)
  pub absent :
      (name : Text) → lookup name s ≡ none → (lookup name p.0 ≡ none) × (contains p.1 name ≡ false)

-- In a store whose volumes have the names of their directories, `Prune` removes exactly the volumes that are not
-- used, returns exactly their names, and leaves the others as they are.
pub prune-IsPruned :
    (used : Option (Text → Bool)) (s : Store) → IsStore s → IsPruned used s (prune used s)
unfolding prune
prune-IsPruned used s h =
    unfold contains in
    record {
      kept = λ name v e f.
          let r = prune_all-IsRound used (list s) name s [] in
          let w = why name in (ground (arith, r.found, w, e, f), ground (arith, r.listed, w, e, f));
      gone = λ name v e f.
          let r = prune_all-IsRound used (list s) name s [] in
          let w = why name in (ground (arith, r.found, w, e, f), ground (arith, r.listed, w, e, f));
      absent = λ name e.
          let r = prune_all-IsRound used (list s) name s [] in
          let w = why name in (ground (arith, r.found, w, e), ground (arith, r.listed, w, e));
    }
  where
    why : (name : Text) → condemned used (list s) name ≡ targeted used (lookup name s)
    why name = condemned-list used s name h.once (λ d v e. (h.volumes d v e).named)
