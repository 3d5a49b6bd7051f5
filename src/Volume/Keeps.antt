-- ===== src/Volume/Keeps.antt =====
-- volume.go: sequences of calls.
use thrive.Prelude.{
  ℕ, ◌≡◌, refl, sym, inl, inr, Bool, true, not, ◌&&◌, Option, none, some, List, [], ◌∷◌, arith,
  Text, ◌=ᵗ◌, eq_iff, lookup, insert, remove, keys, IsNodup, lookup-insert, lookup-remove,
  insert-IsNodup, remove-IsNodup, Bool-cases, Option-cases,
}
use thrive.Volume.{
  Volume, Store, valid_name, data_path, new_volume, create, ensure, remove_volume, is_used, list,
  prune_one, prune_all, prune,
}

-- A volume in its directory, where its data are as well.
pub record IsVolume (directory : Text) (v : Volume) : Type 0 where
  pub named : v.name ≡ directory
  pub placed : v.path ≡ data_path directory
  pub valid : valid_name directory ≡ true

pub record IsStore (s : Store) : Type 0 where
  pub volumes : (directory : Text) (v : Volume) → lookup directory s ≡ some v → IsVolume directory v
  pub once : IsNodup (keys s)

insert-IsStore :
    (name : Text) (v : Volume) (s : Store) → IsVolume name v → IsStore s → IsStore (insert name v s)
insert-IsStore name v s new h = record {
  volumes = λ directory w e. elim (Bool-cases (name =ᵗ directory)) [
    | inl same ↦
        let at : directory ≡ name = sym ((eq_iff name directory).0 same) in
        let value : w ≡ v = ground (arith, lookup-insert name directory v s) in rw (at, value) new
    | inr other ↦ h.volumes directory w (ground (arith, lookup-insert name directory v s))
  ];
  once = insert-IsNodup name v s h.once;
}

pub remove-IsStore : (name : Text) (s : Store) → IsStore s → IsStore (remove name s)
remove-IsStore name s h = record {
  volumes = λ directory w e. h.volumes directory w (ground (arith, lookup-remove name directory s));
  once = remove-IsNodup name s h.once;
}

create-IsStore : (name : Text) (now : ℕ) (s : Store) → IsStore s → IsStore (create name now s).0
unfolding create
create-IsStore name now s h = elim (Bool-cases (valid_name name)) [
  | inr bad ↦ rw bad h
  | inl good ↦ elim (Option-cases (lookup name s)) [
    | inr (v, e) ↦ rw (good, e) h
    | inl e ↦
        rw (good, e)
          (insert-IsStore name (new_volume name now) s
            (record { named = refl; placed = refl; valid = good }) h)
  ]
]

ensure-IsStore : (name : Text) (now : ℕ) (s : Store) → IsStore s → IsStore (ensure name now s).0
unfolding ensure
ensure-IsStore name now s h = elim (Option-cases (lookup name s)) [
  | inr (v, e) ↦ rw (e, ensure) h
  | inl e ↦ rw (e, ensure) (create-IsStore name now s h)
]

remove_volume-IsStore :
    (name : Text) (force : Bool) (used : Option (Text → Bool)) (s : Store)
    → IsStore s
    → IsStore (remove_volume name force used s).0
unfolding remove_volume
remove_volume-IsStore name force used s h = elim (Option-cases (lookup name s)) [
  | inl e ↦ rw (e, remove_volume) h
  | inr (v, e) ↦
      rw (e, remove_volume)
        (elim (Bool-cases (not force && is_used used v.path)) [
          | inl f ↦ rw f h
          | inr f ↦ rw f (remove-IsStore name s h)
        ])
]

prune_one-IsStore :
    (used : Option (Text → Bool)) (v : Volume) (p : Store × List Text)
    → IsStore p.0
    → IsStore (prune_one used v p).0
unfolding prune_one
prune_one-IsStore used v (s, names) h = elim (Bool-cases (is_used used v.path)) [
  | inl e ↦ rw e h
  | inr e ↦ rw e (remove_volume-IsStore v.name true none s h)
]

prune_all-IsStore :
    (used : Option (Text → Bool)) (volumes : List Volume) (p : Store × List Text)
    → IsStore p.0
    → IsStore (prune_all used volumes p).0
unfolding prune_all
prune_all-IsStore used [] p h = h
prune_all-IsStore used (v ∷ volumes) p h =
    prune_all-IsStore used volumes (prune_one used v p) (prune_one-IsStore used v p h)

-- The calls that change the store; what containers use may differ from call to call.
pub data Call : Type 0 where
  create_call : (name : Text) (now : ℕ) → Call
  ensure_call : (name : Text) (now : ℕ) → Call
  remove_call : (name : Text) (force : Bool) (used : Option (Text → Bool)) → Call
  prune_call : (used : Option (Text → Bool)) → Call

unfoldable pub run : Call → Store → Store
run (create_call name now) s = (create name now s).0
run (ensure_call name now) s = (ensure name now s).0
run (remove_call name force used) s = (remove_volume name force used s).0
run (prune_call used) s = (prune used s).0

unfoldable pub run_all : List Call → Store → Store
unfolding run
run_all [] s = s
run_all (c ∷ calls) s = run_all calls (run c s)

run-IsStore : (c : Call) (s : Store) → IsStore s → IsStore (run c s)
unfolding run prune
run-IsStore (create_call name now) s h = create-IsStore name now s h
run-IsStore (ensure_call name now) s h = ensure-IsStore name now s h
run-IsStore (remove_call name force used) s h = remove_volume-IsStore name force used s h
run-IsStore (prune_call used) s h = prune_all-IsStore used (list s) (s, []) h

-- Whatever sequence of calls is made, successful or not, each volume has the valid name of its own
-- directory, its data lie in that directory, and no directory is listed twice.
pub volume_calls-IsStore : (calls : List Call) (s : Store) → IsStore s → IsStore (run_all calls s)
unfolding run_all
volume_calls-IsStore [] s h = h
volume_calls-IsStore (c ∷ calls) s h = volume_calls-IsStore calls (run c s) (run-IsStore c s h)
