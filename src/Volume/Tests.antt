-- ===== src/Volume/Tests.antt =====
-- volume.go on a store of two volumes.
use thrive.Prelude.{
  ℕ, ◌≡◌, refl, Bool, true, false, Option, none, some, List, [], ◌∷◌, arith, Text, text, ◌=ᵗ◌,
  contains, lookup, eq_iff, keys,
}
use thrive.Volume.{data_path, valid_name, is_named_volume, prune}
use thrive.Volume.Keeps.{IsStore, Call, create_call, remove_call, run_all, volume_calls-IsStore}
use thrive.Volume.Prune.{IsPruned, prune-IsPruned}

abbrev calls : List Call
calls =
    create_call (text "db") 1
    ∷ create_call (text "log") 2
    ∷ create_call (text "db") 3
    ∷ remove_call (text "log") false none
    ∷ create_call (text "a/b") 4
    ∷ []

-- The path of the volume "db" is used.
abbrev db_used : Option (Text → Bool)
db_used = some (λ path. path =ᵗ data_path (text "db"))

[]-IsStore : IsStore []
[]-IsStore = record {
  volumes = λ directory v e. unfold lookup in (ground (arith, e));
  once = unfold keys in tt;
}

slash_refused : is_named_volume (λ path. false) (text "a/b") ≡ false
unfolding is_named_volume thrive.Prelude.has valid_name ◌=ᵗ◌
slash_refused = refl

volume_calls-IsStore_example : IsStore (run_all calls [])
volume_calls-IsStore_example = volume_calls-IsStore calls [] []-IsStore

prune-IsPruned_example : IsPruned db_used (run_all calls []) (prune db_used (run_all calls []))
prune-IsPruned_example =
    prune-IsPruned db_used (run_all calls []) (volume_calls-IsStore calls [] []-IsStore)
