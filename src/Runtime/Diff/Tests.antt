-- ===== src/Runtime/Diff/Tests.antt =====
-- lifecycle.go: the changes of a small copied root.
use thrive.Prelude.{
  ◌≡◌, refl, true, false, Option, none, some, List, [], ◌∷◌, ◌=ᵗ◌, text, lookup, keys, contains,
  All, IsNodup,
}
use thrive.Runtime.Diff.{
  directory, file, link, Tree, Layer, lower_file, diff_copy_changes, added, changed, deleted,
  content_differs, hash_differs, is_directory, entry_change, report, merged_changes, deleted_in,
  deleted_paths, as_deleted, sort_change, sort_changes,
}
use thrive.Runtime.Diff.Listed.{IsDiff, diff_copy_changes-IsDiff}

abbrev root : Tree
root =
    (text "etc", directory false)
    ∷ (text "etc/a", file false (some (text "1")))
    ∷ (text "new", file false (some (text "2")))
    ∷ []

abbrev layer_tree : Tree
layer_tree =
    (text "etc", directory false)
    ∷ (text "etc/a", file false (some (text "0")))
    ∷ (text "old", link (text "etc"))
    ∷ []

-- No link leads to a directory.
abbrev layer : Layer
layer = record { walk = layer_tree; lstat = λ rel. lookup rel layer_tree }

changes :
    diff_copy_changes root (layer ∷ [])
    ≡ (text "/etc/a", changed) ∷ (text "/new", added) ∷ (text "/old", deleted) ∷ []
unfolding diff_copy_changes merged_changes entry_change report lower_file lookup ◌=ᵗ◌
    content_differs hash_differs is_directory deleted_in deleted_paths as_deleted sort_change
    sort_changes contains keys thrive.Prelude.less
changes = refl

root-IsNodup : IsNodup (keys root)
unfolding keys contains ◌=ᵗ◌
root-IsNodup = (refl, (refl, (refl, tt)))

layer-IsNodup : All (λ (lower : Layer). IsNodup (keys lower.walk)) (layer ∷ [])
unfolding keys contains ◌=ᵗ◌
layer-IsNodup = ((refl, (refl, (refl, tt))), tt)

diff_copy_changes-IsDiff_example : IsDiff root (layer ∷ []) (diff_copy_changes root (layer ∷ []))
diff_copy_changes-IsDiff_example =
    diff_copy_changes-IsDiff root (layer ∷ []) root-IsNodup layer-IsNodup
