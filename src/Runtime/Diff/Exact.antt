-- ===== src/Runtime/Diff/Exact.antt =====
-- diffCopyChanges of lifecycle.go: exactly which changes it reports.
use thrive.Prelude.{
  ◌≡◌, refl, ◌∙◌, inl, inr, Bool, true, false, not, ◌&&◌, ◌||◌, Option, none, some, List, [], ◌∷◌,
  ◌++◌, arith, Text, ◌=ᵗ◌, eq_iff, less_irrefl, Dict, lookup, keys, contains, contains-keys,
  contains-snoc, IsNodup, All, Bool-cases, Option-cases, if◌then◌else◌,
}
use thrive.Runtime.Diff.{
  Entry, Tree, Layer, Kind, added, changed, deleted, Changes, path, is_directory, content_differs,
  lower_file, entry_change, report, merged_changes, deleted_in, deleted_paths, as_deleted,
  sort_change, sort_changes, diff_copy_changes,
}

abbrev is_file_there : Option Entry → Bool
is_file_there none = false
is_file_there (some entry) = not (is_directory entry)

-- Whether a layer has a path that is no directory there.
unfoldable pub has_file : List Layer → Text → Bool
has_file [] rel = false
has_file (lower ∷ lowers) rel = is_file_there (lookup rel lower.walk) || has_file lowers rel

-- The change that is due for a path, from the entry of the merged tree and the first of the layers.
unfoldable pub due : Option Entry → Option Entry → Bool → Option Kind
due none lower in_layer = if in_layer then some deleted else none
due (some entry) none in_layer = some added
due (some entry) (some lower) in_layer =
    if not (is_directory entry) && content_differs entry lower then some changed else none

abbrev first : Option Kind → Option Kind → Option Kind
first none b = b
first (some a) b = some a

lookup-append : (k : Text) (m n : Changes) → lookup k (m ++ n) ≡ first (lookup k m) (lookup k n)
unfolding lookup
lookup-append k [] n = refl
lookup-append k ((j, v) ∷ m) n = elim (Bool-cases (j =ᵗ k)) [
  | inl e ↦ rw e refl
  | inr e ↦ rw e (lookup-append k m n)
]

lookup-sort_change :
    (k at : Text) (kind : Kind) (m : Changes)
    → lookup k (sort_change at kind m) ≡ (if at =ᵗ k then some kind else lookup k m)
unfolding sort_change lookup
lookup-sort_change k at kind [] = refl
lookup-sort_change k at kind ((j, v) ∷ m) =
    ground (arith, lookup-sort_change k at kind m, eq_iff j k, eq_iff at k, less_irrefl at)

lookup-sort_changes : (k : Text) (m : Changes) → lookup k (sort_changes m) ≡ lookup k m
unfolding sort_changes lookup
lookup-sort_changes k [] = refl
lookup-sort_changes k ((at, kind) ∷ m) =
    lookup-sort_change k at kind (sort_changes m) ∙ ground (arith, lookup-sort_changes k m)

path_same : (a b : Text) → (path a =ᵗ path b) ≡ (a =ᵗ b)
unfolding ◌=ᵗ◌
path_same a b = refl

lookup-as_deleted :
    (rel : Text) (rels : List Text)
    → lookup (path rel) (as_deleted rels) ≡ (if contains rels rel then some deleted else none)
unfolding lookup as_deleted contains
lookup-as_deleted rel [] = refl
lookup-as_deleted rel (r ∷ rels) = ground (arith, path_same r rel, lookup-as_deleted rel rels)

-- A path that is not among the keys is not found.
absent :
    {V : Type 0} (k j : Text) (m : Dict V)
    → contains (keys m) j ≡ false
    → (j =ᵗ k) ≡ true
    → lookup k m ≡ none
absent k j m new same = elim (Option-cases (lookup k m)) [
  | inl e ↦ e
  | inr (v, e) ↦ absurd (ground (arith, contains-keys m k v e, new, same, eq_iff j k))
]

keys_known :
    (k : Text) (m : Tree)
    → contains (keys m) k ≡ (elim (lookup k m) as (λ _. Bool) [ none ↦ false | some e ↦ true ])
unfolding contains keys lookup
keys_known k [] = refl
keys_known k ((j, e) ∷ m) = elim (Bool-cases (j =ᵗ k)) [
  | inl same ↦ rw same refl
  | inr other ↦ rw other (keys_known k m)
]

contains-deleted_in :
    (merged lower : Tree) (reported : List Text) (rel : Text)
    → IsNodup (keys lower)
    → contains (deleted_in merged lower reported) rel ≡ (
        contains reported rel
        || (is_file_there (lookup rel lower) && not (contains (keys merged) rel)))
unfolding deleted_in lookup keys
contains-deleted_in merged [] reported rel n = ground arith
contains-deleted_in merged ((r, entry) ∷ lower) reported rel n =
    let kept = contains-deleted_in merged lower reported rel n.1 in
    let more = contains-deleted_in merged lower (reported ++ r ∷ []) rel n.1 in
    let snoc = contains-snoc reported r rel in
    elim (Bool-cases (r =ᵗ rel)) [
      | inr other ↦ rw other (ground (arith, kept, more, snoc, other))
      | inl same ↦
          let gone = absent rel r lower n.0 same in
          rw same (ground (arith, kept, more, snoc, same, gone, eq_iff r rel))
    ]

pub contains-deleted_paths :
    (merged : Tree) (lowers : List Layer) (reported : List Text) (rel : Text)
    → All (λ (lower : Layer). IsNodup (keys lower.walk)) lowers
    → contains (deleted_paths merged lowers reported) rel
      ≡ (contains reported rel || (has_file lowers rel && not (contains (keys merged) rel)))
unfolding deleted_paths has_file
contains-deleted_paths merged [] reported rel n = ground arith
contains-deleted_paths merged (lower ∷ lowers) reported rel n = ground (
  arith,
  contains-deleted_paths merged lowers (deleted_in merged lower.walk reported) rel n.1,
  contains-deleted_in merged lower.walk reported rel n.0,
)

lookup-report :
    (rel r : Text) (kind : Option Kind) (changes : Changes)
    → lookup (path rel) (report r kind changes)
      ≡ (if r =ᵗ rel then first kind (lookup (path rel) changes) else lookup (path rel) changes)
unfolding report lookup
lookup-report rel r none changes = ground arith
lookup-report rel r (some kind) changes = ground (arith, path_same r rel)

entry_change-due :
    (entry : Entry) (lower : Option Entry)
    → first (entry_change entry lower) none ≡ due (some entry) lower false
unfolding entry_change due
entry_change-due entry none = refl
entry_change-due entry (some lower) = ground arith

lookup-merged_changes :
    (lowers : List Layer) (merged : Tree) (rel : Text)
    → IsNodup (keys merged)
    → lookup (path rel) (merged_changes lowers merged)
      ≡ due (lookup rel merged) (lower_file lowers rel) false
unfolding merged_changes lookup keys
lookup-merged_changes lowers [] rel n = unfold due in refl
lookup-merged_changes lowers ((r, entry) ∷ merged) rel n =
    let rest = lookup-merged_changes lowers merged rel n.1 in
    let reported =
      lookup-report rel r (entry_change entry (lower_file lowers r))
        (merged_changes lowers merged) in
    elim (Bool-cases (r =ᵗ rel)) [
      | inr other ↦ reported ∙ rw other rest
      | inl same ↦
          let gone = absent rel r merged n.0 same in
          let at : r ≡ rel = (eq_iff r rel).0 same in
          let empty : lookup (path rel) (merged_changes lowers merged) ≡ none =
            rest ∙ rw gone (unfold due in refl) in
          reported ∙ rw (same, empty, at) (entry_change-due entry (lower_file lowers rel))
    ]

due-deleted :
    (entry lower : Option Entry) (in_layer there : Bool)
    → there ≡ (elim entry as (λ _. Bool) [ none ↦ false | some e ↦ true ])
    → first (due entry lower false) (if in_layer && not there then some deleted else none)
      ≡ due entry lower in_layer
unfolding due
due-deleted none lower in_layer there e = ground (arith, e)
due-deleted (some entry) none in_layer there e = refl
due-deleted (some entry) (some lower) in_layer there e = ground (arith, e)

-- Where no tree has a path twice, the changes of a copied root are exactly those that are due: a path of the
-- merged tree is added if no layer has it and changed if it is no directory and differs from the first layer that
-- has it; any other path is deleted if a layer has it as something else than a directory.
pub diff_copy_changes-due :
    (merged : Tree) (lowers : List Layer) (rel : Text)
    → IsNodup (keys merged)
    → All (λ (lower : Layer). IsNodup (keys lower.walk)) lowers
    → lookup (path rel) (diff_copy_changes merged lowers)
      ≡ due (lookup rel merged) (lower_file lowers rel) (has_file lowers rel)
unfolding diff_copy_changes contains
diff_copy_changes-due merged lowers rel once each =
    let sorted =
      lookup-sort_changes (path rel)
        (merged_changes lowers merged ++ as_deleted (deleted_paths merged lowers [])) in
    let parts =
      lookup-append (path rel) (merged_changes lowers merged)
        (as_deleted (deleted_paths merged lowers [])) in
    let walked = lookup-merged_changes lowers merged rel once in
    let gone =
      lookup-as_deleted rel (deleted_paths merged lowers [])
      ∙ rw (contains-deleted_paths merged lowers [] rel each) refl in
    let known : contains (keys merged) rel
        ≡ (elim (lookup rel merged) as (λ _. Bool) [ none ↦ false | some e ↦ true ]) =
      keys_known rel merged in
    let final : first (lookup (path rel) (merged_changes lowers merged))
          (lookup (path rel) (as_deleted (deleted_paths merged lowers [])))
        ≡ due (lookup rel merged) (lower_file lowers rel) (has_file lowers rel) =
      rw (walked, gone)
        (due-deleted (lookup rel merged) (lower_file lowers rel) (has_file lowers rel)
          (contains (keys merged) rel) known) in
    sorted ∙ parts ∙ final
