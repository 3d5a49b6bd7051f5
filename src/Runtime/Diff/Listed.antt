-- ===== src/Runtime/Diff/Listed.antt =====
-- diffCopyChanges: each path is reported once, in ascending order, with the change that is due.
use mathlib.Core.Path.{subst}
use thrive.Prelude.{
  ◌≡◌, refl, sym, ap, ◌∙◌, inl, inr, true, ◌||◌, none, some, List, [], ◌∷◌, ◌++◌, arith, Text, ◌=ᵗ◌,
  eq_iff, lookup, keys, contains, contains-sort, IsNodup, IsNodup-append, IsNodup-sort,
  IsNodup-snoc, sort, sort_insert, IsSorted, All, Bool-cases, Option-cases,
}
use thrive.Prelude.Sort.Unique.{IsSorted-sort}
use thrive.Runtime.Diff.{
  Tree, Layer, Kind, Changes, path, is_directory, lower_file, entry_change, report, merged_changes,
  deleted_in, deleted_paths, as_deleted, sort_change, sort_changes, diff_copy_changes,
}
use thrive.Runtime.Diff.Exact.{contains-deleted_paths, diff_copy_changes-due}
use thrive.Runtime.Diff.Due.{Due, due-Due}

keys-sort_change :
    (at : Text) (kind : Kind) (m : Changes) → keys (sort_change at kind m) ≡ sort_insert at (keys m)
unfolding sort_change keys sort_insert
keys-sort_change at kind [] = refl
keys-sort_change at kind ((j, v) ∷ m) = ground (arith, keys-sort_change at kind m)

keys-sort_changes : (m : Changes) → keys (sort_changes m) ≡ sort (keys m)
unfolding sort_changes keys sort
keys-sort_changes [] = refl
keys-sort_changes ((at, kind) ∷ m) =
    keys-sort_change at kind (sort_changes m) ∙ ap (sort_insert at) (keys-sort_changes m)

keys-append : (m n : Changes) → keys (m ++ n) ≡ keys m ++ keys n
unfolding keys
keys-append [] n = refl
keys-append ((j, v) ∷ m) n = ap (λ l. j ∷ l) (keys-append m n)

-- The paths of names that are not repeated.
unfoldable paths : List Text → List Text
paths [] = []
paths (rel ∷ rels) = path rel ∷ paths rels

keys-as_deleted : (rels : List Text) → keys (as_deleted rels) ≡ paths rels
unfolding keys as_deleted paths
keys-as_deleted [] = refl
keys-as_deleted (rel ∷ rels) = ap (λ l. path rel ∷ l) (keys-as_deleted rels)

-- The names that the walk over the merged tree reports.
unfoldable reported_in : List Layer → Tree → List Text
reported_in layers [] = []
reported_in layers ((rel, entry) ∷ merged) = elim (entry_change entry (lower_file layers rel)) [
  | none ↦ reported_in layers merged
  | some kind ↦ rel ∷ reported_in layers merged
]

keys-merged_changes :
    (layers : List Layer) (merged : Tree)
    → keys (merged_changes layers merged) ≡ paths (reported_in layers merged)
unfolding keys merged_changes paths reported_in report
keys-merged_changes layers [] = refl
keys-merged_changes layers ((rel, entry) ∷ merged) =
    elim (Option-cases (entry_change entry (lower_file layers rel))) [
      | inl e ↦ rw (e, reported_in, report) (keys-merged_changes layers merged)
      | inr (kind, e) ↦
          rw (e, reported_in, report) (ap (λ l. path rel ∷ l) (keys-merged_changes layers merged))
    ]

contains-reported_in :
    (layers : List Layer) (merged : Tree) (rel : Text)
    → contains (reported_in layers merged) rel ≡ true
    → contains (keys merged) rel ≡ true
unfolding contains keys reported_in
contains-reported_in layers [] rel h = h
contains-reported_in layers ((r, entry) ∷ merged) rel h =
    elim (Option-cases (entry_change entry (lower_file layers r))) [
      | inl e ↦ ground (arith, contains-reported_in layers merged rel (rw (e, reported_in) at h))
      | inr (kind, e) ↦
          let tail = contains-reported_in layers merged rel in
          let split : contains (r ∷ reported_in layers merged) rel ≡ true =
            rw (e, reported_in) at h in
          ground (arith, split, tail)
    ]

reported_in-IsNodup :
    (layers : List Layer) (merged : Tree)
    → IsNodup (keys merged)
    → IsNodup (reported_in layers merged)
unfolding keys reported_in
reported_in-IsNodup layers [] n = tt
reported_in-IsNodup layers ((r, entry) ∷ merged) n =
    elim (Option-cases (entry_change entry (lower_file layers r))) [
      | inl e ↦ rw (e, reported_in) (reported_in-IsNodup layers merged n.1)
      | inr (kind, e) ↦
          rw (e, reported_in)
            (
              ground (arith, n.0, contains-reported_in layers merged r),
              reported_in-IsNodup layers merged n.1,
            )
    ]

deleted_in-IsNodup :
    (merged lower : Tree) (reported : List Text)
    → IsNodup reported
    → IsNodup (deleted_in merged lower reported)
unfolding deleted_in
deleted_in-IsNodup merged [] reported n = n
deleted_in-IsNodup merged ((rel, entry) ∷ lower) reported n =
    elim (Bool-cases (is_directory entry || contains (keys merged) rel || contains reported rel)) [
      | inl e ↦ rw e (deleted_in-IsNodup merged lower reported n)
      | inr e ↦ rw e (
          deleted_in-IsNodup merged lower (reported ++ rel ∷ [])
            (IsNodup-snoc reported rel (ground (arith, e)) n))
    ]

deleted_paths-IsNodup :
    (merged : Tree) (layers : List Layer) (reported : List Text)
    → IsNodup reported
    → IsNodup (deleted_paths merged layers reported)
unfolding deleted_paths
deleted_paths-IsNodup merged [] reported n = n
deleted_paths-IsNodup merged (layer ∷ layers) reported n =
    deleted_paths-IsNodup merged layers (deleted_in merged layer.walk reported)
      (deleted_in-IsNodup merged layer.walk reported n)

contains-paths :
    (rels : List Text) (rel : Text) → contains (paths rels) (path rel) ≡ contains rels rel
unfolding contains paths ◌=ᵗ◌
contains-paths [] rel = refl
contains-paths (r ∷ rels) rel = ground (arith, contains-paths rels rel)

paths-IsNodup : (rels : List Text) → IsNodup rels → IsNodup (paths rels)
unfolding paths
paths-IsNodup [] n = tt
paths-IsNodup (rel ∷ rels) n = (contains-paths rels rel ∙ n.0, paths-IsNodup rels n.1)

paths-append : (xs ys : List Text) → paths (xs ++ ys) ≡ paths xs ++ paths ys
unfolding paths
paths-append [] ys = refl
paths-append (x ∷ xs) ys = ap (λ l. path x ∷ l) (paths-append xs ys)

paths-rooted :
    (rels : List Text) (k : Text) → contains (paths rels) k ≡ true → (rel : Text) × (k ≡ path rel)
unfolding contains paths
paths-rooted [] k h = absurd (ground (arith, h))
paths-rooted (rel ∷ rels) k h = elim (Bool-cases (path rel =ᵗ k)) [
  | inl e ↦ (rel, sym ((eq_iff (path rel) k).0 e))
  | inr e ↦ paths-rooted rels k (ground (arith, e, h))
]

-- All names that are reported, before they are sorted.
abbrev names : Tree → List Layer → List Text
names merged layers = reported_in layers merged ++ deleted_paths merged layers []

keys-diff_copy_changes :
    (merged : Tree) (layers : List Layer)
    → keys (diff_copy_changes merged layers) ≡ sort (paths (names merged layers))
unfolding diff_copy_changes
keys-diff_copy_changes merged layers =
    let walked = merged_changes layers merged in
    let gone = as_deleted (deleted_paths merged layers []) in
    keys-sort_changes (walked ++ gone)
    ∙ ap sort (
        keys-append walked gone
        ∙ rw (keys-merged_changes layers merged, keys-as_deleted (deleted_paths merged layers []))
            (sym (paths-append (reported_in layers merged) (deleted_paths merged layers []))))

names-IsNodup :
    (merged : Tree) (layers : List Layer)
    → IsNodup (keys merged)
    → All (λ (layer : Layer). IsNodup (keys layer.walk)) layers
    → IsNodup (names merged layers)
unfolding contains
names-IsNodup merged layers once each =
    IsNodup-append (reported_in layers merged) (deleted_paths merged layers [])
      (reported_in-IsNodup layers merged once) (deleted_paths-IsNodup merged layers [] tt)
      (λ a h. ground (
        arith,
        h,
        contains-deleted_paths merged layers [] a each,
        contains-reported_in layers merged a,
      ))

-- What the comparison of a merged tree with the layers is to report.
pub record IsDiff (merged : Tree) (layers : List Layer) (changes : Changes) : Type 0 where
  pub sorted : IsSorted (keys changes)
  pub once : IsNodup (keys changes)
  pub rooted : (k : Text) → contains (keys changes) k ≡ true → (rel : Text) × (k ≡ path rel)
  pub due : (rel : Text) → Due merged layers rel (lookup (path rel) changes)

-- Where no walk finds a path twice, the changes of a copied root are listed in ascending order of their paths,
-- each path once and with a slash before it. A path of the merged tree is added if `Lstat` finds it in no layer,
-- changed if it is no directory and is not the same as what the first such layer has there, and not reported
-- otherwise; a path that is not in the merged tree is deleted if the walk over some layer finds it as something else
-- than a directory, and not reported otherwise.
pub diff_copy_changes-IsDiff :
    (merged : Tree) (layers : List Layer)
    → IsNodup (keys merged)
    → All (λ (layer : Layer). IsNodup (keys layer.walk)) layers
    → IsDiff merged layers (diff_copy_changes merged layers)
diff_copy_changes-IsDiff merged layers once each =
    let listed = keys-diff_copy_changes merged layers in
    let all = paths (names merged layers) in
    record {
      sorted = subst IsSorted (sym listed) (IsSorted-sort all);
      once = subst IsNodup (sym listed) (
          IsNodup-sort all
            (paths-IsNodup (names merged layers) (names-IsNodup merged layers once each)));
      rooted = λ k h.
          paths-rooted (names merged layers) k
            (sym (contains-sort all k) ∙ ap (λ l. contains l k) (sym listed) ∙ h);
      due = λ rel.
          subst (Due merged layers rel) (sym (diff_copy_changes-due merged layers rel once each))
            (due-Due merged layers rel);
    }
