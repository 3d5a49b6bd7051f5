-- ===== src/Runtime/Diff/Due.antt =====
-- The change of a path that diffCopyChanges is to report, in terms of what the trees hold.
use thrive.Prelude.{
  ◌≡◌, refl, ◌⊎◌, inl, inr, Bool, true, false, not, Option, none, some, List, [], ◌∷◌, arith, Text,
  eq_iff, eq_refl, lookup, All, Bool-cases, Option-cases,
}
use thrive.Runtime.Diff.{
  Entry, directory, link, file, Tree, Layer, Kind, added, changed, deleted, is_directory,
  hash_differs, content_differs, lower_file,
}
use thrive.Runtime.Diff.Exact.{has_file, due}

-- Anything but a directory.
unfoldable pub is_file : Entry → Bool
is_file (directory opaque) = false
is_file (link target) = true
is_file (file null hash) = true

-- The same type and, of links, the target; of files, the content, which could be read in both.
pub data Same : Entry → Entry → Type 0 where
  same_directories : (a b : Bool) → Same (directory a) (directory b)
  same_links : (target : Text) → Same (link target) (link target)
  same_files : (a b : Bool) (hash : Text) → Same (file a (some hash)) (file b (some hash))

-- The entry is that of the first layer in which `Lstat` finds the path.
pub data IsFirst (rel : Text) : List Layer → Entry → Type 0 where
  here :
      (layer : Layer) (layers : List Layer) (entry : Entry)
      → layer.lstat rel ≡ some entry
      → IsFirst rel (layer ∷ layers) entry
  later :
      (layer : Layer) (layers : List Layer) (entry : Entry)
      → layer.lstat rel ≡ none
      → IsFirst rel layers entry
      → IsFirst rel (layer ∷ layers) entry

abbrev pub IsNowhere : Text → List Layer → Type 0
IsNowhere rel layers = All (λ (layer : Layer). layer.lstat rel ≡ none) layers

-- The change that is due for a path.
pub data Due (merged : Tree) (layers : List Layer) (rel : Text) : Option Kind → Type 0 where
  is_added :
      (entry : Entry)
      → lookup rel merged ≡ some entry
      → IsNowhere rel layers
      → Due merged layers rel (some added)
  is_changed :
      (entry lower : Entry)
      → lookup rel merged ≡ some entry
      → is_file entry ≡ true
      → IsFirst rel layers lower
      → ¬ Same entry lower
      → Due merged layers rel (some changed)
  is_structure :
      (entry lower : Entry)
      → lookup rel merged ≡ some entry
      → is_file entry ≡ false
      → IsFirst rel layers lower
      → Due merged layers rel none
  is_same :
      (entry lower : Entry)
      → lookup rel merged ≡ some entry
      → IsFirst rel layers lower
      → Same entry lower
      → Due merged layers rel none
  is_deleted :
      lookup rel merged ≡ none → has_file layers rel ≡ true → Due merged layers rel (some deleted)
  is_absent : lookup rel merged ≡ none → has_file layers rel ≡ false → Due merged layers rel none

lower_file-cases :
    (layers : List Layer) (rel : Text)
    → ((lower_file layers rel ≡ none) × IsNowhere rel layers)
      ⊎ ((lower : Entry) × (lower_file layers rel ≡ some lower) × IsFirst rel layers lower)
unfolding lower_file
lower_file-cases [] rel = inl (refl, tt)
lower_file-cases (layer ∷ layers) rel = elim (Option-cases (layer.lstat rel)) [
  | inr (entry, e) ↦ inr (entry, rw (e, lower_file) refl, here layer layers entry e)
  | inl e ↦ elim (lower_file-cases layers rel) [
    | inl (f, nowhere) ↦ inl (rw (e, lower_file) f, (e, nowhere))
    | inr (lower, f, first) ↦ inr (lower, rw (e, lower_file) f, later layer layers lower e first)
  ]
]

is_directory-is_file : (entry : Entry) → is_directory entry ≡ not (is_file entry)
unfolding is_directory is_file
is_directory-is_file (directory opaque) = refl
is_directory-is_file (link target) = refl
is_directory-is_file (file null hash) = refl

Same-content_differs : (a b : Entry) → Same a b → content_differs a b ≡ false
unfolding content_differs hash_differs
Same-content_differs _ _ (same_directories a b) = refl
Same-content_differs _ _ (same_links target) = rw (eq_refl target) refl
Same-content_differs _ _ (same_files a b hash) = rw (eq_refl hash) refl

content_differs-Same : (a b : Entry) → content_differs a b ≡ false → Same a b
unfolding content_differs hash_differs
content_differs-Same (directory a) (directory b) h = same_directories a b
content_differs-Same (directory a) (link t) h = absurd (ground (arith, h))
content_differs-Same (directory a) (file n x) h = absurd (ground (arith, h))
content_differs-Same (link t) (directory b) h = absurd (ground (arith, h))
content_differs-Same (link t) (file n x) h = absurd (ground (arith, h))
content_differs-Same (link t) (link u) h =
    let same : t ≡ u = ground (arith, h, eq_iff t u) in rw same (same_links u)
content_differs-Same (file m x) (directory b) h = absurd (ground (arith, h))
content_differs-Same (file m x) (link t) h = absurd (ground (arith, h))
content_differs-Same (file m none) (file n y) h = absurd (ground (arith, h))
content_differs-Same (file m (some x)) (file n none) h = absurd (ground (arith, h))
content_differs-Same (file m (some x)) (file n (some y)) h =
    let same : x ≡ y = ground (arith, h, eq_iff x y) in rw same (same_files m n y)

-- What the functions compute is due.
pub due-Due :
    (merged : Tree) (layers : List Layer) (rel : Text)
    → Due merged layers rel (due (lookup rel merged) (lower_file layers rel) (has_file layers rel))
unfolding due
due-Due merged layers rel = elim (Option-cases (lookup rel merged)) [
  | inl e ↦
      rw (e, due)
        (elim (Bool-cases (has_file layers rel)) [
          | inl f ↦ rw f (is_deleted e f)
          | inr f ↦ rw f (is_absent e f)
        ])
  | inr (entry, e) ↦ elim (lower_file-cases layers rel) [
    | inl (f, nowhere) ↦ rw (e, f, due) (is_added entry e nowhere)
    | inr (lower, f, first) ↦
        rw (e, f, due)
          (elim (Bool-cases (is_file entry)) [
            | inr d ↦ rw (is_directory-is_file entry, d) (is_structure entry lower e d first)
            | inl d ↦
                rw (is_directory-is_file entry, d)
                  (elim (Bool-cases (content_differs entry lower)) [
                    | inl g ↦ rw g (
                        is_changed entry lower e d first
                          (λ s. ground (arith, g, Same-content_differs entry lower s)))
                    | inr g ↦
                        rw g (is_same entry lower e first (content_differs-Same entry lower g))
                  ])
          ])
  ]
]
