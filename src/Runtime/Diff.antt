-- ===== src/Runtime/Diff.antt =====
-- lifecycle.go: `Diff`, the changes of a container's files. A tree is what `Walk` finds in a directory: an
-- association list from the paths below it to the entries, in the order of the walk. The hash of a file is
-- none where it cannot be read, and the hashes of two files are the same if their contents are.
pub mod Exact
pub mod Due
pub mod Listed
pub mod Tests
use thrive.Prelude.{
  Bool, true, false, not, ◌&&◌, ◌||◌, Option, none, some, List, [], ◌∷◌, ◌++◌, Text, text, ◌=ᵗ◌,
  less, cut_last, cut_prefix, Dict, lookup, keys, contains, is_empty, if◌then◌else◌,
}

-- `opaque` is the attribute of OverlayFS, and `null` tells whether the entry is a character device 0/0.
pub data Entry : Type 0 where
  directory : (opaque : Bool) → Entry
  link : (target : Text) → Entry
  file : (null : Bool) (hash : Option Text) → Entry

abbrev pub Tree : Type 0
Tree = Dict Entry

pub data Kind : Type 0 where
  added : Kind
  changed : Kind
  deleted : Kind

-- A layer: what `Walk` finds below its directory, and what `Lstat` answers for a path below it. They may
-- differ: `Lstat` follows the links among the directories that lead to the path, `Walk` follows none.
pub record Layer : Type 0 where
  pub walk : Tree
  pub lstat : Text → Option Entry

-- The changes by their paths.
abbrev pub Changes : Type 0
Changes = Dict Kind

abbrev pub path : Text → Text
path rel = b'/' ∷ rel

unfoldable pub is_directory : Entry → Bool
is_directory (directory opaque) = true
is_directory (link target) = false
is_directory (file null hash) = false

-- A file that cannot be read differs.
unfoldable pub hash_differs : Option Text → Option Text → Bool
hash_differs none b = true
hash_differs (some a) none = true
hash_differs (some a) (some b) = not (a =ᵗ b)

-- fileContentDiffers; `Readlink` fails on what is no link.
unfoldable pub content_differs : Entry → Entry → Bool
content_differs (link a) (link b) = not (a =ᵗ b)
content_differs (link a) (directory opaque) = true
content_differs (link a) (file null hash) = true
content_differs (directory opaque) (link b) = true
content_differs (directory opaque) (directory opaque') = false
content_differs (directory opaque) (file null hash) = true
content_differs (file null hash) (link b) = true
content_differs (file null hash) (directory opaque) = true
content_differs (file null a) (file null' b) = hash_differs a b

-- The entry of the first layer that has the path.
unfoldable pub lower_file : List Layer → Text → Option Entry
lower_file [] rel = none
lower_file (lower ∷ lowers) rel = elim (lower.lstat rel) [
  | some entry ↦ some entry
  | none ↦ lower_file lowers rel
]

-- What the walk over the merged tree reports of an entry, from that of the layers.
unfoldable pub entry_change : Entry → Option Entry → Option Kind
entry_change entry none = some added
entry_change entry (some lower) =
    if is_directory entry then none else if content_differs entry lower then some changed else none

unfoldable pub report : Text → Option Kind → Changes → Changes
report rel none changes = changes
report rel (some kind) changes = (path rel, kind) ∷ changes

unfoldable pub merged_changes : List Layer → Tree → Changes
merged_changes lowers [] = []
merged_changes lowers ((rel, entry) ∷ merged) =
    report rel (entry_change entry (lower_file lowers rel)) (merged_changes lowers merged)

-- The walk over one layer, with the paths that are reported so far.
unfoldable pub deleted_in : Tree → Tree → List Text → List Text
deleted_in merged [] reported = reported
deleted_in merged ((rel, entry) ∷ lower) reported =
    let kept = deleted_in merged lower reported in
    let more = deleted_in merged lower (reported ++ rel ∷ []) in
    if is_directory entry || contains (keys merged) rel || contains reported rel then kept else more

unfoldable pub deleted_paths : Tree → List Layer → List Text → List Text
deleted_paths merged [] reported = reported
deleted_paths merged (lower ∷ lowers) reported =
    deleted_paths merged lowers (deleted_in merged lower.walk reported)

unfoldable pub as_deleted : List Text → Changes
as_deleted [] = []
as_deleted (rel ∷ rels) = (path rel, deleted) ∷ as_deleted rels

-- sort.Slice by the paths.
unfoldable pub sort_change : Text → Kind → Changes → Changes
sort_change at kind [] = (at, kind) ∷ []
sort_change at kind ((first, other) ∷ changes) =
    let rest = sort_change at kind changes in
    if less first at then (first, other) ∷ rest else (at, kind) ∷ (first, other) ∷ changes

unfoldable pub sort_changes : Changes → Changes
sort_changes [] = []
sort_changes ((at, kind) ∷ changes) = sort_change at kind (sort_changes changes)

unfoldable pub diff_copy_changes : Tree → List Layer → Changes
diff_copy_changes merged lowers =
    sort_changes (merged_changes lowers merged ++ as_deleted (deleted_paths merged lowers []))

-- filepath.Dir and filepath.Base of a path below the tree; the one of a single name is empty here.
abbrev pub split_path : Text → Text × Text
split_path rel = elim (cut_last b'/' rel) [ none ↦ ([], rel) | some (dir, base) ↦ (dir, base) ]

-- "/" + filepath.Join(dir, base), for a name that is not "." or "..".
abbrev pub join_path : Text → Text → Text
join_path dir base =
    if is_empty dir
    then b'/' ∷ base
    else if is_empty base
    then b'/' ∷ dir
    else b'/' ∷ (dir ++ b'/' ∷ base)

abbrev pub is_opaque : Entry → Bool
is_opaque (directory opaque) = opaque
is_opaque (link target) = false
is_opaque (file null hash) = false

abbrev pub is_null : Entry → Bool
is_null (file null hash) = null
is_null (directory opaque) = false
is_null (link target) = false

abbrev pub is_lower : List Layer → Text → Bool
is_lower lowers rel = elim (lower_file lowers rel) [ none ↦ false | some entry ↦ true ]

-- One entry of the upper directory of OverlayFS: a marker of a deletion, or an entry that is new or changed.
unfoldable pub overlay_change : List Layer → Text → Entry → Text × Kind
overlay_change lowers rel entry =
    let (dir, base) = split_path rel in
    elim (cut_prefix (text ".wh.") base) [
      | some name ↦ (join_path dir name, deleted)
      | none ↦
          if is_null entry
          then (path rel, deleted)
          else if is_opaque entry || is_lower lowers rel
          then (path rel, changed)
          else (path rel, added)
    ]

unfoldable pub overlay_changes : List Layer → Tree → Changes
overlay_changes lowers [] = []
overlay_changes lowers ((rel, entry) ∷ upper) =
    overlay_change lowers rel entry ∷ overlay_changes lowers upper

-- The container's tree is missing if nothing has been mounted; `copied` is the mode that mountMode finds.
unfoldable pub diff : Bool → Option Tree → List Layer → Changes
diff copied none lowers = []
diff copied (some tree) lowers =
    if copied then diff_copy_changes tree lowers else overlay_changes lowers tree
