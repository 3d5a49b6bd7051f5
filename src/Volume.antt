-- ===== src/Volume.antt =====
-- internal/volume/volume.go: named volumes. The store is an association list from the directories that
-- hold a file volume.json to its contents; the files can be read and written, and directories be
-- removed. `ReadDir` gives the directories in the order of the list.
pub mod Keeps
pub mod Prune
pub mod Tests
use thrive.Prelude.{
  ℕ, Bool, true, false, not, ◌&&◌, ◌||◌, Option, none, some, List, [], ◌∷◌, ◌++◌, Text, text, ◌=ᵗ◌,
  Dict, lookup, insert, remove, every, is_empty, length, ltb, leb, ◌==◌, has, if◌then◌else◌,
}

pub record Volume : Type 0 where
  pub name : Text
  pub path : Text
  pub created : ℕ

abbrev pub Store : Type 0
Store = Dict Volume

pub data VolumeError : Type 0 where
  invalid_name : VolumeError
  already_exists : VolumeError
  not_found : VolumeError
  in_use : VolumeError

pub data Reply : Type 0 where
  done : Volume → Reply
  removed : Reply
  failed : VolumeError → Reply

unfoldable pub is_name_char : ℕ → Bool
is_name_char c =
    (leb b'a' c && leb c b'z')
    || (leb b'A' c && leb c b'Z')
    || (leb b'0' c && leb c b'9')
    || (c == b'_')
    || (c == b'.')
    || (c == b'-')

unfoldable pub valid_name : Text → Bool
unfolding is_name_char
valid_name name =
    if is_empty name || ltb 64 (length name) || (name =ᵗ text ".") || (name =ᵗ text "..")
    then false
    else every is_name_char name

-- `exists` tells whether there is a file of that name.
unfoldable pub is_named_volume : (Text → Bool) → Text → Bool
unfolding valid_name
is_named_volume exists source =
    if is_empty source || has b'/' source || (source =ᵗ text ".") || (source =ᵗ text "..")
    then false
    else if exists source
    then false
    else valid_name source

abbrev pub data_path : Text → Text
data_path name = text "/var/lib/thrive/volumes/" ++ name ++ text "/data"

abbrev pub new_volume : Text → ℕ → Volume
new_volume name now = record { name = name; path = data_path name; created = now }

-- The volume that is created at the time `now`.
unfoldable pub create : Text → ℕ → Store → Store × Reply
create name now s =
    if not (valid_name name) then (s, failed invalid_name) else elim (lookup name s) [
      | some v ↦ (s, failed already_exists)
      | none ↦ (insert name (new_volume name now) s, done (new_volume name now))
    ]

abbrev pub inspect : Text → Store → Option Volume
inspect name s = lookup name s

unfoldable pub ensure : Text → ℕ → Store → Store × Reply
ensure name now s = elim (inspect name s) [ some v ↦ (s, done v) | none ↦ create name now s ]

-- The volumes of all directories.
unfoldable pub list : Store → List Volume
list [] = []
list ((directory, v) ∷ s) = v ∷ list s

-- `used`, if it is given, tells whether a container uses the path.
abbrev pub is_used : Option (Text → Bool) → Text → Bool
is_used none path = false
is_used (some used) path = used path

unfoldable pub remove_volume : Text → Bool → Option (Text → Bool) → Store → Store × Reply
remove_volume name force used s = elim (inspect name s) [
  | none ↦ (s, failed not_found)
  | some v ↦
      if not force && is_used used v.path then (s, failed in_use) else (remove name s, removed)
]

-- The body of the loop of `Prune`, with the names that are removed so far.
unfoldable pub prune_one : Option (Text → Bool) → Volume → Store × List Text → Store × List Text
prune_one used v (s, names) =
    let (t, reply) = remove_volume v.name true none s in
    if is_used used v.path then (s, names) else (
      t,
      elim reply [
        | removed ↦ names ++ v.name ∷ []
        | done w ↦ names ++ v.name ∷ []
        | failed e ↦ names
      ],
    )

unfoldable pub prune_all :
    Option (Text → Bool) → List Volume → Store × List Text → Store × List Text
prune_all used [] p = p
prune_all used (v ∷ volumes) p = prune_all used volumes (prune_one used v p)

unfoldable pub prune : Option (Text → Bool) → Store → Store × List Text
unfolding list
prune used s = prune_all used (list s) (s, [])
