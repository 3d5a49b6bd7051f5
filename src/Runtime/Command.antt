-- ===== src/Runtime/Command.antt =====
-- The command line and the environment of a container: a part of `Start` of runtime.go, and
-- envContains.
use thrive.Prelude.{
  ◌≡◌, refl, ap, inl, inr, Bool, true, false, not, ◌&&◌, Option, none, some, List, [], ◌∷◌, ◌++◌,
  arith, Text, text, ◌=ᵗ◌, is_empty, All, cut_prefix, ◌==◌, Bool-cases, Option-cases, if◌then◌else◌,
}
use thrive.Dockerfile.Scan.{join_words}
use thrive.Runtime.{Host}

-- The beginning of a text that ends in the suffix.
unfoldable pub trim_suffix : Text → Text → Option Text
trim_suffix suffix [] = if is_empty suffix then some [] else none
trim_suffix suffix (c ∷ s) =
    if suffix =ᵗ (c ∷ s)
    then some []
    else elim (trim_suffix suffix s) [ none ↦ none | some front ↦ some (c ∷ front) ]

abbrev pub search_path : List Text
search_path =
    text "/usr/local/go/bin"
    ∷ text "/usr/local/sbin"
    ∷ text "/usr/local/bin"
    ∷ text "/usr/sbin"
    ∷ text "/usr/bin"
    ∷ text "/sbin"
    ∷ text "/bin"
    ∷ []

-- len(binary) > 0 && binary[0] != '/'
unfoldable pub is_relative : Text → Bool
is_relative [] = false
is_relative (c ∷ s) = not (c == b'/')

unfoldable pub env_contains : List Text → Text → Bool
env_contains [] prefix = false
env_contains (entry ∷ env) prefix = elim (cut_prefix prefix entry) [
  | some rest ↦ true
  | none ↦ env_contains env prefix
]

-- `binary`, and `cmd` after its resolution.
pub record Argv : Type 0 where
  pub binary : Text
  pub args : List Text

-- The variable that tells the go command where it is installed.
unfoldable pub with_goroot : Text → List Text → List Text
with_goroot binary env = elim (trim_suffix (text "/bin/go") binary) [
  | none ↦ env
  | some root ↦
      if env_contains env (text "GOROOT=") then env else env ++ (text "GOROOT=" ++ root) ∷ []
]

abbrev pub default_command : List Text → List Text
default_command [] = text "/bin/sh" ∷ []
default_command (word ∷ words) = word ∷ words

module _ {H : Type 0} (host : Host H) where
  -- The loop over the directories of the path.
  unfoldable pub find_binary : Text → Text → List Text → H → Option Text
  find_binary rootfs binary [] h = none
  find_binary rootfs binary (dir ∷ dirs) h =
      let rest = find_binary rootfs binary dirs h in
      if host.exists (host.join (rootfs ∷ dir ∷ binary ∷ [])) h
      then some (host.join (dir ∷ binary ∷ []))
      else rest

  -- A binary that is not found is left to a shell.
  unfoldable pub resolve : Text → Text → List Text → H → Argv
  resolve rootfs binary words h =
      if not (is_empty rootfs) && is_relative binary
      then elim (find_binary rootfs binary search_path h) [
        | some path ↦ record { binary = path; args = path ∷ words }
        | none ↦ record {
          binary = text "/bin/sh";
          args = text "/bin/sh" ∷ text "-c" ∷ join_words (binary ∷ words) ∷ [];
        }
      ]
      else record { binary = binary; args = binary ∷ words }

  unfoldable pub resolve_command : Text → List Text → H → Argv
  resolve_command rootfs [] h = resolve rootfs (text "/bin/sh") [] h
  resolve_command rootfs (binary ∷ words) h = resolve rootfs binary words h

  -- No directory of the list has the binary.
  unfoldable pub Lacks : Text → Text → List Text → H → Type 0
  Lacks rootfs binary dirs h =
      All (λ dir. host.exists (host.join (rootfs ∷ dir ∷ binary ∷ [])) h ≡ false) dirs

  -- The path comes from the first directory of the list that has the binary under the root.
  pub record IsFirst (rootfs binary : Text) (dirs : List Text) (h : H) (path : Text) : Type 0 where
    pub before : List Text
    pub dir : Text
    pub after : List Text
    pub split : dirs ≡ before ++ dir ∷ after
    pub lacking : Lacks rootfs binary before h
    pub there : host.exists (host.join (rootfs ∷ dir ∷ binary ∷ [])) h ≡ true
    pub path_lem : path ≡ host.join (dir ∷ binary ∷ [])

  find_binary-IsFirst :
      (rootfs binary : Text) (dirs : List Text) (h : H) (path : Text)
      → find_binary rootfs binary dirs h ≡ some path
      → IsFirst rootfs binary dirs h path
  unfolding find_binary Lacks
  find_binary-IsFirst rootfs binary [] h path e = absurd (ground (arith, e))
  find_binary-IsFirst rootfs binary (dir ∷ dirs) h path e =
      elim (Bool-cases (host.exists (host.join (rootfs ∷ dir ∷ binary ∷ [])) h)) [
        | inl there ↦ record {
          before = [];
          dir = dir;
          after = dirs;
          split = refl;
          lacking = tt;
          there = there;
          path_lem = ground (arith, rw (there, find_binary) at e);
        }
        | inr out ↦
            let rest = find_binary-IsFirst rootfs binary dirs h path (rw (out, find_binary) at e) in
            record {
              before = dir ∷ rest.before;
              dir = rest.dir;
              after = rest.after;
              split = ap (λ l. dir ∷ l) rest.split;
              lacking = (out, rest.lacking);
              there = rest.there;
              path_lem = rest.path_lem;
            }
      ]

  find_binary_complete :
      (rootfs binary : Text) (dirs : List Text) (h : H)
      → find_binary rootfs binary dirs h ≡ none
      → Lacks rootfs binary dirs h
  unfolding find_binary Lacks
  find_binary_complete rootfs binary [] h e = tt
  find_binary_complete rootfs binary (dir ∷ dirs) h e =
      (ground arith, find_binary_complete rootfs binary dirs h (ground arith))

  -- A command as it is run: as it was given, as the first binary that is there, or by the shell.
  pub data IsResolved (rootfs binary : Text) (words : List Text) (h : H) : Argv → Type 0 where
    as_given :
        is_relative binary ≡ false
        → IsResolved rootfs binary words h (record { binary = binary; args = binary ∷ words })
    at_path :
        (path : Text)
        → is_relative binary ≡ true
        → IsFirst rootfs binary search_path h path
        → IsResolved rootfs binary words h (record { binary = path; args = path ∷ words })
    by_shell :
        is_relative binary ≡ true
        → Lacks rootfs binary search_path h
        → IsResolved rootfs binary words h (record {
          binary = text "/bin/sh";
          args = text "/bin/sh" ∷ text "-c" ∷ join_words (binary ∷ words) ∷ [];
        })

  -- In a mounted file system a command is run as it was given, where it is absolute or empty; or as the
  -- binary joined to the first directory of the search path for which the join of the root, the directory
  -- and the binary exists, with the arguments it was given; or, where it exists for no directory of the
  -- search path, by the shell, which is given its words joined by spaces.
  pub resolve_command-IsResolved :
      (rootfs binary : Text) (words : List Text) (h : H)
      → is_empty rootfs ≡ false
      → IsResolved rootfs binary words h (resolve_command rootfs (binary ∷ words) h)
  unfolding resolve_command resolve
  resolve_command-IsResolved rootfs binary words h mounted =
      elim (Bool-cases (is_relative binary)) [
        | inr absolute ↦ rw (mounted, absolute) (as_given absolute)
        | inl relative ↦ elim (Option-cases (find_binary rootfs binary search_path h)) [
          | inl missing ↦
              rw (mounted, relative, missing)
                (by_shell relative (find_binary_complete rootfs binary search_path h missing))
          | inr (path, found) ↦
              rw (mounted, relative, found)
                (at_path path relative (find_binary-IsFirst rootfs binary search_path h path found))
        ]
      ]
