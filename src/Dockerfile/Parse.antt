-- ===== src/Dockerfile/Parse.antt =====
-- `Parse` of dockerfile.go: the instructions, one by one. The JSON array of strings of the exec forms
-- is read by `unmarshal`, and paths are joined by `join` (package path/filepath); both are
-- parameters. Go iterates over the map of an ENV instruction in an order that it does not fix:
-- `order` gives the order.
use thrive.Prelude.{
  ◌≡◌, refl, ◌⊎◌, inl, inr, ◌||◌, Option, none, some, List, [], ◌∷◌, ◌++◌, Text, text, ◌=ᵗ◌, Dict,
  lookup, insert, is_empty, length, has, cut, map, contains, ltb, if◌then◌else◌,
}
use thrive.Dockerfile.Scan.{trim_space, fields, has_prefix, split_instruction, join_words}
use thrive.Dockerfile.Substitute.{substitute}
use thrive.Dockerfile.Quote.{shell_quote, shell_join}

pub record CopySpec : Type 0 where
  pub source : Text
  pub dest : Text

pub record Step : Type 0 where
  pub name : Text
  pub run : Text
  pub copy : List CopySpec
  pub depends_on : List Text
  pub cache_key : Text

pub record Stage : Type 0 where
  pub base : Text
  pub steps : List Step
  pub entry : List Text

pub data ParseError : Type 0 where
  from_requires_image : ParseError
  before_from : Text → ParseError
  requires_source_and_destination : Text → ParseError
  unknown_instruction : Text → ParseError
  no_from : ParseError

pub data Result {ℓ} (A : Type ℓ) : Type ℓ where
  ok : A → Result A
  err : ParseError → Result A

pub Result-cases {ℓ} :
    {A : Type ℓ} (r : Result A) → ((e : ParseError) × (r ≡ err e)) ⊎ ((x : A) × (r ≡ ok x))
Result-cases (ok x) = inr (x, refl)
Result-cases (err e) = inl (e, refl)

-- The variables of `Parse`. The stages stand newest first, so that `stages[current]` is the head;
-- `current < 0` is the empty list.
pub record State : Type 0 where
  pub stages : List Stage
  pub warnings : List Text
  pub args : Dict Text
  pub env : Dict Text
  pub workdir : Text

abbrev pub new_stage : Text → State → State
new_stage base s = record s {
  stages = record { base = base; steps = []; entry = [] } ∷ s.stages;
  env = [];
  workdir = [];
}

unfoldable pub flush_step : Step → State → State
flush_step step s = elim s.stages [
  | [] ↦ s
  | stage ∷ rest ↦ record s { stages = record stage { steps = stage.steps ++ step ∷ [] } ∷ rest }
]

unfoldable pub set_entry : List Text → State → State
set_entry entry s = elim s.stages [
  | [] ↦ s
  | stage ∷ rest ↦ record s { stages = record stage { entry = entry } ∷ rest }
]

abbrev pub warn : Text → State → State
warn w s = record s { warnings = s.warnings ++ w ∷ [] }

-- The flags in front of the sources are skipped.
unfoldable pub skip_flags : List Text → List Text
skip_flags [] = []
skip_flags (f ∷ fs) = let rest = skip_flags fs in if has_prefix (text "--") f then rest else f ∷ fs

-- All but the last, and the last.
unfoldable pub split_last : List Text → List Text × Text
split_last [] = ([], [])
split_last (x ∷ []) = ([], x)
split_last (x ∷ y ∷ l) = let (init, last) = split_last (y ∷ l) in (x ∷ init, last)

unfoldable pub parse_env_fields : List Text → Dict Text → Dict Text
parse_env_fields [] out = out
parse_env_fields (f ∷ fs) out =
    let pair = elim (cut b'=' f) as (λ _. Text × Text) [ none ↦ (f, []) | some (k, v) ↦ (k, v) ] in
    parse_env_fields fs (insert pair.0 pair.1 out)

unfoldable pub parse_env_rest : Text → Dict Text
unfolding parse_env_fields
parse_env_rest rest =
    if has b'=' rest then parse_env_fields (fields rest) [] else elim (fields rest) [
      | [] ↦ []
      | k ∷ vs ↦ if is_empty vs then [] else (k, join_words vs) ∷ []
    ]

abbrev pub accepted_names : List Text
accepted_names =
    text "EXPOSE"
    ∷ text "LABEL"
    ∷ text "VOLUME"
    ∷ text "USER"
    ∷ text "HEALTHCHECK"
    ∷ text "STOPSIGNAL"
    ∷ text "SHELL"
    ∷ text "ONBUILD"
    ∷ text "MAINTAINER"
    ∷ []

module _ (unmarshal : Text → Option (List Text)) (join : Text → Text → Text)
    (order : Dict Text → Dict Text) where
  unfoldable pub parse_copy_rest : Text → List Text × Text
  unfolding skip_flags split_last
  parse_copy_rest rest =
      let fs = skip_flags (fields rest) in
      if ltb (length fs) 2
      then elim (unmarshal rest) [
        | none ↦ ([], [])
        | some arr ↦ if ltb (length arr) 2 then ([], []) else split_last arr
      ]
      else split_last fs

  unfoldable pub parse_string_list : Text → Dict Text → Dict Text → List Text
  parse_string_list given args env =
      let rest = trim_space given in
      let shell = fields (substitute args env rest) in
      if has_prefix (text "[") rest
      then elim (unmarshal rest) [ none ↦ shell | some parts ↦ map (substitute args env) parts ]
      else shell

  unfoldable pub run_body : State → Text → Text
  run_body s rest =
      let body = trim_space rest in
      let joined =
        (if has_prefix (text "[") body
          then elim (unmarshal body) [ none ↦ body | some parts ↦ shell_join parts ]
          else body) in
      let final = substitute s.args s.env joined in
      if is_empty s.workdir
      then final
      else text "cd " ++ (shell_quote s.workdir ++ (text " && " ++ final))

  abbrev pub plain_step : Text → List CopySpec → Step
  plain_step run copy = record {
    name = [];
    run = run;
    copy = copy;
    depends_on = [];
    cache_key = [];
  }

  -- A relative destination is put under the working directory.
  abbrev pub resolve : Text → Text → Text
  resolve workdir dest =
      if is_empty workdir || has_prefix (text "/") dest then dest else join workdir dest

  unfoldable pub copy_specs : State → Text → List Text → List CopySpec
  copy_specs s dst [] = []
  copy_specs s dst (src ∷ srcs) =
      record {
        source = substitute s.args s.env src;
        dest = resolve s.workdir (substitute s.args s.env dst);
      }
      ∷ copy_specs s dst srcs

  unfoldable pub set_env : Dict Text → State → State
  set_env [] s = s
  set_env ((k, v) ∷ pairs) s =
      set_env pairs (record s { env = insert k (substitute s.args s.env v) s.env })

  unfoldable pub declare_arg : Text → State → State
  declare_arg rest s =
      let pair = elim (cut b'=' rest) as (λ _. Text × Text) [
        | none ↦ (rest, [])
        | some (n, d) ↦ (n, d)
      ] in
      let name = trim_space pair.0 in
      elim (lookup name s.args) [
        | some v ↦ s
        | none ↦
            if is_empty pair.1
            then s
            else record s { args = insert name (trim_space pair.1) s.args }
      ]

  -- COPY and ADD.
  unfoldable pub copy_line : Text → Text → State → Result State
  unfolding parse_copy_rest copy_specs flush_step
  copy_line upper rest s =
      let s' =
        (if upper =ᵗ text "ADD"
          then warn
              (text "ADD treated as COPY (remote URLs and tar auto-extraction are not supported)") s
          else s) in
      let (srcs, dst) = parse_copy_rest rest in
      if is_empty s.stages
      then err (before_from (text "COPY"))
      else if is_empty srcs || is_empty dst
      then err (requires_source_and_destination upper)
      else ok (flush_step (plain_step [] (copy_specs s' dst srcs)) s')

  -- CMD and ENTRYPOINT, which set the same field.
  unfoldable pub entry_line : Text → Text → State → Result State
  unfolding parse_string_list set_entry
  entry_line upper rest s =
      if is_empty s.stages
      then err (before_from upper)
      else ok (set_entry (parse_string_list rest s.args s.env) s)

  -- The body of the loop over the logical lines.
  unfoldable pub exec_instruction : Text → Text → State → Result State
  unfolding run_body copy_line entry_line set_env declare_arg flush_step parse_env_rest
  exec_instruction upper rest s =
      if upper =ᵗ text "FROM"
      then elim (fields rest) [
        | [] ↦ err from_requires_image
        | image ∷ more ↦ ok (new_stage (substitute s.args s.env image) s)
      ]
      else if upper =ᵗ text "ARG"
      then ok (declare_arg rest s)
      else if upper =ᵗ text "RUN"
      then (if is_empty s.stages
          then err (before_from (text "RUN"))
          else ok (flush_step (plain_step (run_body s rest) []) s))
      else if (upper =ᵗ text "COPY") || (upper =ᵗ text "ADD")
      then copy_line upper rest s
      else if upper =ᵗ text "ENV"
      then ok (set_env (order (parse_env_rest rest)) s)
      else if upper =ᵗ text "WORKDIR"
      then ok (record s { workdir = substitute s.args s.env (trim_space rest) })
      else if (upper =ᵗ text "CMD") || (upper =ᵗ text "ENTRYPOINT")
      then entry_line upper rest s
      else if contains accepted_names upper
      then ok (warn (upper ++ text " is accepted but has no effect on the build") s)
      else err (unknown_instruction upper)

  unfoldable pub exec_lines : List Text → State → Result State
  exec_lines [] s = ok s
  exec_lines (line ∷ lines) s =
      let (upper, rest) = split_instruction line in
      elim (exec_instruction upper rest s) [ err e ↦ err e | ok s' ↦ exec_lines lines s' ]
