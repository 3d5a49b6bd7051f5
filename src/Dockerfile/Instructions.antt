-- ===== src/Dockerfile/Instructions.antt =====
-- One instruction of dockerfile.go: which names are known, and what the others come to.
use thrive.Prelude.{
  ◌≡◌, refl, true, Option, List, [], ◌∷◌, Text, text, ◌=ᵗ◌, eq_iff, Dict, contains, Bool, arith,
  if◌then◌else◌, List-cases, inl, inr, false, ◌||◌,
}
use thrive.Dockerfile.Scan.{fields}
use thrive.Dockerfile.Parse.{
  State, Result, ok, err, accepted_names, unknown_instruction, from_requires_image, before_from,
  requires_source_and_destination, copy_line, entry_line, exec_instruction,
}

-- The instructions that the parser is to know: those that it carries out, and those that change nothing
-- of a build.
abbrev pub instructions : List Text
instructions =
    text "FROM"
    ∷ text "RUN"
    ∷ text "COPY"
    ∷ text "ADD"
    ∷ text "WORKDIR"
    ∷ text "ENV"
    ∷ text "ARG"
    ∷ text "CMD"
    ∷ text "ENTRYPOINT"
    ∷ text "EXPOSE"
    ∷ text "LABEL"
    ∷ text "VOLUME"
    ∷ text "USER"
    ∷ text "HEALTHCHECK"
    ∷ text "STOPSIGNAL"
    ∷ text "SHELL"
    ∷ text "ONBUILD"
    ∷ text "MAINTAINER"
    ∷ []

not_first :
    (x : Text) (xs : List Text) (a : Text)
    → contains (x ∷ xs) a ≡ false
    → ((a =ᵗ x) ≡ false) × (contains xs a ≡ false)
unfolding contains
not_first x xs a h = (ground (arith, eq_iff x a, eq_iff a x), ground arith)

not_cons :
    (x : Text) (xs : List Text) (a : Text)
    → (a =ᵗ x) ≡ false
    → contains xs a ≡ false
    → contains (x ∷ xs) a ≡ false
unfolding contains
not_cons x xs a h k = ground (arith, h, k, eq_iff a x, eq_iff x a)

or_first : (a b : Bool) → (a || b) ≡ false → a ≡ false
or_first a b h = ground (arith, h)

or_second : (a b : Bool) → (a || b) ≡ false → b ≡ false
or_second a b h = ground (arith, h)

-- A name that fails every test of the parser is none of the instructions.
not_in :
    (a : Text)
    → (a =ᵗ text "FROM") ≡ false
    → (a =ᵗ text "ARG") ≡ false
    → (a =ᵗ text "RUN") ≡ false
    → ((a =ᵗ text "COPY") || (a =ᵗ text "ADD")) ≡ false
    → (a =ᵗ text "ENV") ≡ false
    → (a =ᵗ text "WORKDIR") ≡ false
    → ((a =ᵗ text "CMD") || (a =ᵗ text "ENTRYPOINT")) ≡ false
    → contains accepted_names a ≡ false
    → contains instructions a ≡ false
not_in a from arg run copy env workdir entry rejected = not_cons _ _ a from (
    not_cons _ _ a run (
      not_cons _ _ a (or_first _ _ copy) (
        not_cons _ _ a (or_second _ _ copy) (
          not_cons _ _ a workdir (
            not_cons _ _ a env (
              not_cons _ _ a arg (
                not_cons _ _ a (or_first _ _ entry)
                  (not_cons _ _ a (or_second _ _ entry) rejected))))))))

module _ (unmarshal : Text → Option (List Text)) (join : Text → Text → Text)
    (order : Dict Text → Dict Text) where
  pub unknown :
      (upper rest : Text) (s : State)
      → contains instructions upper ≡ false
      → exec_instruction unmarshal join order upper rest s ≡ err (unknown_instruction upper)
  unfolding exec_instruction
  unknown upper rest s h0 =
      let (from, h1) = not_first _ _ upper h0 in
      let (run, h2) = not_first _ _ upper h1 in
      let (copy, h3) = not_first _ _ upper h2 in
      let (add, h4) = not_first _ _ upper h3 in
      let (workdir, h5) = not_first _ _ upper h4 in
      let (env, h6) = not_first _ _ upper h5 in
      let (arg, h7) = not_first _ _ upper h6 in
      let (cmd, h8) = not_first _ _ upper h7 in
      let (entrypoint, h9) = not_first _ _ upper h8 in
      rw (from, arg, run, copy, add, env, workdir, cmd, entrypoint, h9)
        (λ i. err (unknown_instruction upper))

  -- The error of an unknown instruction, which no other instruction gives.
  unfoldable IsUnknown : Result State → Type 0
  IsUnknown r = (upper : Text) → r ≡ err (unknown_instruction upper) → ⊥

  if-known :
      (b : Bool) (x y : Result State) → IsUnknown x → IsUnknown y → IsUnknown (if b then x else y)
  if-known true x y h k = h
  if-known false x y h k = k

  ok-known : (s : State) → IsUnknown (ok s)
  unfolding IsUnknown
  ok-known s upper h = ground (arith, h)

  from-known : IsUnknown (err from_requires_image)
  unfolding IsUnknown
  from-known upper h = ground (arith, h)

  before-known : (t : Text) → IsUnknown (err (before_from t))
  unfolding IsUnknown
  before-known t upper h = ground (arith, h)

  source-known : (t : Text) → IsUnknown (err (requires_source_and_destination t))
  unfolding IsUnknown
  source-known t upper h = ground (arith, h)

  copy_line-known :
      (upper rest : Text) (s : State) → IsUnknown (copy_line unmarshal join order upper rest s)
  unfolding copy_line
  copy_line-known upper rest s = search (if-known, ok-known, before-known, source-known)

  entry_line-known :
      (upper rest : Text) (s : State) → IsUnknown (entry_line unmarshal join order upper rest s)
  unfolding entry_line
  entry_line-known upper rest s = search (if-known, ok-known, before-known)

  if-either :
      (b : Bool) (x y : Result State)
      → (b ≡ true → IsUnknown x)
      → (b ≡ false → IsUnknown y)
      → IsUnknown (if b then x else y)
  if-either true x y h k = h refl
  if-either false x y h k = k refl

  exec_instruction-known :
      (upper rest : Text) (s : State)
      → contains instructions upper ≡ true
      → IsUnknown (exec_instruction unmarshal join order upper rest s)
  unfolding exec_instruction
  exec_instruction-known upper rest s known =
      if-either (upper =ᵗ text "FROM") _ _
        (λ _. elim (List-cases (fields rest)) [
          | inl e ↦ rw e from-known
          | inr (image, more, e) ↦ rw e (ok-known _)
        ])
        (λ from.
          if-either (upper =ᵗ text "ARG") _ _ (λ _. ok-known _)
            (λ arg.
              if-either (upper =ᵗ text "RUN") _ _ (λ _. search (if-known, ok-known, before-known))
                (λ run.
                  if-either ((upper =ᵗ text "COPY") || (upper =ᵗ text "ADD")) _ _
                    (λ _. copy_line-known upper rest s)
                    (λ copy.
                      if-either (upper =ᵗ text "ENV") _ _ (λ _. ok-known _)
                        (λ env.
                          if-either (upper =ᵗ text "WORKDIR") _ _ (λ _. ok-known _)
                            (λ workdir.
                              if-either ((upper =ᵗ text "CMD") || (upper =ᵗ text "ENTRYPOINT")) _ _
                                (λ _. entry_line-known upper rest s)
                                (λ entry.
                                  if-either (contains accepted_names upper) _ _ (λ _. ok-known _)
                                    (λ rejected. absurd (
                                      ground (
                                        arith,
                                        known,
                                        not_in upper from arg run copy env workdir entry rejected,
                                      ))))))))))

  pub exec_instruction_never :
      (upper rest : Text) (s : State) (name : Text)
      → contains instructions upper ≡ true
      → exec_instruction unmarshal join order upper rest s ≡ err (unknown_instruction name)
      → ⊥
  exec_instruction_never upper rest s name known =
      let never : (n : Text)
          → exec_instruction unmarshal join order upper rest s ≡ err (unknown_instruction n)
          → ⊥ =
        unfold IsUnknown in exec_instruction-known upper rest s known in
      never name
