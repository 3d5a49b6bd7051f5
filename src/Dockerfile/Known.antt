-- ===== src/Dockerfile/Known.antt =====
-- The loop of `Parse` of dockerfile.go passes over no instruction that it does not know.
use thrive.Prelude.{
  ◌≡◌, sym, ap, ◌∙◌, true, Option, List, [], ◌∷◌, Text, Dict, contains, All, Bool-cases, arith,
  List-cases, inl, inr, false,
}
use thrive.Dockerfile.Scan.{split_instruction}
use thrive.Dockerfile.Lines.{logical_lines}
use thrive.Dockerfile.Parse.{
  State, Result, ok, err, Result-cases, unknown_instruction, exec_instruction, exec_lines,
}
use thrive.Dockerfile.Graph.{Parsed, finish, parse, parse-ok}
use thrive.Dockerfile.Instructions.{instructions, unknown, exec_instruction_never}

abbrev pub IsKnown : Text → Type 0
IsKnown line = contains instructions (split_instruction line).0 ≡ true

module _ (unmarshal : Text → Option (List Text)) (join : Text → Text → Text)
    (order : Dict Text → Dict Text) where
  exec_lines-IsKnown :
      (lines : List Text) (s t : State)
      → exec_lines unmarshal join order lines s ≡ ok t
      → All IsKnown lines
  unfolding exec_lines
  exec_lines-IsKnown [] s t h = tt
  exec_lines-IsKnown (line ∷ lines) s t h =
      let (upper, rest) = split_instruction line in
      elim (Bool-cases (contains instructions upper)) [
        | inl known ↦ elim (Result-cases (exec_instruction unmarshal join order upper rest s)) [
          | inl (e, r) ↦ ground (arith, r)
          | inr (s', r) ↦ (known, exec_lines-IsKnown lines s' t (ground (arith, r)))
        ]
        | inr n ↦ ground (arith, unknown unmarshal join order upper rest s n)
      ]

  exec_lines-unknown :
      (lines : List Text) (s : State) (name : Text)
      → exec_lines unmarshal join order lines s ≡ err (unknown_instruction name)
      → contains instructions name ≡ false
  unfolding exec_lines
  exec_lines-unknown [] s name h = absurd (ground (arith, h))
  exec_lines-unknown (line ∷ lines) s name h =
      let (upper, rest) = split_instruction line in
      elim (Bool-cases (contains instructions upper)) [
        | inr n ↦
            let same : upper ≡ name =
              ground (arith, h, unknown unmarshal join order upper rest s n) in
            ap (contains instructions) (sym same) ∙ n
        | inl known ↦ elim (Result-cases (exec_instruction unmarshal join order upper rest s)) [
          | inr (s', r) ↦ exec_lines-unknown lines s' name (ground (arith, r, h))
          | inl (e, r) ↦ absurd (
              exec_instruction_never unmarshal join order upper rest s name known
                (ground (arith, r, h)))
        ]
      ]

  finish_never : (t : State) (name : Text) → finish t ≡ err (unknown_instruction name) → ⊥
  unfolding finish
  finish_never t name h = elim (List-cases t.stages) [
    | inl e ↦ ground (arith, e, h)
    | inr (final, earlier, e) ↦ ground (arith, e, h)
  ]

  parse-unknown :
      (given : Text) (build_args : Dict Text) (name : Text)
      → parse unmarshal join order given build_args ≡ err (unknown_instruction name)
      → contains instructions name ≡ false
  unfolding parse
  parse-unknown given build_args name h =
      let start : State = record {
        stages = [];
        warnings = [];
        args = build_args;
        env = [];
        workdir = [];
      } in
      elim (Result-cases (exec_lines unmarshal join order (logical_lines given) start)) [
        | inl (e, r) ↦ exec_lines-unknown (logical_lines given) start name (ground (arith, r, h))
        | inr (t, r) ↦ absurd (finish_never t name (ground (arith, r, h)))
      ]

  -- What the parser makes of the instructions of a file.
  pub record IsChecked (given : Text) (result : Result Parsed) : Type 0 where
    pub accepted : (p : Parsed) → result ≡ ok p → All IsKnown (logical_lines given)
    pub refused :
        (name : Text) → result ≡ err (unknown_instruction name) → contains instructions name ≡ false

  accepted_lem :
      (given : Text) (build_args : Dict Text) (p : Parsed)
      → parse unmarshal join order given build_args ≡ ok p
      → All IsKnown (logical_lines given)
  accepted_lem given build_args p h =
      let (s, t, lines, end) = parse-ok unmarshal join order given build_args p h in
      exec_lines-IsKnown (logical_lines given) s t lines

  -- A Dockerfile that is parsed holds no instruction but FROM, RUN, COPY, ADD, WORKDIR, ENV, ARG, CMD,
  -- ENTRYPOINT, EXPOSE, LABEL, VOLUME, USER, HEALTHCHECK, STOPSIGNAL, SHELL, ONBUILD and MAINTAINER: any other
  -- one, on whichever logical line, makes the parser return an error; and where the error is that of an unknown
  -- instruction, the name that it gives is none of these.
  pub parse-IsKnown :
      (given : Text) (build_args : Dict Text)
      → IsChecked given (parse unmarshal join order given build_args)
  parse-IsKnown given build_args = record {
    accepted = accepted_lem given build_args;
    refused = parse-unknown given build_args;
  }
