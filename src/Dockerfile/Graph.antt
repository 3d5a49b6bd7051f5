-- ===== src/Dockerfile/Graph.antt =====
-- The end of `Parse`: the final stage as a `thrivefile.BuildGraph`, a chain of its steps.
use thrive.Prelude.{
  ℕ, ◌+◌, ◌≡◌, inl, inr, Option, List, [], ◌∷◌, ◌++◌, Text, text, Dict, insert, is_empty, length,
  itoa, if◌then◌else◌, arith,
}
use thrive.Dockerfile.Lines.{logical_lines}
use thrive.Dockerfile.Parse.{Step, State, Result, ok, err, Result-cases, no_from, exec_lines}

pub record BuildGraph : Type 0 where
  pub steps : Dict Step
  pub base_image : Text
  pub entry_cmd : List Text
  pub edges : Dict (List Text)

pub record Parsed : Type 0 where
  pub graph : BuildGraph
  pub warnings : List Text

unfoldable pub step_name : ℕ → Text
step_name i = text "step-" ++ itoa i

-- The last loop: each step is named by its place, and waits for the one before it.
unfoldable pub link : ℕ → List Text → List Step → BuildGraph → BuildGraph
link i prev [] g = g
link i prev (s ∷ steps) g =
    let name = step_name i in
    link (i + 1) (name ∷ []) steps (record g {
      steps = insert name (record s { name = name; depends_on = prev }) g.steps;
      edges = insert name prev g.edges;
    })

abbrev pub multi_stage_warning : Text → ℕ → Text
multi_stage_warning base skipped =
    text "multi-stage build: only the final stage (base "
    ++ (base ++ (text ") is built; " ++ (itoa skipped ++ text " earlier stage(s) skipped")))

unfoldable pub finish : State → Result Parsed
unfolding link
finish s = elim s.stages [
  | [] ↦ err no_from
  | final ∷ earlier ↦
      let graph : BuildGraph = record {
        steps = [];
        base_image = final.base;
        entry_cmd = final.entry;
        edges = [];
      } in
      ok (record {
        graph = link 0 [] final.steps graph;
        warnings =
            if is_empty earlier
            then s.warnings
            else s.warnings ++ multi_stage_warning final.base (length earlier) ∷ [];
      })
]

module _ (unmarshal : Text → Option (List Text)) (join : Text → Text → Text)
    (order : Dict Text → Dict Text) where
  unfoldable pub parse : Text → Dict Text → Result Parsed
  unfolding exec_lines finish
  parse given build_args =
      let start : State = record {
        stages = [];
        warnings = [];
        args = build_args;
        env = [];
        workdir = [];
      } in
      elim (exec_lines unmarshal join order (logical_lines given) start) [
        | err e ↦ err e
        | ok s ↦ finish s
      ]

  pub parse-ok :
      (given : Text) (build_args : Dict Text) (p : Parsed)
      → parse given build_args ≡ ok p
      → (s t : State) × (exec_lines unmarshal join order (logical_lines given) s ≡ ok t)
        × (finish t ≡ ok p)
  unfolding parse
  parse-ok given build_args p h =
      let start : State = record {
        stages = [];
        warnings = [];
        args = build_args;
        env = [];
        workdir = [];
      } in
      elim (Result-cases (exec_lines unmarshal join order (logical_lines given) start)) [
        | inl (e, r) ↦ ground (arith, r)
        | inr (t, r) ↦ (start, t, r, ground (arith, r))
      ]
