-- ===== src/Dockerfile/Buildable.antt =====
-- pkg/dockerfile/dockerfile.go and pkg/dag/dag.go together: a parsed Dockerfile can be sorted.
use thrive.Prelude.{
  ℕ, zero, suc, ◌+◌, ◌≡◌, ◌≢◌, ◌⊎◌, inl, inr, refl, sym, ap, ◌∙◌, Bool, true, false, Option, List,
  [], ◌∷◌, Text, ◌=ᵗ◌, eq_iff, All, contains, contains-singleton, Dict, insert, List-cases,
  Bool-cases, arith,
}
use thrive.Dag.{Outcome, levels, cycle, out_of_fuel, deps, new, topological_sort}
use thrive.Dag.Build.{new-IsClosed, edges-new}
use thrive.Dag.Levels.{topological_sort-ends}
use thrive.Dag.Acyclic.{IsCyclic, topological_sort-cycle_iff}
use thrive.Dockerfile.Parse.{Step, State, ok}
use thrive.Dockerfile.Graph.{BuildGraph, Parsed, step_name, link, finish, parse, parse-ok}
use thrive.Dockerfile.Chain.{step_name-injective}

-- A step waits for nothing, or it is step-(k + 1) and waits for step-k.
Back : Text → List Text → Type 0
Back a v = (v ≡ []) ⊎ ((k : ℕ) × (a ≡ step_name (suc k)) × (v ≡ step_name k ∷ []))

AreBack : Dict (List Text) → Type 0
AreBack m = All (λ e. Back e.0 e.1) m

AreBack-insert :
    (a : Text) (v : List Text) (m : Dict (List Text))
    → Back a v
    → AreBack m
    → AreBack (insert a v m)
unfolding insert AreBack
AreBack-insert a v [] b h = (b, tt)
AreBack-insert a v ((j, w) ∷ m) b h = elim (Bool-cases (j =ᵗ a)) [
  | inl e ↦ let same : j ≡ a = (eq_iff j a).0 e in rw e (rw same b, h.1)
  | inr n ↦ rw n (h.0, AreBack-insert a v m b h.1)
]

AreBack-link :
    (i : ℕ) (prev : List Text) (l : List Step) (g : BuildGraph)
    → Back (step_name i) prev
    → AreBack g.edges
    → AreBack (link i prev l g).edges
unfolding link
AreBack-link i prev [] g b h = h
AreBack-link i prev (s ∷ l) g b h =
    let next : i + 1 ≡ suc i = omega arith in
    AreBack-link (i + 1) (step_name i ∷ []) l _ (unfold Back in inr (i, ap step_name next, refl))
      (AreBack-insert (step_name i) prev g.edges b h)

finish-AreBack : (t : State) (p : Parsed) → finish t ≡ ok p → AreBack p.graph.edges
unfolding finish
finish-AreBack t p h = elim (List-cases t.stages) [
  | inl e ↦ ground (arith, e)
  | inr (stage, earlier, e) ↦
      let start : BuildGraph = record {
        steps = [];
        base_image = stage.base;
        entry_cmd = stage.entry;
        edges = [];
      } in
      let built : p.graph ≡ link 0 [] stage.steps start = ground (arith, e) in
      rw built
        (AreBack-link 0 [] stage.steps start (unfold Back in inl refl) (unfold AreBack in tt))
]

-- No node of such a graph is in a cycle.
back :
    (nodes : List Text) (m : Dict (List Text)) (a d : Text)
    → AreBack m
    → contains (deps (new nodes m) a) d ≡ true
    → (k : ℕ) × (a ≡ step_name (suc k)) × (d ≡ step_name k)
unfolding AreBack Back
back nodes m a d h c =
    let (l, b, at) = edges-new Back nodes m h a d c in
    elim b [
      | inl e ↦ unfold contains in ground (arith, e, at)
      | inr (k, e, single) ↦ (
        k,
        e,
        sym (
            (eq_iff (step_name k) d).0
              (sym (contains-singleton (step_name k) d) ∙ ground (arith, single, at))),
      )
    ]

never :
    (nodes : List Text) (m : Dict (List Text)) (s : Text → Bool)
    → AreBack m
    → IsCyclic (new nodes m) s
    → (k : ℕ) → s (step_name k) ≡ false
never nodes m s h c zero = elim (Bool-cases (s (step_name 0))) [
  | inl e ↦
      let (d, at, sd) = c.next (step_name 0) e in
      let (k, same, dk) = back nodes m (step_name 0) d h at in
      let absurd = step_name-injective 0 (suc k) same in ground (arith, absurd)
  | inr n ↦ n
]
never nodes m s h c (suc k) = elim (Bool-cases (s (step_name (suc k)))) [
  | inl e ↦
      let (d, at, sd) = c.next (step_name (suc k)) e in
      let (j, same, dj) = back nodes m (step_name (suc k)) d h at in
      let suc_same = step_name-injective (suc k) (suc j) same in
      let found : d ≡ step_name k = dj ∙ ap step_name (omega (arith, suc_same)) in
      ground (arith, never nodes m s h c k, sd, found)
  | inr n ↦ n
]

levels_of : (o : Outcome) → o ≢ out_of_fuel → o ≢ cycle → (ls : List (List Text)) × (o ≡ levels ls)
levels_of (levels ls) e c = (ls, refl)
levels_of cycle e c = ground (arith, c refl)
levels_of out_of_fuel e c = ground (arith, e refl)

module _ (unmarshal : Text → Option (List Text)) (join : Text → Text → Text)
    (order : Dict Text → Dict Text) where
  -- The topological sort accepts the graph of every Dockerfile that is parsed, and returns its levels:
  -- such a graph has no cycle, in whichever order its steps are given.
  pub parse-IsSortable :
      (given : Text) (build_args : Dict Text) (p : Parsed) (nodes : List Text)
      → parse unmarshal join order given build_args ≡ ok p
      → (ls : List (List Text)) × (topological_sort (new nodes p.graph.edges) ≡ levels ls)
  parse-IsSortable given build_args p nodes h =
      let (s, t, lines, end) = parse-ok unmarshal join order given build_args p h in
      let closed = new-IsClosed nodes p.graph.edges in
      let edges_back = finish-AreBack t p end in
      levels_of (topological_sort (new nodes p.graph.edges))
        (topological_sort-ends (new nodes p.graph.edges) closed.nodup)
        (λ e.
          let (c, cyclic) = (topological_sort-cycle_iff (new nodes p.graph.edges) closed).0 e in
          let (a, sa) = cyclic.inhabited in
          let (d, at, sd) = cyclic.next a sa in
          let (k, same, dk) = back nodes p.graph.edges a d edges_back at in
          ground (arith, never nodes p.graph.edges c edges_back cyclic k, sd, dk))
