-- ===== src/Dockerfile/Chain.antt =====
-- The graph that `Parse` of dockerfile.go builds is a chain.
use thrive.Prelude.{
  ℕ, zero, suc, ◌+◌, ◌<◌, ◌≡◌, ◌≢◌, ◌⊎◌, inl, inr, refl, sym, ap, ◌∙◌, false, Option, some, List,
  [], ◌∷◌, Text, ◌=ᵗ◌, eq_iff, Dict, lookup, insert, lookup-insert_same, lookup-insert_other,
  length, get_elem?, List-cases, itoa, parse_digits, parse_digits-itoa, drop, Bool-cases, arith,
}
use thrive.Dockerfile.Parse.{Step, State, ok}
use thrive.Dockerfile.Graph.{BuildGraph, Parsed, step_name, link, finish, parse, parse-ok}

pub step_name-injective : (i j : ℕ) → step_name i ≡ step_name j → i ≡ j
unfolding step_name
step_name-injective i j e =
    let digits : itoa i ≡ itoa j = ap (drop 5) e in
    let same : some i ≡ some j =
      sym (parse_digits-itoa i) ∙ ap parse_digits digits ∙ parse_digits-itoa j in
    ground arith

differ : (i j : ℕ) → i ≢ j → (step_name i =ᵗ step_name j) ≡ false
differ i j n = elim (Bool-cases (step_name i =ᵗ step_name j)) [
  | inl e ↦ ground (arith, n (step_name-injective i j ((eq_iff (step_name i) (step_name j)).0 e)))
  | inr e ↦ e
]

-- What the step at place i + k waits for.
abbrev pub before : ℕ → List Text → ℕ → List Text
before i prev zero = prev
before i prev (suc k) = step_name (i + k) ∷ []

-- A step as `link` names it.
abbrev pub named : ℕ → List Text → Step → Step
named i prev s = record s { name = step_name i; depends_on = prev }

-- One round of `link` over the graph.
add_step : Step → ℕ → List Text → BuildGraph → BuildGraph
add_step s i prev g = record g {
  steps = insert (step_name i) (named i prev s) g.steps;
  edges = insert (step_name i) prev g.edges;
}

link-earlier :
    (i : ℕ) (prev : List Text) (l : List Step) (g : BuildGraph) (k : ℕ)
    → k < i
    → (lookup (step_name k) (link i prev l g).steps ≡ lookup (step_name k) g.steps)
      × (lookup (step_name k) (link i prev l g).edges ≡ lookup (step_name k) g.edges)
unfolding link add_step
link-earlier i prev [] g k h = (refl, refl)
link-earlier i prev (s ∷ l) g k h =
    let name = step_name i in
    let (in_steps, in_edges) =
      link-earlier (i + 1) (name ∷ []) l (add_step s i prev g) k (omega arith) in
    let other = differ i k (λ e. omega arith) in
    (
      in_steps ∙ lookup-insert_other name (step_name k) (named i prev s) g.steps other,
      in_edges ∙ lookup-insert_other name (step_name k) prev g.edges other,
    )

link-first :
    (i : ℕ) (prev : List Text) (l : List Step) (g : BuildGraph) (s : Step)
    → (lookup (step_name i) (link i prev (s ∷ l) g).steps ≡ some (named i prev s))
      × (lookup (step_name i) (link i prev (s ∷ l) g).edges ≡ some prev)
unfolding link add_step
link-first i prev l g s =
    let name = step_name i in
    let (in_steps, in_edges) =
      link-earlier (i + 1) (name ∷ []) l (add_step s i prev g) i (omega arith) in
    (
      in_steps ∙ lookup-insert_same name (named i prev s) g.steps,
      in_edges ∙ lookup-insert_same name prev g.edges,
    )

before-next : (i k : ℕ) → before (i + 1) (step_name i ∷ []) k ≡ step_name (i + k) ∷ []
before-next i zero = let same : i ≡ i + 0 = omega arith in ap (λ n. step_name n ∷ []) same
before-next i (suc k) =
    let same : i + 1 + k ≡ i + suc k = omega arith in ap (λ n. step_name n ∷ []) same

link-at :
    (i : ℕ) (prev : List Text) (l : List Step) (g : BuildGraph) (k j : ℕ) (s : Step)
    → get_elem? l k ≡ some s
    → i + k ≡ j
    → (lookup (step_name j) (link i prev l g).steps ≡ some (named j (before i prev k) s))
      × (lookup (step_name j) (link i prev l g).edges ≡ some (before i prev k))
unfolding link add_step
link-at i prev [] g k j s h e = cc
link-at i prev (t ∷ l) g zero j s h e =
    let at : j ≡ i = omega arith in
    let same : s ≡ t = ground arith in rw (at, same) (link-first i prev l g t)
link-at i prev (t ∷ l) g (suc k) j s h e =
    rw (sym (before-next i k))
      (link-at (i + 1) (step_name i ∷ []) l (add_step t i prev g) k j s h (omega arith))

link-only :
    (i : ℕ) (prev : List Text) (l : List Step) (g : BuildGraph) (a : Text) (v : List Text)
    → lookup a (link i prev l g).edges ≡ some v
    → (lookup a g.edges ≡ some v) ⊎ ((k : ℕ) × (k < i + length l) × (step_name k ≡ a))
unfolding link add_step
link-only i prev [] g a v h = inl h
link-only i prev (s ∷ l) g a v h =
    elim (link-only (i + 1) (step_name i ∷ []) l (add_step s i prev g) a v h) [
      | inl e ↦ elim (Bool-cases (step_name i =ᵗ a)) [
        | inl same ↦ inr (i, omega arith, (eq_iff (step_name i) a).0 same)
        | inr other ↦ inl (sym (lookup-insert_other (step_name i) a prev g.edges other) ∙ e)
      ]
      | inr (k, lt, e) ↦ inr (k, omega arith, e)
    ]

-- The graph of a stage with the steps `l`: the k-th is named step-k and waits for the one before it
-- and for no other, in both maps, and the graph has no other edges.
pub record IsChain (l : List Step) (g : BuildGraph) : Type 0 where
  pub steps :
      (k : ℕ) (s : Step)
      → get_elem? l k ≡ some s
      → lookup (step_name k) g.steps ≡ some (named k (before 0 [] k) s)
  pub edges :
      (k : ℕ) (s : Step)
      → get_elem? l k ≡ some s
      → lookup (step_name k) g.edges ≡ some (before 0 [] k)
  pub only :
      (a : Text) (v : List Text)
      → lookup a g.edges ≡ some v
      → (k : ℕ) × (k < length l) × (step_name k ≡ a)

link-IsChain : (l : List Step) (g : BuildGraph) → g.edges ≡ [] → IsChain l (link 0 [] l g)
link-IsChain l g empty = record {
  steps = λ k s h. (link-at 0 [] l g k k s h (omega arith)).0;
  edges = λ k s h. (link-at 0 [] l g k k s h (omega arith)).1;
  only = λ a v h. elim (link-only 0 [] l g a v h) [
    | inl e ↦ unfold lookup in ground (arith, e, empty)
    | inr (k, lt, e) ↦ (k, omega arith, e)
  ];
}

finish-IsChain : (t : State) (p : Parsed) → finish t ≡ ok p → (l : List Step) × IsChain l p.graph
unfolding finish
finish-IsChain t p h = elim (List-cases t.stages) [
  | inl e ↦ ground (arith, e)
  | inr (stage, earlier, e) ↦
      let start : BuildGraph = record {
        steps = [];
        base_image = stage.base;
        entry_cmd = stage.entry;
        edges = [];
      } in
      let built : p.graph ≡ link 0 [] stage.steps start = ground (arith, e) in
      (stage.steps, rw built (link-IsChain stage.steps start refl))
]

module _ (unmarshal : Text → Option (List Text)) (join : Text → Text → Text)
    (order : Dict Text → Dict Text) where
  -- The graph of a Dockerfile that is parsed is the chain of a list of steps: the k-th is stored
  -- under step-k and waits for step-(k - 1) alone, the first for nothing, in the steps and in the
  -- edges alike, and the graph has no other edges.
  pub parse-IsChain :
      (given : Text) (build_args : Dict Text) (p : Parsed)
      → parse unmarshal join order given build_args ≡ ok p
      → (l : List Step) × IsChain l p.graph
  parse-IsChain given build_args p h =
      let (s, t, lines, end) = parse-ok unmarshal join order given build_args p h in
      finish-IsChain t p end
