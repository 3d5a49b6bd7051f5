-- ===== src/Dag.antt =====
-- pkg/dag/dag.go: the build graph and its topological sort by levels.
-- A Go map with string keys is a `Dict`, and `map[string]bool` the list of its true keys. The order
-- of a list is one order of iteration; every theorem holds for each order.
pub mod Build
pub mod Levels
pub mod Cover
pub mod Acyclic
pub mod Order
pub mod Tests
use thrive.Prelude.{
  ℕ, zero, suc, ◌+◌, ◌-◌, Bool, true, false, not, ◌&&◌, Option, none, some, List, [], ◌∷◌, ◌++◌,
  Text, Dict, lookup, insert, contains, add_key, select, every, is_empty, length, ltb, sort,
  if◌then◌else◌,
}

pub record Graph : Type 0 where
  pub nodes : List Text
  pub edges : Dict (List Text)
  pub in_degree : Dict ℕ

-- A missing key reads as 0.
abbrev pub count_at : Dict ℕ → Text → ℕ
count_at m k = elim (lookup k m) [ none ↦ 0 | some n ↦ n ]

-- g.edges[node], nil for a missing key.
abbrev pub deps : Graph → Text → List Text
deps g node = elim (lookup node g.edges) [ none ↦ [] | some l ↦ l ]

unfoldable pub register : Graph → Text → Graph
register g n = record g { nodes = add_key g.nodes n; in_degree = insert n 0 g.in_degree }

-- The body of the inner loop of `New`.
unfoldable pub refer : Graph → Text → Graph
unfolding register
refer g to =
    let g' = if contains g.nodes to then g else register g to in
    record g' { in_degree = insert to (count_at g'.in_degree to + 1) g'.in_degree }

unfoldable pub refer_all : Graph → List Text → Graph
unfolding refer
refer_all g [] = g
refer_all g (to ∷ rest) = refer_all (refer g to) rest

unfoldable pub add_edges : Graph → Dict (List Text) → Graph
unfolding refer_all
add_edges g [] = g
add_edges g ((from, to_list) ∷ rest) =
    add_edges (refer_all (record g { edges = insert from to_list g.edges }) to_list) rest

unfoldable pub register_all : Graph → List Text → Graph
unfolding register
register_all g [] = g
register_all g (n ∷ rest) = register_all (register g n) rest

unfoldable pub new : List Text → Dict (List Text) → Graph
unfolding register_all add_edges
new nodes edges =
    add_edges (register_all (record { nodes = []; edges = []; in_degree = [] }) nodes) edges

pub data Outcome : Type 0 where
  levels : List (List Text) → Outcome
  cycle : Outcome
  out_of_fuel : Outcome

-- The variables of `TopologicalSort`.
pub record Progress : Type 0 where
  pub processed : List Text
  pub level : Dict ℕ
  pub result : List (List Text)

unfoldable pub is_ready : Graph → List Text → Text → Bool
is_ready g processed node =
    if contains processed node then false else every (λ dep. contains processed dep) (deps g node)

unfoldable pub current : Graph → List Text → List Text
unfolding is_ready
current g processed = select (is_ready g processed) g.nodes

-- The last loop of a round: each node of the level becomes processed.
unfoldable pub mark : ℕ → List Text → Progress → Progress
mark at [] p = p
mark at (node ∷ rest) p =
    mark at rest (record p { processed = add_key p.processed node; level = insert node at p.level })

unfoldable pub advance : List Text → Progress → Progress
unfolding mark
advance cur p =
    let sorted = sort cur in
    let result = p.result ++ sorted ∷ [] in
    mark (length result - 1) sorted (record p { result = result })

unfoldable pub topo_loop : ℕ → Graph → Progress → Outcome
unfolding current advance
topo_loop zero g p =
    if ltb (length p.processed) (length g.nodes) then out_of_fuel else levels p.result
topo_loop (suc fuel) g p =
    let cur = current g p.processed in
    let rest = topo_loop fuel g (advance cur p) in
    if ltb (length p.processed) (length g.nodes)
    then (if is_empty cur then cycle else rest)
    else levels p.result

abbrev pub start : Progress
start = record { processed = []; level = []; result = [] }

-- A round processes a node, so as many rounds as nodes are enough.
unfoldable pub topological_sort : Graph → Outcome
unfolding topo_loop
topological_sort g = topo_loop (length g.nodes) g start
