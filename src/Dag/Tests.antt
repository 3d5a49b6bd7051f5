-- ===== src/Dag/Tests.antt =====
-- Small graphs, and the theorems at them.
use thrive.Prelude.{
  ◌≡◌, ◌≢◌, refl, Bool, true, false, ◌↔◌, List, [], ◌∷◌, Text, text, ◌=ᵗ◌, Dict, lookup, insert,
  contains, add_key, less, sort, select, every, IsNodup, arith, ◌||◌, eq_iff,
}
use thrive.Dag.{Graph, new, levels, cycle, out_of_fuel, topological_sort}
use thrive.Dag.Build.{new-IsClosed}
use thrive.Dag.Order.{SameGraph, topological_sort_same}
use thrive.Dag.Levels.{IsLayered, topological_sort-ends, topological_sort-IsLayered}
use thrive.Dag.Cover.{IsCover, topological_sort-IsCover}
use thrive.Dag.Acyclic.{IsCyclic, topological_sort-cycle_iff}

-- "test" waits for "build" and "lint", "build" for "fetch", which only an edge names.
abbrev steps : Dict (List Text)
steps = (text "test", text "build" ∷ text "lint" ∷ []) ∷ (text "build", text "fetch" ∷ []) ∷ []

abbrev sample : Graph
sample = new (text "test" ∷ text "lint" ∷ text "build" ∷ []) steps

abbrev expected : List (List Text)
expected = (text "fetch" ∷ text "lint" ∷ []) ∷ (text "build" ∷ []) ∷ (text "test" ∷ []) ∷ []

program : Unit {0}
unfolding new topological_sort lookup insert contains add_key ◌=ᵗ◌ less sort select every
program = tt

sorted : topological_sort sample ≡ levels expected
unfolding program
sorted = refl

abbrev looped : Graph
looped = new (text "a" ∷ text "b" ∷ []) ((text "a", text "b" ∷ []) ∷ (text "b", text "a" ∷ []) ∷ [])

refused : topological_sort looped ≡ cycle
unfolding program
refused = refl

sample-IsNodup : IsNodup sample.nodes
sample-IsNodup = (new-IsClosed (text "test" ∷ text "lint" ∷ text "build" ∷ []) steps).nodup

topological_sort-ends_example : topological_sort sample ≢ out_of_fuel
topological_sort-ends_example = topological_sort-ends sample sample-IsNodup

topological_sort-IsLayered_example : IsLayered sample [] expected
topological_sort-IsLayered_example =
    topological_sort-IsLayered sample expected sample-IsNodup sorted

topological_sort-IsCover_example : IsCover sample expected
topological_sort-IsCover_example = topological_sort-IsCover sample expected sample-IsNodup sorted

topological_sort-cycle_iff_example :
    (topological_sort looped ≡ cycle) ↔ ((s : Text → Bool) × IsCyclic looped s)
topological_sort-cycle_iff_example = topological_sort-cycle_iff looped (
    new-IsClosed (text "a" ∷ text "b" ∷ [])
      ((text "a", text "b" ∷ []) ∷ (text "b", text "a" ∷ []) ∷ []))

-- Two listings of one graph: "b" waits for "a".
abbrev forward : Graph
forward = record {
  nodes = text "a" ∷ text "b" ∷ [];
  edges = (text "a", []) ∷ (text "b", text "a" ∷ []) ∷ [];
  in_degree = [];
}

abbrev backward : Graph
backward = record {
  nodes = text "b" ∷ text "a" ∷ [];
  edges = (text "b", text "a" ∷ []) ∷ [];
  in_degree = [];
}

forward-SameGraph : SameGraph forward backward
unfolding contains lookup ◌=ᵗ◌
forward-SameGraph = record {
  nodup = (refl, (refl, tt));
  nodup' = (refl, (refl, tt));
  nodes = λ a. two (text "a" =ᵗ a) (text "b" =ᵗ a);
  edges = λ a. ground (arith, eq_iff (text "a") a, eq_iff (text "b") a);
}
  where
    two : (p q : Bool) → (p || (q || false)) ≡ (q || (p || false))
    two true true = refl
    two true false = refl
    two false true = refl
    two false false = refl

topological_sort_same_example : topological_sort forward ≡ topological_sort backward
topological_sort_same_example = topological_sort_same forward backward forward-SameGraph
