-- ===== src/Dag/Order.antt =====
-- `TopologicalSort` does not depend on the order in which Go iterates over its maps.
use thrive.Prelude.{
  ℕ, zero, suc, ◌≡◌, refl, List, [], ◌∷◌, arith, Text, eq_refl, contains, IsNodup, length,
  length-le_of_subset, contains-select, IsNodup-select, is_empty, sort,
}
use thrive.Prelude.Sort.Unique.{sort_eq_of_same}
use thrive.Dag.{
  Graph, deps, Progress, is_ready, current, advance, topo_loop, start, topological_sort,
}

-- The same graph, its maps listed in other orders.
pub record SameGraph (g g' : Graph) : Type 0 where
  pub nodup : IsNodup g.nodes
  pub nodup' : IsNodup g'.nodes
  pub nodes : (a : Text) → contains g.nodes a ≡ contains g'.nodes a
  pub edges : (a : Text) → deps g a ≡ deps g' a

is_empty_same :
    (xs ys : List Text) → ((a : Text) → contains xs a ≡ contains ys a) → is_empty xs ≡ is_empty ys
unfolding contains
is_empty_same [] [] h = refl
is_empty_same [] (y ∷ ys) h = ground (arith, h y, eq_refl y)
is_empty_same (x ∷ xs) [] h = ground (arith, h x, eq_refl x)
is_empty_same (x ∷ xs) (y ∷ ys) h = refl

length_same : (g g' : Graph) → SameGraph g g' → length g.nodes ≡ length g'.nodes
length_same g g' s = omega (
  arith,
  length-le_of_subset g.nodes g'.nodes s.nodup (λ a m. ground (arith, s.nodes a)),
  length-le_of_subset g'.nodes g.nodes s.nodup' (λ a m. ground (arith, s.nodes a)),
)

current_same :
    (g g' : Graph) (done : List Text) (a : Text)
    → SameGraph g g'
    → contains (current g done) a ≡ contains (current g' done) a
unfolding current is_ready
current_same g g' done a s = rw (contains-select, contains-select, s.nodes a, s.edges a)

sort-current_same :
    (g g' : Graph) (done : List Text)
    → SameGraph g g'
    → sort (current g done) ≡ sort (current g' done)
sort-current_same g g' done s =
    sort_eq_of_same (current g done) (current g' done) (nodup g s.nodup) (nodup g' s.nodup')
      (λ a. current_same g g' done a s)
  where
    nodup : (h : Graph) → IsNodup h.nodes → IsNodup (current h done)
    nodup h n = unfold current in IsNodup-select (is_ready h done) h.nodes n

topo_loop_same :
    (fuel : ℕ) (g g' : Graph) (p : Progress)
    → SameGraph g g'
    → topo_loop fuel g p ≡ topo_loop fuel g' p
unfolding topo_loop advance
topo_loop_same zero g g' p s = rw (length_same g g' s)
topo_loop_same (suc fuel) g g' p s =
    let sorted = sort-current_same g g' p.processed s in
    let empty =
      is_empty_same (current g p.processed) (current g' p.processed)
        (λ a. current_same g g' p.processed a s) in
    rw (
      length_same g g' s,
      sorted,
      empty,
      topo_loop_same fuel g g' (advance (current g' p.processed) p) s,
    )

-- Two listings of one graph, each map in an order of its own, are sorted into the same levels or
-- refused alike.
pub topological_sort_same :
    (g g' : Graph) → SameGraph g g' → topological_sort g ≡ topological_sort g'
unfolding topological_sort
topological_sort_same g g' s =
    rw (length_same g g' s, topo_loop_same (length g'.nodes) g g' start s)
