-- ===== src/Dag/Cover.antt =====
-- `TopologicalSort`: the levels hold each node of the graph exactly once.
use thrive.Prelude.{◌≡◌, List, arith, Text, contains, IsNodup, concat, whole_of_length}
use thrive.Dag.{Graph, Outcome, levels, topological_sort}
use thrive.Dag.Levels.{Ends, done, stuck, topological_sort-Ends}

-- The levels together: each node, and nothing else, once.
pub record IsCover (g : Graph) (ls : List (List Text)) : Type 0 where
  pub once : IsNodup (concat ls)
  pub same : (a : Text) → contains (concat ls) a ≡ contains g.nodes a

IsCover-of_Ends :
    {g : Graph} {o : Outcome} → Ends g o → (ls : List (List Text)) → o ≡ levels ls → IsCover g ls
IsCover-of_Ends {g} (done p h le) ls e =
    let same : p.result ≡ ls = cc in
    rw (← same) (record {
      once = h.once;
      same = λ a. ground (
        arith,
        h.agrees a,
        h.subset a,
        whole_of_length p.processed g.nodes a h.nodup h.subset le,
      );
    })
IsCover-of_Ends (stuck p h lt empty) ls e = cc

-- When the sort of a graph whose nodes are a set returns levels, no step is lost, repeated or invented: a name stands in some level
-- if and only if it is a node, and no name stands twice.
pub topological_sort-IsCover :
    (g : Graph) (ls : List (List Text))
    → IsNodup g.nodes
    → topological_sort g ≡ levels ls
    → IsCover g ls
topological_sort-IsCover g ls nodes e = IsCover-of_Ends (topological_sort-Ends g nodes) ls e
