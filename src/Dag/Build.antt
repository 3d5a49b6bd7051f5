-- ===== src/Dag/Build.antt =====
-- `New`: the graph that it builds has every named node once, and every dependency is a node.
use thrive.Prelude.{
  ◌≡◌, refl, sym, inl, inr, Bool-cases, Option-cases, All, true, ◌||◌, some, List, [], ◌∷◌, arith,
  Text, ◌=ᵗ◌, eq_iff, Dict, lookup, insert, lookup-insert, contains, add_key, contains-add_key,
  IsNodup, IsNodup-add_key,
}
use thrive.Dag.{Graph, deps, register, refer, refer_all, add_edges, register_all, new}

-- What `New` promises `TopologicalSort`: `nodes` is a set, and holds every dependency.
pub record IsClosed (g : Graph) : Type 0 where
  pub nodup : IsNodup g.nodes
  pub closed : (from dep : Text) → contains (deps g from) dep ≡ true → contains g.nodes dep ≡ true

nodes-refer : (g : Graph) (to : Text) → (refer g to).nodes ≡ add_key g.nodes to
unfolding refer add_key
nodes-refer g to = ground arith

edges-refer : (g : Graph) (to : Text) → (refer g to).edges ≡ g.edges
unfolding refer
edges-refer g to = ground arith

edges-refer_all : (g : Graph) (l : List Text) → (refer_all g l).edges ≡ g.edges
unfolding refer_all
edges-refer_all g [] = refl
edges-refer_all g (to ∷ l) = ground (arith, edges-refer_all (refer g to) l, edges-refer g to)

nodes-refer_all :
    (g : Graph) (l : List Text) (a : Text)
    → contains (refer_all g l).nodes a ≡ (contains g.nodes a || contains l a)
unfolding refer_all contains
nodes-refer_all g [] a = ground arith
nodes-refer_all g (to ∷ l) a =
    ground
      (arith, nodes-refer_all (refer g to) l a, nodes-refer g to, contains-add_key g.nodes to a)

refer_all-IsNodup : (g : Graph) (l : List Text) → IsNodup g.nodes → IsNodup (refer_all g l).nodes
unfolding refer_all
refer_all-IsNodup g [] n = n
refer_all-IsNodup g (to ∷ l) n =
    refer_all-IsNodup (refer g to) l (rw nodes-refer (IsNodup-add_key g.nodes to n))

refer_all-IsClosed :
    (g : Graph) (from : Text) (l : List Text)
    → IsClosed g
    → IsClosed (refer_all (record g { edges = insert from l g.edges }) l)
refer_all-IsClosed g from l h =
    let g' = record g { edges = insert from l g.edges } in
    record {
      nodup = refer_all-IsNodup g' l h.nodup;
      closed = λ f dep m. ground (
        arith,
        nodes-refer_all g' l dep,
        edges-refer_all g' l,
        lookup-insert from f l g.edges,
        h.closed f dep,
      );
    }

add_edges-IsClosed : (g : Graph) (m : Dict (List Text)) → IsClosed g → IsClosed (add_edges g m)
unfolding add_edges
add_edges-IsClosed g [] h = h
add_edges-IsClosed g ((from, l) ∷ m) h =
    add_edges-IsClosed (refer_all (record g { edges = insert from l g.edges }) l) m
      (refer_all-IsClosed g from l h)

register-IsClosed : (g : Graph) (n : Text) → IsClosed g → IsClosed (register g n)
unfolding register
register-IsClosed g n h = record {
  nodup = IsNodup-add_key g.nodes n h.nodup;
  closed = λ f dep m. ground (arith, contains-add_key g.nodes n dep, h.closed f dep);
}

register_all-IsClosed : (g : Graph) (l : List Text) → IsClosed g → IsClosed (register_all g l)
unfolding register_all
register_all-IsClosed g [] h = h
register_all-IsClosed g (n ∷ l) h = register_all-IsClosed (register g n) l (register-IsClosed g n h)

-- Whatever the step names and edges, the graph of `New` has no node twice, and each dependency of
-- each of its nodes is one of its nodes.
pub new-IsClosed : (nodes : List Text) (edges : Dict (List Text)) → IsClosed (new nodes edges)
unfolding new
new-IsClosed nodes edges = add_edges-IsClosed _ edges (register_all-IsClosed _ nodes empty)
  where
    empty : IsClosed (record { nodes = []; edges = []; in_degree = [] })
    empty = unfold lookup contains in record { nodup = tt; closed = λ f dep m. cc }

edges-register_all : (g : Graph) (l : List Text) → (register_all g l).edges ≡ g.edges
unfolding register_all register
edges-register_all g [] = refl
edges-register_all g (n ∷ l) = edges-register_all (register g n) l

-- What holds of every edge that is given holds of the edges of the graph.
module _ (P : Text → List Text → Type 0) where
  AreEdges : Dict (List Text) → Type 0
  AreEdges m = (a : Text) (l : List Text) → lookup a m ≡ some l → P a l

  AreEdges-insert :
      (m : Dict (List Text)) (from : Text) (l : List Text)
      → P from l
      → AreEdges m
      → AreEdges (insert from l m)
  unfolding AreEdges
  AreEdges-insert m from l p h a v e = elim (Bool-cases (from =ᵗ a)) [
    | inl same ↦
        let at : a ≡ from = sym ((eq_iff from a).0 same) in
        let value : l ≡ v = ground (arith, lookup-insert from a l m) in rw (at, sym value) p
    | inr other ↦ h a v (ground (arith, lookup-insert from a l m))
  ]

  AreEdges-add_edges :
      (m : Dict (List Text)) (g : Graph)
      → All (λ e. P e.0 e.1) m
      → AreEdges g.edges
      → AreEdges (add_edges g m).edges
  unfolding add_edges
  AreEdges-add_edges [] g ps h = h
  AreEdges-add_edges ((from, l) ∷ m) g ps h =
      AreEdges-add_edges m (refer_all (record g { edges = insert from l g.edges }) l) ps.1
        (rw edges-refer_all (AreEdges-insert g.edges from l ps.0 h))

  pub edges-new :
      (nodes : List Text) (m : Dict (List Text))
      → All (λ e. P e.0 e.1) m
      → (a d : Text) → contains (deps (new nodes m) a) d ≡ true
      → (l : List Text) × P a l × (contains l d ≡ true)
  unfolding new AreEdges
  edges-new nodes m ps a d c = elim (Option-cases (lookup a (new nodes m).edges)) [
    | inl e ↦ unfold contains in ground (arith, e)
    | inr (l, e) ↦ (l, held a l e, ground (arith, e))
  ]
    where
      empty : Graph
      empty = record { nodes = []; edges = []; in_degree = [] }

      held : AreEdges (new nodes m).edges
      held =
          AreEdges-add_edges m (register_all empty nodes) ps
            (rw edges-register_all (λ a l e. unfold lookup in cc))
