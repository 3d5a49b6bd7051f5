-- ===== src/Dag/Acyclic.antt =====
-- `TopologicalSort` fails exactly on the graphs with a cycle.
use thrive.Prelude.{
  ◌≡◌, refl, ◌<◌, ◌↔◌, inl, inr, Bool, true, false, not, ◌&&◌, List, [], ◌∷◌, ◌++◌, arith, Text,
  contains, contains-append, every-false, concat, missing, every, is_empty, length, List-cases,
  Bool-cases,
}
use thrive.Dag.{
  Graph, deps, Outcome, levels, cycle, out_of_fuel, Progress, is_ready, current, topological_sort,
}
use thrive.Dag.Build.{IsClosed}
use thrive.Dag.Levels.{
  IsLayered, Ends, done, stuck, contains-current, topological_sort-Ends, topological_sort-IsLayered,
  topological_sort-ends,
}
use thrive.Dag.Cover.{topological_sort-IsCover}

-- Nodes, at least one, each of which depends on one of them. Walking from dependency to dependency
-- among them never ends, and they are finitely many: the graph has a cycle.
pub record IsCyclic (g : Graph) (s : Text → Bool) : Type 0 where
  pub inhabited : (a : Text) × (s a ≡ true)
  pub nodes : (a : Text) → s a ≡ true → contains g.nodes a ≡ true
  pub next : (a : Text) → s a ≡ true → (d : Text) × (contains (deps g a) d ≡ true) × (s d ≡ true)

-- The nodes that are left when a round finds nothing form such a set.
left_over : (g : Graph) (p : Progress) → Text → Bool
left_over g p a = contains g.nodes a && not (contains p.processed a)

stuck-IsCyclic :
    (g : Graph) (p : Progress)
    → IsClosed g
    → length p.processed < length g.nodes
    → is_empty (current g p.processed) ≡ true
    → IsCyclic g (left_over g p)
unfolding left_over
stuck-IsCyclic g p closed lt empty = record {
  inhabited = let (a, m, n) = missing p.processed g.nodes closed.nodup lt in (a, ground arith);
  nodes = λ a h. ground arith;
  next = λ a h.
      let (d, m, f) =
        every-false (λ e. contains p.processed e) (deps g a)
          (waits a (ground arith) (ground arith)) in
      (d, m, ground (arith, closed.closed a d));
}
  where
    none_ready : (a : Text) → contains (current g p.processed) a ≡ false
    none_ready a = elim (List-cases (current g p.processed)) [
      | inl e ↦ rw e (unfold contains in ground arith)
      | inr (x, rest, e) ↦ ground arith
    ]

    waits :
        (a : Text)
        → contains g.nodes a ≡ true
        → contains p.processed a ≡ false
        → every (λ e. contains p.processed e) (deps g a) ≡ false
    waits a m n = unfold is_ready in ground (arith, none_ready a, contains-current g p a)

IsCyclic-of_Ends :
    {g : Graph} {o : Outcome} → IsClosed g → Ends g o → o ≡ cycle → (s : Text → Bool) × IsCyclic g s
IsCyclic-of_Ends closed (done p h le) e = cc
IsCyclic-of_Ends {g} closed (stuck p h lt empty) e =
    (left_over g p, stuck-IsCyclic g p closed lt empty)

-- No level can hold a first node of a cyclic set.
disjoint :
    (g : Graph) (s : Text → Bool) (seen : List Text) (ls : List (List Text))
    → IsCyclic g s
    → IsLayered g seen ls
    → ((a : Text) → contains seen a ≡ true → s a ≡ false)
    → (a : Text) → contains (concat ls) a ≡ true
    → s a ≡ false
unfolding concat contains
disjoint g s seen [] c h fresh a m = cc
disjoint g s seen (l ∷ ls) c h fresh a m =
    ground
      (arith, contains-append l (concat ls) a, level a, disjoint g s (seen ++ l) ls c h.1 later a)
  where
    level : (b : Text) → contains l b ≡ true → s b ≡ false
    level b k = elim (Bool-cases (s b)) [
      | inr out ↦ out
      | inl in_s ↦ let (d, dep, in_d) = c.next b in_s in ground (arith, fresh d (h.0 b d k dep))
    ]

    later : (b : Text) → contains (seen ++ l) b ≡ true → s b ≡ false
    later b k = ground (arith, contains-append seen l b, fresh b, level b)

-- A graph whose nodes are a set that holds every dependency, as `New` builds it, is refused exactly
-- when it has a cycle: the sort returns the error if and only if some nodes, at least one, each
-- depend on one of those nodes.
pub topological_sort-cycle_iff :
    (g : Graph) → IsClosed g → (topological_sort g ≡ cycle) ↔ ((s : Text → Bool) × IsCyclic g s)
topological_sort-cycle_iff g closed =
    (IsCyclic-of_Ends closed (topological_sort-Ends g closed.nodup), refuse)
  where
    refuse : ((s : Text → Bool) × IsCyclic g s) → topological_sort g ≡ cycle
    refuse (s, c) = go (topological_sort g) refl
      where
        go : (o : Outcome) → topological_sort g ≡ o → topological_sort g ≡ cycle
        go cycle e = e
        go out_of_fuel e = absurd (topological_sort-ends g closed.nodup e)
        go (levels ls) e =
            let (a, in_s) = c.inhabited in
            let out =
              disjoint g s [] ls c (topological_sort-IsLayered g ls closed.nodup e)
                (unfold contains in λ b k. cc) a
                (rw ((topological_sort-IsCover g ls closed.nodup e).same) (c.nodes a in_s)) in
            cc
