-- ===== src/Dag/Levels.antt =====
-- `TopologicalSort`: the invariant of its rounds, and that it ends.
use thrive.Prelude.{
  ℕ, zero, suc, ◌+◌, ◌-◌, ◌≤◌, ◌<◌, ◌≡◌, ◌≢◌, List-cases, not_lt-ltb, ltb→lt, refl, inl, inr, true,
  false, ◌&&◌, ◌||◌, List, [], ◌∷◌, ◌++◌, arith, Text, eq_iff, eq_refl, insert, contains,
  contains-append, add_key, contains-add_key, contains-select, IsNodup, IsNodup-add_key,
  IsNodup-select, IsNodup-append, IsNodup-sort, every_sound, concat, concat-snoc, contains-sort,
  length, length-le_of_subset, is_empty, ltb, sort, Bool-cases,
}
use thrive.Dag.{
  Graph, deps, Outcome, levels, cycle, out_of_fuel, Progress, is_ready, current, mark, advance,
  topo_loop, start, topological_sort,
}

-- Every dependency of a node of a level is in `seen` or in an earlier level.
abbrev pub IsLayered : Graph → List Text → List (List Text) → Type 0
IsLayered g seen [] = Unit
IsLayered g seen (l ∷ ls) =
    ((n d : Text) → contains l n ≡ true → contains (deps g n) d ≡ true → contains seen d ≡ true)
    × IsLayered g (seen ++ l) ls

IsLayered-snoc :
    (g : Graph) (seen : List Text) (ls : List (List Text)) (l : List Text)
    → IsLayered g seen ls
    → ((n d : Text)
        → contains l n ≡ true
        → contains (deps g n) d ≡ true
        → (contains seen d || contains (concat ls) d) ≡ true)
    → IsLayered g seen (ls ++ l ∷ [])
unfolding concat contains
IsLayered-snoc g seen [] l h new = (λ n d m k. ground (arith, new n d m k), tt)
IsLayered-snoc g seen (k ∷ ls) l h new = (
  h.0,
  IsLayered-snoc g (seen ++ k) ls l h.1 (λ n d m e.
      ground (arith, new n d m e, contains-append seen k d, contains-append k (concat ls) d)),
)

contains-mark :
    (at : ℕ) (l : List Text) (p : Progress) (a : Text)
    → contains (mark at l p).processed a ≡ (contains p.processed a || contains l a)
unfolding mark contains
contains-mark at [] p a = ground arith
contains-mark at (n ∷ l) p a = ground (
  arith,
  contains-mark at l (record p { processed = add_key p.processed n; level = insert n at p.level })
      a,
  contains-add_key p.processed n a,
)

result-mark : (at : ℕ) (l : List Text) (p : Progress) → (mark at l p).result ≡ p.result
unfolding mark
result-mark at [] p = refl
result-mark at (n ∷ l) p =
    result-mark at l (record p { processed = add_key p.processed n; level = insert n at p.level })

mark-IsNodup :
    (at : ℕ) (l : List Text) (p : Progress) → IsNodup p.processed → IsNodup (mark at l p).processed
unfolding mark
mark-IsNodup at [] p h = h
mark-IsNodup at (n ∷ l) p h =
    mark-IsNodup at l (record p { processed = add_key p.processed n; level = insert n at p.level })
      (IsNodup-add_key p.processed n h)

-- What holds before each round.
pub record Inv (g : Graph) (p : Progress) : Type 0 where
  pub nodup : IsNodup p.processed
  pub subset : (a : Text) → contains p.processed a ≡ true → contains g.nodes a ≡ true
  pub agrees : (a : Text) → contains (concat p.result) a ≡ contains p.processed a
  pub once : IsNodup (concat p.result)
  pub layered : IsLayered g [] p.result

pub Inv-start : (g : Graph) → Inv g start
unfolding contains concat
Inv-start g = record { nodup = tt; subset = λ a m. cc; agrees = λ a. refl; once = tt; layered = tt }

module _ (g : Graph) (p : Progress) where
  pub contains-current :
      (n : Text)
      → contains (current g p.processed) n ≡ (contains g.nodes n && is_ready g p.processed n)
  unfolding current
  contains-current n = contains-select (is_ready g p.processed) g.nodes n

  pub contains-advance :
      (a : Text)
      → contains (advance (current g p.processed) p).processed a
        ≡ (contains p.processed a || contains (current g p.processed) a)
  unfolding advance
  contains-advance a =
      let cur = current g p.processed in
      let result = p.result ++ sort cur ∷ [] in
      ground (
        arith,
        contains-mark (length result - 1) (sort cur) (record p { result = result }) a,
        contains-sort cur a,
      )

  result-advance :
      (advance (current g p.processed) p).result ≡ p.result ++ sort (current g p.processed) ∷ []
  unfolding advance
  result-advance =
      let result = p.result ++ sort (current g p.processed) ∷ [] in
      result-mark (length result - 1) (sort (current g p.processed)) (record p { result = result })

  advance-IsNodup : IsNodup p.processed → IsNodup (advance (current g p.processed) p).processed
  unfolding advance
  advance-IsNodup h =
      let result = p.result ++ sort (current g p.processed) ∷ [] in
      mark-IsNodup (length result - 1) (sort (current g p.processed)) (record p { result = result })
        h

  current-IsNodup : IsNodup g.nodes → IsNodup (current g p.processed)
  unfolding current
  current-IsNodup nodes = IsNodup-select (is_ready g p.processed) g.nodes nodes

  current-deps :
      (n d : Text)
      → contains (current g p.processed) n ≡ true
      → contains (deps g n) d ≡ true
      → contains p.processed d ≡ true
  unfolding is_ready
  current-deps n d m k =
      ground (arith, contains-current n, every_sound (λ e. contains p.processed e) (deps g n) d)

  current-fresh :
      (n : Text) → contains (current g p.processed) n ≡ true → contains p.processed n ≡ false
  unfolding is_ready
  current-fresh n m = ground (arith, contains-current n)

  pub Inv-advance : IsNodup g.nodes → Inv g p → Inv g (advance (current g p.processed) p)
  Inv-advance nodes h =
      let cur = current g p.processed in
      record {
        nodup = advance-IsNodup h.nodup;
        subset = λ a m. ground (arith, contains-advance a, contains-current a, h.subset a);
        agrees = λ a.
            rw (result-advance, concat-snoc p.result (sort cur))
              (ground (
                arith,
                contains-append (concat p.result) (sort cur) a,
                contains-sort cur a,
                contains-advance a,
                h.agrees a,
              ));
        once =
            rw (result-advance, concat-snoc p.result (sort cur))
              (IsNodup-append (concat p.result) (sort cur) h.once
                (IsNodup-sort cur (current-IsNodup nodes))
                (λ a m. ground (arith, h.agrees a, current-fresh a, contains-sort cur a)));
        layered = rw result-advance (
            IsLayered-snoc g [] p.result (sort cur) h.layered
              (λ n d m k. ground (arith, current-deps n d, contains-sort cur n, h.agrees d)));
      }

  -- A round that finds a node processes it.
  pub length-advance :
      IsNodup g.nodes
      → Inv g p
      → is_empty (current g p.processed) ≡ false
      → length p.processed < length (advance (current g p.processed) p).processed
  length-advance nodes h e = elim (List-cases (current g p.processed)) [
    | inl none_left ↦ ground arith
    | inr (n, rest, found) ↦
        let here : contains (current g p.processed) n ≡ true =
          rw found (unfold contains in ground (arith, eq_refl n)) in
        length-le_of_subset (n ∷ p.processed) (advance (current g p.processed) p).processed
          (current-fresh n here, h.nodup)
          (unfold contains in λ a m. ground (arith, contains-advance a, eq_iff n a))
  ]

-- The rule of the loop: what the invariant gives at each end of the loop.
pub data Ends (g : Graph) : Outcome → Type 0 where
  done : (p : Progress) → Inv g p → length g.nodes ≤ length p.processed → Ends g (levels p.result)
  stuck :
      (p : Progress)
      → Inv g p
      → length p.processed < length g.nodes
      → is_empty (current g p.processed) ≡ true
      → Ends g cycle

topo_loop-Ends :
    (fuel : ℕ) (g : Graph) (p : Progress)
    → IsNodup g.nodes
    → Inv g p
    → length g.nodes ≤ fuel + length p.processed
    → Ends g (topo_loop fuel g p)
unfolding topo_loop
topo_loop-Ends zero g p nodes h enough =
    rw (not_lt-ltb (length p.processed) (length g.nodes) (omega arith)) (done p h (omega arith))
topo_loop-Ends (suc fuel) g p nodes h enough =
    elim (Bool-cases (ltb (length p.processed) (length g.nodes))) [
      | inr over ↦ rw over (done p h (ground arith))
      | inl more ↦ elim (Bool-cases (is_empty (current g p.processed))) [
        | inl empty ↦ rw (more, empty) (stuck p h (ltb→lt _ _ more) empty)
        | inr found ↦
            rw (more, found)
              (topo_loop-Ends fuel g (advance (current g p.processed) p) nodes
                (Inv-advance g p nodes h) (omega (arith, length-advance g p nodes h found)))
      ]
    ]

pub topological_sort-Ends : (g : Graph) → IsNodup g.nodes → Ends g (topological_sort g)
unfolding topological_sort
topological_sort-Ends g nodes =
    topo_loop-Ends (length g.nodes) g start nodes (Inv-start g) (omega arith)

out_of_fuel-Ends : {g : Graph} {o : Outcome} → Ends g o → o ≢ out_of_fuel
out_of_fuel-Ends (done p h le) e = cc
out_of_fuel-Ends (stuck p h lt empty) e = cc

-- The loop ends: on every graph whose nodes are a set, as many rounds as nodes are enough for the
-- sort to return its levels or its error.
pub topological_sort-ends : (g : Graph) → IsNodup g.nodes → topological_sort g ≢ out_of_fuel
topological_sort-ends g nodes = out_of_fuel-Ends (topological_sort-Ends g nodes)

IsLayered-of_Ends :
    {g : Graph} {o : Outcome}
    → Ends g o
    → (ls : List (List Text)) → o ≡ levels ls
    → IsLayered g [] ls
IsLayered-of_Ends (done p h le) ls e = let same : p.result ≡ ls = cc in rw (← same) h.layered
IsLayered-of_Ends (stuck p h lt empty) ls e = cc

-- When the sort of a graph whose nodes are a set returns levels, every dependency of a node of a level stands in an earlier level,
-- so the steps of a level can run in parallel after those of the levels before it.
pub topological_sort-IsLayered :
    (g : Graph) (ls : List (List Text))
    → IsNodup g.nodes
    → topological_sort g ≡ levels ls
    → IsLayered g [] ls
topological_sort-IsLayered g ls nodes e = IsLayered-of_Ends (topological_sort-Ends g nodes) ls e
