-- ===== src/Compose/StartOrder/Fuel.antt =====
-- The search ends, and succeeds where the dependencies are declared and have no cycle.
use thrive.Prelude.{
  ℕ, zero, suc, ◌≤◌, ◌<◌, ◌≡◌, ◌≢◌, refl, inl, inr, true, false, not, Option-cases, Bool-cases,
  List, [], ◌∷◌, arith, Text, eq_iff, eq_refl, lookup, keys, contains, contains-keys,
  lookup_of_keys, length, length-keys, length-select-le, length-select-lt, length-select_mono,
  select,
}
use thrive.Compose.{ComposeFile}
use thrive.Compose.StartOrder.{
  out_of_fuel, Search, Visit, ok, err, and_then, visit_all, finish, finished, visit, start,
  start_order,
}
use thrive.Compose.StartOrder.Loop.{
  depends, Inv, Inv-start, Extends, Visits, visit-Extends, Visit-cases, enter, enter-Inv,
}

-- The services that are not on the stack.
abbrev room : ComposeFile → Search → ℕ
room cf s = length (select (λ a. not (contains s.in_stack a)) (keys cf.services))

room-enter :
    (cf : ComposeFile) (name : Text) (s : Search)
    → contains (keys cf.services) name ≡ true
    → contains s.in_stack name ≡ false
    → room cf (enter name s) < room cf s
room-enter cf name s known off =
    length-select-lt (λ a. not (contains (name ∷ s.in_stack) a)) (λ a. not (contains s.in_stack a))
      (keys cf.services) name (unfold contains in λ b h. ground arith) known
      (unfold contains in ground (arith, eq_refl name)) (ground arith)

room-Extends : (cf : ComposeFile) (s t : Search) → Extends cf s t → room cf t ≤ room cf s
room-Extends cf s t h =
    length-select_mono (λ a. not (contains t.in_stack a)) (λ a. not (contains s.in_stack a))
      (keys cf.services) (λ a m. ground (arith, h.stack a))

-- A call does not run out of fuel.
abbrev Ends : ComposeFile → ℕ → (Text → Search → Visit) → Type 0
Ends cf fuel v =
    (name : Text) (s : Search) → Inv cf s → room cf s < fuel → v name s ≢ err out_of_fuel

visit_all-Ends :
    (cf : ComposeFile) (fuel : ℕ) (v : Text → Search → Visit)
    → Visits cf v
    → Ends cf fuel v
    → (ds : List Text) (s : Search) → Inv cf s
    → room cf s < fuel
    → visit_all v ds s ≢ err out_of_fuel
unfolding visit_all
visit_all-Ends cf fuel v rule ends [] s h lt e = cc
visit_all-Ends cf fuel v rule ends (d ∷ ds) s h lt e = elim (Visit-cases (v d s)) [
  | inl (u, first) ↦
      let (ext, done) = rule d s u h first in
      visit_all-Ends cf fuel v rule ends ds u ext.inv (omega (arith, room-Extends cf s u ext))
        (rw first at e)
  | inr (x, first) ↦ ends d s h lt (ground arith)
]

and_then-ne :
    (m : Visit) (k : Search → Visit)
    → m ≢ err out_of_fuel
    → ((u : Search) → k u ≢ err out_of_fuel)
    → and_then m k ≢ err out_of_fuel
and_then-ne (ok u) k h g e = g u e
and_then-ne (err x) k h g e = h e

visit-Ends : (cf : ComposeFile) (fuel : ℕ) → Ends cf fuel (visit cf fuel)
unfolding visit
visit-Ends cf zero name s h lt e = absurd (omega arith)
visit-Ends cf (suc fuel) name s h lt e = elim (Bool-cases (contains s.in_stack name)) [
  | inl on ↦ ground arith
  | inr off ↦ elim (Bool-cases (contains s.visited name)) [
    | inl seen ↦ ground arith
    | inr new ↦ elim (Option-cases (lookup name cf.services)) [
      | inl missing ↦ ground arith
      | inr (svc, found) ↦
          and_then-ne (visit_all (visit cf fuel) svc.depends_on (enter name s)) (finish name)
            (visit_all-Ends cf fuel (visit cf fuel) (visit-Extends cf fuel) (visit-Ends cf fuel)
              svc.depends_on (enter name s) (enter-Inv cf name s h)
              (omega (arith, room-enter cf name s (contains-keys cf.services name svc found) off)))
            (λ u. λ q. cc) (rw (off, new, found) at e)
    ]
  ]
]

-- The search ends: with as many nested calls as there are services, and one, it returns an order
-- or one of the errors of the source.
pub start_order-ends : (cf : ComposeFile) → start_order cf ≢ err out_of_fuel
unfolding start_order
start_order-ends cf =
    visit_all-Ends cf (suc (length cf.services)) (visit cf (suc (length cf.services)))
      (visit-Extends cf (suc (length cf.services))) (visit-Ends cf (suc (length cf.services)))
      (keys cf.services) start (Inv-start cf)
      (omega (
        arith,
        length-select-le (λ a. not (contains start.in_stack a)) (keys cf.services),
        length-keys cf.services,
      ))

-- Every dependency is a service, and a rank falls along the dependencies: they have no cycle.
pub record IsRanked (cf : ComposeFile) (rank : Text → ℕ) : Type 0 where
  pub declared :
      (name d : Text) → contains (depends cf name) d ≡ true → contains (keys cf.services) d ≡ true
  pub falls : (name d : Text) → contains (depends cf name) d ≡ true → rank d < rank name

abbrev Below : (Text → ℕ) → Text → Search → Type 0
Below rank name s = (a : Text) → contains s.in_stack a ≡ true → rank name < rank a

module _ (cf : ComposeFile) (rank : Text → ℕ) (ranked : IsRanked cf rank) where
  abbrev Succeeds : ℕ → (Text → Search → Visit) → Type 0
  Succeeds fuel v =
      (name : Text) (s : Search)
      → Inv cf s
      → room cf s < fuel
      → contains (keys cf.services) name ≡ true
      → Below rank name s
      → (t : Search) × (v name s ≡ ok t)

  visit_all-Succeeds :
      (fuel : ℕ) (v : Text → Search → Visit)
      → Visits cf v
      → Succeeds fuel v
      → (ds : List Text) (s : Search) → Inv cf s
      → room cf s < fuel
      → ((d : Text) → contains ds d ≡ true → contains (keys cf.services) d ≡ true)
      → ((d : Text) → contains ds d ≡ true → Below rank d s)
      → (t : Search) × (visit_all v ds s ≡ ok t)
  unfolding visit_all contains
  visit_all-Succeeds fuel v rule good [] s h lt known below = (s, refl)
  visit_all-Succeeds fuel v rule good (d ∷ ds) s h lt known below =
      let here : contains (d ∷ ds) d ≡ true = ground (arith, eq_refl d) in
      let (u, first) = good d s h lt (known d here) (below d here) in
      let (ext, done) = rule d s u h first in
      let (t, rest) =
        visit_all-Succeeds fuel v rule good ds u ext.inv (omega (arith, room-Extends cf s u ext))
          (λ a m. known a (ground arith))
          (λ a m b k. below a (ground arith) b (ground (arith, ext.stack b))) in
      (t, rw first rest)

  visit-Succeeds : (fuel : ℕ) → Succeeds fuel (visit cf fuel)
  unfolding visit
  visit-Succeeds zero name s h lt known below = absurd (omega arith)
  visit-Succeeds (suc fuel) name s h lt known below = elim (Bool-cases (contains s.in_stack name)) [
    | inl on ↦ absurd (omega (arith, below name on))
    | inr off ↦ elim (Bool-cases (contains s.visited name)) [
      | inl seen ↦ (s, rw (off, seen))
      | inr new ↦
          let (svc, found) = lookup_of_keys cf.services name known in
          let (u, all) =
            visit_all-Succeeds fuel (visit cf fuel) (visit-Extends cf fuel) (visit-Succeeds fuel)
              svc.depends_on (enter name s) (enter-Inv cf name s h)
              (omega (arith, room-enter cf name s known off))
              (λ d m. ranked.declared name d (rw (found, depends) m))
              (unfold contains in
                λ d m a k.
                  ground
                    (arith, ranked.falls name d (rw (found, depends) m), below a, eq_iff name a)) in
          (finished name u, rw (off, new, found, all))
    ]
  ]

-- A compose file whose dependencies are all services and have no cycle is given an order.
pub start_order-succeeds :
    (cf : ComposeFile) (rank : Text → ℕ) → IsRanked cf rank → (t : Search) × (start_order cf ≡ ok t)
unfolding start_order
start_order-succeeds cf rank ranked =
    let fuel = suc (length cf.services) in
    visit_all-Succeeds cf rank ranked fuel (visit cf fuel) (visit-Extends cf fuel)
      (visit-Succeeds cf rank ranked fuel) (keys cf.services) start (Inv-start cf)
      (omega (
        arith,
        length-select-le (λ a. not (contains start.in_stack a)) (keys cf.services),
        length-keys cf.services,
      ))
      (λ d m. m) (unfold contains in λ d m a k. cc)
