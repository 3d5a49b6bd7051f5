-- ===== src/Compose/StartOrder/Loop.antt =====
-- The invariant of the search.
use thrive.Prelude.{
  ℕ, zero, suc, ◌≡◌, refl, ◌⊎◌, inl, inr, true, false, ◌||◌, none, some, Option-cases, Bool-cases,
  List, [], ◌∷◌, ◌++◌, arith, Text, ◌=ᵗ◌, eq_iff, eq_refl, lookup, keys, contains, contains-snoc,
  contains-keys, add_key, contains-add_key, IsNodup, IsNodup-snoc, if◌then◌else◌,
}
use thrive.Compose.{ComposeFile, ServiceDef}
use thrive.Compose.StartOrder.{
  VisitError, Search, Visit, ok, err, and_then, clear, visit_all, finish, visit, start,
}

-- `svc.DependsOn` of a name.
abbrev pub depends : ComposeFile → Text → List Text
depends cf name = elim (lookup name cf.services) [ none ↦ [] | some svc ↦ svc.depends_on ]

-- Each name stands behind all that it depends on.
abbrev pub IsOrdered : ComposeFile → List Text → List Text → Type 0
IsOrdered cf seen [] = Unit
IsOrdered cf seen (x ∷ xs) =
    ((d : Text) → contains (depends cf x) d ≡ true → contains seen d ≡ true)
    × IsOrdered cf (x ∷ seen) xs

IsOrdered-snoc :
    (cf : ComposeFile) (seen xs : List Text) (n : Text)
    → IsOrdered cf seen xs
    → ((d : Text) → contains (depends cf n) d ≡ true → (contains seen d || contains xs d) ≡ true)
    → IsOrdered cf seen (xs ++ n ∷ [])
unfolding contains
IsOrdered-snoc cf seen [] n h new = (λ d k. ground (arith, new d k), tt)
IsOrdered-snoc cf seen (x ∷ xs) n h new =
    (h.0, IsOrdered-snoc cf (x ∷ seen) xs n h.1 (λ d k. ground (arith, new d k)))

pub record Inv (cf : ComposeFile) (s : Search) : Type 0 where
  pub same : (a : Text) → contains s.visited a ≡ contains s.result a
  pub once : IsNodup s.result
  pub known : (a : Text) → contains s.result a ≡ true → contains (keys cf.services) a ≡ true
  pub ordered : IsOrdered cf [] s.result

pub Inv-start : (cf : ComposeFile) → Inv cf start
unfolding contains
Inv-start cf = record { same = λ a. refl; once = tt; known = λ a h. cc; ordered = tt }

-- What a successful visit does: the stack is as before, finished names stay finished, and no name
-- on the stack is finished.
pub record Extends (cf : ComposeFile) (s t : Search) : Type 0 where
  pub inv : Inv cf t
  pub stack : (a : Text) → contains t.in_stack a ≡ contains s.in_stack a
  pub grows : (a : Text) → contains s.result a ≡ true → contains t.result a ≡ true
  pub keeps : (a : Text) → contains s.in_stack a ≡ true → contains t.result a ≡ contains s.result a

Extends-refl : (cf : ComposeFile) (s : Search) → Inv cf s → Extends cf s s
Extends-refl cf s h = record { inv = h; stack = λ a. refl; grows = λ a m. m; keeps = λ a m. refl }

Extends-trans :
    (cf : ComposeFile) (s t u : Search) → Extends cf s t → Extends cf t u → Extends cf s u
Extends-trans cf s t u h k = record {
  inv = k.inv;
  stack = λ a. ground (arith, h.stack a, k.stack a);
  grows = λ a m. k.grows a (h.grows a m);
  keeps = λ a m. ground (arith, h.stack a, h.keeps a, k.keeps a);
}

pub and_then-eq-ok :
    (m : Visit) (k : Search → Visit) {t : Search}
    → and_then m k ≡ ok t
    → (u : Search) × (m ≡ ok u) × (k u ≡ ok t)
and_then-eq-ok (ok u) k h = (u, refl, h)
and_then-eq-ok (err e) k h = cc

contains-clear :
    (n : Text) (xs : List Text) (a : Text)
    → contains (clear n xs) a ≡ (if n =ᵗ a then false else contains xs a)
unfolding clear contains
contains-clear n [] a = ground arith
contains-clear n (x ∷ xs) a =
    ground (arith, contains-clear n xs a, eq_iff x n, eq_iff n a, eq_iff x a)

-- What a successful call of `visit name` gives.
abbrev pub Visits : ComposeFile → (Text → Search → Visit) → Type 0
Visits cf v =
    (name : Text) (s t : Search)
    → Inv cf s
    → v name s ≡ ok t
    → Extends cf s t × (contains t.result name ≡ true)

pub Visit-cases : (r : Visit) → ((u : Search) × (r ≡ ok u)) ⊎ ((x : VisitError) × (r ≡ err x))
Visit-cases (ok u) = inl (u, refl)
Visit-cases (err x) = inr (x, refl)

pub visit_all-Extends :
    (cf : ComposeFile) (v : Text → Search → Visit)
    → Visits cf v
    → (ds : List Text) (s t : Search) → Inv cf s
    → visit_all v ds s ≡ ok t
    → Extends cf s t × ((d : Text) → contains ds d ≡ true → contains t.result d ≡ true)
unfolding visit_all contains
visit_all-Extends cf v rule [] s t h e =
    let same : s ≡ t = ground arith in rw (← same) (Extends-refl cf s h, λ d m. cc)
visit_all-Extends cf v rule (d ∷ ds) s t h e =
    let (u, first, rest) = and_then-eq-ok (v d s) (visit_all v ds) e in
    let (ext, done) = rule d s u h first in
    let (ext', all) = visit_all-Extends cf v rule ds u t ext.inv rest in
    (Extends-trans cf s u t ext ext', λ a m. ground (arith, all a, ext'.grows a, eq_iff d a))

abbrev pub enter : Text → Search → Search
enter name s = record s { in_stack = name ∷ s.in_stack }

pub enter-Inv : (cf : ComposeFile) (name : Text) (s : Search) → Inv cf s → Inv cf (enter name s)
enter-Inv cf name s h = record {
  same = h.same;
  once = h.once;
  known = h.known;
  ordered = h.ordered;
}

finish-Extends :
    (cf : ComposeFile) (name : Text) (svc : ServiceDef) (s u t : Search)
    → Inv cf s
    → lookup name cf.services ≡ some svc
    → contains s.in_stack name ≡ false
    → contains s.visited name ≡ false
    → Extends cf (enter name s) u
    → ((d : Text) → contains svc.depends_on d ≡ true → contains u.result d ≡ true)
    → finish name u ≡ ok t
    → Extends cf s t × (contains t.result name ≡ true)
unfolding contains
finish-Extends cf name svc s u t h found off new ext all e =
    let made : record {
      visited = add_key u.visited name;
      in_stack = clear name u.in_stack;
      result = u.result ++ name ∷ [];
    }
        ≡ t =
      ground arith in
    let fresh : contains u.result name ≡ false =
      ground (arith, ext.keeps name, h.same name, eq_refl name) in
    rw (← made) (
      record {
        inv = record {
          same = λ a. ground (
            arith,
            contains-add_key u.visited name a,
            contains-snoc u.result name a,
            ext.inv.same a,
          );
          once = IsNodup-snoc u.result name fresh ext.inv.once;
          known = λ a m. ground (
            arith,
            contains-snoc u.result name a,
            ext.inv.known a,
            eq_iff name a,
            contains-keys cf.services name svc,
          );
          ordered =
              IsOrdered-snoc cf [] u.result name ext.inv.ordered (λ d k. ground (arith, all d));
        };
        stack = λ a. ground (arith, contains-clear name u.in_stack a, ext.stack a, eq_iff name a);
        grows = λ a m. ground (arith, contains-snoc u.result name a, ext.grows a);
        keeps = λ a m. ground (arith, contains-snoc u.result name a, ext.keeps a, eq_iff name a);
      },
      ground (arith, contains-snoc u.result name name, eq_refl name),
    )

pub visit-Extends : (cf : ComposeFile) (fuel : ℕ) → Visits cf (visit cf fuel)
unfolding visit
visit-Extends cf zero name s t h e = cc
visit-Extends cf (suc fuel) name s t h e = elim (Bool-cases (contains s.in_stack name)) [
  | inl on ↦ ground arith
  | inr off ↦ elim (Bool-cases (contains s.visited name)) [
    | inl seen ↦
        let same : s ≡ t = ground arith in
        rw (← same) (Extends-refl cf s h, ground (arith, h.same name))
    | inr new ↦ elim (Option-cases (lookup name cf.services)) [
      | inl missing ↦ ground arith
      | inr (svc, found) ↦
          let ran : and_then (visit_all (visit cf fuel) svc.depends_on (enter name s)) (finish name)
              ≡ ok t =
            rw (off, new, found) at e in
          let (u, all, last) =
            and_then-eq-ok (visit_all (visit cf fuel) svc.depends_on (enter name s)) (finish name)
              ran in
          let (ext, done) =
            visit_all-Extends cf (visit cf fuel) (visit-Extends cf fuel) svc.depends_on
              (enter name s) u (enter-Inv cf name s h) all in
          finish-Extends cf name svc s u t h found off new ext done last
    ]
  ]
]
