-- ===== src/Compose/StartOrder.antt =====
-- `startOrder` of compose.go: depth-first search over `depends_on`.
pub mod Loop
pub mod Fuel
pub mod Sound
use thrive.Prelude.{
  ℕ, zero, suc, Bool, Option, none, some, List, [], ◌∷◌, ◌++◌, Text, ◌=ᵗ◌, Dict, lookup, keys,
  contains, add_key, length, if◌then◌else◌,
}
use thrive.Compose.{ComposeFile, ServiceDef}

pub data VisitError : Type 0 where
  circular_dependency : Text → VisitError
  not_found : Text → VisitError
  out_of_fuel : VisitError

-- The variables that the closure `visit` shares: the names with `visited` true, those with
-- `inStack` true, and `result`.
pub record Search : Type 0 where
  pub visited : List Text
  pub in_stack : List Text
  pub result : List Text

pub data Visit : Type 0 where
  ok : Search → Visit
  err : VisitError → Visit

abbrev pub and_then : Visit → (Search → Visit) → Visit
and_then (ok s) k = k s
and_then (err e) k = err e

-- inStack[name] = false
unfoldable pub clear : Text → List Text → List Text
clear a [] = []
clear a (x ∷ xs) = let rest = clear a xs in if x =ᵗ a then rest else x ∷ rest

-- One visit after another, up to the first error.
unfoldable pub visit_all : (Text → Search → Visit) → List Text → Search → Visit
visit_all visit [] s = ok s
visit_all visit (d ∷ ds) s = and_then (visit d s) (visit_all visit ds)

-- The last statements of `visit`.
abbrev pub finished : Text → Search → Search
finished name s = record {
  visited = add_key s.visited name;
  in_stack = clear name s.in_stack;
  result = s.result ++ name ∷ [];
}

abbrev pub finish : Text → Search → Visit
finish name s = ok (finished name s)

-- `visit`; the fuel bounds the depth of the calls.
unfoldable pub visit : ComposeFile → ℕ → Text → Search → Visit
visit cf zero name s = err out_of_fuel
visit cf (suc fuel) name s =
    let entered = record s { in_stack = name ∷ s.in_stack } in
    let body : Visit = elim (lookup name cf.services) [
      | none ↦ err (not_found name)
      | some svc ↦ and_then (visit_all (visit cf fuel) svc.depends_on entered) (finish name)
    ] in
    if contains s.in_stack name
    then err (circular_dependency name)
    else if contains s.visited name
    then ok s
    else body

abbrev pub start : Search
start = record { visited = []; in_stack = []; result = [] }

-- The stack holds distinct services, so a call stands at most this deep.
unfoldable pub start_order : ComposeFile → Visit
unfolding visit_all visit clear keys
start_order cf = visit_all (visit cf (suc (length cf.services))) (keys cf.services) start
