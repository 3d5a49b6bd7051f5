-- ===== src/Compose/Tests.antt =====
-- Compose files, and the theorems at them.
use thrive.Prelude.{
  ℕ, ◌∷◌, cut_prefix, has, ◌≡◌, ◌≢◌, refl, true, List, [], none, some, arith, Text, text, ◌=ᵗ◌,
  eq_iff, Dict, itoa, digits_onto, lookup, keys, contains, add_key, if◌then◌else◌,
}
use thrive.Compose.{ComposeFile, ServiceDef}
use thrive.Compose.StartOrder.{
  circular_dependency, not_found, out_of_fuel, Search, ok, err, start_order,
}
use thrive.Compose.StartOrder.Fuel.{IsRanked, start_order-ends, start_order-succeeds}
use thrive.Compose.Ports.{PortMapping, IsPrintable, print_port, parse_port, parse_port-print}
use thrive.Compose.Names.{service_prefix, extends, replica_id}
use thrive.Compose.StartOrder.Sound.{IsStartOrder, start_order-IsStartOrder}

abbrev service : List Text → ServiceDef
service depends_on = record {
  image = text "img";
  build = none;
  command = [];
  environment = [];
  ports = [];
  volumes = [];
  networks = [];
  depends_on = depends_on;
  restart = [];
}

abbrev file : Dict ServiceDef → ComposeFile
file services = record { version = []; services = services; networks = []; volumes = [] }

-- "web" waits for "db" and "cache", and "cache" for "db".
abbrev app : ComposeFile
app = file (
    (text "web", service (text "db" ∷ text "cache" ∷ []))
    ∷ (text "cache", service (text "db" ∷ []))
    ∷ (text "db", service [])
    ∷ [])

abbrev app_order : List Text
app_order = text "db" ∷ text "cache" ∷ text "web" ∷ []

abbrev app_end : Search
app_end = record { visited = app_order; in_stack = []; result = app_order }

program : Unit {0}
unfolding start_order ◌=ᵗ◌ lookup contains add_key
program = tt

ordered : start_order app ≡ ok app_end
unfolding program
ordered = refl

looped :
    start_order
      (file ((text "a", service (text "b" ∷ [])) ∷ (text "b", service (text "a" ∷ [])) ∷ []))
    ≡ err (circular_dependency (text "a"))
unfolding program
looped = refl

undeclared :
    start_order (file ((text "a", service (text "b" ∷ [])) ∷ [])) ≡ err (not_found (text "b"))
unfolding program
undeclared = refl

start_order-IsStartOrder_example : IsStartOrder app app_order
start_order-IsStartOrder_example = start_order-IsStartOrder app app_end ordered

start_order-ends_example : start_order app ≢ err out_of_fuel
start_order-ends_example = start_order-ends app

abbrev small : ComposeFile
small = file ((text "b", service (text "a" ∷ [])) ∷ (text "a", service []) ∷ [])

small_rank : Text → ℕ
small_rank name = if name =ᵗ text "b" then 1 else 0

small-IsRanked : IsRanked small small_rank
unfolding lookup contains keys small_rank
small-IsRanked = record {
  declared = λ name d m.
      ground (arith, eq_iff (text "b") name, eq_iff (text "a") name, eq_iff (text "a") d);
  falls = λ name d m. ground (
    arith,
    eq_iff (text "b") name,
    eq_iff (text "a") name,
    eq_iff (text "a") d,
    eq_iff d (text "b"),
    eq_iff name (text "b"),
  );
}

start_order-succeeds_example : (t : Search) × (start_order small ≡ ok t)
start_order-succeeds_example = start_order-succeeds small small_rank small-IsRanked

abbrev web_port : PortMapping
web_port = record { host_port = 8080; container_port = 80; protocol = text "udp" }

web_port-IsPrintable : IsPrintable web_port
unfolding has
web_port-IsPrintable = record {
  host = (omega arith, omega arith);
  container = (omega arith, omega arith);
  protocol = refl;
}

parse_port-print_example : parse_port (print_port web_port) ≡ some web_port
parse_port-print_example = parse_port-print web_port web_port-IsPrintable

printed : print_port web_port ≡ text "8080:80/udp"
unfolding itoa digits_onto
printed = refl

abbrev entries : List Text
entries = text "app-b-c-1" ∷ text "app-a-1" ∷ text "app-b-0" ∷ []

entries-collision : contains entries (replica_id (text "app") (text "b-c") 1) ≡ true
unfolding contains itoa digits_onto ◌=ᵗ◌
entries-collision = refl

here : contains entries (text "app-b-0") ≡ true
unfolding contains ◌=ᵗ◌
here = refl

begins : extends (service_prefix (text "app") (text "b")) (text "app-b-0") ≡ true
unfolding extends cut_prefix
begins = refl
