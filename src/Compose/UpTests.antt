-- ===== src/Compose/UpTests.antt =====
-- `Up` on an engine that notes what it starts.
use thrive.Prelude.{
  ℕ, ◌≡◌, refl, ap, true, false, List, [], ◌∷◌, none, some, Text, text, ◌=ᵗ◌, Dict, lookup, keys,
  contains, add_key, itoa, digits_onto,
}
use thrive.Compose.{ComposeFile, ServiceDef}
use thrive.Compose.StartOrder.{start_order}
use thrive.Compose.Engine.{Engine, for_each, indices}
use thrive.Compose.Commands.{
  up_scaled, up_service, ensure_resources, ensure_network, start_service_at, parse_compose_volumes,
  check,
}
use thrive.Compose.Up.{IsUp, up_scaled-IsUp}

abbrev noting : Engine (List Text)
noting = record {
  entries = λ w. some w;
  state = λ id w. (w, none);
  kill = λ id sig w. (w, true);
  delete = λ id w. (w, true);
  create = λ config w. (w, true);
  start = λ id w. (id ∷ w, true);
  reset_to_created = λ id w. (w, true);
  await_stopped = λ id timeout w. w;
  wait = λ id w. w;
  pull = λ image w. (w, true);
  has_network = λ name w. (w, true);
  create_network = λ name w. (w, true);
  is_named_volume = λ name. false;
  ensure_volume = λ name w. (w, none);
  parse_restart_policy = λ s. none;
}

abbrev service : List Text → ServiceDef
service depends_on = record {
  image = text "img";
  build = none;
  command = [];
  environment = [];
  ports = [];
  volumes = [];
  networks = [];
  depends_on = depends_on;
  restart = [];
}

abbrev shop : ComposeFile
shop = record {
  version = [];
  services = (text "web", service (text "db" ∷ [])) ∷ (text "db", service []) ∷ [];
  networks = (text "front", []) ∷ [];
  volumes = [];
}

abbrev two_webs : Dict ℕ
two_webs = (text "web", 2) ∷ []

came_up :
    up_scaled noting shop (text "p") two_webs []
    ≡ (text "p-web-2" ∷ text "p-web-1" ∷ text "p-db-1" ∷ [], none)
unfolding up_scaled up_service ensure_resources ensure_network start_service_at
    parse_compose_volumes check for_each indices start_order keys lookup contains add_key ◌=ᵗ◌ itoa
    digits_onto
came_up = refl

up_scaled-IsUp_example : IsUp noting shop (text "p") two_webs []
up_scaled-IsUp_example = up_scaled-IsUp noting shop (text "p") two_webs [] (ap (λ p. p.1) came_up)
