-- ===== src/Stacks/Tests.antt =====
-- stack.go on a machine that still has the containers of an earlier deployment.
use thrive.Prelude.{
  ℕ, false, ◌≡◌, refl, true, none, some, [], ◌∷◌, Text, text, ◌=ᵗ◌, lookup, insert, every, keys,
  select, cut_prefix, sort, sort_insert, less,
}
use thrive.Compose.{ServiceDef, ComposeFile}
use thrive.Compose.Names.{extends}
use thrive.Runtime.{Host, World, spawned}
use thrive.Runtime.Calls.{no_files}
use thrive.Swarm.{State, is_initialised, valid_service_name}
use thrive.Services.{
  service_containers, reconcile, reconcile_service, remove_extras, start_missing, start_rest,
  create_service, backwards,
}
use thrive.Stacks.{Swarm, spec_of, deploy_all, deploy_stack, remove_stack}
use thrive.Stacks.Roundtrip.{remove_stack-deploy_stack}

-- Every call succeeds, and each process has the number 7.
abbrev willing : Host ℕ
willing = record {
  call = λ c h. (h, true);
  mount_image = λ image id h. (h, some (text "/m"));
  read_env = λ image h. [];
  swarm_config = λ name h. none;
  exists = λ path h. true;
  join = λ parts. [];
  inside_vm = λ h. false;
  open_pty = λ h. (h, true);
  spawn = λ p h. (h, spawned 7);
  alive = λ pid h. true;
}

abbrev definition : Text → ServiceDef
definition image = record {
  image = image;
  build = none;
  command = [];
  environment = (text "A", text "1") ∷ [];
  ports = [];
  volumes = [];
  networks = text "back" ∷ [];
  depends_on = [];
  restart = [];
}

abbrev compose : ComposeFile
compose = record {
  version = [];
  services = (text "web", definition (text "nginx")) ∷ (text "db", definition (text "redis")) ∷ [];
  networks = [];
  volumes = [];
}

abbrev node : State
node = record {
  initialized = true;
  node_id = text "n";
  manager = true;
  manager_addr = [];
  created = 0;
  worker_token = [];
  manager_token = [];
}

abbrev machine : World ℕ
machine = record {
  containers = (text "swarm-app_web-1", no_files) ∷ (text "swarm-app_db-1", no_files) ∷ [];
  reapers = [];
  events = [];
  machine = record {
    links = record {
      store = record { networks = []; bridges = [] };
      pools = [];
      bridge_pool = record { counter = 0; ips = [] };
      attached = [];
    };
    host = 0;
  };
}

abbrev swarm : Swarm ℕ
swarm = record {
  cluster = record { file = some node; services = []; world = machine };
  stacks = [];
}

deployed : (deploy_stack willing (text "app") compose 3 swarm).1 ≡ none
unfolding deploy_stack deploy_all create_service is_initialised valid_service_name reconcile
    reconcile_service remove_extras start_missing start_rest service_containers lookup insert every
    keys select extends cut_prefix sort sort_insert less ◌=ᵗ◌ backwards spec_of
deployed = refl

remove_stack-deploy_stack_example :
    let removed =
      remove_stack willing (text "app") (deploy_stack willing (text "app") compose 3 swarm).0 in
    (removed.1 ≡ none)
    × ((svc : Text) → lookup svc removed.0.cluster.services ≡ none)
    × ((stack : Text) → lookup stack removed.0.stacks ≡ none)
unfolding lookup
remove_stack-deploy_stack_example =
    remove_stack-deploy_stack willing (text "app") compose 3 swarm deployed
