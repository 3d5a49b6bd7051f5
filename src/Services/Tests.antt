-- ===== src/Services/Tests.antt =====
-- service.go on a machine with containers of the services "web" and "web-x".
use thrive.Prelude.{
  ℕ, suc, ◌≡◌, refl, Bool, true, false, none, some, [], ◌∷◌, arith, Text, text, ◌=ᵗ◌, contains,
  lookup, keys, IsNodup, Dict, less, select, cut_prefix, sort, sort_insert,
}
use thrive.Runtime.{Host, World, Files, spawned}
use thrive.Compose.Names.{extends}
use thrive.Runtime.Calls.{no_files}
use thrive.Services.{
  Service, ServiceSpec, Cluster, inspect_service, service_containers, reconcile_service,
  remove_service, update_service, rollback_service,
}
use thrive.Services.Removal.{IsRemoved, remove_service-IsRemoved}
use thrive.Services.Shrink.{IsShrunk, reconcile_service-IsShrunk}
use thrive.Services.Grow.{IsReconciled}
use thrive.Services.Converge.{reconcile_service-IsReconciled}
use thrive.Services.Rollback.{rollback_service-update}

-- Every call succeeds, and each process has the number 7.
abbrev willing : Host ℕ
willing = record {
  call = λ c h. (suc h, true);
  mount_image = λ image id h. (h, some (text "/m"));
  read_env = λ image h. [];
  swarm_config = λ name h. none;
  exists = λ path h. true;
  join = λ parts. [];
  inside_vm = λ h. false;
  open_pty = λ h. (h, true);
  spawn = λ p h. (suc h, spawned 7);
  alive = λ pid h. true;
}

abbrev pulls : Text → ℕ → ℕ × Bool
pulls image h = (h, true)

abbrev one_replica : ServiceSpec
one_replica = record {
  image = text "nginx";
  command = [];
  env = [];
  secrets = [];
  configs = [];
  replicas = 1;
  ports = [];
  mounts = [];
  network_mode = [];
  restart = [];
  parallelism = 1;
  delay_secs = 0;
}

abbrev web : Service
web = record { name = text "web"; spec = one_replica; previous = none; created = 0; updated = 0 }

abbrev directories : Dict Files
directories =
    (text "swarm-web-2", no_files)
    ∷ (text "swarm-web-10", no_files)
    ∷ (text "swarm-web-x-1", no_files)
    ∷ []

abbrev machine : World ℕ
machine = record {
  containers = directories;
  reapers = [];
  events = [];
  machine = record {
    links = record {
      store = record { networks = []; bridges = [] };
      pools = [];
      bridge_pool = record { counter = 0; ips = [] };
      attached = [];
    };
    host = 0;
  };
}

abbrev cluster : Cluster ℕ
cluster = record { file = none; services = (text "web", web) ∷ []; world = machine }

web_there : inspect_service (text "web") cluster ≡ some web
unfolding lookup ◌=ᵗ◌
web_there = refl

-- The order of the ids is not that of their indices, and the containers of "web-x" count as well.
found :
    service_containers (text "web") machine
    ≡ text "swarm-web-10" ∷ text "swarm-web-2" ∷ text "swarm-web-x-1" ∷ []
unfolding service_containers keys select extends cut_prefix sort sort_insert less ◌=ᵗ◌
found = refl

directories-IsNodup : IsNodup (keys directories)
unfolding keys contains ◌=ᵗ◌
directories-IsNodup = (refl, (refl, (refl, tt)))

remove_service-IsRemoved_example :
    IsRemoved (text "web") cluster (remove_service willing (text "web") cluster).0
remove_service-IsRemoved_example =
    remove_service-IsRemoved willing (text "web") web cluster web_there

reconcile_service-IsShrunk_example : IsShrunk web machine (reconcile_service willing web machine)
reconcile_service-IsShrunk_example =
    reconcile_service-IsShrunk willing web machine directories-IsNodup (rw found (omega arith))

reconcile_service-IsReconciled_example : IsReconciled web (reconcile_service willing web machine)
reconcile_service-IsReconciled_example =
    reconcile_service-IsReconciled willing web machine directories-IsNodup (rw found (omega arith))

rollback_service-update_example :
    let updated = (update_service willing pulls (text "web") (text "nginx:2") 5 cluster).0 in
    inspect_service (text "web") (rollback_service willing pulls (text "web") 6 updated).0
    ≡ some (record web {
      previous = some (record one_replica { image = text "nginx:2" });
      updated = 6;
    })
rollback_service-update_example =
    rollback_service-update willing pulls web (text "nginx:2") 5 6 cluster web_there refl
