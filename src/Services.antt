-- ===== src/Services.antt =====
-- internal/swarm/service.go: replicated services, over the containers of the runtime. The service files are an
-- association list from their names, less ".json"; they can be read and written. `pull` is the
-- call of package image. Numbers of replicas, batches and seconds are not negative; the pause between batches is left out.
pub mod Removal
pub mod Shrink
pub mod Grow
pub mod Converge
pub mod Rollback
pub mod Tests
use thrive.Prelude.{
  ℕ, zero, suc, ◌+◌, ◌-◌, ◌%◌, ℤ, pos, negsuc, Bool, true, false, not, ◌&&◌, ◌||◌, Option, none,
  some, List, [], ◌∷◌, ◌++◌, Text, text, Dict, lookup, insert, remove, keys, select, sort, is_empty,
  length, ltb, leb, ◌==◌, drop, take, itoa, atoi, if◌then◌else◌,
}
use thrive.Compose.Ports.{PortMapping}
use thrive.Compose.Engine.{Mount}
use thrive.Compose.Names.{extends}
use thrive.Swarm.{File, is_initialised, valid_service_name, container_prefix}
use thrive.Runtime.{
  Host, World, Machine, ConfigMount, ContainerConfig, ResourceLimits, RestartPolicy, Reply, done,
  failed,
}
use thrive.Runtime.Restart.{parse_restart_policy}
use thrive.Runtime.Start.{start}
use thrive.Runtime.Calls.{create, kill, delete}

pub record ServiceSpec : Type 0 where
  pub image : Text
  pub command : List Text
  pub env : List Text
  pub secrets : List Text
  pub configs : List ConfigMount
  pub replicas : ℕ
  pub ports : List PortMapping
  pub mounts : List Mount
  pub network_mode : Text
  pub restart : Text
  pub parallelism : ℕ
  pub delay_secs : ℕ

pub record Service : Type 0 where
  pub name : Text
  pub spec : ServiceSpec
  pub previous : Option ServiceSpec
  pub created : ℕ
  pub updated : ℕ

-- The swarm's state file, the services and the machine.
pub record Cluster (H : Type 0) : Type 0 where
  pub file : File
  pub services : Dict Service
  pub world : World H

pub data ServiceError : Type 0 where
  not_initialised : ServiceError
  invalid_name : ServiceError
  already_exists : ServiceError
  image_required : ServiceError
  not_found : ServiceError
  bad_replicas : ServiceError
  no_previous : ServiceError
  pull_failed : ServiceError
  delete_failed : ServiceError
  create_failed : ServiceError
  start_failed : ServiceError
  stalled : ServiceError

abbrev pub no_limits : ResourceLimits
no_limits = record { memory_limit = 0; cpu_quota = 0; cpu_shares = 0; pids_limit = 0 }

-- The policy of a service; a text that is no policy gives none.
unfoldable pub policy_of : Text → RestartPolicy
policy_of restart = elim (if is_empty restart then none else parse_restart_policy restart) [
  | none ↦ record { name = []; max_retry_attempts = 0 }
  | some policy ↦ policy
]

abbrev pub replica_id : Text → ℕ → Text
replica_id name index = container_prefix name ++ itoa index

abbrev pub replica_config : Service → ℕ → ContainerConfig
replica_config svc index = record {
  id = replica_id svc.name index;
  image = svc.spec.image;
  command = svc.spec.command;
  env = svc.spec.env;
  ports = svc.spec.ports;
  mounts = svc.spec.mounts;
  network_mode = svc.spec.network_mode;
  secrets = svc.spec.secrets;
  configs = svc.spec.configs;
  resources = no_limits;
  restart_policy = policy_of svc.spec.restart;
  tty = false;
  interactive = false;
}

-- 0 for what is not a positive number, which the callers do not tell apart.
unfoldable pub container_index : Text → Text → ℕ
container_index name id = elim (atoi (drop (length (container_prefix name)) id)) [
  | none ↦ 0
  | some (pos n) ↦ n
  | some (negsuc n) ↦ 0
]

unfoldable pub has_index : List ℕ → ℕ → Bool
has_index [] i = false
has_index (j ∷ used) i = (j == i) || has_index used i

-- The indices that the containers have.
unfoldable pub used_indices : Text → List Text → List ℕ
used_indices name [] = []
used_indices name (id ∷ ids) =
    let index = container_index name id in
    let rest = used_indices name ids in if ltb 0 index then index ∷ rest else rest

unfoldable pub backwards : List Text → List Text → List Text
backwards acc [] = acc
backwards acc (id ∷ ids) = backwards (id ∷ acc) ids

module _ {H : Type 0} where
  unfoldable pub service_containers : Text → World H → List Text
  service_containers name w = sort (select (extends (container_prefix name)) (keys w.containers))

  abbrev pub inspect_service : Text → Cluster H → Option Service
  inspect_service name c = lookup name c.services

  abbrev pub write_service : Service → Cluster H → Cluster H
  write_service svc c = record c { services = insert svc.name svc c.services }

  module _ (host : Host H) where
    -- SIGKILL, then the removal.
    abbrev pub kill_and_delete : Text → World H → World H × Reply
    kill_and_delete id w = delete id (kill host id (pos 9) w).0

    unfoldable pub start_replica : Service → ℕ → World H → World H × Option ServiceError
    start_replica svc index w =
        let (made, first) = create (replica_config svc index) w in
        let (begun, second) = start host (replica_id svc.name index) made in
        elim first [
          | failed e ↦ (made, some create_failed)
          | done ↦ elim second [
            | failed e ↦ ((delete (replica_id svc.name index) begun).0, some start_failed)
            | done ↦ (begun, none)
          ]
        ]

    -- The first loop of `Reconcile`, on the containers that are to go.
    unfoldable pub remove_extras : List Text → World H → World H × Option ServiceError
    remove_extras [] w = (w, none)
    remove_extras (id ∷ ids) w = elim (kill_and_delete id w).1 [
      | failed e ↦ ((kill_and_delete id w).0, some delete_failed)
      | done ↦ remove_extras ids (kill_and_delete id w).0
    ]

    -- The second loop, from the index on.
    unfoldable pub start_missing :
        ℕ → Service → ℕ → List ℕ → World H → World H × Option ServiceError
    start_missing zero svc index used w = (w, some stalled)
    start_missing (suc fuel) svc index used w =
        let skipped = start_missing fuel svc (suc index) used w in
        let (started, error) = start_replica svc index w in
        let next = start_missing fuel svc (suc index) (index ∷ used) started in
        if not (ltb (length (service_containers svc.name w)) svc.spec.replicas)
        then (w, none)
        else if has_index used index
        then skipped
        else elim error [ some e ↦ (started, some e) | none ↦ next ]

    -- The second loop: it skips each index that is used, and starts as many replicas as are missing.
    unfoldable pub start_rest :
        Service → List Text → World H × Option ServiceError → World H × Option ServiceError
    start_rest svc existing (w, some e) = (w, some e)
    start_rest svc existing (w, none) =
        let fuel = suc (svc.spec.replicas + length existing) in
        start_missing fuel svc 1 (used_indices svc.name existing) w

    unfoldable pub reconcile_service : Service → World H → World H × Option ServiceError
    reconcile_service svc w =
        let existing = service_containers svc.name w in
        let extras = backwards [] (drop svc.spec.replicas existing) in
        start_rest svc (take svc.spec.replicas existing) (remove_extras extras w)

    abbrev pub with_world :
        Cluster H → World H × Option ServiceError → Cluster H × Option ServiceError
    with_world c (w, e) = (record c { world = w }, e)

    unfoldable pub reconcile : Text → Cluster H → Cluster H × Option ServiceError
    reconcile name c = elim (inspect_service name c) [
      | none ↦ (c, some not_found)
      | some svc ↦ with_world c (reconcile_service svc c.world)
    ]

    unfoldable pub delete_all : List Text → World H → World H
    delete_all [] w = w
    delete_all (id ∷ ids) w = delete_all ids (kill_and_delete id w).0

    unfoldable pub remove_service : Text → Cluster H → Cluster H × Option ServiceError
    remove_service name c = elim (inspect_service name c) [
      | none ↦ (c, some not_found)
      | some svc ↦ (
        record c {
          world = delete_all (service_containers name c.world) c.world;
          services = remove name c.services;
        },
        none,
      )
    ]

    unfoldable pub scale_service : Text → ℤ → ℕ → Cluster H → Cluster H × Option ServiceError
    scale_service name (negsuc n) now c = (c, some bad_replicas)
    scale_service name (pos n) now c = elim (inspect_service name c) [
      | none ↦ (c, some not_found)
      | some svc ↦
          let spec = record svc.spec { replicas = n } in
          reconcile name (write_service (record svc { spec = spec; updated = now }) c)
    ]

    abbrev pub at_least_one : ℕ → ℕ
    at_least_one n = if ltb n 1 then 1 else n

    unfoldable pub create_service :
        Text → ServiceSpec → ℕ → Cluster H → Cluster H × Option ServiceError
    create_service name spec now c =
        let full = record spec {
          replicas = at_least_one spec.replicas;
          parallelism = at_least_one spec.parallelism;
        } in
        let svc : Service = record {
          name = name;
          spec = full;
          previous = none;
          created = now;
          updated = now;
        } in
        let made = reconcile name (write_service svc c) in
        if not (is_initialised c.file)
        then (c, some not_initialised)
        else if not (valid_service_name name)
        then (c, some invalid_name)
        else elim (lookup name c.services) [
          | some old ↦ (c, some already_exists)
          | none ↦ if is_empty spec.image then (c, some image_required) else made
        ]

    -- One replica of a batch that begins at the position `start`, counted from 0.
    unfoldable pub replace_one : Service → ℕ → Text → World H → World H × Option ServiceError
    replace_one svc begin id w =
        let index = container_index svc.name id in
        start_replica svc (if index == 0 then suc begin else index) (kill_and_delete id w).0

    -- The batches, from the position on.
    unfoldable pub replace_all : Service → ℕ → List Text → World H → World H × Option ServiceError
    replace_all svc position [] w = (w, none)
    replace_all svc position (id ∷ ids) w =
        let begin = position - position % at_least_one svc.spec.parallelism in
        elim (replace_one svc begin id w).1 [
          | some e ↦ ((replace_one svc begin id w).0, some e)
          | none ↦ replace_all svc (suc position) ids (replace_one svc begin id w).0
        ]

module _ {H : Type 0} (host : Host H) (pull : Text → H → H × Bool) where
  unfoldable pub rolling_replace : Service → Cluster H → Cluster H × Option ServiceError
  rolling_replace svc c =
      let w = c.world in
      let (h, ok) = pull svc.spec.image w.machine.host in
      let pulled = record w { machine = record w.machine { host = h } } in
      let ids = service_containers svc.name pulled in
      let here = record c { world = pulled } in
      if not ok
      then (here, some pull_failed)
      else if is_empty ids
      then reconcile host svc.name here
      else with_world host here (replace_all host svc 0 ids pulled)

  unfoldable pub update_service : Text → Text → ℕ → Cluster H → Cluster H × Option ServiceError
  update_service name image now c = elim (inspect_service name c) [
    | none ↦ (c, some not_found)
    | some svc ↦
        let next = record svc {
          previous = some svc.spec;
          spec = record svc.spec { image = image };
          updated = now;
        } in
        if is_empty image
        then (c, some image_required)
        else rolling_replace next (write_service next c)
  ]

  unfoldable pub rollback_service : Text → ℕ → Cluster H → Cluster H × Option ServiceError
  rollback_service name now c = elim (inspect_service name c) [
    | none ↦ (c, some not_found)
    | some svc ↦ elim svc.previous [
      | none ↦ (c, some no_previous)
      | some old ↦
          let next = record svc { spec = old; previous = some svc.spec; updated = now } in
          rolling_replace next (write_service next c)
    ]
  ]
