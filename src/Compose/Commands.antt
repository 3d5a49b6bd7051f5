-- ===== src/Compose/Commands.antt =====
-- The commands of compose.go over containers: Up, Stop, Start, Kill, Restart, Rm, Down, Ps and Pull.
-- Messages
-- are left out.
use thrive.Prelude.{
  ℕ, Bool, true, false, not, ◌&&◌, Option, none, some, List, [], ◌∷◌, ◌++◌, Text, text, ◌=ᵗ◌, Dict,
  lookup, keys, is_empty, ltb, cut, if◌then◌else◌,
}
use thrive.Compose.{ServiceDef, ComposeFile, filter_services}
use thrive.Compose.StartOrder.{ok, err, start_order}
use thrive.Compose.Ports.{parse_compose_ports}
use thrive.Compose.Names.{service_ids, replica_id}
use thrive.Compose.Engine.{
  Mount, ContainerConfig, Engine, CommandError, no_image, pull_failed, create_failed, start_failed,
  state_failed, kill_failed, delete_failed, still_running, network_failed, volume_failed,
  order_failed, for_each, indices,
}

pub record ServiceStatus : Type 0 where
  pub name : Text
  pub id : Text
  pub status : Text

unfoldable pub env_vars : Dict Text → List Text
env_vars [] = []
env_vars ((k, v) ∷ environment) = (k ++ b'=' ∷ v) ∷ env_vars environment

abbrev pub first_network : List Text → Text
first_network [] = []
first_network (n ∷ networks) = n

-- scales[name], at least one.
abbrev pub replicas_of : Dict ℕ → Text → ℕ
replicas_of scales name = elim (lookup name scales) [ none ↦ 1 | some n ↦ if ltb n 1 then 1 else n ]

module _ {W : Type 0} (engine : Engine W) where
  unfoldable pub check : CommandError → W × Bool → W × Option CommandError
  check e (w, done) = (w, if done then none else some e)

  unfoldable pub parse_compose_volumes : List Text → W → W × List Mount
  parse_compose_volumes [] w = (w, [])
  parse_compose_volumes (spec ∷ specs) w = elim (cut b':' spec) [
    | none ↦
        let (v, mounts) = parse_compose_volumes specs w in
        (
          v,
          record { source = spec; destination = spec; mount_type = text "bind"; options = [] }
              ∷ mounts,
        )
    | some (src, dest) ↦
        let ensured : W × Option Text =
          if engine.is_named_volume src then engine.ensure_volume src w else (w, none) in
        let path = elim ensured.1 as (λ _. Text) [ none ↦ src | some p ↦ p ] in
        let (v, mounts) = parse_compose_volumes specs ensured.0 in
        (
          v,
          record {
            source = path;
            destination = dest;
            mount_type = text "bind";
            options = text "rbind" ∷ [];
          }
              ∷ mounts,
        )
  ]

  abbrev pub config_of : Text → ServiceDef → List Mount → ContainerConfig
  config_of id svc mounts = record {
    id = id;
    image = svc.image;
    command = svc.command;
    env = env_vars svc.environment;
    ports = parse_compose_ports svc.ports;
    mounts = mounts;
    network_mode = first_network svc.networks;
    restart_policy = if is_empty svc.restart then none else engine.parse_restart_policy svc.restart;
  }

  -- The pull, the creation and the start of a replica.
  unfoldable pub start_service_at : Text → Text → ServiceDef → ℕ → W → W × Option CommandError
  start_service_at project name svc index w =
      let id = replica_id project name index in
      let (pulled, has_image) = engine.pull svc.image w in
      let (mounted, mounts) = parse_compose_volumes svc.volumes pulled in
      let (created, made) = engine.create (config_of id svc mounts) mounted in
      if is_empty svc.image
      then (w, some (no_image name))
      else if not has_image
      then (pulled, some (pull_failed svc.image))
      else if not made
      then (created, some (create_failed name))
      else check (start_failed name) (engine.start id created)

  unfoldable pub ensure_network : Text → W → W × Option CommandError
  ensure_network name w =
      let (v, found) = engine.has_network name w in
      if found then (v, none) else check (network_failed name) (engine.create_network name v)

  unfoldable pub ensure_volume : Text → W → W × Option CommandError
  ensure_volume name w =
      let (v, path) = engine.ensure_volume name w in
      (v, elim path [ none ↦ some (volume_failed name) | some p ↦ none ])

  unfoldable pub ensure_resources : ComposeFile → W → W × Option CommandError
  ensure_resources cf w =
      let (v, e) = for_each (keys cf.networks) ensure_network w in
      elim e [ some error ↦ (v, some error) | none ↦ for_each (keys cf.volumes) ensure_volume v ]

  -- The body of the loop over the order. Every name in it is a service; one that is none would be a nil
  -- dereference, and is an error here.
  unfoldable pub up_service : ComposeFile → Text → Dict ℕ → Text → W → W × Option CommandError
  up_service cf project scales name w = elim (lookup name cf.services) [
    | none ↦ (w, some (no_image name))
    | some svc ↦
        for_each (indices 1 (replicas_of scales name)) (λ i. start_service_at project name svc i) w
  ]

  unfoldable pub up_scaled : ComposeFile → Text → Dict ℕ → W → W × Option CommandError
  up_scaled cf project scales w =
      let (v, e) = ensure_resources cf w in
      elim e [
        | some error ↦ (v, some error)
        | none ↦ elim (start_order cf) [
          | err error ↦ (v, some (order_failed error))
          | ok s ↦ for_each s.result (up_service cf project scales) v
        ]
      ]

  abbrev pub up : ComposeFile → Text → W → W × Option CommandError
  up cf project w = up_scaled cf project [] w

  unfoldable pub pull_service : ComposeFile → Text → W → W × Option CommandError
  pull_service cf name w = elim (lookup name cf.services) [
    | none ↦ (w, none)
    | some svc ↦
        if is_empty svc.image then (w, none) else check (pull_failed name) (engine.pull svc.image w)
  ]

  unfoldable pub pull : ComposeFile → List Text → W → W × Option CommandError
  pull cf targets w = for_each (filter_services cf targets) (pull_service cf) w

  -- A command on each container of each service that is named.
  unfoldable pub on_containers :
      List Text → Text → (Text → Text → W → W × Option CommandError) → W → W × Option CommandError
  on_containers names project f w =
      for_each names (λ name v. for_each (service_ids (engine.entries v) project name) (f name) v) w

  abbrev pub is_running : Option Text → Bool
  is_running none = false
  is_running (some status) = status =ᵗ text "running"

  -- SIGTERM, the wait up to the deadline, SIGKILL, and the wait for the state.
  unfoldable pub stop_one : ℕ → Text → Text → W → W × Option CommandError
  stop_one timeout name id w =
      let (v, status) = engine.state id w in
      let waited = engine.await_stopped id timeout (engine.kill id 15 v).0 in
      if is_running status then (engine.wait id (engine.kill id 9 waited).0, none) else (v, none)

  unfoldable pub stop : ComposeFile → Text → List Text → ℕ → W → W × Option CommandError
  stop cf project targets timeout w =
      on_containers (filter_services cf targets) project (stop_one timeout) w

  unfoldable pub start_one : Text → Text → W → W × Option CommandError
  start_one name id w =
      let (v, status) = engine.state id w in
      elim status [
        | none ↦ (v, some (state_failed name))
        | some s ↦
            let (u, reset) : W × Bool =
              if s =ᵗ text "created" then (v, true) else engine.reset_to_created id v in
            if s =ᵗ text "running"
            then (v, none)
            else if reset
            then check (start_failed name) (engine.start id u)
            else (u, some (start_failed name))
      ]

  unfoldable pub start : ComposeFile → Text → List Text → W → W × Option CommandError
  start cf project targets w = on_containers (filter_services cf targets) project start_one w

  unfoldable pub kill_one : ℕ → Text → Text → W → W × Option CommandError
  kill_one sig name id w =
      let (v, status) = engine.state id w in
      if is_running status then check (kill_failed name) (engine.kill id sig v) else (v, none)

  unfoldable pub kill : ComposeFile → Text → List Text → ℕ → W → W × Option CommandError
  kill cf project targets sig w =
      on_containers (filter_services cf targets) project (kill_one sig) w

  unfoldable pub restart : ComposeFile → Text → List Text → ℕ → W → W × Option CommandError
  restart cf project targets timeout w =
      let (v, e) = stop cf project targets timeout w in
      elim e [ some error ↦ (v, some error) | none ↦ start cf project targets v ]

  unfoldable pub rm_one : Bool → Text → Text → W → W × Option CommandError
  rm_one force name id w =
      let (v, status) = engine.state id w in
      elim status [
        | none ↦ (v, none)
        | some s ↦
            let killed = if s =ᵗ text "running" then (engine.kill id 9 v).0 else v in
            if (s =ᵗ text "running") && not force
            then (v, some (still_running name))
            else check (delete_failed name) (engine.delete id killed)
      ]

  unfoldable pub rm : ComposeFile → Text → List Text → Bool → W → W × Option CommandError
  rm cf project targets force w =
      on_containers (filter_services cf targets) project (rm_one force) w

  -- `Down` goes on after an error and keeps the first one.
  unfoldable pub down_ids : Text → List Text → W × Option CommandError → W × Option CommandError
  down_ids name [] p = p
  down_ids name (id ∷ ids) (w, e) =
      let (v, status) = engine.state id w in
      let signalled = if is_running status then (engine.kill id 15 v).0 else v in
      let (u, deleted) = engine.delete id signalled in
      let first : Option CommandError = elim e [
        | some error ↦ some error
        | none ↦ some (delete_failed name)
      ] in
      down_ids name ids (elim status [ none ↦ (v, e) | some s ↦ (u, if deleted then e else first) ])

  unfoldable pub down_names : List Text → Text → W × Option CommandError → W × Option CommandError
  down_names [] project p = p
  down_names (name ∷ names) project p =
      down_names names project (down_ids name (service_ids (engine.entries p.0) project name) p)

  unfoldable pub down : ComposeFile → Text → W → W × Option CommandError
  down cf project w = down_names (keys cf.services) project (w, none)

  abbrev pub start_service : Text → Text → ServiceDef → W → W × Option CommandError
  start_service project name svc w = start_service_at project name svc 1 w

  -- The statuses of the containers of a service, and of all services.
  unfoldable pub ps_ids : Text → List Text → W → W × List ServiceStatus
  ps_ids name [] w = (w, [])
  ps_ids name (id ∷ ids) w =
      let (v, found) = engine.state id w in
      let status = elim found as (λ _. Text) [ none ↦ text "not started" | some s ↦ s ] in
      let (u, rest) = ps_ids name ids v in
      (u, record { name = name; id = id; status = status } ∷ rest)

  unfoldable pub ps_names : List Text → Text → W → W × List ServiceStatus
  ps_names [] project w = (w, [])
  ps_names (name ∷ names) project w =
      let (v, first) = ps_ids name (service_ids (engine.entries w) project name) w in
      let (u, rest) = ps_names names project v in (u, first ++ rest)

  unfoldable pub ps : ComposeFile → Text → W → W × List ServiceStatus
  ps cf project w = ps_names (keys cf.services) project w
