-- ===== src/Stacks.antt =====
-- internal/swarm/stack.go: a compose file deployed as services of the swarm. The stack files are an association
-- list from their names, less ".json"; they can be read and written. The services and the environment
-- of a compose file are listed in the order of Go's iteration. One deployment has one time.
pub mod Roundtrip
pub mod Tests
use thrive.Prelude.{
  ℕ, Bool, true, false, not, Option, none, some, List, [], ◌∷◌, ◌++◌, Text, Dict, lookup, insert,
  remove, sort, if◌then◌else◌,
}
use thrive.Compose.{ServiceDef, ComposeFile}
use thrive.Swarm.{is_initialised, valid_service_name}
use thrive.Runtime.{Host}
use thrive.Services.{ServiceSpec, ServiceError, Cluster, create_service, remove_service}

pub record Stack : Type 0 where
  pub name : Text
  pub services : List Text
  pub file : Text
  pub deployed : ℕ

-- The services with the directory of stacks.
pub record Swarm (H : Type 0) : Type 0 where
  pub cluster : Cluster H
  pub stacks : Dict Stack

pub data StackError : Type 0 where
  no_swarm : StackError
  invalid_stack : StackError
  stack_exists : StackError
  no_stack : StackError
  deploy_failed : ServiceError → StackError
  remove_failed : ServiceError → StackError

abbrev pub service_name : Text → Text → Text
service_name stack svc = stack ++ b'_' ∷ svc

unfoldable pub service_names : Text → Dict ServiceDef → List Text
service_names stack [] = []
service_names stack ((svc, def) ∷ defs) = service_name stack svc ∷ service_names stack defs

unfoldable pub service_env : Dict Text → List Text
service_env [] = []
service_env ((k, v) ∷ vars) = (k ++ b'=' ∷ v) ∷ service_env vars

unfoldable pub first_network : List Text → Text
first_network [] = []
first_network (network ∷ networks) = network

unfoldable pub spec_of : ServiceDef → ServiceSpec
spec_of def = record {
  image = def.image;
  command = def.command;
  env = service_env def.environment;
  secrets = [];
  configs = [];
  replicas = 1;
  ports = [];
  mounts = [];
  network_mode = first_network def.networks;
  restart = [];
  parallelism = 0;
  delay_secs = 0;
}

module _ {H : Type 0} (host : Host H) where
  -- The loop of `DeployStack`, up to the first service that fails.
  unfoldable pub deploy_all :
      Text → ℕ → Dict ServiceDef → Cluster H → Cluster H × Option ServiceError
  deploy_all stack now [] c = (c, none)
  deploy_all stack now ((svc, def) ∷ defs) c =
      let (made, error) = create_service host (service_name stack svc) (spec_of def) now c in
      let rest = deploy_all stack now defs made in
      elim error [ some e ↦ (made, some e) | none ↦ rest ]

  abbrev pub deployed_stack : Text → ComposeFile → ℕ → Stack
  deployed_stack name cf now = record {
    name = name;
    services = sort (service_names name cf.services);
    file = [];
    deployed = now;
  }

  unfoldable pub deploy_stack : Text → ComposeFile → ℕ → Swarm H → Swarm H × Option StackError
  deploy_stack name cf now s =
      let (made, error) = deploy_all name now cf.services s.cluster in
      if not (is_initialised s.cluster.file)
      then (s, some no_swarm)
      else if not (valid_service_name name)
      then (s, some invalid_stack)
      else elim (lookup name s.stacks) [
        | some old ↦ (s, some stack_exists)
        | none ↦ elim error [
          | some e ↦ (record s { cluster = made }, some (deploy_failed e))
          | none ↦ (
            record { cluster = made; stacks = insert name (deployed_stack name cf now) s.stacks },
            none,
          )
        ]
      ]

  -- The loop of `RemoveStack`, up to the first service that fails.
  unfoldable pub remove_services : List Text → Cluster H → Cluster H × Option ServiceError
  remove_services [] c = (c, none)
  remove_services (svc ∷ services) c =
      let (left, error) = remove_service host svc c in
      let rest = remove_services services left in
      elim error [ some e ↦ (left, some e) | none ↦ rest ]

  unfoldable pub remove_stack : Text → Swarm H → Swarm H × Option StackError
  remove_stack name s = elim (lookup name s.stacks) [
    | none ↦ (s, some no_stack)
    | some st ↦
        let (left, error) = remove_services st.services s.cluster in
        elim error [
          | some e ↦ (record s { cluster = left }, some (remove_failed e))
          | none ↦ (record { cluster = left; stacks = remove name s.stacks }, none)
        ]
  ]
