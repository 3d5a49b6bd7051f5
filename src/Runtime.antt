-- ===== src/Runtime.antt =====
-- internal/runtime: the containers of one machine. config.go, and loadState and saveState of runtime.go.
-- A directory under /run/thrive/containers holds four files that the runtime reads and writes; a
-- file that is there can be read. What the kernel and the packages image, cgroup, secrets and
-- swarmconfig do is a record of operations on a state `H`. Limits and numbers of restarts are not negative.
pub mod Command
pub mod Restart
pub mod Launch
pub mod Attach
pub mod Start
pub mod Exit
pub mod Calls
pub mod Loads
pub mod Reaped
pub mod Lifecycle
pub mod Refines
pub mod Refinement
pub mod Kept
pub mod Attempts
pub mod Stale
pub mod Keeps
pub mod Invariant
pub mod Sequences
pub mod Pid
pub mod Diff
pub mod Tests
use thrive.Prelude.{
  ℕ, ℤ, Bool, true, false, Option, none, some, List, [], ◌∷◌, ◌++◌, Text, Dict, lookup, insert,
}
use thrive.Compose.Ports.{PortMapping}
use thrive.Compose.Engine.{Mount}
use thrive.Network.Attach.{Links}

pub record ConfigMount : Type 0 where
  pub source : Text
  pub target : Text

pub record ResourceLimits : Type 0 where
  pub memory_limit : ℕ
  pub cpu_quota : ℕ
  pub cpu_shares : ℕ
  pub pids_limit : ℕ

pub record RestartPolicy : Type 0 where
  pub name : Text
  pub max_retry_attempts : ℕ

pub record ContainerConfig : Type 0 where
  pub id : Text
  pub image : Text
  pub command : List Text
  pub env : List Text
  pub ports : List PortMapping
  pub mounts : List Mount
  pub network_mode : Text
  pub secrets : List Text
  pub configs : List ConfigMount
  pub resources : ResourceLimits
  pub restart_policy : RestartPolicy
  pub tty : Bool
  pub interactive : Bool

pub data Status : Type 0 where
  created : Status
  running : Status
  paused : Status
  stopped : Status

-- `ProcessState.ExitCode`, which is -1 for a process that a signal ended.
pub data ExitCode : Type 0 where
  exited : ℕ → ExitCode
  signalled : ExitCode

-- The two times and the field NetworkInfo are never set.
pub record ContainerState : Type 0 where
  pub id : Text
  pub status : Status
  pub pid : ℕ
  pub exit_code : ExitCode
  pub rootfs_path : Text
  pub has_namespaces : Bool

-- config.json, state.json, restarts and pending_networks.json. The last two hold 0 and no name
-- if they are missing.
pub record Files : Type 0 where
  pub config : Option ContainerConfig
  pub state : Option ContainerState
  pub restarts : ℕ
  pub pending : List Text

-- The goroutine that waits for a process, with what it has captured.
pub record Reaper : Type 0 where
  pub pid : ℕ
  pub id : Text
  pub state : ContainerState
  pub config : ContainerConfig
  pub container_ip : Text

-- What `events.Log` is given; the package network's events are left out.
pub record Event : Type 0 where
  pub action : Text
  pub id : Text
  pub attributes : Dict Text

-- The command line that `exec.Command` is given.
pub record Process : Type 0 where
  pub path : Text
  pub args : List Text
  pub env : List Text
  pub chroot : Text
  pub new_namespaces : Bool
  pub on_pty : Bool

pub data Spawned : Type 0 where
  spawned : (pid : ℕ) → Spawned
  not_permitted : Spawned
  spawn_failed : Spawned

-- Calls that succeed or fail and return nothing else. The last is a program that package network runs.
pub data HostCall : Type 0 where
  unmount_image : (id : Text) → HostCall
  write_resolv_conf : (rootfs : Text) → HostCall
  make_target : (source dest : Text) → HostCall
  bind_mount : (source dest : Text) → HostCall
  unmount_detach : (dest : Text) → HostCall
  write_config : (id target : Text) (content : Text) → HostCall
  inject_secrets : (id : Text) (names : List Text) → HostCall
  cleanup_secrets : (id : Text) → HostCall
  ensure_bridge : (bridge cidr : Text) → HostCall
  new_cgroup : (id : Text) → HostCall
  apply_cgroup : (id : Text) (pid : ℕ) → HostCall
  set_memory_limit : (id : Text) (limit : ℕ) → HostCall
  set_cpu_quota : (id : Text) (limit : ℕ) → HostCall
  set_cpu_shares : (id : Text) (limit : ℕ) → HostCall
  set_pids_limit : (id : Text) (limit : ℕ) → HostCall
  freeze : (id : Text) → HostCall
  unfreeze : (id : Text) → HostCall
  send_signal : (pid : ℕ) (signal : ℤ) → HostCall
  run_command : (args : List Text) → HostCall

-- `call` carries out a call; `exists` is os.Stat on a path, `join` filepath.Join.
pub record Host (H : Type 0) : Type 0 where
  pub call : HostCall → H → H × Bool
  pub mount_image : (image id : Text) → H → H × Option Text
  pub read_env : (image : Text) → H → List Text
  pub swarm_config : (name : Text) → H → Option Text
  pub exists : (path : Text) → H → Bool
  pub join : List Text → Text
  pub inside_vm : H → Bool
  pub open_pty : H → H × Bool
  pub spawn : Process → H → H × Spawned
  pub alive : (pid : ℕ) → H → Bool

-- What the containers share: the records of package network, and the host.
pub record Machine (H : Type 0) : Type 0 where
  pub links : Links
  pub host : H

pub record World (H : Type 0) : Type 0 where
  pub containers : Dict Files
  pub reapers : List Reaper
  pub events : List Event
  pub machine : Machine H

pub data RuntimeError : Type 0 where
  id_required : RuntimeError
  no_state : RuntimeError
  already_started : RuntimeError
  no_config : RuntimeError
  pty_failed : RuntimeError
  exec_failed : RuntimeError
  not_running : RuntimeError
  not_paused : RuntimeError
  kill_failed : RuntimeError
  cgroup_failed : RuntimeError
  save_failed : RuntimeError
  already_exists : RuntimeError

pub data Reply : Type 0 where
  done : Reply
  failed : RuntimeError → Reply

module _ {H : Type 0} where
  -- The files of a container whose directory is missing are missing as well.
  unfoldable pub load_state : Text → World H → Option ContainerState
  load_state id w = elim (lookup id w.containers) [ none ↦ none | some files ↦ files.state ]

  unfoldable pub load_config : Text → World H → Option ContainerConfig
  load_config id w = elim (lookup id w.containers) [ none ↦ none | some files ↦ files.config ]

  abbrev pub put_files : Text → Files → World H → World H
  put_files id files w = record w { containers = insert id files w.containers }

  -- No temporary file can be made in a directory that is not there.
  unfoldable pub save_state : Text → ContainerState → World H → World H × Bool
  save_state id st w = elim (lookup id w.containers) [
    | none ↦ (w, false)
    | some files ↦ (put_files id (record files { state = some st }) w, true)
  ]

  abbrev pub log_event : Text → Text → Dict Text → World H → World H
  log_event action id attributes w =
      let event : Event = record { action = action; id = id; attributes = attributes } in
      record w { events = w.events ++ event ∷ [] }
