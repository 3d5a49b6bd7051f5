-- ===== src/Runtime/Tests.antt =====
-- internal/runtime: a host that records its calls, and the calls of the runtime on it.
use thrive.Prelude.{
  pos, ◌≡◌, refl, true, false, Option, none, some, List, [], ◌∷◌, ◌++◌, arith, Text, text, ◌=ᵗ◌,
  lookup,
}
use thrive.Runtime.{
  Host, HostCall, World, Files, Machine, Reaper, ContainerConfig, ContainerState, RestartPolicy,
  ResourceLimits, Status, created, running, stopped, ExitCode, exited, Process, spawned, load_state,
  load_config, save_state, send_signal,
}
use thrive.Runtime.Command.{IsResolved, resolve_command, resolve_command-IsResolved}
use thrive.Runtime.Restart.{
  parse_restart_policy, print, is_policy, may_restart, parse_restart_policy-print,
}
use thrive.Runtime.Attach.{call}
use thrive.Runtime.Pid.{IsHost}
use thrive.Runtime.Exit.{reap}
use thrive.Runtime.Calls.{kill, Call, create_call, start_call, exit_call, run, run_all}
use thrive.Runtime.Reaped.{Has}
use thrive.Runtime.Keeps.{IsWorld}
use thrive.Runtime.Sequences.{run_all-IsWorld}
use thrive.Runtime.Lifecycle.{view, Step}
use thrive.Runtime.Refinement.{run-Step}
use thrive.Runtime.Attempts.{IsAttempt, reap-IsAttempt}
use thrive.Runtime.Stale.{kill-reap}

-- A slash between the parts; the first is "/m".
unfoldable slashes : List Text → Text
slashes [] = []
slashes (part ∷ []) = part
slashes (part ∷ next ∷ parts) = part ++ b'/' ∷ slashes (next ∷ parts)

-- Every call succeeds and is recorded; the one process has the number 7, and "/bin/ls" is the one file.
abbrev recorder : Host (List HostCall)
recorder = record {
  call = λ c h. (h ++ c ∷ [], true);
  mount_image = λ image id h. (h, some (text "/m"));
  read_env = λ image h. [];
  swarm_config = λ name h. none;
  exists = λ path h. path =ᵗ text "/m/bin/ls";
  join = slashes;
  inside_vm = λ h. false;
  open_pty = λ h. (h, true);
  spawn = λ p h. (h, spawned 7);
  alive = λ pid h. false;
}

recorder-IsHost : IsHost recorder
recorder-IsHost = record { positive = λ p h. omega arith }

abbrev no_limits : ResourceLimits
no_limits = record { memory_limit = 0; cpu_quota = 0; cpu_shares = 0; pids_limit = 0 }

abbrev twice : RestartPolicy
twice = record { name = text "always"; max_retry_attempts = 2 }

abbrev web : ContainerConfig
web = record {
  id = text "web";
  image = text "alpine";
  command = text "ls" ∷ [];
  env = [];
  ports = [];
  mounts = [];
  network_mode = text "none";
  secrets = [];
  configs = [];
  resources = no_limits;
  restart_policy = twice;
  tty = false;
  interactive = false;
}

abbrev empty_world : World (List HostCall)
empty_world = record {
  containers = [];
  reapers = [];
  events = [];
  machine = record {
    links = record {
      store = record { networks = []; bridges = [] };
      pools = [];
      bridge_pool = record { counter = 0; ips = [] };
      attached = [];
    };
    host = [];
  };
}

empty_world-IsWorld : IsWorld empty_world
empty_world-IsWorld = record {
  dirs = λ id files e. unfold lookup in (ground (arith, e));
  waited = tt;
}

abbrev web_state : ContainerState
web_state = record {
  id = text "web";
  status = running;
  pid = 7;
  exit_code = exited 0;
  rootfs_path = text "/m";
  has_namespaces = true;
}

abbrev web_reaper : RestartPolicy → Reaper
web_reaper policy = record {
  pid = 7;
  id = text "web";
  state = web_state;
  config = record web { restart_policy = policy };
  container_ip = [];
}

abbrev never : RestartPolicy
never = record { name = text "no"; max_retry_attempts = 0 }

abbrev web_files : Files
web_files = record { config = some web; state = some web_state; restarts = 1; pending = [] }

abbrev web_world : World (List HostCall)
web_world = record empty_world { containers = (text "web", web_files) ∷ [] }

web_world-Has : Has (text "web") web_world
unfolding Has lookup ◌=ᵗ◌
web_world-Has = (web_files, refl)

unfoldable restarted_view : List Call → Option Status
restarted_view calls = view (run_all recorder calls empty_world) (text "web")

resolve_command-IsResolved_example :
    IsResolved recorder
      (text "/m")
      (text "ls")
      (text "-l" ∷ [])
      []
      (resolve_command recorder (text "/m") (text "ls" ∷ text "-l" ∷ []) [])
resolve_command-IsResolved_example =
    resolve_command-IsResolved recorder (text "/m") (text "ls") (text "-l" ∷ []) [] refl

run_all-IsWorld_example : IsWorld (
    run_all recorder
      (create_call web ∷ start_call (text "web") ∷ exit_call 7 (exited 1) ∷ [])
      empty_world)
run_all-IsWorld_example =
    run_all-IsWorld recorder recorder-IsHost
      (create_call web ∷ start_call (text "web") ∷ exit_call 7 (exited 1) ∷ []) empty_world
      empty_world-IsWorld

run-Step_example :
    Step (create_call web) (view empty_world) (view (run recorder (create_call web) empty_world))
run-Step_example = run-Step recorder (create_call web) empty_world empty_world-IsWorld

reap-IsAttempt_example :
    IsAttempt
      (web_reaper twice)
      (exited 1)
      web_world
      (reap recorder (web_reaper twice) (exited 1) web_world)
reap-IsAttempt_example =
    reap-IsAttempt recorder (web_reaper twice) (exited 1) web_world web_world-Has

kill-reap_example :
    let after = reap recorder (web_reaper never) (exited 0) web_world in
    (kill recorder (text "web") (pos 9) after).0.machine
    ≡ (call recorder (send_signal 7 (pos 9)) after.machine).0
kill-reap_example =
    kill-reap recorder (web_reaper never) (exited 0) (pos 9) web_world web_world-Has
      (unfold may_restart thrive.Runtime.Restart.should_restart ◌=ᵗ◌ in refl) refl
