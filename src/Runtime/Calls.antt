-- ===== src/Runtime/Calls.antt =====
-- The other calls of runtime.go, lifecycle.go and network_attach.go, and sequences of calls. A
-- container's id is the name of a directory: it has no slash and is not "." or "..".
use thrive.Prelude.{
  ℕ, suc, ◌==◌, ℤ, pos, negsuc, Option, none, some, Bool, true, false, not, ◌||◌, List, [], ◌∷◌,
  ◌++◌, Text, text, ◌=ᵗ◌, Dict, lookup, insert, remove, contains, is_empty, itoa, atoi, ltb,
  if◌then◌else◌,
}
use thrive.Compose.Ports.{PortMapping}
use thrive.Network.{detach_container}
use thrive.Network.Attach.{Attachment}
use thrive.Runtime.{
  Host, Machine, World, Files, ContainerConfig, ContainerState, ResourceLimits, Status, created,
  running, paused, stopped, ExitCode, exited, Reply, done, failed, id_required, no_state,
  not_running, not_paused, kill_failed, cgroup_failed, save_failed, already_exists, HostCall,
  send_signal, new_cgroup, freeze, unfreeze, set_memory_limit, set_cpu_quota, set_cpu_shares,
  set_pids_limit, load_state, load_config, save_state, put_files, log_event,
}
use thrive.Runtime.Attach.{call}
use thrive.Runtime.Start.{start}
use thrive.Runtime.Exit.{exit_process}

-- SIGKILL, for what is not understood.
unfoldable pub parse_signal : Text → ℤ
parse_signal s =
    if is_empty s || (s =ᵗ text "KILL")
    then pos 9
    else if s =ᵗ text "TERM"
    then pos 15
    else elim (atoi s) [ none ↦ pos 9 | some n ↦ n ]

unfoldable pub signal_text : ℤ → Text
signal_text (pos n) = itoa n
signal_text (negsuc n) = b'-' ∷ itoa (suc n)

-- The files of a directory that `MkdirAll` may have made.
abbrev pub no_files : Files
no_files = record { config = none; state = none; restarts = 0; pending = [] }

abbrev pub created_state : Text → ContainerState
created_state id = record {
  id = id;
  status = created;
  pid = 0;
  exit_code = exited 0;
  rootfs_path = [];
  has_namespaces = false;
}

abbrev pub rename_config : Text → Option ContainerConfig → Option ContainerConfig
rename_config id none = none
rename_config id (some cfg) = some (record cfg { id = id })

abbrev pub rename_state : Text → Option ContainerState → Option ContainerState
rename_state id none = none
rename_state id (some st) = some (record st { id = id })

-- `Update` does not write the limit on processes to the file.
abbrev pub updated_limits : ResourceLimits → ResourceLimits → ResourceLimits
updated_limits opts old = record old {
  memory_limit = if ltb 0 opts.memory_limit then opts.memory_limit else old.memory_limit;
  cpu_quota = if ltb 0 opts.cpu_quota then opts.cpu_quota else old.cpu_quota;
  cpu_shares = if ltb 0 opts.cpu_shares then opts.cpu_shares else old.cpu_shares;
}

abbrev pub update_config : ResourceLimits → Option ContainerConfig → Option ContainerConfig
update_config opts none = none
update_config opts (some cfg) = some (record cfg { resources = updated_limits opts cfg.resources })

-- What a directory of each container holds, less that of the id; without an id all directories are removed.
unfoldable pub remove_all : {V : Type 0} → Text → Dict V → Dict V
remove_all id containers = if is_empty id then [] else remove id containers

-- networks.json goes along with its directory.
unfoldable pub move_attachments : Text → Text → Dict (List Attachment) → Dict (List Attachment)
move_attachments old new attached = elim (lookup old attached) [
  | none ↦ attached
  | some list ↦ insert new list (remove old attached)
]

module _ {H : Type 0} where
  -- The directory may be there already, with its other files.
  unfoldable pub create : ContainerConfig → World H → World H × Reply
  create cfg w =
      let files : Files = elim (lookup cfg.id w.containers) [ none ↦ no_files | some old ↦ old ] in
      let new = record files { config = some cfg; state = some (created_state cfg.id) } in
      if is_empty cfg.id then (w, failed id_required) else (
        log_event (text "create") cfg.id ((text "image", cfg.image) ∷ []) (put_files cfg.id new w),
        done,
      )

  unfoldable pub delete : Text → World H → World H × Reply
  delete id w =
      let links = w.machine.links in
      let detached = record links {
        store = detach_container id links.store;
        attached = remove_all id links.attached;
      } in
      let removed = record w {
        machine = record w.machine { links = detached };
        containers = remove_all id w.containers;
      } in
      (log_event (text "destroy") id [] removed, done)

  -- Both states are looked for; a directory that is there is not replaced.
  unfoldable pub rename : Text → Text → World H → World H × Reply
  rename old new w =
      if is_empty old || is_empty new
      then (w, failed id_required)
      else elim (lookup old w.containers) [
        | none ↦ (w, failed no_state)
        | some files ↦ elim files.state [
          | none ↦ (w, failed no_state)
          | some st ↦ elim (lookup new w.containers) [
            | some others ↦ (w, failed already_exists)
            | none ↦
                let moved = record files {
                  config = rename_config new files.config;
                  state = some (record st { id = new });
                } in
                let links = w.machine.links in
                let machine = record w.machine {
                  links = record links { attached = move_attachments old new links.attached };
                } in
                (
                  record w {
                    containers = insert new moved (remove old w.containers);
                    machine = machine;
                  },
                  done,
                )
          ]
        ]
      ]

  unfoldable pub update_files : Text → ResourceLimits → World H → World H
  update_files id opts w = elim (lookup id w.containers) [
    | none ↦ w
    | some files ↦ put_files id (record files { config = update_config opts files.config }) w
  ]

  -- A name that is listed is not added again; a missing directory cannot be written to.
  unfoldable pub add_pending_network : Text → Text → World H → World H × Reply
  add_pending_network id name w = elim (lookup id w.containers) [
    | none ↦ (w, failed save_failed)
    | some files ↦
        if contains files.pending name
        then (w, done)
        else (put_files id (record files { pending = files.pending ++ name ∷ [] }) w, done)
  ]

  unfoldable pub saved : World H × Bool → World H × Reply
  saved (w, true) = (w, done)
  saved (w, false) = (w, failed save_failed)

  -- ContainerPorts.
  unfoldable pub container_ports : Text → World H → Option (List PortMapping)
  container_ports id w = elim (load_config id w) [ none ↦ none | some cfg ↦ some cfg.ports ]

  module _ (host : Host H) where
    -- The process that the state names is sent the signal, whatever the status.
    unfoldable pub kill : Text → ℤ → World H → World H × Reply
    kill id signal w = elim (load_state id w) [
      | none ↦ (w, failed no_state)
      | some st ↦
          let (machine, ok) = call host (send_signal st.pid signal) w.machine in
          let next = record w { machine = machine } in
          if st.pid == 0
          then (w, failed not_running)
          else if ok
          then (log_event (text "kill") id ((text "signal", signal_text signal) ∷ []) next, done)
          else (next, failed kill_failed)
    ]

    -- `State`, and reconcileState: a dead process that is said to run has stopped.
    unfoldable pub reconcile : Text → ContainerState → World H → World H
    reconcile id st w =
        let down = (save_state id (record st { status = stopped }) w).0 in
        elim st.status [
          | running ↦ if (st.pid == 0) || host.alive st.pid w.machine.host then w else down
          | created ↦ w
          | paused ↦ w
          | stopped ↦ w
        ]

    unfoldable pub get_state : Text → World H → World H
    get_state id w = elim (load_state id w) [ none ↦ w | some st ↦ reconcile id st w ]

    -- A call of the container's cgroup, and the new status if it succeeds.
    unfoldable pub switch : Text → HostCall → Status → ContainerState → World H → World H × Reply
    switch id c status st w =
        let (made, found) = call host (new_cgroup id) w.machine in
        let (switched, ok) = call host c made in
        let next = record w { machine = switched } in
        if not found
        then (record w { machine = made }, failed cgroup_failed)
        else if not ok
        then (next, failed cgroup_failed)
        else saved (save_state id (record st { status = status }) next)

    unfoldable pub pause : Text → World H → World H × Reply
    pause id w = elim (load_state id w) [
      | none ↦ (w, failed no_state)
      | some st ↦ elim st.status [
        | running ↦ switch id (freeze id) paused st w
        | created ↦ (w, failed not_running)
        | paused ↦ (w, failed not_running)
        | stopped ↦ (w, failed not_running)
      ]
    ]

    unfoldable pub unpause : Text → World H → World H × Reply
    unpause id w = elim (load_state id w) [
      | none ↦ (w, failed no_state)
      | some st ↦ elim st.status [
        | paused ↦ switch id (unfreeze id) running st w
        | created ↦ (w, failed not_paused)
        | running ↦ (w, failed not_paused)
        | stopped ↦ (w, failed not_paused)
      ]
    ]

    -- The limits that are given, up to the first that cannot be set.
    unfoldable pub set_limits : List (ℕ × HostCall) → Machine H → Machine H × Bool
    set_limits [] m = (m, true)
    set_limits ((limit, c) ∷ limits) m =
        let (next, ok) = call host c m in
        let skipped = set_limits limits m in
        let set = set_limits limits next in
        if not (ltb 0 limit) then skipped else if ok then set else (next, false)

    unfoldable pub limit_calls : Text → ResourceLimits → List (ℕ × HostCall)
    limit_calls id opts =
        (opts.memory_limit, set_memory_limit id opts.memory_limit)
        ∷ (opts.cpu_quota, set_cpu_quota id opts.cpu_quota)
        ∷ (opts.cpu_shares, set_cpu_shares id opts.cpu_shares)
        ∷ (opts.pids_limit, set_pids_limit id opts.pids_limit)
        ∷ []

    unfoldable pub update : Text → ResourceLimits → World H → World H × Reply
    update id opts w = elim (load_state id w) [
      | none ↦ (w, failed no_state)
      | some st ↦
          let (made, found) = call host (new_cgroup id) w.machine in
          let (limited, ok) = set_limits (limit_calls id opts) made in
          let next = record w { machine = limited } in
          if not found
          then (record w { machine = made }, failed cgroup_failed)
          else if not ok
          then (next, failed cgroup_failed)
          else (update_files id opts next, done)
    ]

-- What happens to a machine: the calls that change its state, and the end of a process.
pub data Call : Type 0 where
  create_call : (cfg : ContainerConfig) → Call
  start_call : (id : Text) → Call
  exit_call : (pid : ℕ) (code : ExitCode) → Call
  kill_call : (id : Text) (signal : ℤ) → Call
  state_call : (id : Text) → Call
  pause_call : (id : Text) → Call
  unpause_call : (id : Text) → Call
  rename_call : (old new : Text) → Call
  update_call : (id : Text) (opts : ResourceLimits) → Call
  pending_call : (id name : Text) → Call
  delete_call : (id : Text) → Call

module _ {H : Type 0} (host : Host H) where
  unfoldable pub run : Call → World H → World H
  run (create_call cfg) w = (create cfg w).0
  run (start_call id) w = (start host id w).0
  run (exit_call pid code) w = exit_process host pid code w
  run (kill_call id signal) w = (kill host id signal w).0
  run (state_call id) w = get_state host id w
  run (pause_call id) w = (pause host id w).0
  run (unpause_call id) w = (unpause host id w).0
  run (rename_call old new) w = (rename old new w).0
  run (update_call id opts) w = (update host id opts w).0
  run (pending_call id name) w = (add_pending_network id name w).0
  run (delete_call id) w = (delete id w).0

  unfoldable pub run_all : List Call → World H → World H
  run_all [] w = w
  run_all (c ∷ calls) w = run_all calls (run c w)
