-- ===== src/Runtime/Start.antt =====
-- `Start` of runtime.go. The caller gets the container's terminal besides, if it has one.
use thrive.Prelude.{Option, none, some, List, [], ◌∷◌, Text, text, lookup}
use thrive.Runtime.{
  Host, World, Reaper, ContainerConfig, ContainerState, created, running, paused, stopped, Reply,
  done, failed, no_state, already_started, no_config, load_state, load_config, save_state,
  put_files, log_event,
}
use thrive.Runtime.Attach.{set_up_network}
use thrive.Runtime.Launch.{Launched, launched, refused, launch, enter_cgroup}

abbrev pub address_of : Option Text → Text
address_of none = []
address_of (some ip) = ip

abbrev pub running_state : Launched → ContainerState → ContainerState
running_state l st = record st {
  pid = l.pid;
  status = running;
  has_namespaces = l.has_namespaces;
  rootfs_path = l.rootfs;
}

module _ {H : Type 0} where
  -- PendingNetworks.
  unfoldable pub pending_networks : Text → World H → List Text
  pending_networks id w = elim (lookup id w.containers) [ none ↦ [] | some files ↦ files.pending ]

  -- clearPendingNetworks, which a container comes to when its network is set up.
  unfoldable pub clear_pending : Text → Option Text → World H → World H
  clear_pending id none w = w
  clear_pending id (some ip) w = elim (lookup id w.containers) [
    | none ↦ w
    | some files ↦ put_files id (record files { pending = [] }) w
  ]

  abbrev pub add_reaper : Reaper → World H → World H
  add_reaper r w = record w { reapers = r ∷ w.reapers }

  module _ (host : Host H) where
    -- From the running process to the end.
    unfoldable pub settle : Text → ContainerState → ContainerConfig → Launched → World H → World H
    settle id st cfg l w =
        let pending = pending_networks id w in
        let (networked, ip) =
          set_up_network host id cfg.network_mode cfg.ports pending l.pid w.machine in
        let limited = enter_cgroup host id l.pid cfg.resources networked in
        let now = running_state l st in
        let cleared = clear_pending id ip (record w { machine = limited }) in
        let saved = (save_state id now cleared).0 in
        let reaper : Reaper = record {
          pid = l.pid;
          id = id;
          state = now;
          config = cfg;
          container_ip = address_of ip;
        } in
        log_event (text "start") id ((text "image", cfg.image) ∷ []) (add_reaper reaper saved)

    unfoldable pub start_created :
        Text → ContainerState → ContainerConfig → World H → World H × Reply
    start_created id st cfg w =
        let next = record w { machine = (launch host id cfg w.machine).0 } in
        elim (launch host id cfg w.machine).1 [
          | refused e ↦ (next, failed e)
          | launched l ↦ (settle id st cfg l next, done)
        ]

    unfoldable pub start_loaded :
        Text → ContainerState → Option ContainerConfig → World H → World H × Reply
    start_loaded id st none w = (w, failed no_config)
    start_loaded id st (some cfg) w = start_created id st cfg w

    unfoldable pub start : Text → World H → World H × Reply
    start id w = elim (load_state id w) [
      | none ↦ (w, failed no_state)
      | some st ↦ elim st.status [
        | created ↦ start_loaded id st (load_config id w) w
        | running ↦ (w, failed already_started)
        | paused ↦ (w, failed already_started)
        | stopped ↦ (w, failed already_started)
      ]
    ]
