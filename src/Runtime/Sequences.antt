-- ===== src/Runtime/Sequences.antt =====
-- runtime.go, lifecycle.go, network_attach.go: sequences of calls and of ends of processes.
use thrive.Prelude.{
  ℤ, ◌≡◌, refl, ap, inl, inr, some, Bool, true, false, ◌||◌, List, [], ◌∷◌, ◌++◌, arith, Text, ◌==◌,
  lookup, insert, remove, is_empty, contains, Bool-cases, Option-cases, if◌then◌else◌,
}
use thrive.Runtime.{
  Host, World, Files, Machine, Event, ContainerConfig, ContainerState, ResourceLimits, HostCall,
  freeze, unfreeze, Status, running, paused, stopped, Reply, load_state, save_state,
}
use thrive.Runtime.Pid.{IsHost}
use thrive.Runtime.Loads.{Status-cases}
use thrive.Runtime.Calls.{
  create, delete, remove_all, rename, update_files, update, add_pending_network, saved, kill,
  reconcile, get_state, switch, pause, unpause, Call, create_call, start_call, exit_call, kill_call,
  state_call, pause_call, unpause_call, rename_call, update_call, pending_call, delete_call, run,
  run_all, created_state, no_files, update_config, rename_config,
}
use thrive.Runtime.Invariant.{exit_process-IsWorld}
use thrive.Runtime.Keeps.{
  IsState, IsFiles, IsWorld, insert-IsDirs, remove-IsDirs, with_others, put_files-IsWorld,
  IsWorld-machine, save_state-IsWorld, load_state-IsState, start-IsWorld,
}

saved-IsWorld : {H : Type 0} (p : World H × Bool) → IsWorld p.0 → IsWorld (saved p).0
unfolding saved
saved-IsWorld (w, true) h = h
saved-IsWorld (w, false) h = h

-- Both branches of a test.
if-IsWorld :
    {H : Type 0} (b : Bool) (x y : World H × Reply)
    → IsWorld x.0
    → IsWorld y.0
    → IsWorld (if b then x else y).0
if-IsWorld true x y h k = h
if-IsWorld false x y h k = k

module _ {H : Type 0} (host : Host H) (law : IsHost host) where
  create-IsWorld : (cfg : ContainerConfig) (w : World H) → IsWorld w → IsWorld (create cfg w).0
  unfolding create
  create-IsWorld cfg w h = elim (Bool-cases (is_empty cfg.id)) [
    | inl e ↦ rw e h
    | inr e ↦ elim (Option-cases (lookup cfg.id w.containers)) [
      | inl f ↦ rw (e, f, create) (made no_files)
      | inr (files, f) ↦ rw (e, f, create) (made files)
    ]
  ]
    where
      made :
          (files : Files) {events : List Event}
          → let new = record files { config = some cfg; state = some (created_state cfg.id) } in
            IsWorld (record w { containers = insert cfg.id new w.containers; events = events })
      made files =
          let new = record files { config = some cfg; state = some (created_state cfg.id) } in
          let good : IsFiles cfg.id new = record {
            has_state = (created_state cfg.id, refl);
            state = λ st e.
                let same : st ≡ created_state cfg.id = ground (arith, e) in
                rw same (record { named = refl; process = refl });
            config = λ other e. let same : other ≡ cfg = ground (arith, e) in rw same refl;
          } in
          record { dirs = insert-IsDirs cfg.id new w.containers good h.dirs; waited = h.waited }

  delete-IsWorld : (id : Text) (w : World H) → IsWorld w → IsWorld (delete id w).0
  unfolding delete remove_all
  delete-IsWorld id w h = record {
    dirs = elim (Bool-cases (is_empty id)) [
      | inl e ↦ rw e (unfold lookup in (λ a files at. cc))
      | inr e ↦ rw e (remove-IsDirs id w.containers h.dirs)
    ];
    waited = h.waited;
  }

  -- Files that have moved to another directory.
  moved-IsFiles :
      (old new : Text) (st : ContainerState) (files : Files)
      → IsFiles old files
      → files.state ≡ some st
      → IsFiles new (record files {
        config = rename_config new files.config;
        state = some (record st { id = new });
      })
  moved-IsFiles old new st files h at = record {
    has_state = (record st { id = new }, refl);
    state = λ other e.
        let same : other ≡ record st { id = new } = ground (arith, e) in
        rw same (record { named = refl; process = (h.state st at).process });
    config = λ cfg e. elim (Option-cases files.config) [
      | inl f ↦ absurd (ground (arith, rw f at e))
      | inr (before, f) ↦
          let same : cfg ≡ record before { id = new } = ground (arith, rw f at e) in rw same refl
    ];
  }

  rename-IsWorld : (old new : Text) (w : World H) → IsWorld w → IsWorld (rename old new w).0
  unfolding rename
  rename-IsWorld old new w h = elim (Bool-cases (is_empty old || is_empty new)) [
    | inl e ↦ rw e h
    | inr e ↦ elim (Option-cases (lookup old w.containers)) [
      | inl f ↦ rw (e, f, rename) h
      | inr (files, f) ↦ elim (Option-cases files.state) [
        | inl g ↦ rw (e, f, rename) (rw (g, rename) h)
        | inr (st, g) ↦ elim (Option-cases (lookup new w.containers)) [
          | inr (others, k) ↦ rw (e, f, rename) (rw (g, rename) (rw (k, rename) h))
          | inl k ↦
              rw (e, f, rename)
                (rw (g, rename)
                  (rw (k, rename)
                    (record {
                      dirs =
                          insert-IsDirs new _ (remove old w.containers)
                            (moved-IsFiles old new st files (h.dirs old files f) g)
                            (remove-IsDirs old w.containers h.dirs);
                      waited = h.waited;
                    })))
        ]
      ]
    ]
  ]

  update_files-IsWorld :
      (id : Text) (opts : ResourceLimits) (w : World H)
      → IsWorld w
      → IsWorld (update_files id opts w)
  unfolding update_files
  update_files-IsWorld id opts w h = elim (Option-cases (lookup id w.containers)) [
    | inl e ↦ rw (e, update_files) h
    | inr (files, e) ↦
        let good = h.dirs id files e in
        let new : IsFiles id (record files { config = update_config opts files.config }) = record {
          has_state = good.has_state;
          state = good.state;
          config = λ cfg f. elim (Option-cases files.config) [
            | inl none_there ↦ absurd (ground (arith, rw none_there at f))
            | inr (before, g) ↦
                let same = good.config before g in
                let value : cfg ≡ record before { resources = cfg.resources } =
                  ground (arith, rw g at f) in
                ground (arith, ap (λ (c : ContainerConfig). c.id) value, same)
          ];
        } in
        rw (e, update_files) (put_files-IsWorld id _ w new h)
  ]

  update-IsWorld :
      (id : Text) (opts : ResourceLimits) (w : World H)
      → IsWorld w
      → IsWorld (update host id opts w).0
  unfolding update
  update-IsWorld id opts w h = elim (Option-cases (load_state id w)) [
    | inl e ↦ rw (e, update) h
    | inr (st, e) ↦ rw (e, update) (search (if-IsWorld, moved, update_files-IsWorld))
  ]
    where
      moved : (m : Machine H) → IsWorld (record w { machine = m })
      moved m = IsWorld-machine m w.events w h

  add_pending_network-IsWorld :
      (id name : Text) (w : World H) → IsWorld w → IsWorld (add_pending_network id name w).0
  unfolding add_pending_network
  add_pending_network-IsWorld id name w h = elim (Option-cases (lookup id w.containers)) [
    | inl e ↦ rw (e, add_pending_network) h
    | inr (files, e) ↦
        rw (e, add_pending_network)
          (if-IsWorld (contains files.pending name) _ _ h (
            put_files-IsWorld id _ w
              (with_others id files.restarts (files.pending ++ name ∷ []) files (h.dirs id files e))
              h))
  ]

  kill-IsWorld :
      (id : Text) (signal : ℤ) (w : World H) → IsWorld w → IsWorld (kill host id signal w).0
  unfolding kill
  kill-IsWorld id signal w h = elim (Option-cases (load_state id w)) [
    | inl e ↦ rw (e, kill) h
    | inr (st, e) ↦ rw (e, kill) (search (if-IsWorld, h, told))
  ]
    where
      told :
          (m : Machine H) (events : List Event)
          → IsWorld (record w { machine = m; events = events })
      told m events = IsWorld-machine m events w h

  get_state-IsWorld : (id : Text) (w : World H) → IsWorld w → IsWorld (get_state host id w)
  unfolding get_state reconcile
  get_state-IsWorld id w h = elim (Option-cases (load_state id w)) [
    | inl e ↦ rw (e, get_state) h
    | inr (st, e) ↦
        let good = load_state-IsState id st w h e in
        let down =
          save_state-IsWorld id (record st { status = stopped }) w
            (record { named = good.named; process = tt }) h in
        elim (Status-cases st.status) [
          | inl f ↦ rw (e, get_state) (rw (f, reconcile) h)
          | inr (inl f) ↦
              rw (e, get_state)
                (rw (f, reconcile)
                  (elim (Bool-cases ((st.pid == 0) || host.alive st.pid w.machine.host)) [
                    | inl g ↦ rw g h
                    | inr g ↦ rw g down
                  ]))
          | inr (inr (inl f)) ↦ rw (e, get_state) (rw (f, reconcile) h)
          | inr (inr (inr f)) ↦ rw (e, get_state) (rw (f, reconcile) h)
        ]
  ]

  switch-IsWorld :
      (id : Text) (c : HostCall) (status : Status) (st : ContainerState) (w : World H)
      → IsState id (record st { status = status })
      → IsWorld w
      → IsWorld (switch host id c status st w).0
  unfolding switch
  switch-IsWorld id c status st w good h = search (if-IsWorld, moved, saved_at)
    where
      moved : (m : Machine H) → IsWorld (record w { machine = m })
      moved m = IsWorld-machine m w.events w h

      saved_at :
          (m : Machine H)
          → IsWorld
              (saved (save_state id (record st { status = status }) (record w { machine = m }))).0
      saved_at m =
          saved-IsWorld _ (save_state-IsWorld id (record st { status = status }) _ good (moved m))

  pause-IsWorld : (id : Text) (w : World H) → IsWorld w → IsWorld (pause host id w).0
  unfolding pause
  pause-IsWorld id w h = elim (Option-cases (load_state id w)) [
    | inl e ↦ rw (e, pause) h
    | inr (st, e) ↦
        let good = load_state-IsState id st w h e in
        let known = good.process in
        elim (Status-cases st.status) [
          | inl f ↦ rw (e, pause) (rw (f, pause) h)
          | inr (inl f) ↦
              rw (e, pause)
                (rw (f, pause)
                  (switch-IsWorld id (freeze id) paused st w
                    (record { named = good.named; process = rw f at known }) h))
          | inr (inr (inl f)) ↦ rw (e, pause) (rw (f, pause) h)
          | inr (inr (inr f)) ↦ rw (e, pause) (rw (f, pause) h)
        ]
  ]

  unpause-IsWorld : (id : Text) (w : World H) → IsWorld w → IsWorld (unpause host id w).0
  unfolding unpause
  unpause-IsWorld id w h = elim (Option-cases (load_state id w)) [
    | inl e ↦ rw (e, unpause) h
    | inr (st, e) ↦
        let good = load_state-IsState id st w h e in
        let known = good.process in
        elim (Status-cases st.status) [
          | inl f ↦ rw (e, unpause) (rw (f, unpause) h)
          | inr (inl f) ↦ rw (e, unpause) (rw (f, unpause) h)
          | inr (inr (inl f)) ↦
              rw (e, unpause)
                (rw (f, unpause)
                  (switch-IsWorld id (unfreeze id) running st w
                    (record { named = good.named; process = rw f at known }) h))
          | inr (inr (inr f)) ↦ rw (e, unpause) (rw (f, unpause) h)
        ]
  ]

  pub run-IsWorld : (c : Call) (w : World H) → IsWorld w → IsWorld (run host c w)
  unfolding run
  run-IsWorld (create_call cfg) w h = create-IsWorld cfg w h
  run-IsWorld (start_call id) w h = start-IsWorld host law id w h
  run-IsWorld (exit_call pid code) w h = exit_process-IsWorld host law pid code w h
  run-IsWorld (kill_call id signal) w h = kill-IsWorld id signal w h
  run-IsWorld (state_call id) w h = get_state-IsWorld id w h
  run-IsWorld (pause_call id) w h = pause-IsWorld id w h
  run-IsWorld (unpause_call id) w h = unpause-IsWorld id w h
  run-IsWorld (rename_call old new) w h = rename-IsWorld old new w h
  run-IsWorld (update_call id opts) w h = update-IsWorld id opts w h
  run-IsWorld (pending_call id name) w h = add_pending_network-IsWorld id name w h
  run-IsWorld (delete_call id) w h = delete-IsWorld id w h

  -- Where the host numbers processes from 1, and whatever sequence of calls is made and processes
  -- end: each directory holds a state with the directory's name, whose process
  -- number is 0 in a created container and positive in a running or paused one, and its configuration, if
  -- there is one, has that name as well; each process that is waited for has a positive number.
  pub run_all-IsWorld :
      (calls : List Call) (w : World H) → IsWorld w → IsWorld (run_all host calls w)
  unfolding run_all
  run_all-IsWorld [] w h = h
  run_all-IsWorld (c ∷ calls) w h = run_all-IsWorld calls (run host c w) (run-IsWorld c w h)
