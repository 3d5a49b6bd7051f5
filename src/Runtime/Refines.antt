-- ===== src/Runtime/Refines.antt =====
-- runtime.go, lifecycle.go, network_attach.go: the calls as steps of the abstract machine.
use thrive.Prelude.{
  ℕ, ℤ, ◌≡◌, refl, ◌∙◌, inl, inr, Option, some, Bool, true, false, ◌||◌, List, [], ◌∷◌, ◌++◌, Text,
  ◌==◌, lookup, contains, Bool-cases, Option-cases, if◌then◌else◌,
}
use thrive.Runtime.{
  Host, World, Files, Machine, Event, ContainerState, Reaper, ResourceLimits, Status, running,
  paused, stopped, ExitCode, HostCall, freeze, unfreeze, Reply, load_state, save_state, put_files,
}
use thrive.Runtime.Exit.{reap, take_reaper, exit_process}
use thrive.Runtime.Calls.{
  update_files, update_config, update, add_pending_network, saved, kill, reconcile, get_state,
  switch, pause, unpause, Call, exit_call, kill_call, state_call, pause_call, unpause_call,
  update_call, pending_call,
}
use thrive.Runtime.Loads.{
  IsSame, IsSame-refl, machine-IsSame, load_state_lem, put-IsSame, Status-cases,
}
use thrive.Runtime.Reaped.{reap_lem, reap_missing, Has}
use thrive.Runtime.Keeps.{IsWorld}
use thrive.Runtime.Lifecycle.{
  view, Edge, die, suspend, resume, Step, stays, same-Step, view_lem, saved-Step, reap-Step,
}

-- Both branches of a test.
if-Step :
    {H : Type 0} (c : Call) (w : World H) (b : Bool) (x y : World H × Reply)
    → Step c (view w) (view x.0)
    → Step c (view w) (view y.0)
    → Step c (view w) (view (if b then x else y).0)
if-Step c w true x y h k = h
if-Step c w false x y h k = k

-- A call that changes the machine and the events at most.
outside-Step :
    {H : Type 0} (c : Call) (w : World H) (m : Machine H) (events : List Event)
    → Step c (view w) (view (record w { machine = m; events = events }))
unfolding view load_state
outside-Step c w m events = stays (λ a. refl)

containers-IsSame : {H : Type 0} (w v : World H) → v.containers ≡ w.containers → IsSame w v
unfolding load_state
containers-IsSame w v e = record { loads = λ a. rw (e, load_state) refl }

module _ {H : Type 0} (host : Host H) where
  -- A container with a directory has a status.
  view-dir :
      (id : Text) (files : Files) (w : World H)
      → IsWorld w
      → lookup id w.containers ≡ some files
      → (s : Status) × (view w id ≡ some s)
  view-dir id files w h at =
      let (st, has) = (h.dirs id files at).has_state in
      (st.status, view_lem id st st.status w (load_state_lem id files w at ∙ has) refl)

  -- The reapers are not seen.
  view-reapers :
      (w : World H) (reapers : List Reaper) → view (record w { reapers = reapers }) ≡ view w
  unfolding view load_state
  view-reapers w reapers = refl

  view-machine : (w : World H) (m : Machine H) → view (record w { machine = m }) ≡ view w
  unfolding view load_state
  view-machine w m = refl

  reaped-Step :
      (pid : ℕ) (code : ExitCode) (r : Reaper) (w : World H)
      → ((files : Files)
          → lookup r.id w.containers ≡ some files
          → (s : Status) × (view w r.id ≡ some s))
      → Step (exit_call pid code) (view w) (view (reap host r code w))
  reaped-Step pid code r w has = elim (Option-cases (lookup r.id w.containers)) [
    | inl gone ↦
        same-Step _ w (reap host r code w)
          (containers-IsSame w (reap host r code w) (reap_missing host r code w gone))
    | inr (files, f) ↦
        let (s, at) = has files f in
        reap-Step host pid code r.id s w (reap host r code w) at
          (reap_lem host r code w (unfold Has in (files, f)))
  ]

  pub exit_process-Step :
      (pid : ℕ) (code : ExitCode) (w : World H)
      → IsWorld w
      → Step (exit_call pid code) (view w) (view (exit_process host pid code w))
  unfolding exit_process
  exit_process-Step pid code w h = elim (Option-cases (take_reaper pid w.reapers)) [
    | inl e ↦ rw (e, exit_process) (same-Step _ w w (IsSame-refl w))
    | inr ((r, reapers), e) ↦
        let less = record w { reapers = reapers } in
        let seen = view-reapers w reapers in
        let inner =
          reaped-Step pid code r less
            (λ files f. let (s, at) = view-dir r.id files w h f in (s, rw seen at)) in
        rw (e, exit_process) (rw seen at inner)
  ]

  pub kill-Step :
      (id : Text) (signal : ℤ) (w : World H)
      → Step (kill_call id signal) (view w) (view (kill host id signal w).0)
  unfolding kill view load_state
  kill-Step id signal w = elim (Option-cases (load_state id w)) [
    | inl e ↦ rw (e, kill) (same-Step _ w w (IsSame-refl w))
    | inr (st, e) ↦ rw (e, kill) (search (if-Step, outside-Step))
  ]

  pub get_state-Step :
      (id : Text) (w : World H) → Step (state_call id) (view w) (view (get_state host id w))
  unfolding get_state reconcile
  get_state-Step id w =
      let still = same-Step (state_call id) w w (IsSame-refl w) in
      elim (Option-cases (load_state id w)) [
        | inl e ↦ rw (e, get_state) still
        | inr (st, e) ↦ elim (Status-cases st.status) [
          | inl f ↦ rw (e, get_state) (rw (f, reconcile) still)
          | inr (inl f) ↦
              let down =
                saved-Step (state_call id) id st (record st { status = stopped }) running w e f
                  die in
              rw (e, get_state)
                (rw (f, reconcile)
                  (elim (Bool-cases ((st.pid == 0) || host.alive st.pid w.machine.host)) [
                    | inl g ↦ rw g still
                    | inr g ↦ rw g down
                  ]))
          | inr (inr (inl f)) ↦ rw (e, get_state) (rw (f, reconcile) still)
          | inr (inr (inr f)) ↦ rw (e, get_state) (rw (f, reconcile) still)
        ]
      ]

  update_files-Step :
      (id : Text) (opts : ResourceLimits) (w : World H) (m : Machine H)
      → Step (update_call id opts) (view w) (view (update_files id opts (record w { machine = m })))
  unfolding update_files
  update_files-Step id opts w m =
      let next = record w { machine = m } in
      elim (Option-cases (lookup id w.containers)) [
        | inl e ↦ rw (e, update_files) (same-Step _ w next (machine-IsSame m w))
        | inr (files, e) ↦
            let new = record files { config = update_config opts files.config } in
            rw (e, update_files)
              (same-Step _ w (put_files id new next) (record {
                loads = λ a.
                    (put-IsSame id files new next e refl).loads a ∙ (machine-IsSame m w).loads a;
              }))
      ]

  pub update-Step :
      (id : Text) (opts : ResourceLimits) (w : World H)
      → Step (update_call id opts) (view w) (view (update host id opts w).0)
  unfolding update
  update-Step id opts w = elim (Option-cases (load_state id w)) [
    | inl e ↦ rw (e, update) (same-Step _ w w (IsSame-refl w))
    | inr (st, e) ↦ rw (e, update) (search (if-Step, outside-Step, update_files-Step))
  ]

  pub pending-Step :
      (id name : Text) (w : World H)
      → Step (pending_call id name) (view w) (view (add_pending_network id name w).0)
  unfolding add_pending_network
  pending-Step id name w = elim (Option-cases (lookup id w.containers)) [
    | inl e ↦ rw (e, add_pending_network) (same-Step _ w w (IsSame-refl w))
    | inr (files, e) ↦
        let more = record files { pending = files.pending ++ name ∷ [] } in
        rw (e, add_pending_network)
          (if-Step _ w (contains files.pending name) _ _ (same-Step _ w w (IsSame-refl w))
            (same-Step _ w (put_files id more w) (put-IsSame id files more w e refl)))
  ]

  saved-as :
      (p : World H × Bool) (u : Text → Option Status) (c : Call)
      → Step c u (view p.0)
      → Step c u (view (saved p).0)
  unfolding saved
  saved-as (w, true) u c h = h
  saved-as (w, false) u c h = h

  switch-Step :
      (c : Call) (id : Text) (call : HostCall) (from to : Status) (st : ContainerState)
      (w : World H)
      → load_state id w ≡ some st
      → st.status ≡ from
      → Edge c id (some from) (some to)
      → Step c (view w) (view (switch host id call to st w).0)
  unfolding switch
  switch-Step c id call from to st w at e edge = search (if-Step, outside-Step, end)
    where
      end :
          (m : Machine H)
          → Step c (view w) (
              view (saved (save_state id (record st { status = to }) (record w { machine = m }))).0)
      end m =
          let next = record w { machine = m } in
          let loaded : load_state id next ≡ some st = (machine-IsSame m w).loads id ∙ at in
          let same = view-machine w m in
          saved-as (save_state id (record st { status = to }) next) (view w) c (
            let step = saved-Step c id st (record st { status = to }) from next loaded e edge in
            rw same at step)

  pub pause-Step :
      (id : Text) (w : World H) → Step (pause_call id) (view w) (view (pause host id w).0)
  unfolding pause
  pause-Step id w =
      let still = same-Step (pause_call id) w w (IsSame-refl w) in
      elim (Option-cases (load_state id w)) [
        | inl e ↦ rw (e, pause) still
        | inr (st, e) ↦ elim (Status-cases st.status) [
          | inl f ↦ rw (e, pause) (rw (f, pause) still)
          | inr (inl f) ↦
              rw (e, pause)
                (rw (f, pause)
                  (switch-Step (pause_call id) id (freeze id) running paused st w e f suspend))
          | inr (inr (inl f)) ↦ rw (e, pause) (rw (f, pause) still)
          | inr (inr (inr f)) ↦ rw (e, pause) (rw (f, pause) still)
        ]
      ]

  pub unpause-Step :
      (id : Text) (w : World H) → Step (unpause_call id) (view w) (view (unpause host id w).0)
  unfolding unpause
  unpause-Step id w =
      let still = same-Step (unpause_call id) w w (IsSame-refl w) in
      elim (Option-cases (load_state id w)) [
        | inl e ↦ rw (e, unpause) still
        | inr (st, e) ↦ elim (Status-cases st.status) [
          | inl f ↦ rw (e, unpause) (rw (f, unpause) still)
          | inr (inl f) ↦ rw (e, unpause) (rw (f, unpause) still)
          | inr (inr (inl f)) ↦
              rw (e, unpause)
                (rw (f, unpause)
                  (switch-Step (unpause_call id) id (unfreeze id) paused running st w e f resume))
          | inr (inr (inr f)) ↦ rw (e, unpause) (rw (f, unpause) still)
        ]
      ]
