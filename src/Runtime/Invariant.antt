-- ===== src/Runtime/Invariant.antt =====
-- runtime.go, lifecycle.go: what the end of a process keeps true of the directories.
use thrive.Prelude.{
  suc, ℕ, ◌≡◌, refl, inl, inr, Option, none, some, Bool, true, false, List, [], ◌∷◌, ◌==◌, All,
  Bool-cases, Option-cases,
}
use thrive.Runtime.{
  Host, World, Reaper, ContainerState, ExitCode, Reply, done, failed, unmount_image,
}
use thrive.Runtime.Launch.{effect}
use thrive.Runtime.Pid.{IsHost}
use thrive.Runtime.Start.{start}
use thrive.Runtime.Restart.{may_restart}
use thrive.Runtime.Exit.{
  restarts_of, reset, relaunched, relaunch, try_restart, finish, reaped, reap, stopped_state,
  reset_state, take_reaper, exit_process,
}
use thrive.Runtime.Keeps.{
  IsReaper, IsWorld, IsWorld-machine, save_state-IsWorld, write_restarts-IsWorld, start-IsWorld,
}

module _ {H : Type 0} (host : Host H) (law : IsHost host) where
  finish-IsWorld :
      (r : Reaper) (code : ExitCode) (st : ContainerState) (w : World H)
      → st.id ≡ r.id
      → IsWorld w
      → IsWorld (finish host r code st w)
  unfolding finish
  finish-IsWorld r code st w named h =
      let kept =
        save_state-IsWorld r.id (stopped_state code st) w (record { named = named; process = tt })
          h in
      record { dirs = kept.dirs; waited = kept.waited }

  reset-IsWorld : (r : Reaper) (w : World H) → IsReaper r → IsWorld w → IsWorld (reset host r w).0
  unfolding reset
  reset-IsWorld r w good h =
      let counted = write_restarts-IsWorld r.id (suc (restarts_of r.id w)) w h in
      save_state-IsWorld r.id (reset_state r.state) _
        (record { named = good.named; process = refl })
        (record { dirs = counted.dirs; waited = counted.waited })

  -- The state that is left has the id of the container.
  Keeps : Reaper → World H × Option ContainerState → Type 0
  Keeps r (w, none) = IsWorld w
  Keeps r (w, some st) = IsWorld w × (st.id ≡ r.id)

  relaunched-Keeps :
      (r : Reaper) (code : ExitCode) (p : World H × Reply)
      → IsReaper r
      → IsWorld p.0
      → Keeps r (relaunched host r code p)
  unfolding relaunched Keeps
  relaunched-Keeps r code (w, done) good h = h
  relaunched-Keeps r code (w, failed e) good h = (
    save_state-IsWorld r.id (stopped_state code (reset_state r.state)) w
        (record { named = good.named; process = tt }) h,
    good.named,
  )

  relaunch-Keeps :
      (r : Reaper) (code : ExitCode) (p : World H × Bool)
      → IsReaper r
      → IsWorld p.0
      → Keeps r (relaunch host r code p)
  unfolding relaunch
  relaunch-Keeps r code (w, false) good h = unfold Keeps in (h, good.named)
  relaunch-Keeps r code (w, true) good h =
      let unmounted = record w { machine = effect host (unmount_image r.id) w.machine } in
      relaunched-Keeps r code (start host r.id unmounted) good
        (start-IsWorld host law r.id unmounted (IsWorld-machine unmounted.machine w.events w h))

  try_restart-Keeps :
      (r : Reaper) (code : ExitCode) (w : World H)
      → IsReaper r
      → IsWorld w
      → Keeps r (try_restart host r code w)
  unfolding try_restart
  try_restart-Keeps r code w good h =
      elim (Bool-cases (may_restart r.config.restart_policy code (restarts_of r.id w))) [
        | inr refused ↦ rw (refused, try_restart) (unfold Keeps in (h, good.named))
        | inl allowed ↦
            rw (allowed, try_restart)
              (relaunch-Keeps r code (reset host r w) good (reset-IsWorld r w good h))
      ]

  reaped-IsWorld :
      (r : Reaper) (code : ExitCode) (p : World H × Option ContainerState)
      → Keeps r p
      → IsWorld (reaped host r code p)
  unfolding reaped Keeps
  reaped-IsWorld r code (w, none) h = h
  reaped-IsWorld r code (w, some st) (h, named) = finish-IsWorld r code st w named h

  -- The reaper that is taken is one of those that wait, and the others go on waiting.
  IsTaken : Option (Reaper × List Reaper) → Type 0
  IsTaken none = Unit
  IsTaken (some (r, rest)) = IsReaper r × All IsReaper rest

  take_reaper-IsTaken :
      (pid : ℕ) (reapers : List Reaper) → All IsReaper reapers → IsTaken (take_reaper pid reapers)
  unfolding take_reaper IsTaken
  take_reaper-IsTaken pid [] h = tt
  take_reaper-IsTaken pid (r ∷ reapers) h =
      let others = take_reaper-IsTaken pid reapers h.1 in
      elim (Bool-cases (r.pid == pid)) [
        | inl e ↦ rw (e, take_reaper) h
        | inr e ↦ elim (Option-cases (take_reaper pid reapers)) [
          | inl f ↦ rw (e, take_reaper) (rw (f, take_reaper) tt)
          | inr (found, f) ↦
              let both : IsReaper found.0 × All IsReaper found.1 =
                unfold IsTaken in (rw f at others) in
              rw (e, take_reaper) (rw (f, take_reaper) (both.0, (h.0, both.1)))
        ]
      ]

  pub exit_process-IsWorld :
      (pid : ℕ) (code : ExitCode) (w : World H) → IsWorld w → IsWorld (exit_process host pid code w)
  unfolding exit_process reap
  exit_process-IsWorld pid code w h = elim (Option-cases (take_reaper pid w.reapers)) [
    | inl e ↦ rw (e, exit_process) h
    | inr ((r, reapers), e) ↦
        let known = take_reaper-IsTaken pid w.reapers h.waited in
        let here : IsReaper r × All IsReaper reapers = unfold IsTaken in (rw e at known) in
        let less = record w { reapers = reapers } in
        rw (e, exit_process)
          (reaped-IsWorld r code (try_restart host r code less)
            (try_restart-Keeps r code less here.0 (record { dirs = h.dirs; waited = here.1 })))
  ]
