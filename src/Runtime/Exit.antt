-- ===== src/Runtime/Exit.antt =====
-- The end of a process: the goroutine at the end of `Start` of runtime.go, and tryRestart of lifecycle.go.
use thrive.Prelude.{
  ℕ, suc, ◌==◌, Option, none, some, Bool, true, false, List, [], ◌∷◌, Text, text, lookup, is_empty,
  itoa, if◌then◌else◌,
}
use thrive.Runtime.{
  Host, Machine, World, Reaper, ContainerState, created, stopped, ExitCode, exited, signalled,
  Reply, done, failed, unmount_image, cleanup_secrets, save_state, put_files, log_event,
}
use thrive.Runtime.Attach.{remove_port_forwards}
use thrive.Runtime.Launch.{effect}
use thrive.Runtime.Restart.{may_restart}
use thrive.Runtime.Start.{start}
use thrive.Network.Attach.{teardown_attachments}

-- strconv.Itoa of an exit code.
unfoldable pub exit_text : ExitCode → Text
exit_text (exited n) = itoa n
exit_text signalled = text "-1"

abbrev pub stopped_state : ExitCode → ContainerState → ContainerState
stopped_state code st = record st { status = stopped; exit_code = code }

abbrev pub reset_state : ContainerState → ContainerState
reset_state st = record st { status = created; pid = 0 }

unfoldable pub take_reaper : ℕ → List Reaper → Option (Reaper × List Reaper)
take_reaper pid [] = none
take_reaper pid (r ∷ reapers) =
    if r.pid == pid then some (r, reapers) else elim (take_reaper pid reapers) [
      | none ↦ none
      | some (found, rest) ↦ some (found, r ∷ rest)
    ]

module _ {H : Type 0} where
  -- The file "restarts", which is not written in a directory that is not there.
  unfoldable pub restarts_of : Text → World H → ℕ
  restarts_of id w = elim (lookup id w.containers) [ none ↦ 0 | some files ↦ files.restarts ]

  unfoldable pub write_restarts : Text → ℕ → World H → World H
  write_restarts id n w = elim (lookup id w.containers) [
    | none ↦ w
    | some files ↦ put_files id (record files { restarts = n }) w
  ]

  module _ (host : Host H) where
    -- Up to the new start, and whether the state was saved.
    unfoldable pub reset : Reaper → World H → World H × Bool
    reset r w =
        let attempt = suc (restarts_of r.id w) in
        let counted = write_restarts r.id attempt w in
        let noted = log_event (text "restart") r.id ((text "attempt", itoa attempt) ∷ []) counted in
        save_state r.id (reset_state r.state) noted

    -- What is left of the state if the new start fails.
    unfoldable pub relaunched :
        Reaper → ExitCode → World H × Reply → World H × Option ContainerState
    relaunched r code (w, done) = (w, none)
    relaunched r code (w, failed e) =
        let down = stopped_state code (reset_state r.state) in
        ((save_state r.id down w).0, some down)

    -- The new start, once the state is saved.
    unfoldable pub relaunch : Reaper → ExitCode → World H × Bool → World H × Option ContainerState
    relaunch r code (w, false) = (w, some (reset_state r.state))
    relaunch r code (w, true) =
        let unmounted = record w { machine = effect host (unmount_image r.id) w.machine } in
        relaunched r code (start host r.id unmounted)

    -- The state that is left, or none if the container runs again.
    unfoldable pub try_restart : Reaper → ExitCode → World H → World H × Option ContainerState
    try_restart r code w =
        let again = relaunch r code (reset r w) in
        if may_restart r.config.restart_policy code (restarts_of r.id w)
        then again
        else (w, some r.state)

    unfoldable pub release : Reaper → Machine H → Machine H
    release r m =
        let closed =
          if is_empty r.container_ip
          then m
          else remove_port_forwards host r.container_ip r.config.ports m in
        let apart = record closed { links = teardown_attachments r.id closed.links } in
        if is_empty r.config.secrets then apart else effect host (cleanup_secrets r.id) apart

    -- The end of a container that does not run again.
    unfoldable pub finish : Reaper → ExitCode → ContainerState → World H → World H
    finish r code st w =
        let saved = (save_state r.id (stopped_state code st) w).0 in
        log_event (text "die") r.id ((text "exitCode", exit_text code) ∷ [])
          (record saved { machine = release r saved.machine })

    unfoldable pub reaped : Reaper → ExitCode → World H × Option ContainerState → World H
    reaped r code (w, none) = w
    reaped r code (w, some st) = finish r code st w

    unfoldable pub reap : Reaper → ExitCode → World H → World H
    reap r code w = reaped r code (try_restart r code w)

    -- A process that the runtime waits for ends.
    unfoldable pub exit_process : ℕ → ExitCode → World H → World H
    exit_process pid code w = elim (take_reaper pid w.reapers) [
      | none ↦ w
      | some (r, reapers) ↦ reap r code (record w { reapers = reapers })
    ]
