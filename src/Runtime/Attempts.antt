-- ===== src/Runtime/Attempts.antt =====
-- lifecycle.go: the number of restarts of a container.
use thrive.Prelude.{
  ℕ, suc, ◌≤◌, ◌<◌, ◌≡◌, refl, ◌∙◌, inl, inr, Option, none, some, Bool, true, false, [], ◌∷◌, ◌++◌,
  arith, Text, eq_iff, lookup, lookup-insert, lookup-insert_same, Bool-cases, if◌then◌else◌,
}
use thrive.Runtime.{
  RestartPolicy, Host, World, Files, Reaper, Event, ContainerState, ExitCode, Reply, done, failed,
  save_state, put_files, unmount_image,
}
use thrive.Runtime.Restart.{may_restart}
use thrive.Runtime.Launch.{effect}
use thrive.Runtime.Start.{start}
use thrive.Runtime.Kept.{Keeping, save_state-keeps, start-keeps}
use thrive.Runtime.Reaped.{Has}
use thrive.Runtime.Exit.{
  restarts_of, write_restarts, reset, relaunched, relaunch, try_restart, finish, reaped, reap,
  stopped_state, reset_state,
}

bound :
    (policy : RestartPolicy) (code : ExitCode) (before after : ℕ)
    → after ≡ (if may_restart policy code before then suc before else before)
    → 0 < policy.max_retry_attempts
    → before ≤ policy.max_retry_attempts
    → after ≤ policy.max_retry_attempts
unfolding may_restart
bound policy code before after e some_limit within = ground arith

module _ {H : Type 0} where
  -- The counts of all containers are as they were.
  IsCounted : World H → World H → Type 0
  IsCounted w v = (a : Text) → restarts_of a v ≡ restarts_of a w

  put-IsCounted :
      (id : Text) (old new : Files) (w : World H)
      → lookup id w.containers ≡ some old
      → new.restarts ≡ old.restarts
      → IsCounted w (put_files id new w)
  unfolding restarts_of IsCounted
  put-IsCounted id old new w at same a =
      ground (arith, at, same, lookup-insert id a new w.containers, eq_iff id a)

  -- Everything but the files "restarts" may change.
  IsCounted-laws : Keeping IsCounted
  unfolding IsCounted restarts_of
  IsCounted-laws = record {
    outside = λ w v e a. rw (e, restarts_of) refl;
    then = λ u v w g h a. h a ∙ g a;
    put = λ id old new w at same. unfold IsCounted in put-IsCounted id old new w at same;
  }

  save_state-IsCounted :
      (id : Text) (st : ContainerState) (w : World H) → IsCounted w (save_state id st w).0
  save_state-IsCounted id st w = save_state-keeps IsCounted IsCounted-laws id st w

  module _ (host : Host H) where
    start-IsCounted : (id : Text) (w : World H) → IsCounted w (start host id w).0
    start-IsCounted id w = start-keeps IsCounted IsCounted-laws host id w

    finish-IsCounted :
        (r : Reaper) (code : ExitCode) (st : ContainerState) (w : World H)
        → IsCounted w (finish host r code st w)
    unfolding finish
    finish-IsCounted r code st w =
        let saved = save_state-IsCounted r.id (stopped_state code st) w in
        unfold IsCounted restarts_of in saved

    relaunched-IsCounted :
        (r : Reaper) (code : ExitCode) (p : World H × Reply)
        → IsCounted p.0 (relaunched host r code p).0
    unfolding relaunched
    relaunched-IsCounted r code (w, done) = unfold IsCounted in λ a. refl
    relaunched-IsCounted r code (w, failed e) =
        save_state-IsCounted r.id (stopped_state code (reset_state r.state)) w

    relaunch-IsCounted :
        (r : Reaper) (code : ExitCode) (p : World H × Bool)
        → IsCounted p.0 (relaunch host r code p).0
    unfolding relaunch IsCounted
    relaunch-IsCounted r code (w, false) a = refl
    relaunch-IsCounted r code (w, true) a =
        let unmounted = record w { machine = effect host (unmount_image r.id) w.machine } in
        let started : restarts_of a (start host r.id unmounted).0 ≡ restarts_of a unmounted =
          unfold IsCounted in start-IsCounted r.id unmounted a in
        let again : restarts_of a (relaunched host r code (start host r.id unmounted)).0
            ≡ restarts_of a (start host r.id unmounted).0 =
          unfold IsCounted in relaunched-IsCounted r code (start host r.id unmounted) a in
        unfold restarts_of in (again ∙ started)

    reaped-IsCounted :
        (r : Reaper) (code : ExitCode) (p : World H × Option ContainerState)
        → IsCounted p.0 (reaped host r code p)
    unfolding reaped
    reaped-IsCounted r code (w, none) = unfold IsCounted in λ a. refl
    reaped-IsCounted r code (w, some st) = finish-IsCounted r code st w

    count-put :
        (id : Text) (files : Files) (w : World H)
        → restarts_of id (put_files id files w) ≡ files.restarts
    unfolding restarts_of
    count-put id files w = rw (lookup-insert_same id files w.containers, restarts_of) refl

    written :
        (id : Text) (n : ℕ) (w : World H) → Has id w → restarts_of id (write_restarts id n w) ≡ n
    unfolding write_restarts Has
    written id n w (files, e) =
        rw (e, write_restarts) (count-put id (record files { restarts = n }) w)

    noted-IsCounted :
        (id : Text) (st : ContainerState) (event : Event) (w : World H)
        → restarts_of id (save_state id st (record w { events = w.events ++ event ∷ [] })).0
          ≡ restarts_of id w
    noted-IsCounted id st event w =
        let noted = record w { events = w.events ++ event ∷ [] } in
        let saved : restarts_of id (save_state id st noted).0 ≡ restarts_of id noted =
          unfold IsCounted in save_state-IsCounted id st noted id in
        saved ∙ unfold restarts_of in refl

    reset-attempt :
        (r : Reaper) (w : World H)
        → Has r.id w
        → restarts_of r.id (reset host r w).0 ≡ suc (restarts_of r.id w)
    unfolding reset
    reset-attempt r w has =
        noted-IsCounted r.id (reset_state r.state) _ _
        ∙ written r.id (suc (restarts_of r.id w)) w has

    try_restart-attempt :
        (r : Reaper) (code : ExitCode) (w : World H)
        → Has r.id w
        → restarts_of r.id (try_restart host r code w).0 ≡ (
            if may_restart r.config.restart_policy code (restarts_of r.id w)
            then suc (restarts_of r.id w)
            else restarts_of r.id w)
    unfolding try_restart
    try_restart-attempt r code w has =
        elim (Bool-cases (may_restart r.config.restart_policy code (restarts_of r.id w))) [
          | inr denied ↦ rw denied refl
          | inl allowed ↦
              let again : restarts_of r.id (relaunch host r code (reset host r w)).0
                  ≡ restarts_of r.id (reset host r w).0 =
                unfold IsCounted in relaunch-IsCounted r code (reset host r w) r.id in
              rw allowed (again ∙ reset-attempt r w has)
        ]

  -- The count after the end of a process, and its bound.
  pub record IsAttempt (r : Reaper) (code : ExitCode) (w v : World H) : Type 0 where
    pub counted : restarts_of r.id v ≡ (
        if may_restart r.config.restart_policy code (restarts_of r.id w)
        then suc (restarts_of r.id w)
        else restarts_of r.id w)
    pub bounded :
        0 < r.config.restart_policy.max_retry_attempts
        → restarts_of r.id w ≤ r.config.restart_policy.max_retry_attempts
        → restarts_of r.id v ≤ r.config.restart_policy.max_retry_attempts

  -- When the process of a container with a directory ends, one restart is counted if the policy asks for one, and
  -- none otherwise; a count that is at most the policy's maximum, where there is one, stays so.
  pub reap-IsAttempt :
      (host : Host H) (r : Reaper) (code : ExitCode) (w : World H)
      → Has r.id w
      → IsAttempt r code w (reap host r code w)
  reap-IsAttempt host r code w has =
      let kept : restarts_of r.id (reap host r code w)
          ≡ restarts_of r.id (try_restart host r code w).0 =
        unfold reap IsCounted in reaped-IsCounted host r code (try_restart host r code w) r.id in
      let count = kept ∙ try_restart-attempt host r code w has in
      record {
        counted = count;
        bounded =
            bound r.config.restart_policy code (restarts_of r.id w)
              (restarts_of r.id (reap host r code w)) count;
      }
