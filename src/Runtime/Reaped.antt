-- ===== src/Runtime/Reaped.antt =====
-- runtime.go, lifecycle.go: what the end of a process leaves in the state files.
use mathlib.Core.Path.{subst}
use thrive.Prelude.{
  suc, ◌≡◌, refl, sym, ◌∙◌, ap, inl, inr, Option, none, some, Bool, true, false, [], ◌∷◌, ◌++◌,
  arith, Text, eq_refl, lookup, lookup-insert_same, Bool-cases, Option-cases,
}
use thrive.Runtime.{
  Host, World, Files, Reaper, Event, ContainerState, running, stopped, ExitCode, unmount_image,
  load_state, save_state,
}
use thrive.Runtime.Restart.{may_restart}
use thrive.Runtime.Launch.{effect}
use thrive.Runtime.Loads.{
  IsSame, IsApart, IsApart-trans, same-IsApart, put-IsSame, save_state-IsApart, IsStarted,
  not_started, now_running, start_lem, load_state-put,
}
use thrive.Runtime.Exit.{
  restarts_of, write_restarts, reset, relaunched, relaunch, try_restart, finish, reaped, reap,
  stopped_state, reset_state,
}

module _ {H : Type 0} where
  -- The container has a directory.
  unfoldable pub Has : Text → World H → Type 0
  Has id w = (files : Files) × (lookup id w.containers ≡ some files)

  pub Has-load :
      (id : Text) (st : ContainerState) (w : World H) → load_state id w ≡ some st → Has id w
  unfolding load_state Has
  Has-load id st w h = elim (Option-cases (lookup id w.containers)) [
    | inl e ↦ absurd (ground (arith, rw (e, load_state) at h))
    | inr found ↦ found
  ]

  pub save_state-Has :
      (id : Text) (st : ContainerState) (w : World H)
      → Has id w
      → ((save_state id st w).1 ≡ true) × (load_state id (save_state id st w).0 ≡ some st)
  unfolding save_state Has
  save_state-Has id st w (files, e) = (
    rw (e, save_state) refl,
    rw (e, save_state)
        (ground (arith, load_state-put id (record files { state = some st }) w id, eq_refl id)),
  )

  save_state-missing :
      (id : Text) (st : ContainerState) (w : World H)
      → lookup id w.containers ≡ none
      → save_state id st w ≡ (w, false)
  unfolding save_state
  save_state-missing id st w e = rw (e, save_state) refl

  write_restarts-missing :
      (id : Text) (n : _) (w : World H) → lookup id w.containers ≡ none → write_restarts id n w ≡ w
  unfolding write_restarts
  write_restarts-missing id n w e = rw (e, write_restarts) refl

  pub write_restarts-Has :
      (id : Text) (n : _) (w : World H)
      → Has id w
      → IsSame w (write_restarts id n w) × Has id (write_restarts id n w)
  unfolding write_restarts Has
  write_restarts-Has id n w (files, e) =
      rw (e, write_restarts)
        (
          put-IsSame id files (record files { restarts = n }) w e refl,
          (
            record files { restarts = n },
            lookup-insert_same id (record files { restarts = n }) w.containers,
          ),
        )

  -- What is left when the process of a container with a directory has ended.
  pub data IsReaped (id : Text) (w v : World H) : Type 0 where
    is_down :
        (new : ContainerState)
        → load_state id v ≡ some new
        → new.status ≡ stopped
        → IsApart id w v
        → IsReaped id w v
    is_up :
        (new : ContainerState)
        → load_state id v ≡ some new
        → new.status ≡ running
        → IsApart id w v
        → IsReaped id w v

  module _ (host : Host H) where
    pub finish_lem :
        (r : Reaper) (code : ExitCode) (st : ContainerState) (w : World H)
        → Has r.id w
        → (load_state r.id (finish host r code st w) ≡ some (stopped_state code st))
          × IsApart r.id w (finish host r code st w)
    unfolding finish
    finish_lem r code st w has =
        let (ok, saved) = save_state-Has r.id (stopped_state code st) w has in
        let apart = save_state-IsApart r.id (stopped_state code st) w in
        (
          unfold load_state in saved,
          record { others = λ a n. unfold load_state in (apart.others a n) },
        )

    noted_lem :
        (id : Text) (st : ContainerState) (event : Event) (w : World H)
        → Has id w
        → let noted = record w { events = w.events ++ event ∷ [] } in
          ((save_state id st noted).1 ≡ true)
          × (load_state id (save_state id st noted).0 ≡ some st)
          × IsApart id w (save_state id st noted).0
    noted_lem id st event w has =
        let noted = record w { events = w.events ++ event ∷ [] } in
        let there : Has id noted = unfold Has in unfold Has in has in
        let (ok, saved) = save_state-Has id st noted there in
        let apart = save_state-IsApart id st noted in
        (ok, saved, record { others = λ a n. apart.others a n ∙ unfold load_state in refl })

    reset_lem :
        (r : Reaper) (w : World H)
        → Has r.id w
        → ((reset host r w).1 ≡ true)
          × (load_state r.id (reset host r w).0 ≡ some (reset_state r.state))
          × IsApart r.id w (reset host r w).0
    unfolding reset
    reset_lem r w has =
        let counted = write_restarts r.id (suc (restarts_of r.id w)) w in
        let (same, there) = write_restarts-Has r.id (suc (restarts_of r.id w)) w has in
        let (ok, saved, apart) = noted_lem r.id (reset_state r.state) _ counted there in
        (ok, saved, IsApart-trans r.id w counted _ (same-IsApart r.id w counted same) apart)

    -- The new start, if it succeeds, and the state that is left otherwise.
    IsRelaunched : Text → World H → World H × Option ContainerState → Type 0
    IsRelaunched id w (v, none) = IsReaped id w v
    IsRelaunched id w (v, some st) = Has id v × IsApart id w v

    relaunched_lem :
        (r : Reaper) (code : ExitCode) (st : ContainerState) (w : World H) {p : _}
        → load_state r.id w ≡ some st
        → IsStarted host r.id w p
        → IsRelaunched r.id w (relaunched host r code p)
    unfolding relaunched IsRelaunched
    relaunched_lem r code st w at (not_started {v = v} same) =
        let down = stopped_state code (reset_state r.state) in
        let there = Has-load r.id st v (same.loads r.id ∙ at) in
        let (ok, saved) = save_state-Has r.id down v there in
        (
          Has-load r.id down (save_state r.id down v).0 saved,
          IsApart-trans r.id w v _ (same-IsApart r.id w v same) (save_state-IsApart r.id down v),
        )
    relaunched_lem r code st w at (now_running {new = new} old fresh now up apart) =
        is_up new now up apart

    IsRelaunched-trans :
        (id : Text) (u v : World H) (p : World H × Option ContainerState)
        → IsApart id u v
        → IsRelaunched id v p
        → IsRelaunched id u p
    unfolding IsRelaunched
    IsRelaunched-trans id u v (w, none) apart (is_down new at down more) =
        is_down new at down (IsApart-trans id u v w apart more)
    IsRelaunched-trans id u v (w, none) apart (is_up new at up more) =
        is_up new at up (IsApart-trans id u v w apart more)
    IsRelaunched-trans id u v (w, some st) apart (has, more) =
        (has, IsApart-trans id u v w apart more)

    relaunch_lem :
        (r : Reaper) (code : ExitCode) (w : World H)
        → Has r.id w
        → IsRelaunched r.id w (relaunch host r code (reset host r w))
    unfolding relaunch
    relaunch_lem r code w has =
        let (ok, saved, apart) = reset_lem r w has in
        let v = (reset host r w).0 in
        let unmounted = record v { machine = effect host (unmount_image r.id) v.machine } in
        let loaded : load_state r.id unmounted ≡ some (reset_state r.state) =
          unfold load_state in saved in
        let here =
          relaunched_lem r code (reset_state r.state) unmounted loaded
            (start_lem host r.id unmounted) in
        let moved : IsApart r.id w unmounted = record {
          others = λ a n. unfold load_state in (apart.others a n);
        } in
        subst (λ (ready : Bool). IsRelaunched r.id w (relaunch host r code (v, ready))) (sym ok)
          (IsRelaunched-trans r.id w unmounted _ moved here)

    try_restart_lem :
        (r : Reaper) (code : ExitCode) (w : World H)
        → Has r.id w
        → IsRelaunched r.id w (try_restart host r code w)
    unfolding try_restart
    try_restart_lem r code w has =
        elim (Bool-cases (may_restart r.config.restart_policy code (restarts_of r.id w))) [
          | inr refused ↦
              rw (refused, try_restart)
                (unfold IsRelaunched in (has, record { others = λ a n. refl }))
          | inl allowed ↦ rw (allowed, try_restart) (relaunch_lem r code w has)
        ]

    reaped_lem :
        (r : Reaper) (code : ExitCode) (w : World H) (p : World H × Option ContainerState)
        → IsRelaunched r.id w p
        → IsReaped r.id w (reaped host r code p)
    unfolding reaped IsRelaunched
    reaped_lem r code w (v, none) h = h
    reaped_lem r code w (v, some st) (has, apart) =
        let (at, more) = finish_lem r code st v has in
        is_down (stopped_state code st) at refl (IsApart-trans r.id w v _ apart more)

    pub reap_lem :
        (r : Reaper) (code : ExitCode) (w : World H)
        → Has r.id w
        → IsReaped r.id w (reap host r code w)
    unfolding reap
    reap_lem r code w has =
        reaped_lem r code w (try_restart host r code w) (try_restart_lem r code w has)

    finish_missing :
        (r : Reaper) (code : ExitCode) (st : ContainerState) (w : World H)
        → lookup r.id w.containers ≡ none
        → (finish host r code st w).containers ≡ w.containers
    unfolding finish
    finish_missing r code st w gone =
        ap (λ (p : World H × Bool). p.0.containers)
          (save_state-missing r.id (stopped_state code st) w gone)

    reset_missing :
        (r : Reaper) (w : World H)
        → lookup r.id w.containers ≡ none
        → ((reset host r w).1 ≡ false) × ((reset host r w).0.containers ≡ w.containers)
    unfolding reset
    reset_missing r w gone =
        let n = suc (restarts_of r.id w) in
        let counted = write_restarts r.id n w in
        let same : counted.containers ≡ w.containers =
          ap (λ (v : World H). v.containers) (write_restarts-missing r.id n w gone) in
        let absent : lookup r.id counted.containers ≡ none = ap (lookup r.id) same ∙ gone in
        let kept = save_state-missing r.id (reset_state r.state) _ absent in
        (
          ap (λ (p : World H × Bool). p.1) kept,
          ap (λ (p : World H × Bool). p.0.containers) kept ∙ same,
        )

    reap_refused :
        (r : Reaper) (code : ExitCode) (w : World H)
        → lookup r.id w.containers ≡ none
        → (reaped host r code (relaunch host r code (reset host r w))).containers ≡ w.containers
    unfolding relaunch reaped
    reap_refused r code w gone =
        let (failed_save, same) = reset_missing r w gone in
        let v = (reset host r w).0 in
        subst
          (λ (ready : Bool).
            (reaped host r code (relaunch host r code (v, ready))).containers ≡ w.containers)
          (sym failed_save)
          (finish_missing r code (reset_state r.state) v (ap (lookup r.id) same ∙ gone) ∙ same)

    -- Nothing is written for a container whose directory is gone.
    pub reap_missing :
        (r : Reaper) (code : ExitCode) (w : World H)
        → lookup r.id w.containers ≡ none
        → (reap host r code w).containers ≡ w.containers
    unfolding reap try_restart
    reap_missing r code w gone =
        elim (Bool-cases (may_restart r.config.restart_policy code (restarts_of r.id w))) [
          | inl allowed ↦ rw allowed (reap_refused r code w gone)
          | inr refused ↦ rw refused (unfold reaped in finish_missing r code r.state w gone)
        ]
