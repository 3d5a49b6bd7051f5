-- ===== src/Runtime/Loads.antt =====
-- runtime.go, lifecycle.go: what each step leaves in the state files, seen through loadState.
use thrive.Prelude.{
  ◌≡◌, refl, ◌∙◌, ◌⊎◌, inl, inr, Option, none, some, true, false, [], ◌∷◌, ◌++◌, arith, Text, ◌=ᵗ◌,
  eq_iff, eq_refl, lookup, lookup-insert, Option-cases, if◌then◌else◌,
}
use thrive.Runtime.{
  Host, World, Files, Machine, Reaper, Event, ContainerConfig, ContainerState, Status, created,
  running, paused, stopped, Reply, done, failed, RuntimeError, load_state, load_config, save_state,
  put_files,
}
use thrive.Runtime.Launch.{Launched, Launch, launched, refused, launch}
use thrive.Runtime.Start.{clear_pending, settle, start_created, start_loaded, start, running_state}

pub Launch-cases :
    (result : Launch)
    → ((e : RuntimeError) × (result ≡ refused e)) ⊎ ((l : Launched) × (result ≡ launched l))
Launch-cases (refused e) = inl (e, refl)
Launch-cases (launched l) = inr (l, refl)

pub Status-cases : (s : Status) → (s ≡ created) ⊎ (s ≡ running) ⊎ (s ≡ paused) ⊎ (s ≡ stopped)
Status-cases created = inl refl
Status-cases running = inr (inl refl)
Status-cases paused = inr (inr (inl refl))
Status-cases stopped = inr (inr (inr refl))

module _ {H : Type 0} where
  -- The worlds load the same states.
  pub record IsSame (w v : World H) : Type 0 where
    pub loads : (a : Text) → load_state a v ≡ load_state a w

  pub machine-IsSame : (m : Machine H) (w : World H) → IsSame w (record w { machine = m })
  unfolding load_state
  machine-IsSame m w = record { loads = λ a. refl }

  pub IsSame-refl : (w : World H) → IsSame w w
  IsSame-refl w = record { loads = λ a. refl }

  -- Only the state of one container differs.
  pub record IsApart (id : Text) (w v : World H) : Type 0 where
    pub others : (a : Text) → (id =ᵗ a) ≡ false → load_state a v ≡ load_state a w

  pub IsApart-trans :
      (id : Text) (u v w : World H) → IsApart id u v → IsApart id v w → IsApart id u w
  IsApart-trans id u v w g h = record { others = λ a n. h.others a n ∙ g.others a n }

  pub same-IsApart : (id : Text) (w v : World H) → IsSame w v → IsApart id w v
  same-IsApart id w v h = record { others = λ a n. h.loads a }

  pub load_state-put :
      (id : Text) (files : Files) (w : World H) (a : Text)
      → load_state a (put_files id files w) ≡ (if id =ᵗ a then files.state else load_state a w)
  unfolding load_state
  load_state-put id files w a = ground (arith, lookup-insert id a files w.containers)

  pub put-IsApart : (id : Text) (files : Files) (w : World H) → IsApart id w (put_files id files w)
  put-IsApart id files w = record { others = λ a n. ground (arith, load_state-put id files w a) }

  -- A change of the other files.
  pub load_state_lem :
      (id : Text) (files : Files) (w : World H)
      → lookup id w.containers ≡ some files
      → load_state id w ≡ files.state
  unfolding load_state
  load_state_lem id files w at = rw (at, load_state) refl

  pub put-IsSame :
      (id : Text) (old files : Files) (w : World H)
      → lookup id w.containers ≡ some old
      → files.state ≡ old.state
      → IsSame w (put_files id files w)
  put-IsSame id old files w at same = record {
    loads = λ a.
        let here = load_state_lem id old w at in
        ground (arith, here, same, load_state-put id files w a, eq_iff id a);
  }

  pub save_state-IsApart :
      (id : Text) (st : ContainerState) (w : World H) → IsApart id w (save_state id st w).0
  unfolding save_state
  save_state-IsApart id st w = elim (Option-cases (lookup id w.containers)) [
    | inl e ↦ rw (e, save_state) (record { others = λ a n. refl })
    | inr (files, e) ↦ rw (e, save_state) (put-IsApart id (record files { state = some st }) w)
  ]

  -- The state is saved, or the directory is missing and nothing is changed.
  pub load_state-save :
      (id : Text) (st : ContainerState) (w : World H)
      → ((save_state id st w ≡ (w, false)) × (load_state id w ≡ none))
        ⊎ (((save_state id st w).1 ≡ true) × (load_state id (save_state id st w).0 ≡ some st))
  unfolding save_state load_state
  load_state-save id st w = elim (Option-cases (lookup id w.containers)) [
    | inl e ↦ inl (rw (e, save_state) refl, rw (e, load_state) refl)
    | inr (files, e) ↦ inr (
      rw (e, save_state) refl,
      rw (e, save_state)
          (ground (arith, load_state-put id (record files { state = some st }) w id, eq_refl id)),
    )
  ]

  pub load_state-saved :
      (id : Text) (st old : ContainerState) (w : World H)
      → load_state id w ≡ some old
      → load_state id (save_state id st w).0 ≡ some st
  load_state-saved id st old w h = ground (arith, load_state-save id st w)

  clear_pending-IsSame :
      (id : Text) (ip : Option Text) (w : World H) → IsSame w (clear_pending id ip w)
  unfolding clear_pending
  clear_pending-IsSame id none w = record { loads = λ a. refl }
  clear_pending-IsSame id (some ip) w = elim (Option-cases (lookup id w.containers)) [
    | inl e ↦ rw (e, clear_pending) (record { loads = λ a. refl })
    | inr (files, e) ↦
        rw (e, clear_pending) (put-IsSame id files (record files { pending = [] }) w e refl)
  ]

  module _ (host : Host H) where
    -- A container that is started and all that start does to the states.
    pub data IsStarted (id : Text) (w : World H) : World H × Reply → Type 0 where
      not_started : {v : World H} {e : _} → IsSame w v → IsStarted id w (v, failed e)
      now_running :
          {v : World H} {old new : ContainerState}
          → load_state id w ≡ some old
          → old.status ≡ created
          → load_state id v ≡ some new
          → new.status ≡ running
          → IsApart id w v
          → IsStarted id w (v, done)

    -- The end of a start, whatever the network and the cgroup have done.
    saved_lem :
        (id : Text) (old new : ContainerState) (m : Machine H) (ip : Option Text) (r : Reaper)
        (e : Event) (w : World H)
        → load_state id w ≡ some old
        → let cleared = clear_pending id ip (record w { machine = m }) in
          let v = (save_state id new cleared).0 in
          let ended = record v { reapers = r ∷ v.reapers; events = v.events ++ e ∷ [] } in
          (load_state id ended ≡ some new) × IsApart id w ended
    saved_lem id old new m ip r e w at =
        let begun = record w { machine = m } in
        let cleared = clear_pending id ip begun in
        let same = clear_pending-IsSame id ip begun in
        let found : load_state id cleared ≡ some old = same.loads id ∙ unfold load_state in at in
        let saved = load_state-saved id new old cleared found in
        let apart = save_state-IsApart id new cleared in
        (
          unfold load_state in saved,
          record { others = λ a n. unfold load_state in (apart.others a n ∙ same.loads a) },
        )

    settle_lem :
        (id : Text) (old : ContainerState) (cfg : ContainerConfig) (l : Launched) (w : World H)
        → load_state id w ≡ some old
        → (load_state id (settle host id old cfg l w) ≡ some (running_state l old))
          × IsApart id w (settle host id old cfg l w)
    unfolding settle
    settle_lem id old cfg l w at = saved_lem id old (running_state l old) _ _ _ _ w at

    start_created_lem :
        (id : Text) (old : ContainerState) (cfg : ContainerConfig) (w : World H)
        → load_state id w ≡ some old
        → old.status ≡ created
        → IsStarted id w (start_created host id old cfg w)
    unfolding start_created
    start_created_lem id old cfg w at fresh =
        let next = record w { machine = (launch host id cfg w.machine).0 } in
        elim (Launch-cases (launch host id cfg w.machine).1) [
          | inl (e, f) ↦ rw (f, start_created) (not_started (machine-IsSame _ w))
          | inr (l, f) ↦
              let found : load_state id next ≡ some old = unfold load_state in at in
              let (now, apart) = settle_lem id old cfg l next found in
              rw (f, start_created)
                (now_running at fresh now refl
                  (record { others = λ a n. apart.others a n ∙ unfold load_state in refl }))
        ]

    pub start_lem : (id : Text) (w : World H) → IsStarted id w (start host id w)
    unfolding start start_loaded
    start_lem id w = elim (Option-cases (load_state id w)) [
      | inl missing ↦ rw (missing, start) (not_started (IsSame-refl w))
      | inr (st, at) ↦ elim (Status-cases st.status) [
        | inl fresh ↦ elim (Option-cases (load_config id w)) [
          | inl none_there ↦
              rw (at, start) (rw (fresh, start) (rw none_there (not_started (IsSame-refl w))))
          | inr (cfg, found) ↦
              rw (at, start) (rw (fresh, start) (rw found (start_created_lem id st cfg w at fresh)))
        ]
        | inr (inl e) ↦ rw (at, start) (rw (e, start) (not_started (IsSame-refl w)))
        | inr (inr (inl e)) ↦ rw (at, start) (rw (e, start) (not_started (IsSame-refl w)))
        | inr (inr (inr e)) ↦ rw (at, start) (rw (e, start) (not_started (IsSame-refl w)))
      ]
    ]
