-- ===== src/Runtime/Kept.antt =====
-- runtime.go: what a start keeps, for any relation between the worlds before and after it that allows
-- for changes of the state files, of the pending networks and of all that is outside the directories.
use thrive.Prelude.{
  ◌≡◌, refl, inl, inr, Option, none, some, [], ◌∷◌, ◌++◌, Text, lookup, Option-cases,
}
use thrive.Runtime.{
  Host, World, Files, Machine, Reaper, Event, ContainerConfig, ContainerState, load_state,
  load_config, save_state, put_files,
}
use thrive.Runtime.Launch.{Launched, launch}
use thrive.Runtime.Loads.{Status-cases, Launch-cases}
use thrive.Runtime.Start.{clear_pending, settle, start_created, start_loaded, start, running_state}

-- The relation holds where the directories are the same, is transitive, and allows for files with the same
-- number of restarts in a directory that is there.
pub record Keeping {H : Type 0} (Kept : World H → World H → Type 0) : Type 0 where
  pub outside : (w v : World H) → v.containers ≡ w.containers → Kept w v
  pub then : (u v w : World H) → Kept u v → Kept v w → Kept u w
  pub put :
      (id : Text) (old new : Files) (w : World H)
      → lookup id w.containers ≡ some old
      → new.restarts ≡ old.restarts
      → Kept w (put_files id new w)

module _ {H : Type 0} (Kept : World H → World H → Type 0) (laws : Keeping Kept) where
  pub save_state-keeps :
      (id : Text) (st : ContainerState) (w : World H) → Kept w (save_state id st w).0
  unfolding save_state
  save_state-keeps id st w = elim (Option-cases (lookup id w.containers)) [
    | inl e ↦ rw (e, save_state) (laws.outside w w refl)
    | inr (files, e) ↦
        rw (e, save_state) (laws.put id files (record files { state = some st }) w e refl)
  ]

  clear_pending-keeps :
      (id : Text) (ip : Option Text) (w : World H) → Kept w (clear_pending id ip w)
  unfolding clear_pending
  clear_pending-keeps id none w = laws.outside w w refl
  clear_pending-keeps id (some ip) w = elim (Option-cases (lookup id w.containers)) [
    | inl e ↦ rw (e, clear_pending) (laws.outside w w refl)
    | inr (files, e) ↦
        rw (e, clear_pending) (laws.put id files (record files { pending = [] }) w e refl)
  ]

  saved-keeps :
      (id : Text) (new : ContainerState) (m : Machine H) (ip : Option Text) (r : Reaper) (e : Event)
      (w : World H)
      → let v = (save_state id new (clear_pending id ip (record w { machine = m }))).0 in
        Kept w (record v { reapers = r ∷ v.reapers; events = v.events ++ e ∷ [] })
  saved-keeps id new m ip r e w =
      let begun = record w { machine = m } in
      let cleared = clear_pending id ip begun in
      let v = (save_state id new cleared).0 in
      let ended = record v { reapers = r ∷ v.reapers; events = v.events ++ e ∷ [] } in
      laws.then w begun ended (laws.outside w begun refl) (
        laws.then begun cleared ended (clear_pending-keeps id ip begun)
          (laws.then cleared v ended (save_state-keeps id new cleared) (laws.outside v ended refl)))

  settle-keeps :
      (host : Host H) (id : Text) (old : ContainerState) (cfg : ContainerConfig) (l : Launched)
      (w : World H)
      → Kept w (settle host id old cfg l w)
  unfolding settle
  settle-keeps host id old cfg l w = saved-keeps id (running_state l old) _ _ _ _ w

  start_created-keeps :
      (host : Host H) (id : Text) (old : ContainerState) (cfg : ContainerConfig) (w : World H)
      → Kept w (start_created host id old cfg w).0
  unfolding start_created
  start_created-keeps host id old cfg w =
      let next = record w { machine = (launch host id cfg w.machine).0 } in
      elim (Launch-cases (launch host id cfg w.machine).1) [
        | inl (e, f) ↦ rw (f, start_created) (laws.outside w next refl)
        | inr (l, f) ↦
            rw (f, start_created)
              (laws.then w next (settle host id old cfg l next) (laws.outside w next refl)
                (settle-keeps host id old cfg l next))
      ]

  pub start-keeps : (host : Host H) (id : Text) (w : World H) → Kept w (start host id w).0
  unfolding start start_loaded
  start-keeps host id w =
      let still = laws.outside w w refl in
      elim (Option-cases (load_state id w)) [
        | inl missing ↦ rw (missing, start) still
        | inr (st, at) ↦ elim (Status-cases st.status) [
          | inl fresh ↦ elim (Option-cases (load_config id w)) [
            | inl absent ↦ rw (at, start) (rw (fresh, start) (rw absent still))
            | inr (cfg, found) ↦
                rw (at, start) (rw (fresh, start) (rw found (start_created-keeps host id st cfg w)))
          ]
          | inr (inl e) ↦ rw (at, start) (rw (e, start) still)
          | inr (inr (inl e)) ↦ rw (at, start) (rw (e, start) still)
          | inr (inr (inr e)) ↦ rw (at, start) (rw (e, start) still)
        ]
      ]
