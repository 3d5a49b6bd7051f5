-- ===== src/Runtime/Keeps.antt =====
-- runtime.go, lifecycle.go, network_attach.go: what every call keeps true of the directories.
use thrive.Prelude.{
  ℕ, ◌<◌, ◌≡◌, refl, sym, inl, inr, Option, none, some, List, [], ◌∷◌, ◌++◌, arith, Text, ◌=ᵗ◌,
  eq_iff, Dict, lookup, insert, remove, lookup-insert, lookup-remove, All, Bool-cases, Option-cases,
}
use thrive.Runtime.{
  Host, World, Files, Machine, Reaper, Event, ContainerConfig, ContainerState, Status, created,
  running, paused, stopped, load_state, save_state, put_files, load_config,
}
use thrive.Runtime.Launch.{Launched, launch}
use thrive.Runtime.Pid.{IsHost, launch-IsLaunch}
use thrive.Runtime.Loads.{Status-cases, Launch-cases}
use thrive.Runtime.Start.{clear_pending, running_state, settle, start_created, start_loaded, start}
use thrive.Runtime.Exit.{write_restarts}

-- The process that a state names, by its status.
abbrev pub IsPid : Status → ℕ → Type 0
IsPid created pid = pid ≡ 0
IsPid running pid = 0 < pid
IsPid paused pid = 0 < pid
IsPid stopped pid = Unit

pub record IsState (id : Text) (st : ContainerState) : Type 0 where
  pub named : st.id ≡ id
  pub process : IsPid st.status st.pid

-- A directory holds a state and, if it holds a configuration, one of the same container.
pub record IsFiles (id : Text) (files : Files) : Type 0 where
  pub has_state : (st : ContainerState) × (files.state ≡ some st)
  pub state : (st : ContainerState) → files.state ≡ some st → IsState id st
  pub config : (cfg : ContainerConfig) → files.config ≡ some cfg → cfg.id ≡ id

pub record IsReaper (r : Reaper) : Type 0 where
  pub named : r.state.id ≡ r.id
  pub positive : 0 < r.pid
  pub process : r.state.pid ≡ r.pid

-- Every directory.
abbrev pub IsDirs : Dict Files → Type 0
IsDirs containers =
    (id : Text) (files : Files) → lookup id containers ≡ some files → IsFiles id files

pub record IsWorld {H : Type 0} (w : World H) : Type 0 where
  pub dirs : IsDirs w.containers
  pub waited : All IsReaper w.reapers

pub insert-IsDirs :
    (id : Text) (files : Files) (containers : Dict Files)
    → IsFiles id files
    → IsDirs containers
    → IsDirs (insert id files containers)
insert-IsDirs id files containers new h a found e = elim (Bool-cases (id =ᵗ a)) [
  | inl same ↦
      let at : a ≡ id = sym ((eq_iff id a).0 same) in
      let value : found ≡ files = ground (arith, lookup-insert id a files containers) in
      rw (at, value) new
  | inr other ↦ h a found (ground (arith, lookup-insert id a files containers))
]

pub remove-IsDirs :
    (id : Text) (containers : Dict Files) → IsDirs containers → IsDirs (remove id containers)
remove-IsDirs id containers h a found e = h a found (ground (arith, lookup-remove id a containers))

-- Files with another state.
pub with_state :
    (id : Text) (st : ContainerState) (files : Files)
    → IsState id st
    → IsFiles id files
    → IsFiles id (record files { state = some st })
with_state id st files new h = record {
  has_state = (st, refl);
  state = λ other e. let same : other ≡ st = ground (arith, e) in rw same new;
  config = h.config;
}

-- A directory with other contents than its state and its configuration.
pub with_others :
    (id : Text) (n : ℕ) (pending : List Text) (files : Files)
    → IsFiles id files
    → IsFiles id (record files { restarts = n; pending = pending })
with_others id n pending files h = record {
  has_state = h.has_state;
  state = h.state;
  config = h.config;
}

module _ {H : Type 0} where
  pub put_files-IsWorld :
      (id : Text) (files : Files) (w : World H)
      → IsFiles id files
      → IsWorld w
      → IsWorld (put_files id files w)
  put_files-IsWorld id files w new h = record {
    dirs = insert-IsDirs id files w.containers new h.dirs;
    waited = h.waited;
  }

  -- What a call does to the machine and the events changes no directory.
  pub IsWorld-machine :
      (m : Machine H) (events : List Event) (w : World H)
      → IsWorld w
      → IsWorld (record w { machine = m; events = events })
  IsWorld-machine m events w h = record { dirs = h.dirs; waited = h.waited }

  pub save_state-IsWorld :
      (id : Text) (st : ContainerState) (w : World H)
      → IsState id st
      → IsWorld w
      → IsWorld (save_state id st w).0
  unfolding save_state
  save_state-IsWorld id st w new h = elim (Option-cases (lookup id w.containers)) [
    | inl e ↦ rw (e, save_state) h
    | inr (files, e) ↦
        rw (e, save_state)
          (put_files-IsWorld id (record files { state = some st }) w
            (with_state id st files new (h.dirs id files e)) h)
  ]

  pub load_state-IsState :
      (id : Text) (st : ContainerState) (w : World H)
      → IsWorld w
      → load_state id w ≡ some st
      → IsState id st
  unfolding load_state
  load_state-IsState id st w h at = elim (Option-cases (lookup id w.containers)) [
    | inl e ↦ absurd (ground (arith, rw (e, load_state) at at))
    | inr (files, e) ↦ (h.dirs id files e).state st (rw (e, load_state) at at)
  ]

  pub clear_pending-IsWorld :
      (id : Text) (ip : Option Text) (w : World H) → IsWorld w → IsWorld (clear_pending id ip w)
  unfolding clear_pending
  clear_pending-IsWorld id none w h = h
  clear_pending-IsWorld id (some ip) w h = elim (Option-cases (lookup id w.containers)) [
    | inl e ↦ rw (e, clear_pending) h
    | inr (files, e) ↦
        rw (e, clear_pending)
          (put_files-IsWorld id (record files { pending = [] }) w
            (with_others id files.restarts [] files (h.dirs id files e)) h)
  ]

  pub write_restarts-IsWorld :
      (id : Text) (n : ℕ) (w : World H) → IsWorld w → IsWorld (write_restarts id n w)
  unfolding write_restarts
  write_restarts-IsWorld id n w h = elim (Option-cases (lookup id w.containers)) [
    | inl e ↦ rw (e, write_restarts) h
    | inr (files, e) ↦
        rw (e, write_restarts)
          (put_files-IsWorld id (record files { restarts = n }) w
            (with_others id n files.pending files (h.dirs id files e)) h)
  ]

  module _ (host : Host H) (law : IsHost host) where
    settled :
        (id : Text) (new : ContainerState) (m : Machine H) (ip : Option Text) (r : Reaper)
        (e : Event) (w : World H)
        → IsState id new
        → IsReaper r
        → IsWorld w
        → let cleared = clear_pending id ip (record w { machine = m }) in
          let v = (save_state id new cleared).0 in
          IsWorld (record v { reapers = r ∷ v.reapers; events = v.events ++ e ∷ [] })
    settled id new m ip r e w good waits h =
        let begun = record w { machine = m } in
        let cleared = clear_pending-IsWorld id ip begun (IsWorld-machine m w.events w h) in
        let saved = save_state-IsWorld id new (clear_pending id ip begun) good cleared in
        record { dirs = saved.dirs; waited = (waits, saved.waited) }

    settle-IsWorld :
        (id : Text) (old : ContainerState) (cfg : ContainerConfig) (l : Launched) (w : World H)
        → 0 < l.pid
        → IsState id old
        → IsWorld w
        → IsWorld (settle host id old cfg l w)
    unfolding settle
    settle-IsWorld id old cfg l w positive good h =
        settled id (running_state l old) _ _ _ _ w
          (record { named = good.named; process = positive })
          (record { named = good.named; positive = positive; process = refl }) h

    start_created-IsWorld :
        (id : Text) (old : ContainerState) (cfg : ContainerConfig) (w : World H)
        → IsState id old
        → IsWorld w
        → IsWorld (start_created host id old cfg w).0
    unfolding start_created
    start_created-IsWorld id old cfg w good h =
        let next = record w { machine = (launch host id cfg w.machine).0 } in
        let moved = IsWorld-machine next.machine w.events w h in
        let positive = launch-IsLaunch host law id cfg w.machine in
        elim (Launch-cases (launch host id cfg w.machine).1) [
          | inl (e, f) ↦ rw (f, start_created) moved
          | inr (l, f) ↦
              rw (f, start_created) (settle-IsWorld id old cfg l next (rw f at positive) good moved)
        ]

    pub start-IsWorld : (id : Text) (w : World H) → IsWorld w → IsWorld (start host id w).0
    unfolding start start_loaded
    start-IsWorld id w h = elim (Option-cases (load_state id w)) [
      | inl missing ↦ rw (missing, start) h
      | inr (st, at) ↦ elim (Status-cases st.status) [
        | inl fresh ↦ elim (Option-cases (load_config id w)) [
          | inl none_there ↦ rw (at, start) (rw (fresh, start) (rw none_there h))
          | inr (cfg, found) ↦
              rw (at, start)
                (rw (fresh, start)
                  (rw found
                    (start_created-IsWorld id st cfg w (load_state-IsState id st w h at) h)))
        ]
        | inr (inl e) ↦ rw (at, start) (rw (e, start) h)
        | inr (inr (inl e)) ↦ rw (at, start) (rw (e, start) h)
        | inr (inr (inr e)) ↦ rw (at, start) (rw (e, start) h)
      ]
    ]
