-- ===== src/Runtime/Lifecycle.antt =====
-- runtime.go, lifecycle.go: the life of a container, and what each call does to it.
use thrive.Prelude.{ℕ, ◌≡◌, refl, ◌∙◌, ap, Option, none, some, false, [], Text, ◌=ᵗ◌}
use thrive.Runtime.{
  Host, World, ContainerConfig, ContainerState, Status, created, running, paused, stopped, ExitCode,
  Reply, load_state, save_state,
}
use thrive.Runtime.Start.{start}
use thrive.Runtime.Calls.{
  Call, create_call, start_call, exit_call, state_call, pause_call, unpause_call, rename_call,
  delete_call,
}
use thrive.Runtime.Loads.{
  IsSame, IsApart, save_state-IsApart, load_state-saved, IsStarted, not_started, now_running,
  start_lem,
}
use thrive.Runtime.Reaped.{IsReaped, is_down, is_up}

-- Where a container is in its life; there is none without a state file.
abbrev pub status_of : Option ContainerState → Option Status
status_of none = none
status_of (some st) = some st.status

unfoldable pub view : {H : Type 0} → World H → Text → Option Status
view w id = status_of (load_state id w)

-- The diagram: what a call, or the end of a process, may do to one container.
pub data Edge : Call → Text → Option Status → Option Status → Type 0 where
  creation :
      {cfg : ContainerConfig} {any : Option Status}
      → Edge (create_call cfg) cfg.id any (some created)
  begin : {id : Text} → Edge (start_call id) id (some created) (some running)
  stop :
      {pid : ℕ} {code : ExitCode} {id : Text} {s : Status}
      → Edge (exit_call pid code) id (some s) (some stopped)
  restart :
      {pid : ℕ} {code : ExitCode} {id : Text} {s : Status}
      → Edge (exit_call pid code) id (some s) (some running)
  die : {id : Text} → Edge (state_call id) id (some running) (some stopped)
  suspend : {id : Text} → Edge (pause_call id) id (some running) (some paused)
  resume : {id : Text} → Edge (unpause_call id) id (some paused) (some running)
  removal : {id : Text} {any : Option Status} → Edge (delete_call id) id any none

-- A step of the abstract machine, which knows the containers' names and statuses only.
pub data Step : Call → (Text → Option Status) → (Text → Option Status) → Type 0 where
  stays : {c : Call} {u v : Text → Option Status} → ((a : Text) → v a ≡ u a) → Step c u v
  moves :
      {c : Call} {u v : Text → Option Status} (id : Text)
      → Edge c id (u id) (v id)
      → ((a : Text) → (id =ᵗ a) ≡ false → v a ≡ u a)
      → Step c u v
  renames :
      {u v : Text → Option Status} (old new : Text)
      → u new ≡ none
      → v old ≡ none
      → v new ≡ u old
      → ((a : Text) → (old =ᵗ a) ≡ false → (new =ᵗ a) ≡ false → v a ≡ u a)
      → Step (rename_call old new) u v
  clears : {u v : Text → Option Status} → ((a : Text) → v a ≡ none) → Step (delete_call []) u v

module _ {H : Type 0} where
  pub same-Step : (c : Call) (w v : World H) → IsSame w v → Step c (view w) (view v)
  unfolding view
  same-Step c w v h = stays (λ a. ap status_of (h.loads a))

  view-others :
      (id : Text) (w v : World H)
      → IsApart id w v
      → (a : Text) → (id =ᵗ a) ≡ false
      → view v a ≡ view w a
  unfolding view
  view-others id w v apart a n = ap status_of (apart.others a n)

  -- One container moves, from and to statuses that are known.
  pub edge-Step :
      (c : Call) (id : Text) (w v : World H) (before after : Option Status)
      → view w id ≡ before
      → view v id ≡ after
      → Edge c id before after
      → IsApart id w v
      → Step c (view w) (view v)
  edge-Step c id w v before after from to edge apart =
      moves id (rw (from, to) edge) (view-others id w v apart)

  pub view_lem :
      (id : Text) (st : ContainerState) (s : Status) (w : World H)
      → load_state id w ≡ some st
      → st.status ≡ s
      → view w id ≡ some s
  unfolding view
  view_lem id st s w at e = ap status_of at ∙ ap some e

  -- A save to a directory that is there.
  pub saved-Step :
      (c : Call) (id : Text) (old new : ContainerState) (s : Status) (w : World H)
      → load_state id w ≡ some old
      → old.status ≡ s
      → Edge c id (some s) (some new.status)
      → Step c (view w) (view (save_state id new w).0)
  saved-Step c id old new s w at e edge =
      edge-Step c id w (save_state id new w).0 (some s) (some new.status) (view_lem id old s w at e)
        (view_lem id new new.status _ (load_state-saved id new old w at) refl) edge
        (save_state-IsApart id new w)

  module _ (host : Host H) where
    pub start-Step :
        (id : Text) (w : World H) → Step (start_call id) (view w) (view (start host id w).0)
    start-Step id w = from (start_lem host id w)
      where
        from :
            {p : World H × Reply} → IsStarted host id w p → Step (start_call id) (view w) (view p.0)
        from (not_started {v = v} same) = same-Step (start_call id) w v same
        from (now_running {v = v} {old = old} {new = new} at fresh now up apart) =
            edge-Step (start_call id) id w v (some created) (some running)
              (view_lem id old created w at fresh) (view_lem id new running v now up) begin apart

    pub reap-Step :
        (pid : ℕ) (code : ExitCode) (id : Text) (s : Status) (w v : World H)
        → view w id ≡ some s
        → IsReaped id w v
        → Step (exit_call pid code) (view w) (view v)
    reap-Step pid code id s w v at (is_down new now down apart) =
        edge-Step (exit_call pid code) id w v (some s) (some stopped) at
          (view_lem id new stopped v now down) stop apart
    reap-Step pid code id s w v at (is_up new now up apart) =
        edge-Step (exit_call pid code) id w v (some s) (some running) at
          (view_lem id new running v now up) restart apart
