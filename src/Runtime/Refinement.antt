-- ===== src/Runtime/Refinement.antt =====
-- runtime.go, lifecycle.go: the runtime refines the abstract machine.
use thrive.Prelude.{
  ◌≡◌, refl, sym, ◌∙◌, ap, inl, inr, Option, none, some, false, ◌||◌, List, [], ◌∷◌, arith, Text,
  ◌=ᵗ◌, eq_iff, eq_refl, lookup, insert, remove, lookup-insert, lookup-insert_same,
  lookup-insert_other, lookup-remove, is_empty, Bool-cases, Option-cases, if◌then◌else◌,
}
use thrive.Runtime.{
  Machine, Host, World, Files, Event, ContainerConfig, ContainerState, Status, created, load_state,
}
use thrive.Runtime.Calls.{
  create, created_state, no_files, delete, remove_all, rename, Call, create_call, start_call,
  exit_call, kill_call, state_call, pause_call, unpause_call, rename_call, update_call,
  pending_call, delete_call, run,
}
use thrive.Runtime.Loads.{IsSame-refl, load_state_lem}
use thrive.Runtime.Keeps.{IsWorld}
use thrive.Runtime.Lifecycle.{
  view, status_of, creation, removal, Step, moves, renames, clears, same-Step, start-Step,
}
use thrive.Runtime.Refines.{
  exit_process-Step, kill-Step, get_state-Step, update-Step, pending-Step, pause-Step, unpause-Step,
}

module _ {H : Type 0} where
  view-lookup :
      (a : Text) (w : World H)
      → view w a ≡ (elim (lookup a w.containers) as (λ _. Option Status) [
        | none ↦ none
        | some files ↦ status_of files.state
      ])
  unfolding view load_state
  view-lookup a w = elim (Option-cases (lookup a w.containers)) [
    | inl e ↦
        let missing : load_state a w ≡ none = rw (e, load_state) refl in rw e (ap status_of missing)
    | inr (files, e) ↦ rw e (ap status_of (load_state_lem a files w e))
  ]

  view-none : (a : Text) (w : World H) → lookup a w.containers ≡ none → view w a ≡ none
  view-none a w e = view-lookup a w ∙ rw e refl

  view-some :
      (a : Text) (files : Files) (w : World H)
      → lookup a w.containers ≡ some files
      → view w a ≡ status_of files.state
  view-some a files w e = view-lookup a w ∙ rw e refl

  -- The same files are seen in the same way.
  view-same :
      (a : Text) (w v : World H)
      → lookup a v.containers ≡ lookup a w.containers
      → view v a ≡ view w a
  view-same a w v e = view-lookup a v ∙ rw e refl ∙ sym (view-lookup a w)

  create-Step :
      (cfg : ContainerConfig) (w : World H)
      → Step (create_call cfg) (view w) (view (create cfg w).0)
  unfolding create
  create-Step cfg w = elim (Bool-cases (is_empty cfg.id)) [
    | inl e ↦ rw e (same-Step _ w w (IsSame-refl w))
    | inr e ↦ elim (Option-cases (lookup cfg.id w.containers)) [
      | inl f ↦ rw (e, f, create) (made no_files _)
      | inr (files, f) ↦ rw (e, f, create) (made files _)
    ]
  ]
    where
      made :
          (files : Files) (events : List Event)
          → let new = record files { config = some cfg; state = some (created_state cfg.id) } in
            Step
              (create_call cfg)
              (view w)
              (view (record w { containers = insert cfg.id new w.containers; events = events }))
      made files events =
          let new = record files { config = some cfg; state = some (created_state cfg.id) } in
          let v = record w { containers = insert cfg.id new w.containers; events = events } in
          let now : view v cfg.id ≡ some created =
            view-some cfg.id new v (lookup-insert_same cfg.id new w.containers) in
          moves cfg.id (rw now creation)
            (λ a n. view-same a w v (lookup-insert_other cfg.id a new w.containers n))

  delete-Step : (id : Text) (w : World H) → Step (delete_call id) (view w) (view (delete id w).0)
  delete-Step [] w =
      clears (λ a. view-none a (delete [] w).0 (unfold delete remove_all lookup in refl))
  delete-Step (c ∷ s) w =
      let v = (delete (c ∷ s) w).0 in
      let after : (a : Text)
          → lookup a v.containers ≡ (if (c ∷ s) =ᵗ a then none else lookup a w.containers) =
        λ a. unfold delete remove_all in lookup-remove (c ∷ s) a w.containers in
      let gone : view v (c ∷ s) ≡ none =
        view-none (c ∷ s) v (after (c ∷ s) ∙ rw (eq_refl (c ∷ s)) refl) in
      moves (c ∷ s) (rw gone removal) (λ a n. view-same a w v (after a ∙ rw n refl))

  rename-Step :
      (old new : Text) (w : World H)
      → Step (rename_call old new) (view w) (view (rename old new w).0)
  unfolding rename
  rename-Step old new w =
      let still = same-Step (rename_call old new) w w (IsSame-refl w) in
      elim (Bool-cases (is_empty old || is_empty new)) [
        | inl e ↦ rw e still
        | inr e ↦ elim (Option-cases (lookup old w.containers)) [
          | inl f ↦ rw (e, f, rename) still
          | inr (files, f) ↦ elim (Option-cases files.state) [
            | inl g ↦ rw (e, f, rename) (rw (g, rename) still)
            | inr (st, g) ↦ elim (Option-cases (lookup new w.containers)) [
              | inr (others, k) ↦ rw (e, f, rename) (rw (g, rename) (rw (k, rename) still))
              | inl k ↦
                  rw (e, f, rename) (rw (g, rename) (rw (k, rename) (moved files st _ _ f g k)))
            ]
          ]
        ]
      ]
    where
      moved :
          (files : Files) (st : ContainerState) (config : Option ContainerConfig)
          (machine : Machine H)
          → lookup old w.containers ≡ some files
          → files.state ≡ some st
          → lookup new w.containers ≡ none
          → let placed = record files { config = config; state = some (record st { id = new }) } in
            Step (rename_call old new) (view w) (
              view (record w {
                containers = insert new placed (remove old w.containers);
                machine = machine;
              }))
      moved files st config machine f g k =
          let placed = record files { config = config; state = some (record st { id = new }) } in
          let v = record w {
            containers = insert new placed (remove old w.containers);
            machine = machine;
          } in
          let apart : (new =ᵗ old) ≡ false = ground (arith, eq_iff new old, f, k) in
          let at = λ (a : Text). lookup-insert new a placed (remove old w.containers) in
          let less = λ (a : Text). lookup-remove old a w.containers in
          renames old new (view-none new w k)
            (view-none old v (at old ∙ rw apart (less old ∙ rw (eq_refl old) refl)))
            (view-some new placed v (at new ∙ rw (eq_refl new) refl)
              ∙ sym (view-some old files w f ∙ ap status_of g))
            (λ a n m. view-same a w v (at a ∙ rw m (less a ∙ rw n refl)))

  -- Where the world is well-formed, each call, and each end of a process, is a step of the abstract
  -- machine that knows the names and statuses of the containers only: one container moves along an
  -- edge of the diagram that is the call's, or is renamed to a name that was free, or nothing changes;
  -- only a deletion without a name removes all containers.
  pub run-Step :
      (host : Host H) (c : Call) (w : World H) → IsWorld w → Step c (view w) (view (run host c w))
  unfolding run
  run-Step host (create_call cfg) w h = create-Step cfg w
  run-Step host (start_call id) w h = start-Step host id w
  run-Step host (exit_call pid code) w h = exit_process-Step host pid code w h
  run-Step host (kill_call id signal) w h = kill-Step host id signal w
  run-Step host (state_call id) w h = get_state-Step host id w
  run-Step host (pause_call id) w h = pause-Step host id w
  run-Step host (unpause_call id) w h = unpause-Step host id w
  run-Step host (rename_call old new) w h = rename-Step old new w
  run-Step host (update_call id opts) w h = update-Step host id opts w
  run-Step host (pending_call id name) w h = pending-Step host id name w
  run-Step host (delete_call id) w h = delete-Step id w
