-- ===== src/Services/Rollback.antt =====
-- service.go: the stored service through an update and a rollback.
use thrive.Prelude.{
  ℕ, ◌≡◌, refl, ap, ◌∙◌, inl, inr, Bool, true, false, Option, some, Text, lookup,
  lookup-insert_same, is_empty, Option-cases, if◌then◌else◌,
}
use thrive.Runtime.{Host, World}
use thrive.Services.{
  Service, ServiceSpec, ServiceError, Cluster, inspect_service, write_service, reconcile,
  rolling_replace, update_service, rollback_service,
}

-- The call leaves the service files as they are.
unfoldable pub IsQuiet : {H : Type 0} → Cluster H → Cluster H × Option ServiceError → Type 0
IsQuiet c p = p.0.services ≡ c.services

if-IsQuiet :
    {H : Type 0} (c : Cluster H) (b : Bool) (x y : Cluster H × Option ServiceError)
    → IsQuiet c x
    → IsQuiet c y
    → IsQuiet c (if b then x else y)
if-IsQuiet c true x y h k = h
if-IsQuiet c false x y h k = k

module _ {H : Type 0} (host : Host H) where
  pub reconcile-IsQuiet : (name : Text) (c : Cluster H) → IsQuiet c (reconcile host name c)
  unfolding reconcile IsQuiet
  reconcile-IsQuiet name c = elim (Option-cases (inspect_service name c)) [
    | inl e ↦ rw (e, reconcile) refl
    | inr (svc, e) ↦ rw (e, reconcile) refl
  ]

module _ {H : Type 0} (host : Host H) (pull : Text → H → H × Bool) where
  rolling_replace-IsQuiet :
      (svc : Service) (c : Cluster H) → IsQuiet c (rolling_replace host pull svc c)
  unfolding rolling_replace
  rolling_replace-IsQuiet svc c = search (if-IsQuiet, moved, again)
    where
      moved : (w : World H) (e : Option ServiceError) → IsQuiet c (record c { world = w }, e)
      moved w e = unfold IsQuiet in refl

      again : (w : World H) → IsQuiet c (reconcile host svc.name (record c { world = w }))
      again w =
          unfold IsQuiet in
          (unfold IsQuiet in reconcile-IsQuiet host svc.name (record c { world = w }))

  -- The file after a write and a rolling replacement.
  written :
      (svc : Service) (c : Cluster H)
      → inspect_service svc.name (rolling_replace host pull svc (write_service svc c)).0 ≡ some svc
  written svc c =
      let quiet : (rolling_replace host pull svc (write_service svc c)).0.services
          ≡ (write_service svc c).services =
        unfold IsQuiet in rolling_replace-IsQuiet svc (write_service svc c) in
      ap (lookup svc.name) quiet ∙ lookup-insert_same svc.name svc c.services

  updated_lem :
      (svc : Service) (image : Text) (now : ℕ) (c : Cluster H)
      → inspect_service svc.name c ≡ some svc
      → is_empty image ≡ false
      → inspect_service svc.name (update_service host pull svc.name image now c).0
        ≡ some (record svc {
          previous = some svc.spec;
          spec = record svc.spec { image = image };
          updated = now;
        })
  unfolding update_service
  updated_lem svc image now c at filled = rw (at, update_service) (rw filled (written _ c))

  rolled_back_lem :
      (svc : Service) (old : ServiceSpec) (now : ℕ) (c : Cluster H)
      → inspect_service svc.name c ≡ some svc
      → svc.previous ≡ some old
      → inspect_service svc.name (rollback_service host pull svc.name now c).0
        ≡ some (record svc { spec = old; previous = some svc.spec; updated = now })
  unfolding rollback_service
  rolled_back_lem svc old now c at before =
      rw (at, rollback_service) (rw (before, rollback_service) (written _ c))

  -- A rollback after an update to an image stores the specification that the service had before, and keeps the
  -- updated one as the previous one, whether or not the replicas could be replaced.
  pub rollback_service-update :
      (svc : Service) (image : Text) (first second : ℕ) (c : Cluster H)
      → inspect_service svc.name c ≡ some svc
      → is_empty image ≡ false
      → let updated = (update_service host pull svc.name image first c).0 in
        inspect_service svc.name (rollback_service host pull svc.name second updated).0
        ≡ some
            (record svc { previous = some (record svc.spec { image = image }); updated = second })
  rollback_service-update svc image first second c at filled =
      rolled_back_lem _ svc.spec second (update_service host pull svc.name image first c).0
        (updated_lem svc image first c at filled) refl
