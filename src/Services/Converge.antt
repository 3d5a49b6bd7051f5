-- ===== src/Services/Converge.antt =====
-- `Reconcile` of service.go: from any number of containers to the number of replicas.
use mathlib.Core.Path.{subst}
use thrive.Prelude.{
  ℕ, suc, ◌+◌, ◌^◌, ◌≤◌, ◌<◌, ◌≡◌, refl, sym, ap, ◌∙◌, inl, inr, true, Option, none, List, [], ◌∷◌,
  ◌++◌, arith, Text, ◌=ᵗ◌, eq_iff, keys, contains, IsNodup, length-le_of_subset, length,
  length-take, take, drop, itoa, atoi-itoa, Bool-cases,
}
use thrive.Swarm.{container_prefix}
use thrive.Runtime.{Host, World}
use thrive.Services.{
  Service, ServiceError, has_index, replica_id, service_containers, used_indices, container_index,
  backwards, delete_all, start_rest, reconcile_service,
}
use thrive.Services.Removal.{remove_extras_lem, contains-service_containers}
use thrive.Services.Shrink.{
  service_containers-IsNodup, delete_all-IsNodup, shrunk_containers, extras-IsFilled,
}
use thrive.Services.Grow.{above_length, IsKnown, IsReconciled, start_missing-ends, extends-replica}

drop-append : (front rest : Text) → drop (length front) (front ++ rest) ≡ rest
drop-append [] rest = refl
drop-append (c ∷ front) rest = drop-append front rest

container_index-replica_id :
    (name : Text) (j : ℕ) → j < 2 ^ 63 → container_index name (replica_id name j) ≡ j
unfolding container_index
container_index-replica_id name j small =
    rw (drop-append (container_prefix name) (itoa j), atoi-itoa j small, container_index) refl

used_indices_complete :
    (name : Text) (ids : List Text) (j : ℕ)
    → 0 < j
    → j < 2 ^ 63
    → contains ids (replica_id name j) ≡ true
    → has_index (used_indices name ids) j ≡ true
unfolding used_indices has_index contains
used_indices_complete name [] j positive small h = cc
used_indices_complete name (id ∷ ids) j positive small h =
    let rest = used_indices_complete name ids j positive small in
    elim (Bool-cases (id =ᵗ replica_id name j)) [
      | inl same ↦
          let at : container_index name id ≡ j =
            ap (container_index name) ((eq_iff id (replica_id name j)).0 same)
            ∙ container_index-replica_id name j small in
          ground (arith, at, positive)
      | inr other ↦ ground (arith, rest, h, other)
    ]

length-used_indices : (name : Text) (ids : List Text) → length (used_indices name ids) ≤ length ids
unfolding used_indices
length-used_indices name [] = omega arith
length-used_indices name (id ∷ ids) = ground (arith, length-used_indices name ids)

module _ {H : Type 0} (host : Host H) where
  start_rest-IsReconciled :
      (svc : Service) (existing : List Text) (w : World H)
      → IsNodup (keys w.containers)
      → ((a : Text)
          → contains (service_containers svc.name w) a ≡ true
          → contains existing a ≡ true)
      → length (service_containers svc.name w) ≤ svc.spec.replicas
      → svc.spec.replicas + length existing + 2 ≤ 2 ^ 63
      → IsReconciled svc (start_rest host svc existing (w, none))
  unfolding start_rest IsKnown
  start_rest-IsReconciled svc existing w nodup left within room =
      let used = used_indices svc.name existing in
      start_missing-ends host (suc (svc.spec.replicas + length existing)) svc 1 used w (omega arith)
        nodup known (omega (arith, room)) within
        (omega (arith, above_length 1 used, length-used_indices svc.name existing))
    where
      known : IsKnown svc.name (used_indices svc.name existing) w
      known j positive small there = used_indices_complete svc.name existing j positive small (
          left (replica_id svc.name j) (
            ground (
              arith,
              there,
              extends-replica svc.name j,
              contains-service_containers svc.name w (replica_id svc.name j),
            )))

  -- Where no directory is listed twice and the numbers of replicas and containers together fit an int,
  -- `Reconcile` ends without running out of its fuel: it leaves exactly as many containers of the service as there
  -- are replicas, or it returns an error.
  pub reconcile_service-IsReconciled :
      (svc : Service) (w : World H)
      → IsNodup (keys w.containers)
      → svc.spec.replicas + length (service_containers svc.name w) + 2 ≤ 2 ^ 63
      → IsReconciled svc (reconcile_service host svc w)
  unfolding reconcile_service
  reconcile_service-IsReconciled svc w nodup room =
      let n = svc.spec.replicas in
      let existing = service_containers svc.name w in
      let ids = backwards [] (drop n existing) in
      let v = delete_all host ids w in
      let once = delete_all-IsNodup host ids w (extras-IsFilled host svc.name n w) nodup in
      let same = λ (a : Text). shrunk_containers host svc.name n w a nodup in
      let fewer =
        length-le_of_subset (service_containers svc.name v) (take n existing)
          (service_containers-IsNodup host svc.name v once) (λ a h. sym (same a) ∙ h) in
      let short = length-take n existing in
      let ended =
        start_rest-IsReconciled svc (take n existing) v once (λ a h. sym (same a) ∙ h)
          (omega (arith, fewer, short)) (omega (arith, short, room)) in
      subst
        (λ (p : World H × Option ServiceError).
          IsReconciled svc (start_rest host svc (take n existing) p))
        (sym (remove_extras_lem host ids w)) ended
