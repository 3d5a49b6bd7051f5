-- ===== src/Services/Shrink.antt =====
-- `Reconcile` of service.go where there are as many containers as replicas, or more.
use mathlib.Core.Path.{subst}
use thrive.Prelude.{
  ℕ, ◌≤◌, ◌≡◌, refl, sym, ap, ◌∙◌, true, false, ◌||◌, Option, none, List, [], ◌∷◌, ◌++◌, arith,
  Text, ◌=ᵗ◌, eq_iff, lookup, keys, select, contains, contains-append, IsNodup, IsNodup-select,
  IsNodup-sort, remove-IsNodup, length-le_of_subset, keys-remove, take, drop, take-append-drop,
  length, length-take, not_lt-ltb, if◌then◌else◌,
}
use thrive.Swarm.{container_prefix}
use thrive.Compose.Names.{extends}
use thrive.Runtime.{Host, World}
use thrive.Services.{
  Service, ServiceError, service_containers, kill_and_delete, backwards, remove_extras, delete_all,
  start_rest, start_missing, reconcile_service,
}
use thrive.Services.Removal.{
  IsFilled, IsFilled-rest, IsFilled-first, contains-service_containers, service_containers-IsFilled,
  kill_and_delete_lem, delete_all_lem, remove_extras_lem,
}

contains-backwards :
    (acc ids : List Text) (a : Text)
    → contains (backwards acc ids) a ≡ (contains acc a || contains ids a)
unfolding backwards contains
contains-backwards acc [] a = ground arith
contains-backwards acc (id ∷ ids) a = ground (arith, contains-backwards (id ∷ acc) ids a)

disjoint :
    (xs ys : List Text) (a : Text)
    → IsNodup (xs ++ ys)
    → contains xs a ≡ true
    → contains ys a ≡ false
unfolding contains
disjoint [] ys a n h = cc
disjoint (x ∷ xs) ys a n h =
    ground (arith, disjoint xs ys a n.1, contains-append xs ys x, eq_iff x a, n.0)

IsNodup-front : (xs ys : List Text) → IsNodup (xs ++ ys) → IsNodup xs
IsNodup-front [] ys n = tt
IsNodup-front (x ∷ xs) ys n =
    (ground (arith, contains-append xs ys x, n.0), IsNodup-front xs ys n.1)

-- The parts of a list without repetitions.
split_at :
    (n : ℕ) (xs : List Text) (a : Text)
    → IsNodup xs
    → (contains xs a ≡ (contains (take n xs) a || contains (drop n xs) a))
      × (contains (take n xs) a ≡ true → contains (drop n xs) a ≡ false)
      × IsNodup (take n xs)
split_at n xs a h =
    let whole = take-append-drop n xs in
    let both : IsNodup (take n xs ++ drop n xs) = rw whole h in
    (
      ground (
        arith,
        contains-append (take n xs) (drop n xs) a,
        ap (λ (l : List Text). contains l a) whole,
      ),
      disjoint (take n xs) (drop n xs) a both,
      IsNodup-front (take n xs) (drop n xs) both,
    )

module _ {H : Type 0} (host : Host H) where
  pub service_containers-IsNodup :
      (name : Text) (w : World H)
      → IsNodup (keys w.containers)
      → IsNodup (service_containers name w)
  unfolding service_containers
  service_containers-IsNodup name w n =
      IsNodup-sort (select (extends (container_prefix name)) (keys w.containers))
        (IsNodup-select (extends (container_prefix name)) (keys w.containers) n)

  pub delete_all-IsNodup :
      (ids : List Text) (w : World H)
      → IsFilled ids
      → IsNodup (keys w.containers)
      → IsNodup (keys (delete_all host ids w).containers)
  unfolding delete_all
  delete_all-IsNodup [] w h n = n
  delete_all-IsNodup (id ∷ ids) w h n =
      delete_all-IsNodup ids (kill_and_delete host id w).0 (IsFilled-rest id ids h) (
        rw (kill_and_delete_lem host id w (IsFilled-first id ids h))
          (remove-IsNodup id w.containers n))

  -- A directory is there after the removals if it was there and is not removed.
  pub contains-delete_all :
      (ids : List Text) (w : World H) (a : Text)
      → IsFilled ids
      → contains (keys (delete_all host ids w).containers) a
        ≡ (if contains ids a then false else contains (keys w.containers) a)
  unfolding delete_all contains
  contains-delete_all [] w a h = refl
  contains-delete_all (id ∷ ids) w a h =
      let next = (kill_and_delete host id w).0 in
      let here : contains (keys next.containers) a
          ≡ (if id =ᵗ a then false else contains (keys w.containers) a) =
        rw (kill_and_delete_lem host id w (IsFilled-first id ids h))
          (keys-remove id w.containers a) in
      ground (arith, here, contains-delete_all ids next a (IsFilled-rest id ids h))

  -- What `Reconcile` deletes.
  pub extras-IsFilled :
      (name : Text) (n : ℕ) (w : World H)
      → IsFilled (backwards [] (drop n (service_containers name w)))
  unfolding IsFilled
  extras-IsFilled name n w a m =
      let existing = service_containers name w in
      let extra : contains (drop n existing) a ≡ true =
        unfold contains in ground (arith, m, contains-backwards [] (drop n existing) a) in
      let whole = ap (λ (l : List Text). contains l a) (take-append-drop n existing) in
      unfold IsFilled in
      service_containers-IsFilled name w a
        (ground (arith, extra, whole, contains-append (take n existing) (drop n existing) a))

  -- The containers that a service with `n` replicas keeps are those that are left.
  pub shrunk_containers :
      (name : Text) (n : ℕ) (w : World H) (a : Text)
      → IsNodup (keys w.containers)
      → let existing = service_containers name w in
        let v = delete_all host (backwards [] (drop n existing)) w in
        contains (service_containers name v) a ≡ contains (take n existing) a
  shrunk_containers name n w a nodup =
      let existing = service_containers name w in
      let ids = backwards [] (drop n existing) in
      let (parts, apart, front) = split_at n existing a (service_containers-IsNodup name w nodup) in
      let extras : contains ids a ≡ contains (drop n existing) a =
        contains-backwards [] (drop n existing) a ∙ unfold contains in refl in
      ground (
        arith,
        parts,
        apart,
        extras,
        contains-service_containers name w a,
        contains-service_containers name (delete_all host ids w) a,
        contains-delete_all ids w a (extras-IsFilled name n w),
      )

-- What `Reconcile` leaves where nothing is to be started.
pub record IsShrunk {H : Type 0} (svc : Service) (w : World H) (p : World H × Option ServiceError)
    : Type 0 where
  pub succeeds : p.1 ≡ none
  pub count : length (service_containers svc.name p.0) ≡ svc.spec.replicas
  pub left :
      (id : Text)
      → contains (service_containers svc.name p.0) id
        ≡ contains (take svc.spec.replicas (service_containers svc.name w)) id
  pub others :
      (id : Text)
      → extends (container_prefix svc.name) id ≡ false
      → lookup id p.0.containers ≡ lookup id w.containers

module _ {H : Type 0} (host : Host H) where
  start_enough :
      (svc : Service) (existing : List Text) (w : World H)
      → svc.spec.replicas ≤ length (service_containers svc.name w)
      → start_rest host svc existing (w, none) ≡ (w, none)
  unfolding start_rest start_missing
  start_enough svc existing w enough =
      let full = not_lt-ltb (length (service_containers svc.name w)) svc.spec.replicas enough in
      rw full refl

  shrunk_count :
      (name : Text) (n : ℕ) (w : World H)
      → IsNodup (keys w.containers)
      → n ≤ length (service_containers name w)
      → length (
          service_containers name
            (delete_all host (backwards [] (drop n (service_containers name w))) w))
        ≡ n
  shrunk_count name n w nodup enough =
      let existing = service_containers name w in
      let ids = backwards [] (drop n existing) in
      let v = delete_all host ids w in
      let same = λ (a : Text). shrunk_containers host name n w a nodup in
      let kept =
        service_containers-IsNodup host name v
          (delete_all-IsNodup host ids w (extras-IsFilled host name n w) nodup) in
      let front = (split_at n existing [] (service_containers-IsNodup host name w nodup)).2 in
      let at_least =
        length-le_of_subset (take n existing) (service_containers name v) front
          (λ a h. ground (arith, same a, h)) in
      let at_most =
        length-le_of_subset (service_containers name v) (take n existing) kept
          (λ a h. ground (arith, same a, h)) in
      omega (arith, at_least, at_most, enough, length-take n existing)

  -- Where a service has as many containers as replicas, or more, `Reconcile` succeeds: as many are left as
  -- there are replicas, and they are the first ones of the sorted list of ids; a container whose id does not begin with the service's prefix stays as it is.
  pub reconcile_service-IsShrunk :
      (svc : Service) (w : World H)
      → IsNodup (keys w.containers)
      → svc.spec.replicas ≤ length (service_containers svc.name w)
      → IsShrunk svc w (reconcile_service host svc w)
  unfolding reconcile_service
  reconcile_service-IsShrunk svc w nodup enough =
      let n = svc.spec.replicas in
      let existing = service_containers svc.name w in
      let ids = backwards [] (drop n existing) in
      let v = delete_all host ids w in
      let count = shrunk_count svc.name n w nodup enough in
      let ended : start_rest host svc (take n existing) (remove_extras host ids w) ≡ (v, none) =
        ap (start_rest host svc (take n existing)) (remove_extras_lem host ids w)
        ∙ start_enough svc (take n existing) v (omega (arith, count)) in
      subst (λ (p : World H × Option ServiceError). IsShrunk svc w p) (sym ended)
        (record {
          succeeds = refl;
          count = count;
          left = λ id. shrunk_containers host svc.name n w id nodup;
          others = λ id foreign.
              let after = delete_all_lem host ids w id (extras-IsFilled host svc.name n w) in
              let extra = contains-backwards [] (drop n existing) id in
              let whole = ap (λ (l : List Text). contains l id) (take-append-drop n existing) in
              unfold contains in
              ground (
                arith,
                after,
                extra,
                foreign,
                whole,
                contains-append (take n existing) (drop n existing) id,
                contains-service_containers svc.name w id,
              );
        })
