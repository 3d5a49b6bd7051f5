-- ===== src/Services/Removal.antt =====
-- service.go: which containers the removal and the shrinking of a service delete.
use thrive.Prelude.{
  cut_prefix, ℕ, ℤ, pos, ◌≡◌, refl, ap, ◌∙◌, inl, inr, Bool, true, false, ◌&&◌, none, some, List,
  [], ◌∷◌, ◌++◌, arith, Text, text, ◌=ᵗ◌, eq_refl, Dict, lookup, remove, keys, select, contains,
  contains-select, contains-sort, lookup-remove, is_empty, itoa, Option-cases, if◌then◌else◌,
}
use mathlib.Core.List.{append_assoc}
use thrive.Swarm.{container_prefix}
use thrive.Compose.Names.{extends, extends-append}
use thrive.Runtime.{Host, World, Files, Reply, load_state}
use thrive.Runtime.Calls.{kill, delete, remove_all}
use thrive.Services.{
  Service, Cluster, replica_id, service_containers, kill_and_delete, delete_all, remove_service,
  inspect_service, remove_extras,
}

extends-filled : (prefix id : Text) (c : ℕ) → extends (c ∷ prefix) id ≡ true → is_empty id ≡ false
unfolding extends
extends-filled prefix [] c h = unfold cut_prefix in cc
extends-filled prefix (x ∷ id) c h = refl

-- No id is empty: of the empty one `Delete` removes all directories.
unfoldable pub IsFilled : List Text → Type 0
IsFilled ids = (id : Text) → contains ids id ≡ true → is_empty id ≡ false

pub IsFilled-rest : (first : Text) (ids : List Text) → IsFilled (first ∷ ids) → IsFilled ids
unfolding IsFilled contains
IsFilled-rest first ids h id m = h id (ground arith)

pub IsFilled-first :
    (first : Text) (ids : List Text) → IsFilled (first ∷ ids) → is_empty first ≡ false
unfolding IsFilled contains
IsFilled-first first ids h = h first (ground (arith, eq_refl first))

-- Both branches of a test.
if-same :
    {H : Type 0} {containers : Dict Files} (b : Bool) (x y : World H × Reply)
    → x.0.containers ≡ containers
    → y.0.containers ≡ containers
    → (if b then x else y).0.containers ≡ containers
if-same true x y h k = h
if-same false x y h k = k

module _ {H : Type 0} where
  pub contains-service_containers :
      (name : Text) (w : World H) (id : Text)
      → contains (service_containers name w) id
        ≡ (contains (keys w.containers) id && extends (container_prefix name) id)
  unfolding service_containers
  contains-service_containers name w id =
      contains-sort (select (extends (container_prefix name)) (keys w.containers)) id
      ∙ contains-select (extends (container_prefix name)) (keys w.containers) id

  pub service_containers-IsFilled :
      (name : Text) (w : World H) → IsFilled (service_containers name w)
  unfolding IsFilled
  service_containers-IsFilled name w id h =
      extends-filled (text "warm-" ++ name ++ text "-") id b's'
        (ground (arith, h, contains-service_containers name w id))

  module _ (host : Host H) where
    pub kill-containers :
        (id : Text) (signal : ℤ) (w : World H) → (kill host id signal w).0.containers ≡ w.containers
    unfolding kill
    kill-containers id signal w = elim (Option-cases (load_state id w)) [
      | inl e ↦ rw (e, kill) refl
      | inr (st, e) ↦ rw (e, kill) (search if-same)
    ]

    pub kill_and_delete_lem :
        (id : Text) (w : World H)
        → is_empty id ≡ false
        → (kill_and_delete host id w).0.containers ≡ remove id w.containers
    unfolding delete remove_all
    kill_and_delete_lem id w filled = rw filled (ap (remove id) (kill-containers id (pos 9) w))

    -- One directory after a list of removals.
    pub delete_all_lem :
        (ids : List Text) (w : World H) (k : Text)
        → IsFilled ids
        → lookup k (delete_all host ids w).containers
          ≡ (if contains ids k then none else lookup k w.containers)
    unfolding delete_all contains
    delete_all_lem [] w k h = refl
    delete_all_lem (id ∷ ids) w k h =
        let next = (kill_and_delete host id w).0 in
        let gone = kill_and_delete_lem id w (IsFilled-first id ids h) in
        let here : lookup k next.containers ≡ (if id =ᵗ k then none else lookup k w.containers) =
          ap (lookup k) gone ∙ lookup-remove id k w.containers in
        ground (arith, here, delete_all_lem ids next k (IsFilled-rest id ids h))

    pub remove_extras_lem :
        (ids : List Text) (w : World H) → remove_extras host ids w ≡ (delete_all host ids w, none)
    unfolding remove_extras delete_all delete
    remove_extras_lem [] w = refl
    remove_extras_lem (id ∷ ids) w = remove_extras_lem ids (kill_and_delete host id w).0

  -- What the removal of a service leaves.
  pub record IsRemoved (name : Text) (c d : Cluster H) : Type 0 where
    pub services :
        (other : Text)
        → lookup other d.services ≡ (if name =ᵗ other then none else lookup other c.services)
    pub containers :
        (id : Text)
        → contains (keys c.world.containers) id ≡ true
        → lookup id d.world.containers
          ≡ (if extends (container_prefix name) id then none else lookup id c.world.containers)

  -- The removal of a service that is there deletes its file and exactly the containers whose ids begin with
  -- its prefix and go on; every other service and container stays as it is.
  pub remove_service-IsRemoved :
      (host : Host H) (name : Text) (svc : Service) (c : Cluster H)
      → inspect_service name c ≡ some svc
      → IsRemoved name c (remove_service host name c).0
  unfolding remove_service
  remove_service-IsRemoved host name svc c at =
      rw (at, remove_service)
        (record {
          services = λ other. lookup-remove name other c.services;
          containers = λ id there.
              let ids = service_containers name c.world in
              let after =
                delete_all_lem host ids c.world id (service_containers-IsFilled name c.world) in
              ground (arith, after, there, contains-service_containers name c.world id);
        })

  -- The removal of a service also deletes the containers of every service whose name goes on behind a dash.
  pub remove_service-collision :
      (host : Host H) (name rest : Text) (index : ℕ) (svc : Service) (c : Cluster H)
      → inspect_service name c ≡ some svc
      → contains (keys c.world.containers) (replica_id (name ++ b'-' ∷ rest) index) ≡ true
      → lookup
          (replica_id (name ++ b'-' ∷ rest) index)
          (remove_service host name c).0.world.containers
        ≡ none
  remove_service-collision host name rest index svc c at there =
      let id = replica_id (name ++ b'-' ∷ rest) index in
      let split : id ≡ container_prefix name ++ (rest ++ b'-' ∷ itoa index) = simp append_assoc in
      let taken : extends (container_prefix name) id ≡ true =
        rw split (extends-append (container_prefix name) rest (itoa index) b'-') in
      (remove_service-IsRemoved host name svc c at).containers id there ∙ rw taken refl
