-- ===== src/Services/Grow.antt =====
-- `Reconcile` of service.go: the loop that starts the missing replicas ends.
use thrive.Prelude.{
  ℕ, zero, suc, ◌+◌, ◌-◌, ◌^◌, ◌≤◌, ◌<◌, ◌≡◌, ◌≢◌, refl, sym, ap, ◌∙◌, ◌⊎◌, inl, inr, true, false,
  ◌||◌, Option, none, some, List, [], ◌∷◌, ◌++◌, arith, Text, ◌=ᵗ◌, eq_iff, lookup, insert, keys,
  contains, contains-keys, keys-insert, insert-IsNodup, IsNodup, length-le_of_subset, length, itoa,
  itoa-nonempty, parse_digits, parse_digits-itoa, cut_prefix, cut_prefix-append, ltb, leb, is_empty,
  Bool-cases, Option-cases, if◌then◌else◌,
}
use thrive.Swarm.{container_prefix}
use thrive.Compose.Names.{extends}
use thrive.Runtime.{Host, World, Files, Event, ContainerConfig, RuntimeError, Reply, done, failed}
use thrive.Runtime.Start.{start}
use thrive.Runtime.Calls.{create}
use thrive.Runtime.Kept.{Keeping, start-keeps}
use thrive.Services.{
  Service, ServiceError, stalled, has_index, replica_id, replica_config, service_containers,
  start_replica, start_missing,
}
use thrive.Services.Removal.{contains-service_containers}
use thrive.Services.Shrink.{service_containers-IsNodup}

-- How many of the indices are not below another.
unfoldable pub above : ℕ → List ℕ → ℕ
above i [] = 0
above i (j ∷ used) = let rest = above i used in if leb i j then suc rest else rest

above_next : (i : ℕ) (used : List ℕ) → above (suc i) used ≤ above i used
unfolding above
above_next i [] = omega arith
above_next i (j ∷ used) = ground (arith, above_next i used)

above_used :
    (i : ℕ) (used : List ℕ) → has_index used i ≡ true → suc (above (suc i) used) ≤ above i used
unfolding above has_index
above_used i [] h = cc
above_used i (j ∷ used) h = ground (arith, above_used i used, above_next i used)

above_skip : (i : ℕ) (used : List ℕ) → above (suc i) (i ∷ used) ≤ above i used
unfolding above
above_skip i used = ground (arith, above_next i used)

pub above_length : (i : ℕ) (used : List ℕ) → above i used ≤ length used
unfolding above
above_length i [] = omega arith
above_length i (j ∷ used) = ground (arith, above_length i used)

Reply-cases : (reply : Reply) → (reply ≡ done) ⊎ ((e : RuntimeError) × (reply ≡ failed e))
Reply-cases done = inl refl
Reply-cases (failed e) = inr (e, refl)

module _ {H : Type 0} where
  -- The same directories.
  record SameDirs (w v : World H) : Type 0 where
    same : (a : Text) → contains (keys v.containers) a ≡ contains (keys w.containers) a
    once : IsNodup (keys w.containers) → IsNodup (keys v.containers)

  SameDirs-laws : Keeping SameDirs
  SameDirs-laws = record {
    outside = λ w v e. rw e (record { same = λ a. refl; once = λ n. n });
    then = λ u v w g h. record { same = λ a. h.same a ∙ g.same a; once = λ n. h.once (g.once n) };
    put = λ id old new w at counted. record {
      same = λ a. ground (
        arith,
        keys-insert id new w.containers a,
        contains-keys w.containers id old at,
        eq_iff id a,
      );
      once = λ n. insert-IsNodup id new w.containers n;
    };
  }

  -- One directory more.
  record IsGrown (id : Text) (w v : World H) : Type 0 where
    grown :
        (a : Text) → contains (keys v.containers) a ≡ (contains (keys w.containers) a || (id =ᵗ a))
    once : IsNodup (keys w.containers) → IsNodup (keys v.containers)

  created_dirs :
      (cfg : ContainerConfig) (w : World H)
      → is_empty cfg.id ≡ false
      → IsGrown cfg.id w (create cfg w).0
  unfolding create
  created_dirs cfg w filled = elim (Option-cases (lookup cfg.id w.containers)) [
    | inl e ↦ rw (filled, e, create) (made _)
    | inr (old, e) ↦ rw (filled, e, create) (made _)
  ]
    where
      made :
          (files : Files) {events : List Event}
          → IsGrown cfg.id w
              (record w { containers = insert cfg.id files w.containers; events = events })
      made files = record {
        grown = λ a. keys-insert cfg.id files w.containers a;
        once = λ n. insert-IsNodup cfg.id files w.containers n;
      }

  Grows : Text → World H → World H × Option ServiceError → Type 0
  Grows id w (v, none) = IsGrown id w v
  Grows id w (v, some e) = e ≢ stalled

  Grows-none :
      (id : Text) (w : World H) (p : World H × Option ServiceError)
      → Grows id w p
      → p.1 ≡ none
      → IsGrown id w p.0
  unfolding Grows
  Grows-none id w (v, none) h e = h
  Grows-none id w (v, some x) h e = absurd (ground (arith, e))

  Grows-some :
      (id : Text) (w : World H) (p : World H × Option ServiceError) (x : ServiceError)
      → Grows id w p
      → p.1 ≡ some x
      → x ≢ stalled
  unfolding Grows
  Grows-some id w (v, none) x h e = absurd (ground (arith, e))
  Grows-some id w (v, some y) x h e = let same : x ≡ y = ground (arith, e) in rw same h

  module _ (host : Host H) where
    start_replica-Grows :
        (svc : Service) (index : ℕ) (w : World H)
        → Grows (replica_id svc.name index) w (start_replica host svc index w)
    unfolding start_replica Grows
    start_replica-Grows svc index w =
        let cfg = replica_config svc index in
        let v = (create cfg w).0 in
        let made = created_dirs cfg w refl in
        let same = start-keeps SameDirs SameDirs-laws host (replica_id svc.name index) v in
        elim (Reply-cases (create cfg w).1) [
          | inr (e, f) ↦ rw (f, start_replica) (λ p. ground (arith, p))
          | inl f ↦ elim (Reply-cases (start host (replica_id svc.name index) v).1) [
            | inr (e, g) ↦ rw (f, start_replica) (rw (g, start_replica) (λ p. ground (arith, p)))
            | inl g ↦
                rw (f, start_replica)
                  (rw (g, start_replica)
                    (record {
                      grown = λ a. same.same a ∙ made.grown a;
                      once = λ n. same.once (made.once n);
                    }))
          ]
        ]

extends-tail : (prefix : Text) (c : ℕ) (s : Text) → extends prefix (prefix ++ c ∷ s) ≡ true
unfolding extends
extends-tail prefix c s = rw (cut_prefix-append, extends) refl

-- The indices of the replicas are told apart, and each replica is a container of its service.
replica_id-injective : (name : Text) (i j : ℕ) → replica_id name i ≡ replica_id name j → i ≡ j
replica_id-injective name i j e =
    let cut_at = λ (n : ℕ). cut_prefix-append (container_prefix name) (itoa n) in
    let tails = sym (cut_at i) ∙ ap (cut_prefix (container_prefix name)) e ∙ cut_at j in
    let same : itoa i ≡ itoa j = ground (arith, tails) in
    let values = sym (parse_digits-itoa i) ∙ ap parse_digits same ∙ parse_digits-itoa j in
    ground (arith, values)

pub extends-replica :
    (name : Text) (i : ℕ) → extends (container_prefix name) (replica_id name i) ≡ true
extends-replica name i =
    let (c, s, e) = itoa-nonempty i in rw e (extends-tail (container_prefix name) c s)

module _ {H : Type 0} where
  -- Every index of which there is a replica is used.
  unfoldable pub IsKnown : Text → List ℕ → World H → Type 0
  IsKnown name used w =
      (j : ℕ)
      → 0 < j
      → j < 2 ^ 63
      → contains (keys w.containers) (replica_id name j) ≡ true
      → has_index used j ≡ true

  -- As many containers as replicas, or an error that is not the end of the fuel.
  unfoldable pub IsReconciled : Service → World H × Option ServiceError → Type 0
  IsReconciled svc (w, none) = length (service_containers svc.name w) ≡ svc.spec.replicas
  IsReconciled svc (w, some e) = e ≢ stalled

module _ {H : Type 0} (host : Host H) where
  -- A replica that is new is one container more.
  one_more :
      (name : Text) (i : ℕ) (w v : World H)
      → IsNodup (keys w.containers)
      → contains (keys w.containers) (replica_id name i) ≡ false
      → IsGrown (replica_id name i) w v
      → length (service_containers name v) ≡ suc (length (service_containers name w))
  one_more name i w v nodup new grown =
      let id = replica_id name i in
      let old = service_containers name w in
      let same : (a : Text) → contains (service_containers name v) a ≡ contains (id ∷ old) a = λ a.
        unfold contains in
        ground (
          arith,
          contains-service_containers name w a,
          contains-service_containers name v a,
          grown.grown a,
          extends-replica name i,
          eq_iff id a,
        ) in
      let least =
        length-le_of_subset (id ∷ old) (service_containers name v)
          (
            ground (arith, new, contains-service_containers name w id),
            service_containers-IsNodup host name w nodup,
          )
          (λ a h. same a ∙ h) in
      let most =
        length-le_of_subset (service_containers name v) (id ∷ old)
          (service_containers-IsNodup host name v (grown.once nodup)) (λ a h. sym (same a) ∙ h) in
      omega (arith, least, most)

  IsKnown-next :
      (name : Text) (i : ℕ) (used : List ℕ) (w v : World H)
      → IsKnown name used w
      → IsGrown (replica_id name i) w v
      → IsKnown name (i ∷ used) v
  unfolding IsKnown has_index
  IsKnown-next name i used w v known grown j positive small there = ground (
    arith,
    known j positive small,
    grown.grown (replica_id name j),
    there,
    eq_iff (replica_id name i) (replica_id name j),
    replica_id-injective name i j,
  )

  pub start_missing-ends :
      (fuel : ℕ) (svc : Service) (i : ℕ) (used : List ℕ) (w : World H)
      → 0 < i
      → IsNodup (keys w.containers)
      → IsKnown svc.name used w
      → i + fuel ≤ 2 ^ 63
      → length (service_containers svc.name w) ≤ svc.spec.replicas
      → above i used + (svc.spec.replicas - length (service_containers svc.name w)) < fuel
      → IsReconciled svc (start_missing host fuel svc i used w)
  unfolding start_missing IsReconciled
  start_missing-ends zero svc i used w positive nodup known room within enough =
      absurd (omega (arith, enough))
  start_missing-ends (suc fuel) svc i used w positive nodup known room within enough =
      elim (Bool-cases (ltb (length (service_containers svc.name w)) svc.spec.replicas)) [
        | inr full ↦ rw full (ground (arith, within))
        | inl missing ↦ elim (Bool-cases (has_index used i)) [
          | inl taken ↦
              rw (missing, taken)
                (start_missing-ends fuel svc (suc i) used w (omega arith) nodup known
                  (omega (arith, room)) within (omega (arith, enough, above_used i used taken)))
          | inr free ↦ elim (Option-cases (start_replica host svc i w).1) [
            | inr (e, f) ↦
                rw (missing, free, f)
                  (Grows-some _ w (start_replica host svc i w) e (start_replica-Grows host svc i w)
                    f)
            | inl f ↦
                let v = (start_replica host svc i w).0 in
                let grown =
                  Grows-none _ w (start_replica host svc i w) (start_replica-Grows host svc i w)
                    f in
                let new : contains (keys w.containers) (replica_id svc.name i) ≡ false =
                  unfold IsKnown in ground (arith, known i positive (omega (arith, room)), free) in
                let more = one_more svc.name i w v nodup new grown in
                rw (missing, free, f)
                  (start_missing-ends fuel svc (suc i) (i ∷ used) v (omega arith) (grown.once nodup)
                    (IsKnown-next svc.name i used w v known grown) (omega (arith, room))
                    (ground (arith, more, missing))
                    (ground (arith, enough, more, above_skip i used, missing)))
          ]
        ]
      ]
