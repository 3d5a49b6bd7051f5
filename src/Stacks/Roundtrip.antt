-- ===== src/Stacks/Roundtrip.antt =====
-- stack.go: the services that a deployment creates, and their removal.
use thrive.Prelude.{
  ℕ, ◌≡◌, refl, sym, ap, ◌∙◌, inl, inr, Bool, true, false, Option, none, some, List, [], ◌∷◌, arith,
  Text, ◌=ᵗ◌, eq_iff, eq_refl, Dict, lookup, insert, remove, contains, IsNodup, IsNodup-sort,
  contains-sort, sort, lookup-insert, lookup-insert_same, lookup-remove, Bool-cases, Option-cases,
  if◌then◌else◌,
}
use thrive.Compose.{ServiceDef, ComposeFile}
use thrive.Swarm.{is_initialised, valid_service_name}
use thrive.Runtime.{Host}
use thrive.Services.{
  Service, ServiceSpec, ServiceError, Cluster, write_service, reconcile, create_service,
  remove_service,
}
use thrive.Services.Rollback.{IsQuiet, reconcile-IsQuiet}
use thrive.Stacks.{
  Swarm, Stack, service_name, service_names, spec_of, deploy_all, deployed_stack, deploy_stack,
  remove_services, remove_stack,
}

-- The names are new, and they are what was added.
record IsAdded (names : List Text) (old new : Dict Service) : Type 0 where
  distinct : IsNodup names
  fresh : (k : Text) → contains names k ≡ true → lookup k old ≡ none
  there : (k : Text) → contains names k ≡ true → (svc : Service) × (lookup k new ≡ some svc)
  kept : (k : Text) → contains names k ≡ false → lookup k new ≡ lookup k old

-- One service more, of that name.
record IsCreated (name : Text) (old new : Dict Service) : Type 0 where
  svc : Service
  fresh : lookup name old ≡ none
  entry : (k : Text) → lookup k new ≡ (if name =ᵗ k then some svc else lookup k old)

IsAdded-cons :
    {name : Text} {names : List Text} {old middle new : Dict Service}
    → IsCreated name old middle
    → IsAdded names middle new
    → IsAdded (name ∷ names) old new
unfolding contains
IsAdded-cons {name = name} {names = names} {old = old} {middle = middle} {new = new} first rest =
    record {
      distinct = (
        elim (Bool-cases (contains names name)) [
          | inl e ↦ absurd (ground (arith, rest.fresh name e, first.entry name, eq_refl name))
          | inr e ↦ e
        ],
        rest.distinct,
      );
      fresh = λ k h. elim (Bool-cases (name =ᵗ k)) [
        | inl same ↦
            let at : name ≡ k = (eq_iff name k).0 same in
            ap (λ n. lookup n old) (sym at) ∙ first.fresh
        | inr other ↦ ground (arith, rest.fresh k (ground (arith, h)), first.entry k)
      ];
      there = λ k h. elim (Bool-cases (contains names k)) [
        | inl e ↦ rest.there k e
        | inr e ↦ (first.svc, ground (arith, h, rest.kept k e, first.entry k))
      ];
      kept = λ k h. ground (arith, h, rest.kept k (ground (arith, h)), first.entry k);
    }

-- What a call leaves when it returns no error.
IsFine : {H : Type 0} → Text → Dict Service → Cluster H × Option ServiceError → Type 0
IsFine name old p = p.1 ≡ none → IsCreated name old p.0.services

refused :
    {H : Type 0} (name : Text) (old : Dict Service) (c : Cluster H) (e : ServiceError)
    → IsFine name old (c, some e)
unfolding IsFine
refused name old c e h = absurd (ground (arith, h))

if-IsFine :
    {H : Type 0} (name : Text) (old : Dict Service) (b : Bool)
    (x y : Cluster H × Option ServiceError)
    → IsFine name old x
    → IsFine name old y
    → IsFine name old (if b then x else y)
if-IsFine name old true x y h k = h
if-IsFine name old false x y h k = k

module _ {H : Type 0} (host : Host H) where
  reconcile-IsFine :
      (svc : Service) (c : Cluster H)
      → lookup svc.name c.services ≡ none
      → IsFine svc.name c.services (reconcile host svc.name (write_service svc c))
  unfolding IsFine
  reconcile-IsFine svc c new ok = record {
    svc = svc;
    fresh = new;
    entry = λ k.
        let quiet : (reconcile host svc.name (write_service svc c)).0.services
            ≡ insert svc.name svc c.services =
          unfold IsQuiet in reconcile-IsQuiet host svc.name (write_service svc c) in
        ap (lookup k) quiet ∙ lookup-insert svc.name k svc c.services;
  }

  create_service-IsFine :
      (name : Text) (spec : ServiceSpec) (now : ℕ) (c : Cluster H)
      → IsFine name c.services (create_service host name spec now c)
  unfolding create_service
  create_service-IsFine name spec now c = elim (Option-cases (lookup name c.services)) [
    | inl e ↦ rw (e, create_service) (search (if-IsFine, refused, reconcile-IsFine, e))
    | inr (old, e) ↦ rw (e, create_service) (search (if-IsFine, refused))
  ]

  created :
      (name : Text) (spec : ServiceSpec) (now : ℕ) (c : Cluster H)
      → (create_service host name spec now c).1 ≡ none
      → IsCreated name c.services (create_service host name spec now c).0.services
  created name spec now c = unfold IsFine in create_service-IsFine name spec now c

  deploy_all-IsAdded :
      (stack : Text) (now : ℕ) (defs : Dict ServiceDef) (c : Cluster H)
      → (deploy_all host stack now defs c).1 ≡ none
      → IsAdded (service_names stack defs) c.services (deploy_all host stack now defs c).0.services
  unfolding deploy_all service_names contains
  deploy_all-IsAdded stack now [] c ok = record {
    distinct = tt;
    fresh = λ k h. ground (arith, h);
    there = λ k h. absurd (ground (arith, h));
    kept = λ k h. refl;
  }
  deploy_all-IsAdded stack now ((svc, def) ∷ defs) c ok =
      let name = service_name stack svc in
      let made = create_service host name (spec_of def) now c in
      elim (Option-cases made.1) [
        | inl e ↦
            let first = created name (spec_of def) now c e in
            let same : deploy_all host stack now ((svc, def) ∷ defs) c
                ≡ deploy_all host stack now defs made.0 =
              rw (e, deploy_all) refl in
            let rest = deploy_all-IsAdded stack now defs made.0 (ap (λ p. p.1) (sym same) ∙ ok) in
            rw same (IsAdded-cons first rest)
        | inr (err, e) ↦ absurd (ground (arith, rw (e, deploy_all) at ok))
      ]

  -- All are there.
  AreThere : List Text → Dict Service → Type 0
  AreThere names services =
      (k : Text) → contains names k ≡ true → (svc : Service) × (lookup k services ≡ some svc)

  remove_services_lem :
      (names : List Text) (c : Cluster H)
      → IsNodup names
      → AreThere names c.services
      → ((remove_services host names c).1 ≡ none)
        × ((k : Text)
            → lookup k (remove_services host names c).0.services
              ≡ (if contains names k then none else lookup k c.services))
  unfolding remove_services remove_service contains AreThere
  remove_services_lem [] c once there = (refl, λ k. refl)
  remove_services_lem (name ∷ names) c once there =
      let (svc, at) = there name (ground (arith, eq_refl name)) in
      let left = (remove_service host name c).0 in
      let gone : left.services ≡ remove name c.services = rw (at, remove_service) refl in
      let ok : (remove_service host name c).1 ≡ none = rw (at, remove_service) refl in
      let same : remove_services host (name ∷ names) c ≡ remove_services host names left =
        rw (ok, remove_services) refl in
      let kept : (k : Text)
          → lookup k left.services ≡ (if name =ᵗ k then none else lookup k c.services) =
        λ k. ap (lookup k) gone ∙ lookup-remove name k c.services in
      let still : AreThere names left.services = λ k h.
        let (other, e) = there k (ground (arith, h)) in
        (other, ground (arith, kept k, e, h, once.0, eq_iff name k)) in
      let (fine, rest) = remove_services_lem names left once.1 still in
      (
        ap (λ p. p.1) same ∙ fine,
        λ k. ap (λ p. lookup k p.0.services) same ∙ ground (arith, rest k, kept k),
      )

  -- What the two calls do when they return no error.
  deploy_stack_lem :
      (name : Text) (cf : ComposeFile) (now : ℕ) (s : Swarm H)
      → (deploy_stack host name cf now s).1 ≡ none
      → let made = deploy_all host name now cf.services s.cluster in
        (lookup name s.stacks ≡ none)
        × (made.1 ≡ none)
        × ((deploy_stack host name cf now s).0 ≡ record {
          cluster = made.0;
          stacks = insert name (deployed_stack host name cf now) s.stacks;
        })
  unfolding deploy_stack
  deploy_stack_lem name cf now s ok = elim (Bool-cases (is_initialised s.cluster.file)) [
    | inr e ↦ absurd (ground (arith, rw (e, deploy_stack) at ok))
    | inl e ↦ elim (Bool-cases (valid_service_name name)) [
      | inr f ↦ absurd (ground (arith, rw (e, f, deploy_stack) at ok))
      | inl f ↦ elim (Option-cases (lookup name s.stacks)) [
        | inr (old, g) ↦ absurd (ground (arith, rw (e, f, g, deploy_stack) at ok))
        | inl g ↦ elim (Option-cases (deploy_all host name now cf.services s.cluster).1) [
          | inr (err, h) ↦ absurd (ground (arith, rw (e, f, g, h, deploy_stack) at ok))
          | inl h ↦ (g, h, rw (e, f, g, h, deploy_stack) refl)
        ]
      ]
    ]
  ]

  remove_stack_lem :
      (name : Text) (st : Stack) (s : Swarm H)
      → lookup name s.stacks ≡ some st
      → (remove_services host st.services s.cluster).1 ≡ none
      → remove_stack host name s ≡ (
        record {
          cluster = (remove_services host st.services s.cluster).0;
          stacks = remove name s.stacks;
        },
        none,
      )
  unfolding remove_stack
  remove_stack_lem name st s at ok = rw (at, ok, remove_stack) refl

  -- Where a deployment returns no error, the removal of the stack right after it returns none either, and
  -- then the files of the services and of the stacks are as they were before the deployment.
  pub remove_stack-deploy_stack :
      (name : Text) (cf : ComposeFile) (now : ℕ) (s : Swarm H)
      → (deploy_stack host name cf now s).1 ≡ none
      → let removed = remove_stack host name (deploy_stack host name cf now s).0 in
        (removed.1 ≡ none)
        × ((svc : Text) → lookup svc removed.0.cluster.services ≡ lookup svc s.cluster.services)
        × ((stack : Text) → lookup stack removed.0.stacks ≡ lookup stack s.stacks)
  remove_stack-deploy_stack name cf now s ok =
      let (new, fine, at) = deploy_stack_lem name cf now s ok in
      let names = service_names name cf.services in
      let deployed = deployed_stack host name cf now in
      let made = (deploy_all host name now cf.services s.cluster).0 in
      let next : Swarm H = record { cluster = made; stacks = insert name deployed s.stacks } in
      let added = deploy_all-IsAdded name now cf.services s.cluster fine in
      let there : AreThere (sort names) made.services =
        unfold AreThere in λ k h. added.there k (sym (contains-sort names k) ∙ h) in
      let (ends, left) =
        remove_services_lem (sort names) made (IsNodup-sort names added.distinct) there in
      let removed =
        remove_stack_lem name deployed next (lookup-insert_same name deployed s.stacks) ends in
      rw (at, removed)
        (
          refl,
          λ k. left k ∙ (elim (Bool-cases (contains names k)) [
            | inl e ↦ ground (arith, e, contains-sort names k, added.fresh k e)
            | inr e ↦ ground (arith, e, contains-sort names k, added.kept k e)
          ]),
          λ k. ground (
            arith,
            new,
            eq_iff name k,
            lookup-remove name k next.stacks,
            lookup-insert name k deployed s.stacks,
          ),
        )
