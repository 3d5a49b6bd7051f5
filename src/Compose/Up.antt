-- ===== src/Compose/Up.antt =====
-- `UpScaled` of compose.go: which containers are started when it returns without an error, and in which order.
use mathlib.Core.List.{append_assoc}
use thrive.Prelude.{
  ℕ, ◌≡◌, refl, sym, ap, ◌∙◌, ◌⊎◌, inl, inr, none, some, List, [], ◌∷◌, ◌++◌, arith, Text, Dict,
  lookup, is_empty, Bool-cases, Option-cases,
}
use thrive.Compose.{ServiceDef, ComposeFile}
use thrive.Compose.StartOrder.{VisitError, Search, Visit, ok, err, start_order}
use thrive.Compose.Names.{replica_id}
use thrive.Compose.Engine.{Engine, for_each, indices}
use thrive.Compose.Traced.{
  Note, pulled, created, started, traced, each, IsRun, for_each-IsRun, volumes-lift,
  ensure_resources-lift,
}
use thrive.Compose.Commands.{
  check, parse_compose_volumes, config_of, start_service_at, ensure_resources, replicas_of,
  up_service, up_scaled,
}

-- What is to be done for one replica of a service, and for all that are asked for.
abbrev pub replica : Text → Text → ServiceDef → ℕ → List Note
replica project name svc i =
    let id = replica_id project name i in pulled svc.image ∷ created id ∷ started id ∷ []

abbrev pub replicas : ComposeFile → Text → Dict ℕ → Text → List Note
replicas cf project scales name = elim (lookup name cf.services) [
  | none ↦ []
  | some svc ↦ each (replica project name svc) (indices 1 (replicas_of scales name))
]

Visit-cases : (v : Visit) → ((e : VisitError) × (v ≡ err e)) ⊎ ((s : Search) × (v ≡ ok s))
Visit-cases (ok s) = inr (s, refl)
Visit-cases (err e) = inl (e, refl)

up_scaled-for_each :
    {W : Type 0} (engine : Engine W) (cf : ComposeFile) (project : Text) (scales : Dict ℕ) (w : W)
    (s : Search)
    → (ensure_resources engine cf w).1 ≡ none
    → start_order cf ≡ ok s
    → up_scaled engine cf project scales w
      ≡ for_each s.result (up_service engine cf project scales) (ensure_resources engine cf w).0
unfolding up_scaled
up_scaled-for_each engine cf project scales w s e f = rw (up_scaled, e, f) refl

module _ {W : Type 0} (engine : Engine W) where
  three : (l : List Note) (a b c : Note) → ((l ++ a ∷ []) ++ b ∷ []) ++ c ∷ [] ≡ l ++ a ∷ b ∷ c ∷ []
  three l a b c = simp append_assoc

  start_service_at-IsRun :
      (project name : Text) (svc : ServiceDef) (i : ℕ) (p : W × List Note)
      → IsRun
          (replica project name svc i)
          p
          (start_service_at (traced engine) project name svc i p)
          (start_service_at engine project name svc i p.0)
  unfolding start_service_at check
  start_service_at-IsRun project name svc i p =
      let id = replica_id project name i in
      let at_pull = ((traced engine).pull svc.image p).0 in
      let mounted = parse_compose_volumes engine svc.volumes at_pull.0 in
      let config = config_of engine id svc mounted.1 in
      let made = (engine.create config mounted.0).0 in
      rw (volumes-lift engine svc.volumes at_pull) (elim (Bool-cases (is_empty svc.image)) [
        | inl e ↦ rw e (record { same = refl; notes = λ k. absurd (ground (arith, k)) })
        | inr e ↦ rw e (elim (Bool-cases (engine.pull svc.image p.0).1) [
          | inr f ↦ rw f (record { same = refl; notes = λ k. absurd (ground (arith, k)) })
          | inl f ↦ rw f (elim (Bool-cases (engine.create config mounted.0).1) [
            | inr c ↦ rw c (record { same = refl; notes = λ k. absurd (ground (arith, k)) })
            | inl c ↦ rw c (elim (Bool-cases (engine.start id made).1) [
              | inr n ↦ rw n (record { same = refl; notes = λ k. absurd (ground (arith, k)) })
              | inl n ↦ rw n (record {
                same = refl;
                notes = λ k. three p.1 (pulled svc.image) (created id) (started id);
              })
            ])
          ])
        ])
      ])

  up_service-IsRun :
      (cf : ComposeFile) (project : Text) (scales : Dict ℕ) (name : Text) (p : W × List Note)
      → IsRun
          (replicas cf project scales name)
          p
          (up_service (traced engine) cf project scales name p)
          (up_service engine cf project scales name p.0)
  unfolding up_service
  up_service-IsRun cf project scales name p = elim (Option-cases (lookup name cf.services)) [
    | inl e ↦
        rw (e, up_service, replicas)
          (record { same = refl; notes = λ k. absurd (ground (arith, k)) })
    | inr (svc, e) ↦
        rw (e, up_service, replicas)
          (for_each-IsRun (λ i. start_service_at (traced engine) project name svc i)
            (λ i. start_service_at engine project name svc i) (replica project name svc)
            (start_service_at-IsRun project name svc) (indices 1 (replicas_of scales name)) p)
  ]

  -- What a call of `Up` on the engine that takes notes has done: it ends as the call itself does, and its
  -- notes are those of the replicas that were asked for, service by service in the order that was found.
  pub record IsUp (cf : ComposeFile) (project : Text) (scales : Dict ℕ) (w : W) : Type 0 where
    pub order : Search
    pub found : start_order cf ≡ ok order
    pub same :
        let run = up_scaled (traced engine) cf project scales (w, []) in
        (run.0.0, run.1) ≡ up_scaled engine cf project scales w
    pub calls :
        (up_scaled (traced engine) cf project scales (w, [])).0.1
        ≡ each (replicas cf project scales) order.result

  -- When `Up` returns without an error, the start order was found, and the pulls, creations and starts that
  -- succeeded during the call are exactly, one after the other: a pull of the image, the creation and the start of
  -- the replica 1 of the first service in the order, the same for its replica 2, and so on up to the number that
  -- was asked for, then those of the second service, up to the last one. The calls are noted by an engine around
  -- the given one, on which `Up` ends in the same state and with the same result.
  pub up_scaled-IsUp :
      (cf : ComposeFile) (project : Text) (scales : Dict ℕ) (w : W)
      → (up_scaled engine cf project scales w).1 ≡ none
      → IsUp cf project scales w
  up_scaled-IsUp cf project scales w h = elim (Option-cases (ensure_resources engine cf w).1) [
    | inr (error, e) ↦ absurd (unfold up_scaled in ground (arith, e, h))
    | inl e ↦ elim (Visit-cases (start_order cf)) [
      | inl (error, f) ↦ absurd (unfold up_scaled in ground (arith, e, f, h))
      | inr (s, f) ↦
          let ready = (ensure_resources engine cf w).0 in
          let loop =
            for_each-IsRun (up_service (traced engine) cf project scales)
              (up_service engine cf project scales) (replicas cf project scales)
              (up_service-IsRun cf project scales) s.result (ready, []) in
          let traced_lem : up_scaled (traced engine) cf project scales (w, [])
              ≡ for_each s.result (up_service (traced engine) cf project scales) (ready, []) =
            let prepared = ensure_resources-lift engine cf (w, []) in
            up_scaled-for_each (traced engine) cf project scales (w, []) s
              (ap (λ q. q.1) prepared ∙ e) f
            ∙ ap (λ q. for_each s.result (up_service (traced engine) cf project scales) q.0)
                prepared in
          let given : up_scaled engine cf project scales w
              ≡ for_each s.result (up_service engine cf project scales) ready =
            up_scaled-for_each engine cf project scales w s e f in
          let same = ap (λ q. (q.0.0, q.1)) traced_lem ∙ loop.same ∙ sym given in
          record {
            order = s;
            found = f;
            same = same;
            calls =
                ap (λ q. q.0.1) traced_lem
                ∙ loop.notes (sym (ap (λ q. q.1) traced_lem) ∙ ap (λ q. q.1) same ∙ h);
          }
    ]
  ]
