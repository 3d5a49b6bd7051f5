-- ===== src/Compose/Traced.antt =====
-- An engine that notes its successful calls, for compose.go, and the loops and resources of `UpScaled` on it.
use mathlib.Core.List.{append_assoc, append-nil}
use thrive.Prelude.{
  ◌≡◌, refl, sym, ap, ◌∙◌, cut, inl, inr, Option, none, some, List, [], ◌∷◌, ◌++◌, arith, Text,
  keys, Bool-cases, Option-cases, if◌then◌else◌,
}
use thrive.Compose.{ComposeFile}
use thrive.Compose.Engine.{Engine, CommandError, for_each}
use thrive.Compose.Commands.{
  check, parse_compose_volumes, ensure_resources, ensure_network, ensure_volume,
}

module _ {A W : Type 0} (f : A → W → W × Option CommandError) where
  pub for_each-next :
      (x : A) (xs : List A) (w : W)
      → (f x w).1 ≡ none
      → for_each (x ∷ xs) f w ≡ for_each xs f (f x w).0
  unfolding for_each
  for_each-next x xs w e = rw (for_each, e) refl

  pub for_each-stop :
      (x : A) (xs : List A) (w : W) (error : CommandError)
      → (f x w).1 ≡ some error
      → for_each (x ∷ xs) f w ≡ ((f x w).0, some error)
  unfolding for_each
  for_each-stop x xs w error e = rw (for_each, e) refl

-- A successful call of the engine.
pub data Note : Type 0 where
  pulled : (image : Text) → Note
  created : (id : Text) → Note
  started : (id : Text) → Note

-- An engine that does what the given one does, and notes its successful pulls, creations and starts, one after the other.
abbrev pub traced : {W : Type 0} → Engine W → Engine (W × List Note)
traced engine = record {
  entries = λ p. engine.entries p.0;
  state = λ id p. (((engine.state id p.0).0, p.1), (engine.state id p.0).1);
  kill = λ id n p. (((engine.kill id n p.0).0, p.1), (engine.kill id n p.0).1);
  delete = λ id p. (((engine.delete id p.0).0, p.1), (engine.delete id p.0).1);
  create = λ c p. (
    ((engine.create c p.0).0, if (engine.create c p.0).1 then p.1 ++ created c.id ∷ [] else p.1),
    (engine.create c p.0).1,
  );
  start = λ id p. (
    ((engine.start id p.0).0, if (engine.start id p.0).1 then p.1 ++ started id ∷ [] else p.1),
    (engine.start id p.0).1,
  );
  reset_to_created =
      λ id p. (((engine.reset_to_created id p.0).0, p.1), (engine.reset_to_created id p.0).1);
  await_stopped = λ id n p. (engine.await_stopped id n p.0, p.1);
  wait = λ id p. (engine.wait id p.0, p.1);
  pull = λ image p. (
    (
      (engine.pull image p.0).0,
      if (engine.pull image p.0).1 then p.1 ++ pulled image ∷ [] else p.1,
    ),
    (engine.pull image p.0).1,
  );
  has_network = λ name p. (((engine.has_network name p.0).0, p.1), (engine.has_network name p.0).1);
  create_network =
      λ name p. (((engine.create_network name p.0).0, p.1), (engine.create_network name p.0).1);
  is_named_volume = engine.is_named_volume;
  ensure_volume =
      λ name p. (((engine.ensure_volume name p.0).0, p.1), (engine.ensure_volume name p.0).1);
  parse_restart_policy = engine.parse_restart_policy;
}

-- The replicas of a service from 1 on, and those of the services of an order.
unfoldable pub each : {A : Type 0} → (A → List Note) → List A → List Note
each ids [] = []
each ids (x ∷ xs) = ids x ++ each ids xs

-- The call leaves the engine without the notes as `out`, and notes `ids` where it succeeds.
pub record IsTraced {W R : Type 0} (fine : R → Type 0) (ids : List Note) (p : W × List Note)
    (q : (W × List Note) × R) (out : W × R) : Type 0 where
  pub same : (q.0.0, q.1) ≡ out
  pub notes : fine q.1 → q.0.1 ≡ p.1 ++ ids

abbrev pub IsRun :
    {W : Type 0}
    → List Note
    → W × List Note
    → (W × List Note) × Option CommandError
    → W × Option CommandError
    → Type 0
IsRun ids p q out = IsTraced (λ r. r ≡ none) ids p q out

pub for_each-IsRun :
    {A W : Type 0} (f : A → W × List Note → (W × List Note) × Option CommandError)
    (g : A → W → W × Option CommandError) (ids : A → List Note)
    → ((x : A) (p : W × List Note) → IsRun (ids x) p (f x p) (g x p.0))
    → (xs : List A) (p : W × List Note)
    → IsRun (each ids xs) p (for_each xs f p) (for_each xs g p.0)
unfolding for_each each
for_each-IsRun f g ids h [] p = record { same = refl; notes = λ e. sym (append-nil p.1) }
for_each-IsRun f g ids h (x ∷ xs) p =
    let here = h x p in
    let state : (f x p).0.0 ≡ (g x p.0).0 = ap (λ q. q.0) here.same in
    elim (Option-cases (f x p).1) [
      | inl e ↦
          let rest = for_each-IsRun f g ids h xs (f x p).0 in
          let step = for_each-next f x xs p e in
          let out = for_each-next g x xs p.0 (sym (ap (λ q. q.1) here.same) ∙ e) in
          record {
            same =
                ap (λ q. (q.0.0, q.1)) step ∙ rest.same ∙ ap (λ v. for_each xs g v) state ∙ sym out;
            notes = λ k.
                ap (λ q. q.0.1) step
                ∙ rest.notes (sym (ap (λ q. q.1) step) ∙ k)
                ∙ ap (λ l. l ++ each ids xs) (here.notes e)
                ∙ append_assoc p.1 (ids x) (each ids xs);
          }
      | inr (error, e) ↦
          let step = for_each-stop f x xs p error e in
          let out = for_each-stop g x xs p.0 error (sym (ap (λ q. q.1) here.same) ∙ e) in
          record {
            same = ap (λ q. (q.0.0, q.1)) step ∙ ap (λ v. (v, some error)) state ∙ sym out;
            notes = λ k. absurd (ground (arith, step, k));
          }
    ]

-- A call that notes nothing.
abbrev pub lift : {W R : Type 0} → (W → W × R) → W × List Note → (W × List Note) × R
lift f p = (((f p.0).0, p.1), (f p.0).1)

for_each-lift :
    {A W : Type 0} (f : A → W × List Note → (W × List Note) × Option CommandError)
    (g : A → W → W × Option CommandError)
    → ((x : A) (p : W × List Note) → f x p ≡ lift (g x) p)
    → (xs : List A) (p : W × List Note) → for_each xs f p ≡ lift (for_each xs g) p
unfolding for_each
for_each-lift f g h [] p = refl
for_each-lift f g h (x ∷ xs) p = elim (Option-cases (g x p.0).1) [
  | inl e ↦
      let step = for_each-next f x xs p (ap (λ q. q.1) (h x p) ∙ e) in
      let rest = for_each-lift f g h xs ((g x p.0).0, p.1) in
      step
      ∙ ap (λ q. for_each xs f q.0) (h x p)
      ∙ rest
      ∙ ap (λ q. ((q.0, p.1), q.1)) (sym (for_each-next g x xs p.0 e))
  | inr (error, e) ↦
      let step = for_each-stop f x xs p error (ap (λ q. q.1) (h x p) ∙ e) in
      step
      ∙ ap (λ q. (q.0, some error)) (h x p)
      ∙ ap (λ q. ((q.0, p.1), q.1)) (sym (for_each-stop g x xs p.0 error e))
]

module _ {W : Type 0} (engine : Engine W) where
  pub volumes-lift :
      (specs : List Text) (p : W × List Note)
      → parse_compose_volumes (traced engine) specs p ≡ lift (parse_compose_volumes engine specs) p
  unfolding parse_compose_volumes
  volumes-lift [] p = refl
  volumes-lift (spec ∷ specs) p = elim (Option-cases (cut b':' spec)) [
    | inl e ↦ rw (e, parse_compose_volumes) (rw (volumes-lift specs p) refl)
    | inr ((src, dest), e) ↦
        rw (e, parse_compose_volumes)
          (elim (Bool-cases (engine.is_named_volume src)) [
            | inl n ↦ rw (n, volumes-lift specs ((engine.ensure_volume src p.0).0, p.1)) refl
            | inr n ↦ rw (n, volumes-lift specs p) refl
          ])
  ]

  ensure_network-lift :
      (name : Text) (p : W × List Note)
      → ensure_network (traced engine) name p ≡ lift (ensure_network engine name) p
  unfolding ensure_network check
  ensure_network-lift name p = elim (Bool-cases (engine.has_network name p.0).1) [
    | inl e ↦ rw e refl
    | inr e ↦ rw e refl
  ]

  pub ensure_resources-lift :
      (cf : ComposeFile) (p : W × List Note)
      → ensure_resources (traced engine) cf p ≡ lift (ensure_resources engine cf) p
  unfolding ensure_resources ensure_volume
  ensure_resources-lift cf p =
      let networks =
        for_each-lift (ensure_network (traced engine)) (ensure_network engine) ensure_network-lift
          (keys cf.networks) p in
      let volumes =
        for_each-lift (ensure_volume (traced engine)) (ensure_volume engine) (λ name q. refl)
          (keys cf.volumes) in
      let first = for_each (keys cf.networks) (ensure_network engine) p.0 in
      elim (Option-cases first.1) [
        | inl e ↦
            rw (networks, e, ensure_resources)
              (ap (λ q. for_each (keys cf.volumes) (ensure_volume (traced engine)) q.0) networks
                ∙ volumes (first.0, p.1))
        | inr (error, e) ↦ rw (networks, e, ensure_resources) (ap (λ q. (q.0, some error)) networks)
      ]
