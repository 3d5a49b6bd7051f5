-- ===== src/Network/Detach.antt =====
-- `DetachContainer` of nets.go, which is called when a container is deleted.
use thrive.Prelude.{
  ◌≡◌, refl, sym, ap, ◌∙◌, ◌⊎◌, inl, inr, false, none, some, List, [], ◌∷◌, arith, Text, text, ◌=ᵗ◌,
  eq_iff, eq_refl, Dict, lookup, remove, keys, contains-keys, lookup-remove, lookup-insert,
  lookup-insert_same, IsNodup, All, Bool-cases, Option-cases,
}
use thrive.Network.{
  Network, Store, values, list_networks, write_network, detach_from, detach_all, detach_container,
}
use thrive.Network.Keeps.{IsStore}

module _ (c : Text) where
  -- The file, if it is there, does not name the container.
  unfoldable pub IsFree : Text → Store → Type 0
  IsFree file s = (nw : Network) → lookup file s.networks ≡ some nw → lookup c nw.containers ≡ none

  pub IsFree-write :
      (nw : Network) (s : Store) (file : Text)
      → IsFree file s
      → IsFree file (write_network (record nw { containers = remove c nw.containers }) s)
  unfolding IsFree
  IsFree-write nw s file h v e = elim (Bool-cases (nw.name =ᵗ file)) [
    | inl same ↦
        let value : record nw { containers = remove c nw.containers } ≡ v = ground (
          arith,
          lookup-insert nw.name file (record nw { containers = remove c nw.containers }) s.networks,
        ) in
        let gone : lookup c (remove c nw.containers) ≡ none =
          ground (arith, lookup-remove c c nw.containers, eq_refl c) in
        sym (ap (λ (n : Network). lookup c n.containers) value) ∙ gone
    | inr other ↦ h v (
        ground (
          arith,
          lookup-insert nw.name file (record nw { containers = remove c nw.containers }) s.networks,
        ))
  ]

  pub IsFree-written :
      (nw : Network) (s : Store)
      → IsFree nw.name (write_network (record nw { containers = remove c nw.containers }) s)
  unfolding IsFree
  IsFree-written nw s v e =
      let value : record nw { containers = remove c nw.containers } ≡ v = ground (
        arith,
        lookup-insert_same nw.name (record nw { containers = remove c nw.containers }) s.networks,
      ) in
      let gone : lookup c (remove c nw.containers) ≡ none =
        ground (arith, lookup-remove c c nw.containers, eq_refl c) in
      sym (ap (λ (n : Network). lookup c n.containers) value) ∙ gone

  IsFree-detach_from :
      (nw : Network) (s : Store) (file : Text) → IsFree file s → IsFree file (detach_from c nw s)
  unfolding detach_from
  IsFree-detach_from nw s file h = elim (Bool-cases (nw.name =ᵗ text "bridge")) [
    | inl e ↦ rw e h
    | inr e ↦ rw e (elim (Option-cases (lookup c nw.containers)) [
      | inl f ↦ rw f h
      | inr (id, f) ↦ rw f (IsFree-write nw s file h)
    ])
  ]

  -- Each file is as it was at the start, or does not name the container.
  IsPartly : Store → Store → Type 0
  IsPartly s t = (file : Text) → (lookup file t.networks ≡ lookup file s.networks) ⊎ IsFree file t

  -- A network at its turn.
  IsFree-turn :
      (s t : Store) (nw : Network)
      → IsPartly s t
      → (nw.name =ᵗ text "bridge") ≡ false
      → lookup nw.name s.networks ≡ some nw
      → IsFree nw.name (detach_from c nw t)
  unfolding detach_from IsPartly
  IsFree-turn s t nw h e at = rw e (elim (Option-cases (lookup c nw.containers)) [
    | inl f ↦ rw f (elim (h nw.name) [
      | inr free ↦ free
      | inl same ↦
          unfold IsFree in
          λ v e'.
            let value : nw ≡ v = ground (arith, same, at, e') in
            sym (ap (λ (n : Network). lookup c n.containers) value) ∙ f
    ])
    | inr (id, f) ↦ rw f (IsFree-written nw t)
  ])

  IsPartly-detach_from :
      (s t : Store) (nw : Network) → IsPartly s t → IsPartly s (detach_from c nw t)
  unfolding IsPartly lookup IsFree detach_from
  IsPartly-detach_from s t nw h file = elim (Bool-cases (nw.name =ᵗ text "bridge")) [
    | inl e ↦ rw e (h file)
    | inr e ↦ rw e (elim (Option-cases (lookup c nw.containers)) [
      | inl f ↦ rw f (h file)
      | inr (id, f) ↦ rw f (after (record nw { containers = remove c nw.containers }) refl)
    ])
  ]
    where
      after :
          (w : Network)
          → w ≡ record nw { containers = remove c nw.containers }
          → (lookup file (write_network w t).networks ≡ lookup file s.networks)
            ⊎ IsFree file (write_network w t)
      after w e = elim (Bool-cases (w.name =ᵗ file)) [
        | inl same ↦
            let at : file ≡ nw.name =
              ground (arith, eq_iff w.name file, ap (λ (n : Network). n.name) e) in
            inr (rw (at, e) (IsFree-written nw t))
        | inr other ↦ elim (h file) [
          | inl same ↦ inl (ground (arith, lookup-insert w.name file w t.networks, same, other))
          | inr free ↦ inr (rw e (IsFree-write nw t file free))
        ]
      ]

  -- Each listed network is free of the container when the loop is over.
  Listed : Store → List Network → Type 0
  Listed s nets =
      All (λ nw. (nw.name =ᵗ text "bridge") ≡ false → lookup nw.name s.networks ≡ some nw) nets

  IsFree-detach_all :
      (nets : List Network) (s : Store) (file : Text)
      → IsFree file s
      → IsFree file (detach_all c nets s)
  unfolding detach_all
  IsFree-detach_all [] s file h = h
  IsFree-detach_all (nw ∷ nets) s file h =
      IsFree-detach_all nets (detach_from c nw s) file (IsFree-detach_from nw s file h)

  IsPartly-detach_all :
      (nets : List Network) (s t : Store) → IsPartly s t → IsPartly s (detach_all c nets t)
  unfolding detach_all
  IsPartly-detach_all [] s t h = h
  IsPartly-detach_all (nw ∷ nets) s t h =
      IsPartly-detach_all nets s (detach_from c nw t) (IsPartly-detach_from s t nw h)

  detach_all-IsFree :
      (nets : List Network) (s t : Store)
      → IsPartly s t
      → Listed s nets
      → All (λ nw. (nw.name =ᵗ text "bridge") ≡ false → IsFree nw.name (detach_all c nets t)) nets
  unfolding detach_all Listed
  detach_all-IsFree [] s t h l = tt
  detach_all-IsFree (nw ∷ nets) s t h l = (
    λ e. IsFree-detach_all nets (detach_from c nw t) nw.name (IsFree-turn s t nw h e (l.0 e)),
    detach_all-IsFree nets s (detach_from c nw t) (IsPartly-detach_from s t nw h) l.1,
  )

All-values :
    (m : Dict Network) (P : Network → Type 0)
    → IsNodup (keys m)
    → ((file : Text) (nw : Network) → lookup file m ≡ some nw → P nw)
    → All P (values m)
unfolding values lookup keys
All-values [] P n h = tt
All-values ((file, nw) ∷ m) P n h = (
  h file nw (rw (eq_refl file) refl),
  All-values m P n.1 (λ f v e. h f v (ground (arith, e, contains-keys m f v, eq_iff file f, n.0))),
)

value_of_file :
    (m : Dict Network) (P : Network → Type 0) (file : Text) (nw : Network)
    → All P (values m)
    → lookup file m ≡ some nw
    → P nw
unfolding values lookup
value_of_file [] P file nw h e = cc
value_of_file ((f, v) ∷ m) P file nw h e = elim (Bool-cases (f =ᵗ file)) [
  | inl same ↦ let value : nw ≡ v = ground (arith, same) in rw value h.0
  | inr other ↦ value_of_file m P file nw h.1 (ground (arith, other))
]

-- In a directory whose networks stand in the files of their names, no network names a container once
-- it is detached.
pub detach_container-free :
    (c : Text) (s : Store) (file : Text) (nw : Network)
    → IsStore s
    → lookup file (detach_container c s).networks ≡ some nw
    → lookup c nw.containers ≡ none
unfolding detach_container list_networks IsPartly IsFree Listed
detach_container-free c s file nw h e =
    let nets = list_networks s in
    let listed : Listed c s nets = (
      λ o. ground (arith, eq_refl (text "bridge"), o),
      All-values s.networks
          (λ v. (v.name =ᵗ text "bridge") ≡ false → lookup v.name s.networks ≡ some v) h.once
          (λ f v at o. ap (λ n. lookup n s.networks) (h.stored f v at).named ∙ at),
    ) in
    let out = detach_all-IsFree c nets s s (λ f. inl refl) listed in
    elim (IsPartly-detach_all c nets s s (λ f. inl refl) file) [
      | inr free ↦ free nw e
      | inl same ↦
          let at : lookup file s.networks ≡ some nw = sym same ∙ e in
          let stored = h.stored file nw at in
          let other : (nw.name =ᵗ text "bridge") ≡ false =
            rw stored.named (ground (arith, stored.free)) in
          let free =
            value_of_file s.networks
              (λ v. (v.name =ᵗ text "bridge") ≡ false → IsFree c v.name (detach_all c nets s)) file
              nw out.1 at other in
          free nw (ap (λ n. lookup n (detach_all c nets s).networks) stored.named ∙ e)
    ]
