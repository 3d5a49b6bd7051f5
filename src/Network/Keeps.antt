-- ===== src/Network/Keeps.antt =====
-- nets.go: what every operation keeps true of the directory of networks.
use thrive.Prelude.{
  ℕ, ◌≡◌, refl, sym, inl, inr, Bool, true, false, not, ◌||◌, ◌&&◌, none, some, List, [], ◌∷◌, ◌++◌,
  arith, Text, text, ◌=ᵗ◌, eq_iff, eq_refl, ap, keys, contains-keys, IsNodup, insert-IsNodup,
  remove-IsNodup, Dict, lookup, insert, remove, lookup-insert, lookup-remove, is_empty, All,
  Bool-cases, Option-cases, if◌then◌else◌,
}
use thrive.Network.{
  Network, Store, Reply, done, failed, not_found, default_network, valid_network_name, is_reserved,
  values, list_networks, inspect_network, write_network, allocate_subnet, new_network, set_up,
  create_network, remove_network, connect_network, disconnect_network, detach_from, detach_all,
  prune_one, prune_all,
}

-- A network in its file: under its own name, which is valid and not reserved.
pub record IsStored (file : Text) (nw : Network) : Type 0 where
  pub named : nw.name ≡ file
  pub valid : valid_network_name file ≡ true
  pub free : is_reserved file ≡ false

pub record IsStore (s : Store) : Type 0 where
  pub stored : (file : Text) (nw : Network) → lookup file s.networks ≡ some nw → IsStored file nw
  pub once : IsNodup (keys s.networks)

write_network-IsStore :
    (nw : Network) (s : Store) → IsStored nw.name nw → IsStore s → IsStore (write_network nw s)
write_network-IsStore nw s n h = record {
  stored = go;
  once = insert-IsNodup nw.name nw s.networks h.once;
}
  where
    go :
        (file : Text) (v : Network)
        → lookup file (insert nw.name nw s.networks) ≡ some v
        → IsStored file v
    go file v e = elim (Bool-cases (nw.name =ᵗ file)) [
      | inl same ↦
          let at : file ≡ nw.name = sym ((eq_iff nw.name file).0 same) in
          let value : v ≡ nw = ground (arith, lookup-insert nw.name file nw s.networks) in
          rw (at, value) n
      | inr other ↦ h.stored file v (ground (arith, lookup-insert nw.name file nw s.networks))
    ]

-- A record with other containers is as well stored.
with_containers :
    (file : Text) (nw : Network) (c : Dict Text)
    → IsStored file nw
    → IsStored nw.name (record nw { containers = c })
with_containers file nw c h = record {
  named = refl;
  valid = rw h.named h.valid;
  free = rw h.named h.free;
}

module _ (hash : Text → Text) (ensure_bridge : Text → Text → Bool) where
  set_up-IsStore :
      (nw : Network) (s : Store)
      → IsStored nw.name nw
      → IsStore s
      → IsStore (set_up hash ensure_bridge nw s).0
  unfolding set_up
  set_up-IsStore nw s n h = elim (Bool-cases (ensure_bridge nw.bridge (nw.gateway ++ text "/16"))) [
    | inl e ↦ rw e (write_network-IsStore nw _ n (record { stored = h.stored; once = h.once }))
    | inr e ↦ rw e h
  ]

  pub create_network-IsStore :
      (name driver subnet : Text) (now : ℕ) (s : Store)
      → IsStore s
      → IsStore (create_network hash ensure_bridge name driver subnet now s).0
  unfolding create_network
  create_network-IsStore name driver subnet now s h = elim (Bool-cases (valid_network_name name)) [
    | inr e ↦ rw e h
    | inl valid ↦
        elim (Bool-cases ((if is_empty driver then text "bridge" else driver) =ᵗ text "bridge")) [
          | inr e ↦ rw (valid, e) h
          | inl known ↦ elim (Bool-cases (is_reserved name)) [
            | inl e ↦ rw (valid, known, e) h
            | inr free ↦
                rw (valid, known, free)
                  (elim (Option-cases (lookup name s.networks)) [
                    | inr (nw, e) ↦ rw e h
                    | inl fresh ↦
                        rw fresh
                          (elim (Option-cases
                            (if is_empty subnet then allocate_subnet s else some subnet)) [
                              | inl e ↦ rw e h
                              | inr (sub, e) ↦ rw e (
                                  set_up-IsStore
                                    (new_network hash ensure_bridge name
                                      (if is_empty driver then text "bridge" else driver) sub now)
                                    s (record { named = refl; valid = valid; free = free }) h)
                            ])
                  ])
          ]
        ]
  ]

pub inspect-stored :
    (name : Text) (s : Store) (nw : Network)
    → inspect_network name s ≡ some nw
    → (nw.name =ᵗ text "bridge") ≡ false
    → lookup name s.networks ≡ some nw
unfolding inspect_network
inspect-stored name s nw e other = elim (Bool-cases (is_empty name || (name =ᵗ text "bridge"))) [
  | inl d ↦
      let same : default_network ≡ nw = ground (arith, d) in
      ground (arith, eq_refl (text "bridge"), ap (λ (n : Network). n.name) same, other)
  | inr n ↦ ground (arith, n)
]

without-IsStore :
    (name : Text) (s : Store) (b : List Text)
    → IsStore s
    → IsStore (record { networks = remove name s.networks; bridges = b })
without-IsStore name s b h = record {
  stored = λ file nw e. h.stored file nw (ground (arith, lookup-remove name file s.networks));
  once = remove-IsNodup name s.networks h.once;
}

pub remove_network-IsStore :
    (name : Text) (force : Bool) (s : Store) → IsStore s → IsStore (remove_network name force s).0
unfolding remove_network
remove_network-IsStore name force s h = elim (Bool-cases (is_reserved name)) [
  | inl e ↦ rw e h
  | inr free ↦ rw free (elim (Option-cases (inspect_network name s)) [
    | inl e ↦ rw e h
    | inr (nw, e) ↦ rw e (elim (Bool-cases (not (is_empty nw.containers) && not force)) [
      | inl busy ↦ rw busy h
      | inr idle ↦ rw idle (elim (Option-cases (lookup name s.networks)) [
        | inl f ↦ rw f (record { stored = h.stored; once = h.once })
        | inr (stored, f) ↦ rw f (without-IsStore name s _ h)
      ])
    ])
  ])
]

-- The end of both operations: other containers are written for the network that is found.
written :
    (c : Network → Dict Text) (name : Text) (s : Store)
    → IsStore s
    → IsStore
        (elim (inspect_network name s) as (λ _. Store × Reply) [
          | none ↦ (s, failed not_found)
          | some nw ↦
              if nw.name =ᵗ text "bridge"
              then (s, done)
              else (write_network (record nw { containers = c nw }) s, done)
        ]).0
written c name s h = elim (Option-cases (inspect_network name s)) [
  | inl e ↦ rw e h
  | inr (nw, e) ↦ rw e (elim (Bool-cases (nw.name =ᵗ text "bridge")) [
    | inl b ↦ rw b h
    | inr other ↦ rw other (
        write_network-IsStore (record nw { containers = c nw }) s
          (with_containers name nw (c nw) (h.stored name nw (inspect-stored name s nw e other))) h)
  ])
]

pub connect_network-IsStore :
    (container name : Text) (s : Store) → IsStore s → IsStore (connect_network container name s).0
unfolding connect_network
connect_network-IsStore container name s h = elim (Bool-cases (is_empty container)) [
  | inl e ↦ rw e h
  | inr e ↦ rw e (written (λ nw. insert container container nw.containers) name s h)
]

pub disconnect_network-IsStore :
    (container name : Text) (s : Store)
    → IsStore s
    → IsStore (disconnect_network container name s).0
unfolding disconnect_network
disconnect_network-IsStore container name s h =
    written (λ nw. remove container nw.containers) name s h

-- Every listed network but the default one is stored under its name.
abbrev pub AllStored : List Network → Type 0
AllStored nets = All (λ nw. (nw.name =ᵗ text "bridge") ≡ false → IsStored nw.name nw) nets

pub values-AllStored :
    (m : Dict Network)
    → IsNodup (keys m)
    → ((file : Text) (nw : Network) → lookup file m ≡ some nw → IsStored file nw)
    → AllStored (values m)
unfolding values lookup keys
values-AllStored [] n h = tt
values-AllStored ((file, nw) ∷ m) n h = (
  λ other.
      let at = h file nw (rw (eq_refl file) (λ i. some nw)) in
      with_containers file nw nw.containers at,
  values-AllStored m n.1
      (λ f v e. h f v (ground (arith, e, contains-keys m f v, eq_iff file f, n.0))),
)

pub list_networks-AllStored : (s : Store) → IsStore s → AllStored (list_networks s)
unfolding list_networks
list_networks-AllStored s h = (
  λ other. ground (arith, eq_refl (text "bridge"), other),
  values-AllStored s.networks h.once h.stored,
)

detach_from-IsStore :
    (container : Text) (nw : Network) (s : Store)
    → ((nw.name =ᵗ text "bridge") ≡ false → IsStored nw.name nw)
    → IsStore s
    → IsStore (detach_from container nw s)
unfolding detach_from
detach_from-IsStore container nw s n h = elim (Bool-cases (nw.name =ᵗ text "bridge")) [
  | inl e ↦ rw e h
  | inr e ↦ rw e (elim (Option-cases (lookup container nw.containers)) [
    | inl f ↦ rw f h
    | inr (id, f) ↦ rw f (
        write_network-IsStore (record nw { containers = remove container nw.containers }) s
          (with_containers nw.name nw (remove container nw.containers) (n e)) h)
  ])
]

pub detach_all-IsStore :
    (container : Text) (nets : List Network) (s : Store)
    → AllStored nets
    → IsStore s
    → IsStore (detach_all container nets s)
unfolding detach_all
detach_all-IsStore container [] s n h = h
detach_all-IsStore container (nw ∷ nets) s n h =
    detach_all-IsStore container nets (detach_from container nw s) n.1
      (detach_from-IsStore container nw s n.0 h)

prune_one-IsStore :
    (nw : Network) (removed : List Text) (s : Store)
    → IsStore s
    → IsStore (prune_one nw (s, removed)).0
unfolding prune_one
prune_one-IsStore nw removed s h =
    elim (Bool-cases ((nw.name =ᵗ text "bridge") || not (is_empty nw.containers))) [
      | inl e ↦ rw e h
      | inr e ↦ rw e (remove_network-IsStore nw.name false s h)
    ]

pub prune_all-IsStore :
    (nets : List Network) (p : Store × List Text) → IsStore p.0 → IsStore (prune_all nets p).0
unfolding prune_all
prune_all-IsStore [] p h = h
prune_all-IsStore (nw ∷ nets) p h =
    prune_all-IsStore nets (prune_one nw p) (prune_one-IsStore nw p.1 p.0 h)
