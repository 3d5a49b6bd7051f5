-- ===== src/Network/Subnets.antt =====
-- `CreateNetwork` with no subnet given: the subnet that it chooses, and what it leaves alone.
use thrive.Prelude.{
  ℕ, suc, zero, ◌+◌, ◌≡◌, sym, ap, inl, inr, Bool, false, none, some, List, [], ◌∷◌, ◌++◌, arith,
  Text, text, ◌=ᵗ◌, lookup, insert, lookup-insert, lookup-insert_same, contains, is_empty,
  Bool-cases, Option-cases, if◌then◌else◌,
}
use thrive.Network.{
  Network, Store, Reply, done, failed, already_exists, no_free_subnet, default_subnet, candidate,
  first_unused, used_subnets, list_networks, allocate_subnet, valid_network_name, is_reserved,
  new_network, set_up, create_network,
}

first_unused-fresh :
    (n i : ℕ) (used : List Text) (c : Text)
    → first_unused n i used ≡ some c
    → contains used c ≡ false
unfolding first_unused
first_unused-fresh zero i used c e = cc
first_unused-fresh (suc n) i used c e = elim (Bool-cases (contains used (candidate i))) [
  | inl taken ↦ first_unused-fresh n (i + 1) used c (ground (arith, taken))
  | inr free ↦ let same : candidate i ≡ c = ground (arith, free) in rw (sym same) free
]

allocate_subnet-fresh :
    (s : Store) (c : Text)
    → allocate_subnet s ≡ some c
    → contains (used_subnets (list_networks s)) c ≡ false
unfolding allocate_subnet
allocate_subnet-fresh s c e =
    let out = first_unused-fresh 12 19 (default_subnet ∷ used_subnets (list_networks s)) c e in
    unfold contains in ground (arith, out)

-- A network that is created: in its file, with a subnet that no network had, and the other files as
-- they were.
pub record IsCreated (name : Text) (s t : Store) : Type 0 where
  pub network : Network
  pub stored : lookup name t.networks ≡ some network
  pub fresh : contains (used_subnets (list_networks s)) network.subnet ≡ false
  pub others :
      (file : Text) → (name =ᵗ file) ≡ false → lookup file t.networks ≡ lookup file s.networks

module _ (hash : Text → Text) (ensure_bridge : Text → Text → Bool) where
  set_up-IsCreated :
      (nw : Network) (s t : Store)
      → contains (used_subnets (list_networks s)) nw.subnet ≡ false
      → set_up hash ensure_bridge nw s ≡ (t, done)
      → IsCreated nw.name s t
  unfolding set_up
  set_up-IsCreated nw s t free e =
      elim (Bool-cases (ensure_bridge nw.bridge (nw.gateway ++ text "/16"))) [
        | inl up ↦
            let nets : t.networks ≡ insert nw.name nw s.networks =
              ap (λ (p : Store × Reply). p.0.networks) (sym (rw up at e)) in
            record {
              network = nw;
              stored = rw nets (lookup-insert_same nw.name nw s.networks);
              fresh = free;
              others =
                  λ file o. rw nets (ground (arith, lookup-insert nw.name file nw s.networks, o));
            }
        | inr down ↦ ground (arith, down)
      ]

  chosen :
      (driver name : Text) (now : ℕ) (s t : Store)
      → (elim (lookup name s.networks) as (λ _. Store × Reply) [
        | some nw ↦ (s, failed already_exists)
        | none ↦ elim (allocate_subnet s) as (λ _. Store × Reply) [
          | none ↦ (s, failed no_free_subnet)
          | some sub ↦
              set_up hash ensure_bridge (new_network hash ensure_bridge name driver sub now) s
        ]
      ])
        ≡ (t, done)
      → IsCreated name s t
  chosen driver name now s t e = elim (Option-cases (lookup name s.networks)) [
    | inr (nw, f) ↦ ground (arith, f)
    | inl fresh ↦ elim (Option-cases (allocate_subnet s)) [
      | inl f ↦ ground (arith, fresh, f)
      | inr (sub, f) ↦
          set_up-IsCreated (new_network hash ensure_bridge name driver sub now) s t
            (allocate_subnet-fresh s sub f) (rw (fresh, f) at e)
    ]
  ]

  -- A network that is created with no subnet given is stored under its name, with a subnet that no
  -- network that was listed has, and no other network is touched.
  pub create_network-IsCreated :
      (name driver : Text) (now : ℕ) (s t : Store)
      → create_network hash ensure_bridge name driver [] now s ≡ (t, done)
      → IsCreated name s t
  unfolding create_network
  create_network-IsCreated name driver now s t e =
      let driver' = if is_empty driver then text "bridge" else driver in
      elim (Bool-cases (valid_network_name name)) [
        | inr n ↦ ground (arith, n)
        | inl valid ↦ elim (Bool-cases (driver' =ᵗ text "bridge")) [
          | inr n ↦ ground (arith, valid, n)
          | inl known ↦ elim (Bool-cases (is_reserved name)) [
            | inl r ↦ ground (arith, valid, known, r)
            | inr free ↦ chosen driver' name now s t (rw (valid, known, free) at e)
          ]
        ]
      ]
