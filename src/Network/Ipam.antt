-- ===== src/Network/Ipam.antt =====
-- `AllocateOn` and `ReleaseOn` of nets.go, and allocateIP of veth.go: the addresses of one network. The counter is
-- below 2^63.
use thrive.Prelude.{
  ℕ, zero, suc, ◌+◌, ◌*◌, ◌/◌, ◌%◌, ◌≤◌, ◌<◌, ◌≡◌, ◌≢◌, refl, sym, ap, ◌∙◌, inl, inr, true, false,
  Option, none, some, ◌∷◌, ◌++◌, arith, Text, text, ◌=ᵗ◌, eq_iff, Dict, lookup, insert, remove,
  lookup-insert_same, itoa, has-itoa, cut, cut-append, cut_prefix, cut_prefix-append, parse_digits,
  parse_digits-itoa, Bool-cases,
}
use thrive.Network.{Network, subnet_base}

-- The directory "ipam-NAME" of a network.
pub record Pool : Type 0 where
  pub counter : ℕ
  pub ips : Dict Text

abbrev pub last_octets : ℕ → Text
last_octets c = itoa (c / 254 % 254) ++ b'.' ∷ itoa (c % 254 + 2)

unfoldable pub ip_of : Text → ℕ → Text
ip_of base c = base ++ b'.' ∷ last_octets c

-- The loop, with `n` rounds left.
unfoldable pub allocate_loop : ℕ → Network → Text → Pool → Option (Text × Pool)
allocate_loop zero nw container p = none
allocate_loop (suc n) nw container p =
    let counter = p.counter + 1 in
    let ip = ip_of (subnet_base nw.subnet) counter in
    elim (ip =ᵗ nw.gateway) as (λ _. Option (Text × Pool)) [
      | true ↦ allocate_loop n nw container (record p { counter = counter })
      | false ↦ some (ip, record { counter = counter; ips = insert container ip p.ips })
    ]

unfoldable pub allocate_on : Network → Text → Pool → Option (Text × Pool)
allocate_on nw container p = allocate_loop 65000 nw container p

-- allocateIP of veth.go: the addresses of the built-in network, which are never compared with its gateway.
unfoldable pub allocate_ip : Text → Pool → Text × Pool
allocate_ip container p =
    let ip = ip_of (text "172.18") (p.counter + 1) in
    (ip, record { counter = p.counter + 1; ips = insert container ip p.ips })

unfoldable pub release_on : Text → Pool → Pool
release_on container p = record p { ips = remove container p.ips }

itoa-injective : (m n : ℕ) → itoa m ≡ itoa n → m ≡ n
itoa-injective m n e =
    let same = sym (parse_digits-itoa m) ∙ ap parse_digits e ∙ parse_digits-itoa n in ground arith

last_octets-injective :
    (c d : ℕ)
    → last_octets c ≡ last_octets d
    → (c / 254 % 254 ≡ d / 254 % 254) × (c % 254 ≡ d % 254)
last_octets-injective c d e =
    let high = λ (n : ℕ). has-itoa b'.' (n / 254 % 254) refl in
    let cut_at = λ (n : ℕ). cut-append b'.' (itoa (n / 254 % 254)) (itoa (n % 254 + 2)) (high n) in
    let parts = sym (cut_at c) ∙ ap (cut b'.') e ∙ cut_at d in
    let first : itoa (c / 254 % 254) ≡ itoa (d / 254 % 254) = ground (arith, parts) in
    let second : itoa (c % 254 + 2) ≡ itoa (d % 254 + 2) = ground (arith, parts) in
    (itoa-injective _ _ first, omega (arith, itoa-injective _ _ second))

-- Addresses repeat only after 254 * 254 allocations: counters that are less than that apart give
-- different addresses.
pub ip_of_distinct :
    (base : Text) (c d : ℕ) → c < d → d < c + 254 * 254 → ip_of base c ≢ ip_of base d
unfolding ip_of
ip_of_distinct base c d lt near e =
    let behind =
      sym (cut_prefix-append base (b'.' ∷ last_octets c))
      ∙ ap (cut_prefix base) e
      ∙ cut_prefix-append base (b'.' ∷ last_octets d) in
    let same : last_octets c ≡ last_octets d = ground (arith, behind) in
    let (high, low) = last_octets-injective c d same in omega (arith, high, low)

-- An allocation: an address that is not the gateway, recorded for the container, at a counter that
-- has gone up by one or two.
pub record IsAllocated (nw : Network) (container : Text) (p : Pool) (o : Option (Text × Pool))
    : Type 0 where
  pub ip : Text
  pub next : Pool
  pub gives : o ≡ some (ip, next)
  pub free : (ip =ᵗ nw.gateway) ≡ false
  pub recorded : lookup container next.ips ≡ some ip
  pub advanced : (p.counter < next.counter) × (next.counter ≤ p.counter + 2)
  pub address : ip ≡ ip_of (subnet_base nw.subnet) next.counter

module _ (n : ℕ) (nw : Network) (container : Text) (p : Pool) where
  -- One round: the next address is taken, or it is the gateway.
  loop_found :
      (ip_of (subnet_base nw.subnet) (p.counter + 1) =ᵗ nw.gateway) ≡ false
      → allocate_loop (suc n) nw container p
        ≡ some (
          ip_of (subnet_base nw.subnet) (p.counter + 1),
          record {
            counter = p.counter + 1;
            ips = insert container (ip_of (subnet_base nw.subnet) (p.counter + 1)) p.ips;
          },
        )
  unfolding allocate_loop
  loop_found h = rw (allocate_loop, h) refl

  loop_taken :
      (ip_of (subnet_base nw.subnet) (p.counter + 1) =ᵗ nw.gateway) ≡ true
      → allocate_loop (suc n) nw container p
        ≡ allocate_loop n nw container (record p { counter = p.counter + 1 })
  unfolding allocate_loop
  loop_taken h = rw (allocate_loop, h) refl

-- What is known of an address that is taken at the counter `c`.
allocated :
    (nw : Network) (container : Text) (p : Pool) (o : Option (Text × Pool)) (c : ℕ)
    → (p.counter < c) × (c ≤ p.counter + 2)
    → (ip_of (subnet_base nw.subnet) c =ᵗ nw.gateway) ≡ false
    → o
      ≡ some (
        ip_of (subnet_base nw.subnet) c,
        record { counter = c; ips = insert container (ip_of (subnet_base nw.subnet) c) p.ips },
      )
    → IsAllocated nw container p o
allocated nw container p o c near free e = record {
  ip = ip_of (subnet_base nw.subnet) c;
  next = record { counter = c; ips = insert container (ip_of (subnet_base nw.subnet) c) p.ips };
  gives = e;
  free = free;
  recorded = lookup-insert_same container (ip_of (subnet_base nw.subnet) c) p.ips;
  advanced = near;
  address = refl;
}

allocate_loop-IsAllocated :
    (n : ℕ) (nw : Network) (container : Text) (p : Pool)
    → IsAllocated nw container p (allocate_loop (suc (suc n)) nw container p)
allocate_loop-IsAllocated n nw container p =
    let base = subnet_base nw.subnet in
    let q = record p { counter = p.counter + 1 } in
    elim (Bool-cases (ip_of base (p.counter + 1) =ᵗ nw.gateway)) [
      | inr free ↦
          allocated nw container p _ (p.counter + 1) (omega arith, omega arith) free
            (loop_found (suc n) nw container p free)
      | inl taken ↦
          let second : (ip_of base (p.counter + 1 + 1) =ᵗ nw.gateway) ≡ false =
            elim (Bool-cases (ip_of base (p.counter + 1 + 1) =ᵗ nw.gateway)) [
              | inr n ↦ n
              | inl again ↦
                  let same : ip_of base (p.counter + 1) ≡ ip_of base (p.counter + 1 + 1) =
                    (eq_iff (ip_of base (p.counter + 1)) nw.gateway).0 taken
                    ∙ sym ((eq_iff (ip_of base (p.counter + 1 + 1)) nw.gateway).0 again) in
                  absurd (
                    ip_of_distinct base (p.counter + 1) (p.counter + 1 + 1) (omega arith)
                      (omega arith) same)
            ] in
          allocated nw container p _ (p.counter + 1 + 1) (omega arith, omega arith) second
            (loop_taken (suc n) nw container p taken ∙ loop_found n nw container q second)
    ]

-- On every network, whatever its gateway and its counter are, `AllocateOn` gives an address: it is
-- not the gateway, it is recorded for the container, and the counter goes up by one or two, so the
-- message that the subnet is exhausted is never given.
pub allocate_on-IsAllocated :
    (nw : Network) (container : Text) (p : Pool)
    → IsAllocated nw container p (allocate_on nw container p)
unfolding allocate_on
allocate_on-IsAllocated nw container p = allocate_loop-IsAllocated 64998 nw container p
