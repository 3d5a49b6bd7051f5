-- ===== src/Network/Cleared.antt =====
-- `TeardownAttachments` of nets.go: the body of its loop.
use mathlib.Core.Path.{subst}
use thrive.Prelude.{
  ◌≡◌, refl, sym, ap, ◌∙◌, ◌⊎◌, ◌||◌, inl, inr, false, is_empty, Dict, insert, remove, eq_iff,
  lookup-insert, Option, none, some, arith, Text, text, ◌=ᵗ◌, eq_refl, lookup, lookup-remove,
  Bool-cases, Option-cases, if◌then◌else◌,
}
use thrive.Network.{
  Network, Store, valid_network_name, write_network, inspect_network, disconnect_network,
}
use thrive.Network.Ipam.{Pool, release_on}
use thrive.Network.Detach.{IsFree, IsFree-write, IsFree-written}
use thrive.Network.Keeps.{IsStore}
use thrive.Network.Attach.{Attachment, Links, release_ip, teardown_veth, teardown_one}

-- The pools without the address of the container on one network.
unfoldable pub release_pool : Text → Text → Dict Pool → Dict Pool
release_pool container network pools = elim (lookup network pools) [
  | none ↦ pools
  | some pool ↦ insert network (release_on container pool) pools
]

-- What the body of the loop does for a network that is stored, and for any other.
pub data Cleared (container network : Text) (l : Links) : Links → Type 0 where
  stored :
      (nw : Network)
      → nw.name ≡ network
      → lookup network l.store.networks ≡ some nw
      → Cleared container network l (record l {
        store = write_network (record nw { containers = remove container nw.containers }) l.store;
        pools = release_pool container network l.pools;
      })
  unknown :
      lookup network l.store.networks ≡ none → Cleared container network l (release_ip container l)

-- What a store holds is found by its name.
stored_lem :
    (network : Text) (nw : Network) (s : Store)
    → IsStore s
    → lookup network s.networks ≡ some nw
    → (nw.name ≡ network)
      × ((network =ᵗ text "bridge") ≡ false)
      × (inspect_network network s ≡ some nw)
unfolding inspect_network valid_network_name
stored_lem network nw s h e =
    let here = h.stored network nw e in
    let valid = here.valid in
    let free = here.free in
    let other : (network =ᵗ text "bridge") ≡ false = ground (arith, free) in
    let filled : is_empty network ≡ false = ground (arith, valid) in
    (here.named, other, rw (filled, other, inspect_network) e)

teardown_veth_lem :
    (nw : Network) (container : Text) (l : Links)
    → (nw.name =ᵗ text "bridge") ≡ false
    → teardown_veth (some nw) container l
      ≡ record l { pools = release_pool container nw.name l.pools }
unfolding teardown_veth release_pool
teardown_veth_lem nw container l e = elim (Option-cases (lookup nw.name l.pools)) [
  | inl f ↦ rw (e, f, teardown_veth, release_pool) refl
  | inr (pool, f) ↦ rw (e, f, teardown_veth, release_pool) refl
]

-- The body of the loop, once the network has been looked up.
torn : Option Network → Text → Links → Links
torn found container l =
    let freed = teardown_veth found container l in
    elim found [
      | none ↦ freed
      | some nw ↦
          if nw.name =ᵗ text "bridge"
          then freed
          else record freed { store = (disconnect_network container nw.name freed.store).0 }
    ]

teardown_one-torn :
    (container : Text) (a : Attachment) (l : Links)
    → teardown_one container a l ≡ torn (inspect_network a.network l.store) container l
unfolding teardown_one torn
teardown_one-torn container a l = refl

torn-stored :
    (container : Text) (nw : Network) (l : Links)
    → inspect_network nw.name l.store ≡ some nw
    → (nw.name =ᵗ text "bridge") ≡ false
    → torn (some nw) container l ≡ record l {
      store = write_network (record nw { containers = remove container nw.containers }) l.store;
      pools = release_pool container nw.name l.pools;
    }
unfolding torn disconnect_network
torn-stored container nw l again apart =
    rw (apart, teardown_veth_lem nw container l apart) (rw (again, apart, disconnect_network) refl)

torn-unknown :
    (container network : Text) (l : Links)
    → lookup network l.store.networks ≡ none
    → torn (inspect_network network l.store) container l ≡ release_ip container l
unfolding torn teardown_veth inspect_network ◌=ᵗ◌
torn-unknown container network l e =
    elim (Bool-cases (is_empty network || (network =ᵗ text "bridge"))) [
      | inl f ↦ rw (f, inspect_network) refl
      | inr f ↦ rw (f, e, inspect_network) refl
    ]

pub teardown_one-Cleared :
    (container : Text) (a : Attachment) (l : Links)
    → IsStore l.store
    → Cleared container a.network l (teardown_one container a l)
teardown_one-Cleared container a l h = elim (Option-cases (lookup a.network l.store.networks)) [
  | inr (nw, e) ↦
      let (named, other, found) = stored_lem a.network nw l.store h e in
      let apart : (nw.name =ᵗ text "bridge") ≡ false = rw named other in
      let again : inspect_network nw.name l.store ≡ some nw =
        ap (λ n. inspect_network n l.store) named ∙ found in
      let written =
        write_network (record nw { containers = remove container nw.containers }) l.store in
      subst (Cleared container a.network l)
        (ap (λ n. record l { store = written; pools = release_pool container n l.pools })
            (sym named)
          ∙ sym (torn-stored container nw l again apart)
          ∙ ap (λ f. torn f container l) (sym found)
          ∙ sym (teardown_one-torn container a l))
        (stored nw named e)
  | inl e ↦
      subst (Cleared container a.network l)
        (sym (torn-unknown container a.network l e) ∙ sym (teardown_one-torn container a l))
        (unknown e)
]

-- The container is off the network, and has no address on it; on one that is not stored, none on the
-- built-in one.
pub record IsGone (container network : Text) (l : Links) : Type 0 where
  pub off : IsFree container network l.store
  pub freed :
      (nw : Network)
      → lookup network l.store.networks ≡ some nw
      → (pool : Pool) → lookup network l.pools ≡ some pool
      → lookup container pool.ips ≡ none
  pub unbridged : lookup network l.store.networks ≡ none → lookup container l.bridge_pool.ips ≡ none

removed : {V : Type 0} (k : Text) (m : Dict V) → lookup k (remove k m) ≡ none
removed k m = ground (arith, lookup-remove k k m, eq_refl k)

lookup-release_pool :
    (container network other : Text) (pools : Dict Pool) (pool : Pool)
    → lookup other (release_pool container network pools) ≡ some pool
    → ((lookup container pool.ips ≡ none)
        ⊎ (((network =ᵗ other) ≡ false) × (lookup other pools ≡ some pool)))
unfolding release_pool release_on
lookup-release_pool container network other pools pool h =
    elim (Option-cases (lookup network pools)) [
      | inl e ↦ elim (Bool-cases (network =ᵗ other)) [
        | inl f ↦
            let same : network ≡ other = (eq_iff network other).0 f in
            absurd (ground (arith, rw (e, release_pool) at h, ap (λ n. lookup n pools) same, e))
        | inr f ↦ inr (f, rw (e, release_pool) at h)
      ]
      | inr (old, e) ↦
          let new : Pool = record old { ips = remove container old.ips } in
          let at = lookup-insert network other new pools in
          let found : lookup other (insert network new pools) ≡ some pool =
            rw (e, release_pool) at h in
          elim (Bool-cases (network =ᵗ other)) [
            | inl f ↦
                let value : new ≡ pool = ground (arith, at, found, f) in
                inl (
                  sym (ap (λ (q : Pool). lookup container q.ips) value) ∙ removed container old.ips)
            | inr f ↦ inr (f, ground (arith, at, found, f))
          ]
    ]

pub Cleared-IsGone :
    (container network : Text) (l m : Links)
    → Cleared container network l m
    → IsGone container network m
Cleared-IsGone container network l _ (stored nw named e) = record {
  off = subst (λ n. IsFree container n (less nw l)) named (IsFree-written container nw l.store);
  freed = λ v at pool found.
      elim (lookup-release_pool container network network l.pools pool found) [
        | inl g ↦ g
        | inr (other, g) ↦ absurd (ground (arith, other, eq_refl network))
      ];
  unbridged = λ absent.
      absurd (ground (arith, absent, at_less nw l network, named, eq_iff nw.name network));
}
  where
    less : Network → Links → Store
    less nw l = write_network (record nw { containers = remove container nw.containers }) l.store

    at_less :
        (nw : Network) (l : Links) (k : Text)
        → lookup k (less nw l).networks ≡ (
            if nw.name =ᵗ k
            then some (record nw { containers = remove container nw.containers })
            else lookup k l.store.networks)
    at_less nw l k =
        lookup-insert nw.name k (record nw { containers = remove container nw.containers })
          l.store.networks
Cleared-IsGone container network l _ (unknown e) =
    unfold release_ip release_on in
    record {
      off = unfold IsFree in (λ nw at. absurd (ground (arith, at, e)));
      freed = λ nw at pool found. absurd (ground (arith, at, e));
      unbridged = λ absent. removed container l.bridge_pool.ips;
    }

pub Cleared-keeps :
    (container network other : Text) (l m : Links)
    → Cleared container network l m
    → IsGone container other l
    → IsGone container other m
Cleared-keeps container network other l _ (stored nw named e) h =
    let less : Network = record nw { containers = remove container nw.containers } in
    let at_less = lookup-insert nw.name other less l.store.networks in
    record {
      off = IsFree-write container nw l.store other h.off;
      freed = λ v at pool found.
          elim (lookup-release_pool container network other l.pools pool found) [
            | inl g ↦ g
            | inr (apart, g) ↦
                let same : (nw.name =ᵗ other) ≡ false = rw named apart in
                h.freed v (sym (at_less ∙ rw same refl) ∙ at) pool g
          ];
      unbridged = λ absent. h.unbridged (ground (arith, absent, at_less));
    }
Cleared-keeps container network other l _ (unknown e) h =
    unfold release_ip release_on in
    record {
      off = h.off;
      freed = h.freed;
      unbridged = λ absent. removed container l.bridge_pool.ips;
    }
