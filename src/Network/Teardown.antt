-- ===== src/Network/Teardown.antt =====
-- `TeardownAttachments` of nets.go: the loop over the attachments.
use mathlib.Core.Path.{subst}
use thrive.Prelude.{
  ◌≡◌, refl, ◌∙◌, inl, inr, true, false, contains, eq_iff, Option, none, some, List, [], ◌∷◌, arith,
  Text, text, ◌=ᵗ◌, eq_refl, lookup, lookup-remove, Bool-cases, Option-cases, if◌then◌else◌,
}
use thrive.Network.{Network, inspect_network, disconnect_network}
use thrive.Network.Keeps.{IsStore, disconnect_network-IsStore}
use thrive.Network.Attach.{
  Attachment, Links, release_ip, network_names, attachments, clear_attachments, teardown_veth,
  teardown_one, teardown_all, teardown_attachments,
}
use thrive.Network.Cleared.{teardown_one-Cleared, IsGone, Cleared-IsGone, Cleared-keeps}

-- What the teardown keeps while it goes on: the attachment files, and the directory in order.
record Keeps (l m : Links) : Type 0 where
  attached : m.attached ≡ l.attached
  store : IsStore l.store → IsStore m.store

teardown_veth-Keeps :
    (found : Option Network) (container : Text) (l : Links)
    → Keeps l (teardown_veth found container l)
unfolding teardown_veth
teardown_veth-Keeps none container l =
    unfold release_ip in record { attached = refl; store = λ h. h }
teardown_veth-Keeps (some nw) container l = elim (Bool-cases (nw.name =ᵗ text "bridge")) [
  | inl e ↦ rw e (unfold release_ip in record { attached = refl; store = λ h. h })
  | inr e ↦ rw e (elim (Option-cases (lookup nw.name l.pools)) [
    | inl f ↦ rw f (record { attached = refl; store = λ h. h })
    | inr (pool, f) ↦ rw f (record { attached = refl; store = λ h. h })
  ])
]

teardown_one-Keeps :
    (container : Text) (a : Attachment) (l : Links) → Keeps l (teardown_one container a l)
unfolding teardown_one
teardown_one-Keeps container a l = go (inspect_network a.network l.store)
  where
    go :
        (found : Option Network)
        → Keeps l (elim found as (λ _. Links) [
          | none ↦ teardown_veth found container l
          | some nw ↦
              if nw.name =ᵗ text "bridge"
              then teardown_veth found container l
              else record (teardown_veth found container l) {
                store =
                    (disconnect_network container nw.name
                      (teardown_veth found container l).store).0;
              }
        ])
    go none = teardown_veth-Keeps none container l
    go (some nw) = elim (Bool-cases (nw.name =ᵗ text "bridge")) [
      | inl e ↦ rw e (teardown_veth-Keeps (some nw) container l)
      | inr e ↦
          let kept = teardown_veth-Keeps (some nw) container l in
          rw e (record {
            attached = kept.attached;
            store = λ h. disconnect_network-IsStore container nw.name _ (kept.store h);
          })
    ]

teardown_all-Keeps :
    (container : Text) (list : List Attachment) (l : Links)
    → Keeps l (teardown_all container list l)
unfolding teardown_all
teardown_all-Keeps container [] l = record { attached = refl; store = λ h. h }
teardown_all-Keeps container (a ∷ list) l =
    let one = teardown_one-Keeps container a l in
    let rest = teardown_all-Keeps container list (teardown_one container a l) in
    record { attached = rest.attached ∙ one.attached; store = λ h. rest.store (one.store h) }

teardown_all-keeps :
    (container network : Text) (list : List Attachment) (l : Links)
    → IsStore l.store
    → IsGone container network l
    → IsGone container network (teardown_all container list l)
unfolding teardown_all
teardown_all-keeps container network [] l h gone = gone
teardown_all-keeps container network (a ∷ list) l h gone =
    let next = teardown_one container a l in
    teardown_all-keeps container network list next ((teardown_one-Keeps container a l).store h)
      (Cleared-keeps container a.network network l next (teardown_one-Cleared container a l h) gone)

teardown_all-IsGone :
    (container network : Text) (list : List Attachment) (l : Links)
    → IsStore l.store
    → contains (network_names list) network ≡ true
    → IsGone container network (teardown_all container list l)
unfolding teardown_all network_names contains
teardown_all-IsGone container network [] l h there = absurd (ground (arith, there))
teardown_all-IsGone container network (a ∷ list) l h there =
    let next = teardown_one container a l in
    let kept = (teardown_one-Keeps container a l).store h in
    elim (Bool-cases (a.network =ᵗ network)) [
      | inl e ↦
          let same : a.network ≡ network = (eq_iff a.network network).0 e in
          let cleared =
            Cleared-IsGone container a.network l next (teardown_one-Cleared container a l h) in
          teardown_all-keeps container network list next kept
            (subst (λ n. IsGone container n next) same cleared)
      | inr e ↦ teardown_all-IsGone container network list next kept (ground (arith, e, there))
    ]

-- The container has no attachments and is gone from each network that it was attached to, the other containers
-- have theirs, and the directory is in order.
pub record IsTornDown (container : Text) (l m : Links) : Type 0 where
  pub none_left : attachments container m ≡ []
  pub gone :
      (network : Text)
      → contains (network_names (attachments container l)) network ≡ true
      → IsGone container network m
  pub others :
      (other : Text) → (container =ᵗ other) ≡ false → attachments other m ≡ attachments other l
  pub store : IsStore m.store

-- Where every network stands in the file of its name, a teardown leaves the container without attachments. Of
-- each network that it was attached to and that is stored, the file does not name the container any more, and
-- the addresses of the network hold none of it; where it was attached to one that is not stored, as the built-in
-- one is not, the addresses of the built-in network hold none of it. The attachments of the other containers
-- stay, and every network still stands in the file of its name.
pub teardown_attachments-IsTornDown :
    (container : Text) (l : Links)
    → IsStore l.store
    → IsTornDown container l (teardown_attachments container l)
unfolding teardown_attachments clear_attachments attachments
teardown_attachments-IsTornDown container l h =
    let list = attachments container l in
    let kept = teardown_all-Keeps container list l in
    let cleared = λ (file : Text). lookup-remove container file l.attached in
    record {
      none_left = rw kept.attached (ground (arith, cleared container, eq_refl container));
      gone = λ network there.
          let done = teardown_all-IsGone container network list l h there in
          record { off = done.off; freed = done.freed; unbridged = done.unbridged };
      others = λ other o. rw kept.attached (ground (arith, cleared other, o));
      store = kept.store h;
    }
