-- ===== src/Network/Attach.antt =====
-- The attachments of nets.go: the records of networks.json, one list for each container, and their
-- teardown, with TeardownVethOn and releaseIP of veth.go. The host's end of a link is deleted by the kernel.
use thrive.Prelude.{
  ◌≡◌, refl, ap, inl, inr, false, ◌||◌, Option, none, some, List, [], ◌∷◌, ◌++◌, arith, Text, text,
  ◌=ᵗ◌, eq_iff, eq_refl, Dict, lookup, insert, remove, contains, contains-snoc, lookup-insert,
  IsNodup, IsNodup-snoc, Bool-cases, if◌then◌else◌,
}
use thrive.Network.{Network, Store, inspect_network, disconnect_network}
use thrive.Network.Ipam.{Pool, release_on}

pub record Attachment : Type 0 where
  pub network : Text
  pub host_veth : Text
  pub interface_name : Text
  pub container_ip : Text

-- The directory, the address pools by network and that of the built-in one, and the attachments by container.
pub record Links : Type 0 where
  pub store : Store
  pub pools : Dict Pool
  pub bridge_pool : Pool
  pub attached : Dict (List Attachment)

-- A file that is missing holds no attachments.
unfoldable pub attachments : Text → Links → List Attachment
attachments container l = elim (lookup container l.attached) [ none ↦ [] | some list ↦ list ]

unfoldable pub network_names : List Attachment → List Text
network_names [] = []
network_names (a ∷ list) = a.network ∷ network_names list

-- The file is left as it is if the network is in it.
unfoldable pub record_attachment : Text → Attachment → Links → Links
record_attachment container a l =
    let list = attachments container l in
    if contains (network_names list) a.network
    then l
    else record l { attached = insert container (list ++ a ∷ []) l.attached }

unfoldable pub clear_attachments : Text → Links → Links
clear_attachments container l = record l { attached = remove container l.attached }

-- `releaseIP` of veth.go.
unfoldable pub release_ip : Text → Links → Links
release_ip container l = record l { bridge_pool = release_on container l.bridge_pool }

-- `TeardownVethOn`, which frees the address on a named network, or else on the built-in one.
unfoldable pub teardown_veth : Option Network → Text → Links → Links
teardown_veth none container l = release_ip container l
teardown_veth (some nw) container l =
    if nw.name =ᵗ text "bridge" then release_ip container l else elim (lookup nw.name l.pools) [
      | none ↦ l
      | some pool ↦ record l { pools = insert nw.name (release_on container pool) l.pools }
    ]

-- The body of the loop of `TeardownAttachments`.
unfoldable pub teardown_one : Text → Attachment → Links → Links
teardown_one container a l =
    let found = inspect_network a.network l.store in
    let freed = teardown_veth found container l in
    elim found [
      | none ↦ freed
      | some nw ↦
          if nw.name =ᵗ text "bridge"
          then freed
          else record freed { store = (disconnect_network container nw.name freed.store).0 }
    ]

unfoldable pub teardown_all : Text → List Attachment → Links → Links
teardown_all container [] l = l
teardown_all container (a ∷ list) l = teardown_all container list (teardown_one container a l)

unfoldable pub teardown_attachments : Text → Links → Links
teardown_attachments container l =
    clear_attachments container (teardown_all container (attachments container l) l)

-- No container is recorded twice on one network.
pub record IsLinks (l : Links) : Type 0 where
  pub once : (container : Text) → IsNodup (network_names (attachments container l))

network_names-snoc :
    (list : List Attachment) (a : Attachment)
    → network_names (list ++ a ∷ []) ≡ network_names list ++ a.network ∷ []
unfolding network_names
network_names-snoc [] a = refl
network_names-snoc (b ∷ list) a = ap (λ l. b.network ∷ l) (network_names-snoc list a)

attachments-insert :
    (c d : Text) (list : List Attachment) (l : Links)
    → attachments d (record l { attached = insert c list l.attached })
      ≡ (if c =ᵗ d then list else attachments d l)
unfolding attachments
attachments-insert c d list l = ground (arith, lookup-insert c d list l.attached)

-- After an attachment is recorded the container is on the network, and what it was attached to
-- before, and every other container, is as it was; no list names a network twice.
pub record IsRecorded (container : Text) (a : Attachment) (l m : Links) : Type 0 where
  pub links : IsLinks m
  pub named :
      (network : Text)
      → contains (network_names (attachments container m)) network
        ≡ (contains (network_names (attachments container l)) network || (a.network =ᵗ network))
  pub others :
      (other : Text) → (container =ᵗ other) ≡ false → attachments other m ≡ attachments other l

-- Where no container is recorded twice on one network, recording an attachment keeps it so: the
-- container's networks are those of before and the new one, and the other containers' lists stay.
pub record_attachment-IsRecorded :
    (container : Text) (a : Attachment) (l : Links)
    → IsLinks l
    → IsRecorded container a l (record_attachment container a l)
unfolding record_attachment
record_attachment-IsRecorded container a l h =
    elim (Bool-cases (contains (network_names (attachments container l)) a.network)) [
      | inl known ↦ rw known (record {
        links = h;
        named = λ network. ground (arith, known, eq_iff a.network network);
        others = λ other o. refl;
      })
      | inr new ↦
          let list = attachments container l in
          rw new (record {
            links = record {
              once = λ d. elim (Bool-cases (container =ᵗ d)) [
                | inl e ↦
                    rw (attachments-insert, e, network_names-snoc)
                      (IsNodup-snoc (network_names list) a.network new (h.once container))
                | inr o ↦ rw (attachments-insert, o) (h.once d)
              ];
            };
            named = λ network.
                rw (attachments-insert, eq_refl container, network_names-snoc)
                  (contains-snoc (network_names list) a.network network);
            others = λ other o. rw (attachments-insert, o) refl;
          })
    ]
