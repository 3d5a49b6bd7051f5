-- ===== src/Network/Tests.antt =====
-- A directory of two networks, and the theorems at it.
use thrive.Prelude.{
  ◌≡◌, ◌≢◌, refl, sym, inl, inr, Bool, Bool-cases, true, false, List, [], ◌∷◌, ◌++◌, none, some,
  Text, text, ◌=ᵗ◌, arith, eq_iff, lookup, insert, remove, keys, contains, add_key, every, cut,
  itoa, digits_onto,
}
use thrive.Network.{
  Network, Store, done, list_networks, values, valid_network_name, first_unused, used_subnets,
  subnet_base, split_on, allocate_subnet, set_up, create_network, detach_container, detach_all,
  detach_from,
}
use thrive.Network.Keeps.{IsStored, IsStore}
use thrive.Network.Calls.{Call, create, connect, remove_call, run_all, run_all-IsStore}
use thrive.Network.Subnets.{IsCreated, create_network-IsCreated}
use thrive.Network.Ipam.{
  Pool, ip_of, allocate_on, IsAllocated, ip_of_distinct, allocate_on-IsAllocated,
}
use thrive.Network.Detach.{detach_container-free}
use thrive.Network.Attach.{Attachment, Links, teardown_attachments}
use thrive.Network.Teardown.{IsTornDown, teardown_attachments-IsTornDown}

abbrev hash : Text → Text
hash name = name ++ name

abbrev ensure_bridge : Text → Text → Bool
ensure_bridge bridge address = true

abbrev empty : Store
empty = record { networks = []; bridges = [] }

empty-IsStore : IsStore empty
unfolding lookup keys
empty-IsStore = record { stored = λ file nw e. cc; once = tt }

abbrev calls : List Call
calls =
    create (text "web") [] [] 1
    ∷ create (text "db") [] [] 2
    ∷ connect (text "c1") (text "web")
    ∷ remove_call (text "web") false
    ∷ []

run_all-IsStore_example : IsStore (run_all hash ensure_bridge calls empty)
run_all-IsStore_example = run_all-IsStore hash ensure_bridge calls empty empty-IsStore

abbrev web : Network
web = record {
  name = text "web";
  driver = text "bridge";
  subnet = text "172.19.0.0/16";
  gateway = text "172.19.1";
  bridge = text "br-webweb";
  created = 1;
  containers = [];
}

abbrev one : Store
one = record { networks = (text "web", web) ∷ []; bridges = text "br-webweb" ∷ [] }

created : create_network hash ensure_bridge (text "web") [] [] 1 empty ≡ (one, done)
unfolding create_network set_up valid_network_name every allocate_subnet first_unused used_subnets
    list_networks values subnet_base split_on cut itoa digits_onto lookup insert contains add_key
    ◌=ᵗ◌
created = refl

create_network-IsCreated_example : IsCreated (text "web") empty one
create_network-IsCreated_example =
    create_network-IsCreated hash ensure_bridge (text "web") [] 1 empty one created

abbrev web_attached : Network
web_attached = record web { containers = (text "c2", text "c2") ∷ [] }

abbrev web_both : Network
web_both = record web { containers = (text "c1", text "c1") ∷ (text "c2", text "c2") ∷ [] }

abbrev both : Store
both = record { networks = (text "web", web_both) ∷ []; bridges = [] }

web-IsStored : IsStored (text "web") web_both
unfolding valid_network_name every ◌=ᵗ◌
web-IsStored = record { named = refl; valid = refl; free = refl }

both-IsStore : IsStore both
unfolding lookup keys contains
both-IsStore = record {
  stored = λ file nw e. elim (Bool-cases (text "web" =ᵗ file)) [
    | inl same ↦
        let at : file ≡ text "web" = sym ((eq_iff (text "web") file).0 same) in
        let value : nw ≡ web_both = ground (arith, same) in rw (at, value) web-IsStored
    | inr other ↦ ground (arith, other)
  ];
  once = (refl, tt);
}

detached : lookup (text "web") (detach_container (text "c1") both).networks ≡ some web_attached
unfolding detach_container detach_all detach_from list_networks values lookup insert remove ◌=ᵗ◌
detached = refl

detach_container-free_example : lookup (text "c1") web_attached.containers ≡ none
detach_container-free_example =
    detach_container-free (text "c1") both (text "web") web_attached both-IsStore detached

ip_of_distinct_example : ip_of (text "172.19") 5 ≢ ip_of (text "172.19") 64000
ip_of_distinct_example = ip_of_distinct (text "172.19") 5 64000 (omega arith) (omega arith)

abbrev pool : Pool
pool = record { counter = 253; ips = [] }

allocate_on-IsAllocated_example :
    IsAllocated web (text "c1") pool (allocate_on web (text "c1") pool)
allocate_on-IsAllocated_example = allocate_on-IsAllocated web (text "c1") pool

abbrev on_web : Attachment
on_web = record {
  network = text "web";
  host_veth = text "veth-c1";
  interface_name = text "eth1";
  container_ip = text "172.19.0.3";
}

-- The container "c1" has an address on "web".
abbrev taken : Pool
taken = record { counter = 254; ips = (text "c1", text "172.19.1.2") ∷ [] }

abbrev links : Links
links = record {
  store = both;
  pools = (text "web", taken) ∷ [];
  bridge_pool = taken;
  attached = (text "c1", on_web ∷ []) ∷ [];
}

teardown_attachments-IsTornDown_example :
    IsTornDown (text "c1") links (teardown_attachments (text "c1") links)
teardown_attachments-IsTornDown_example =
    teardown_attachments-IsTornDown (text "c1") links both-IsStore
