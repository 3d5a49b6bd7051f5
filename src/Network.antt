-- ===== src/Network.antt =====
-- internal/network/nets.go: named networks. The directory of networks is an association list from
-- file names, less ".json", to the records that the files hold; the files can be read and written.
-- The records come in the order of the list, where Go sorts them by file name. `hash` gives the hex
-- digits of the SHA-256 of a name, and `ensure_bridge` tells whether the kernel sets up a bridge.
pub mod Keeps
pub mod Calls
pub mod Subnets
pub mod Detach
pub mod Ipam
pub mod Attach
pub mod Cleared
pub mod Teardown
pub mod Tests
use thrive.Prelude.{
  ℕ, zero, suc, ◌+◌, Bool, true, false, not, ◌&&◌, ◌||◌, Option, none, some, List, [], ◌∷◌, ◌++◌,
  Text, text, ◌=ᵗ◌, Dict, lookup, insert, remove, contains, add_key, every, is_empty, length, ltb,
  leb, ◌==◌, take, itoa, cut, if◌then◌else◌,
}

pub record Network : Type 0 where
  pub name : Text
  pub driver : Text
  pub subnet : Text
  pub gateway : Text
  pub bridge : Text
  pub created : ℕ
  pub containers : Dict Text

-- The directory, and the bridges that the kernel has.
pub record Store : Type 0 where
  pub networks : Dict Network
  pub bridges : List Text

pub data NetworkError : Type 0 where
  invalid_name : NetworkError
  unsupported_driver : NetworkError
  reserved_name : NetworkError
  already_exists : NetworkError
  no_free_subnet : NetworkError
  bridge_failed : NetworkError
  not_found : NetworkError
  in_use : NetworkError
  id_required : NetworkError
  remove_failed : NetworkError

pub data Reply : Type 0 where
  done : Reply
  failed : NetworkError → Reply

abbrev pub default_subnet : Text
default_subnet = text "172.18.0.0/16"

-- `defaultNetwork` under its name.
abbrev pub default_network : Network
default_network = record {
  name = text "bridge";
  driver = text "bridge";
  subnet = default_subnet;
  gateway = text "172.18.0.1";
  bridge = text "thrive0";
  created = 0;
  containers = [];
}

unfoldable pub is_name_char : ℕ → Bool
is_name_char c =
    (leb b'a' c && leb c b'z')
    || (leb b'A' c && leb c b'Z')
    || (leb b'0' c && leb c b'9')
    || (c == b'_')
    || (c == b'.')
    || (c == b'-')

unfoldable pub valid_network_name : Text → Bool
unfolding is_name_char
valid_network_name name =
    if is_empty name || ltb 64 (length name) then false else every is_name_char name

abbrev pub is_reserved : Text → Bool
is_reserved name = (name =ᵗ text "bridge") || (name =ᵗ text "host") || (name =ᵗ text "none")

-- The values of the directory.
unfoldable pub values : Dict Network → List Network
values [] = []
values ((file, nw) ∷ files) = nw ∷ values files

unfoldable pub list_networks : Store → List Network
unfolding values
list_networks s = default_network ∷ values s.networks

unfoldable pub inspect_network : Text → Store → Option Network
inspect_network name s =
    if is_empty name || (name =ᵗ text "bridge")
    then some default_network
    else lookup name s.networks

abbrev pub write_network : Network → Store → Store
write_network nw s = record s { networks = insert nw.name nw s.networks }

-- strings.Split(s, string(c)), from the part that has begun.
unfoldable pub split_on : ℕ → Text → Text → List Text
split_on c part [] = part ∷ []
split_on c part (x ∷ s) =
    let next = part ∷ split_on c [] s in
    let more = split_on c (part ++ x ∷ []) s in if x == c then next else more

-- The first two parts of an address of four.
abbrev pub two_octets : List Text → Text
two_octets (a ∷ b ∷ c ∷ d ∷ []) = a ++ b'.' ∷ b
two_octets _ = text "172.19"

unfoldable pub subnet_base : Text → Text
unfolding split_on
subnet_base subnet =
    let ip = elim (cut b'/' subnet) as (λ _. Text) [ none ↦ subnet | some (a, b) ↦ a ] in
    two_octets (split_on b'.' [] ip)

abbrev pub candidate : ℕ → Text
candidate i = text "172." ++ itoa i ++ text ".0.0/16"

-- The subnets of the listed networks; the default network has the first.
unfoldable pub used_subnets : List Network → List Text
used_subnets [] = []
used_subnets (nw ∷ nets) = nw.subnet ∷ used_subnets nets

-- The loop of `allocateSubnet` from `i` on, with `n` candidates left.
unfoldable pub first_unused : ℕ → ℕ → List Text → Option Text
first_unused zero i used = none
first_unused (suc n) i used =
    let rest = first_unused n (i + 1) used in
    if contains used (candidate i) then rest else some (candidate i)

unfoldable pub allocate_subnet : Store → Option Text
unfolding used_subnets list_networks first_unused
allocate_subnet s = first_unused 12 19 (default_subnet ∷ used_subnets (list_networks s))

module _ (hash : Text → Text) (ensure_bridge : Text → Text → Bool) where
  abbrev pub bridge_for : Text → Text
  bridge_for name = text "br-" ++ take 8 (hash name)

  -- The record that `CreateNetwork` builds, at the time `now`.
  abbrev pub new_network : Text → Text → Text → ℕ → Network
  new_network name driver subnet now = record {
    name = name;
    driver = driver;
    subnet = subnet;
    gateway = subnet_base subnet ++ text ".1";
    bridge = bridge_for name;
    created = now;
    containers = [];
  }

  -- The end of `CreateNetwork`, with the subnet chosen.
  unfoldable pub set_up : Network → Store → Store × Reply
  set_up nw s =
      if ensure_bridge nw.bridge (nw.gateway ++ text "/16")
      then (write_network nw (record s { bridges = add_key s.bridges nw.bridge }), done)
      else (s, failed bridge_failed)

  unfoldable pub create_network : Text → Text → Text → ℕ → Store → Store × Reply
  unfolding set_up
  create_network name driver subnet now s =
      let driver' = if is_empty driver then text "bridge" else driver in
      let chosen = if is_empty subnet then allocate_subnet s else some subnet in
      if not (valid_network_name name)
      then (s, failed invalid_name)
      else if not (driver' =ᵗ text "bridge")
      then (s, failed unsupported_driver)
      else if is_reserved name
      then (s, failed reserved_name)
      else elim (lookup name s.networks) [
        | some nw ↦ (s, failed already_exists)
        | none ↦ elim chosen [
          | none ↦ (s, failed no_free_subnet)
          | some sub ↦ set_up (new_network name driver' sub now) s
        ]
      ]

-- `DeleteBridgeWith`.
unfoldable pub bridges_without : Text → List Text → List Text
bridges_without b [] = []
bridges_without b (x ∷ xs) = let rest = bridges_without b xs in if x =ᵗ b then rest else x ∷ rest

-- The kernel's bridge goes before the file; a file that is not there is an error.
unfoldable pub remove_network : Text → Bool → Store → Store × Reply
remove_network name force s =
    if is_reserved name then (s, failed reserved_name) else elim (inspect_network name s) [
      | none ↦ (s, failed not_found)
      | some nw ↦
          let less : Store = record s { bridges = bridges_without nw.bridge s.bridges } in
          if not (is_empty nw.containers) && not force
          then (s, failed in_use)
          else elim (lookup name s.networks) [
            | none ↦ (less, failed remove_failed)
            | some stored ↦ (record less { networks = remove name s.networks }, done)
          ]
    ]

unfoldable pub connect_network : Text → Text → Store → Store × Reply
connect_network container name s =
    if is_empty container then (s, failed id_required) else elim (inspect_network name s) [
      | none ↦ (s, failed not_found)
      | some nw ↦ if nw.name =ᵗ text "bridge" then (s, done) else (
        write_network (record nw { containers = insert container container nw.containers }) s,
        done,
      )
    ]

unfoldable pub disconnect_network : Text → Text → Store → Store × Reply
disconnect_network container name s = elim (inspect_network name s) [
  | none ↦ (s, failed not_found)
  | some nw ↦
      if nw.name =ᵗ text "bridge"
      then (s, done)
      else (write_network (record nw { containers = remove container nw.containers }) s, done)
]

-- The body of the loop of `DetachContainer`.
unfoldable pub detach_from : Text → Network → Store → Store
detach_from container nw s =
    if nw.name =ᵗ text "bridge" then s else elim (lookup container nw.containers) [
      | none ↦ s
      | some id ↦ write_network (record nw { containers = remove container nw.containers }) s
    ]

unfoldable pub detach_all : Text → List Network → Store → Store
detach_all container [] s = s
detach_all container (nw ∷ nets) s = detach_all container nets (detach_from container nw s)

unfoldable pub detach_container : Text → Store → Store
detach_container container s = detach_all container (list_networks s) s

-- The body of the loop of `PruneNetworks`, with the names that are removed so far.
unfoldable pub prune_one : Network → Store × List Text → Store × List Text
prune_one nw (s, removed) =
    let (t, reply) = remove_network nw.name false s in
    if (nw.name =ᵗ text "bridge") || not (is_empty nw.containers)
    then (s, removed)
    else (t, elim reply [ failed e ↦ removed | done ↦ removed ++ nw.name ∷ [] ])

unfoldable pub prune_all : List Network → Store × List Text → Store × List Text
prune_all [] p = p
prune_all (nw ∷ nets) p = prune_all nets (prune_one nw p)

unfoldable pub prune_networks : Store → Store × List Text
prune_networks s = prune_all (list_networks s) (s, [])
