-- ===== src/Runtime/Attach.antt =====
-- The networks of a starting container: SetupVethOn, AddPortForward and RemovePortForward of
-- network/veth.go, attachPendingNetworks of network_attach.go, and that part of `Start` of runtime.go.
-- The programs ip, nsenter and iptables are run by the host.
use thrive.Prelude.{
  ℕ, ◌+◌, ◌-◌, Bool, true, false, not, ◌||◌, Option, none, some, List, [], ◌∷◌, ◌++◌, Text, text,
  ◌=ᵗ◌, lookup, insert, is_empty, length, ltb, take, drop, itoa, if◌then◌else◌,
}
use thrive.Compose.Ports.{PortMapping}
use thrive.Network.{Network, default_network, inspect_network, connect_network}
use thrive.Network.Ipam.{Pool, allocate_on, allocate_ip}
use thrive.Network.Attach.{Attachment, Links, record_attachment}
use thrive.Runtime.{Host, Machine, HostCall, run_command, ensure_bridge}

pub record VethPair : Type 0 where
  pub host : Text
  pub container : Text
  pub container_ip : Text

abbrev pub short_id : Text → Text
short_id id = if ltb 8 (length id) then take 8 id else id

-- The host's end, which is named for the container and, on a named network, for its bridge.
unfoldable pub host_veth : Network → Text → Text
host_veth nw id =
    let suffix =
      if ltb 4 (length nw.bridge) then drop (length nw.bridge - 4) nw.bridge else nw.bridge in
    if nw.name =ᵗ text "bridge"
    then text "veth-" ++ short_id id
    else text "v-" ++ short_id id ++ text "-" ++ suffix

abbrev pub empty_pool : Pool
empty_pool = record { counter = 0; ips = [] }

abbrev pub protocol_of : Text → Text
protocol_of protocol = if is_empty protocol then text "tcp" else protocol

-- A DNAT rule: added with -A, removed with -D.
unfoldable pub dnat : Text → Text → Text → PortMapping → List Text
dnat action chain ip p =
    text "iptables"
    ∷ text "-t"
    ∷ text "nat"
    ∷ action
    ∷ chain
    ∷ text "-p"
    ∷ protocol_of p.protocol
    ∷ text "--dport"
    ∷ itoa p.host_port
    ∷ text "-j"
    ∷ text "DNAT"
    ∷ text "--to-destination"
    ∷ (ip ++ b':' ∷ itoa p.container_port)
    ∷ []

-- The commands of SetupVethOn before and behind the move of the container's end.
unfoldable pub link_commands : Network → Text → Text → ℕ → List (List Text)
link_commands nw veth name pid =
    let ip = λ (args : List Text). text "ip" ∷ text "link" ∷ args in
    ip (text "add" ∷ veth ∷ text "type" ∷ text "veth" ∷ text "peer" ∷ text "name" ∷ name ∷ [])
    ∷ ip (text "set" ∷ veth ∷ text "master" ∷ nw.bridge ∷ [])
    ∷ ip (text "set" ∷ veth ∷ text "up" ∷ [])
    ∷ ip (text "set" ∷ name ∷ text "netns" ∷ itoa pid ∷ [])
    ∷ []

unfoldable pub container_commands : Network → Text → Text → ℕ → List (List Text)
container_commands nw address name pid =
    let inside = λ (args : List Text).
      text "nsenter" ∷ text "--target" ∷ itoa pid ∷ text "--net" ∷ text "--" ∷ text "ip" ∷ args in
    let route =
      inside (text "route" ∷ text "add" ∷ text "default" ∷ text "via" ∷ nw.gateway ∷ []) in
    inside (text "link" ∷ text "set" ∷ text "lo" ∷ text "up" ∷ [])
    ∷ inside (text "link" ∷ text "set" ∷ name ∷ text "up" ∷ [])
    ∷ inside (text "addr" ∷ text "add" ∷ (address ++ text "/16") ∷ text "dev" ∷ name ∷ [])
    ∷ (if name =ᵗ text "eth0" then route ∷ [] else [])

module _ {H : Type 0} (host : Host H) where
  abbrev pub call : HostCall → Machine H → Machine H × Bool
  call c m = (record m { host = (host.call c m.host).0 }, (host.call c m.host).1)

  -- The programs in turn, up to the first that fails.
  unfoldable pub run_commands : List (List Text) → Machine H → Machine H × Bool
  run_commands [] m = (m, true)
  run_commands (args ∷ commands) m = elim (call (run_command args) m).1 [
    | true ↦ run_commands commands (call (run_command args) m).0
    | false ↦ ((call (run_command args) m).0, false)
  ]

  -- allocateIP or AllocateOn; a missing counter is 0.
  unfoldable pub allocate : Network → Text → Machine H → Machine H × Option Text
  allocate nw id m =
      let (ip, bridge_pool) = allocate_ip id m.links.bridge_pool in
      let pool : Pool = elim (lookup nw.name m.links.pools) [
        | none ↦ empty_pool
        | some pool ↦ pool
      ] in
      if nw.name =ᵗ text "bridge"
      then (record m { links = record m.links { bridge_pool = bridge_pool } }, some ip)
      else elim (allocate_on nw id pool) [
        | none ↦ (m, none)
        | some (ip, next) ↦ (
          record m { links = record m.links { pools = insert nw.name next m.links.pools } },
          some ip,
        )
      ]

  unfoldable pub link : Network → Text → ℕ → Text → Text → Machine H → Machine H × Option VethPair
  link nw id pid name ip m =
      let veth = host_veth nw id in
      let pair : VethPair = record { host = veth; container = name; container_ip = ip } in
      let (outside, linked) = run_commands (link_commands nw veth name pid) m in
      let (inside, up) = run_commands (container_commands nw ip name pid) outside in
      if not linked then (outside, none) else if not up then (inside, none) else (inside, some pair)

  unfoldable pub setup_veth_on : Network → Text → ℕ → Text → Machine H → Machine H × Option VethPair
  setup_veth_on nw id pid name m = elim (allocate nw id m).1 [
    | none ↦ ((allocate nw id m).0, none)
    | some ip ↦ link nw id pid name ip (allocate nw id m).0
  ]

  -- A rule for traffic from outside and one for the host's own; the first goes if the second fails.
  unfoldable pub add_port_forward : Text → PortMapping → Machine H → Machine H
  add_port_forward ip p m =
      let (first, added) = call (run_command (dnat (text "-A") (text "PREROUTING") ip p)) m in
      let (second, both) = call (run_command (dnat (text "-A") (text "OUTPUT") ip p)) first in
      let undone = (call (run_command (dnat (text "-D") (text "PREROUTING") ip p)) second).0 in
      if not added then first else if both then second else undone

  unfoldable pub remove_port_forward : Text → PortMapping → Machine H → Machine H
  remove_port_forward ip p m =
      let first = (call (run_command (dnat (text "-D") (text "PREROUTING") ip p)) m).0 in
      (call (run_command (dnat (text "-D") (text "OUTPUT") ip p)) first).0

  unfoldable pub add_port_forwards : Text → List PortMapping → Machine H → Machine H
  add_port_forwards ip [] m = m
  add_port_forwards ip (p ∷ ports) m = add_port_forwards ip ports (add_port_forward ip p m)

  unfoldable pub remove_port_forwards : Text → List PortMapping → Machine H → Machine H
  remove_port_forwards ip [] m = m
  remove_port_forwards ip (p ∷ ports) m = remove_port_forwards ip ports (remove_port_forward ip p m)

  abbrev pub change_links : (Links → Links) → Machine H → Machine H
  change_links f m = record m { links = f m.links }

  abbrev pub attachment_of : Network → VethPair → Attachment
  attachment_of nw veth = record {
    network = nw.name;
    host_veth = veth.host;
    interface_name = veth.container;
    container_ip = veth.container_ip;
  }

  -- What a successful link is recorded as: `ConnectNetwork` and `RecordAttachment`.
  unfoldable pub attached : Text → Text → Network → VethPair → Links → Links
  attached id name nw veth l =
      let joined = record l { store = (connect_network id name l.store).0 } in
      record_attachment id (attachment_of nw veth) joined

  abbrev pub bridge_call : Network → HostCall
  bridge_call nw = ensure_bridge nw.bridge (nw.gateway ++ text "/16")

  -- One turn of the loop over the pending networks, and whether the interface is used.
  unfoldable pub attach_one : Text → ℕ → Text → ℕ → Text → Machine H → Machine H × Bool
  attach_one id pid primary index name m =
      if name =ᵗ primary then (m, false) else elim (inspect_network name m.links.store) [
        | none ↦ (m, false)
        | some nw ↦
            let (bridged, ok) = call (bridge_call nw) m in
            let (linked, pair) = setup_veth_on nw id pid (text "eth" ++ itoa index) bridged in
            if not ok then (bridged, false) else elim pair [
              | none ↦ (linked, false)
              | some veth ↦ (change_links (attached id name nw veth) linked, true)
            ]
      ]

  unfoldable pub attach_pending : Text → ℕ → Text → ℕ → List Text → Machine H → Machine H
  attach_pending id pid primary index [] m = m
  attach_pending id pid primary index (name ∷ names) m =
      let (next, used) = attach_one id pid primary index name m in
      attach_pending id pid primary (if used then index + 1 else index) names next

  -- The network of the configuration, or the built-in one if there is no such network.
  unfoldable pub primary_network : Text → Links → Network
  primary_network mode l =
      elim (inspect_network (if is_empty mode then text "bridge" else mode) l.store) [
        | none ↦ default_network
        | some nw ↦ nw
      ]

  -- The container's address, if its network is set up.
  unfoldable pub connect_primary :
      Text → List PortMapping → List Text → ℕ → Network → Machine H → Machine H × Option Text
  connect_primary id ports pending pid nw m =
      let (bridged, ok) = call (bridge_call nw) m in
      let (linked, pair) = setup_veth_on nw id pid (text "eth0") bridged in
      if not ok then (bridged, none) else elim pair [
        | none ↦ (linked, none)
        | some veth ↦
            let noted = change_links (record_attachment id (attachment_of nw veth)) linked in
            let forwarded = add_port_forwards veth.container_ip ports noted in
            (attach_pending id pid nw.name 1 pending forwarded, some veth.container_ip)
      ]

  unfoldable pub set_up_network :
      Text → Text → List PortMapping → List Text → ℕ → Machine H → Machine H × Option Text
  set_up_network id mode ports pending pid m =
      if (mode =ᵗ text "host") || (mode =ᵗ text "none")
      then (m, none)
      else connect_primary id ports pending pid (primary_network mode m.links) m
