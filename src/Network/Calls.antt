-- ===== src/Network/Calls.antt =====
-- nets.go: sequences of calls.
use thrive.Prelude.{ℕ, Bool, List, [], ◌∷◌, Text}
use thrive.Network.{
  Store, list_networks, create_network, remove_network, connect_network, disconnect_network,
  detach_container, prune_networks,
}
use thrive.Network.Keeps.{
  IsStore, create_network-IsStore, remove_network-IsStore, connect_network-IsStore,
  disconnect_network-IsStore, list_networks-AllStored, detach_all-IsStore, prune_all-IsStore,
}

-- The calls that change the directory.
pub data Call : Type 0 where
  create : (name driver subnet : Text) (now : ℕ) → Call
  remove_call : (name : Text) (force : Bool) → Call
  connect : (container name : Text) → Call
  disconnect : (container name : Text) → Call
  detach : (container : Text) → Call
  prune : Call

module _ (hash : Text → Text) (ensure_bridge : Text → Text → Bool) where
  unfoldable pub run : Call → Store → Store
  run (create name driver subnet now) s =
      (create_network hash ensure_bridge name driver subnet now s).0
  run (remove_call name force) s = (remove_network name force s).0
  run (connect container name) s = (connect_network container name s).0
  run (disconnect container name) s = (disconnect_network container name s).0
  run (detach container) s = detach_container container s
  run prune s = (prune_networks s).0

  unfoldable pub run_all : List Call → Store → Store
  unfolding run
  run_all [] s = s
  run_all (c ∷ calls) s = run_all calls (run c s)

  run-IsStore : (c : Call) (s : Store) → IsStore s → IsStore (run c s)
  unfolding run detach_container prune_networks
  run-IsStore (create name driver subnet now) s h =
      create_network-IsStore hash ensure_bridge name driver subnet now s h
  run-IsStore (remove_call name force) s h = remove_network-IsStore name force s h
  run-IsStore (connect container name) s h = connect_network-IsStore container name s h
  run-IsStore (disconnect container name) s h = disconnect_network-IsStore container name s h
  run-IsStore (detach container) s h =
      detach_all-IsStore container (list_networks s) s (list_networks-AllStored s h) h
  run-IsStore prune s h = prune_all-IsStore (list_networks s) (s, []) h

  -- Whatever sequence of calls is made, successful or not, every network of the directory stays in
  -- the one file of its name, and that name is valid and not reserved.
  pub run_all-IsStore : (calls : List Call) (s : Store) → IsStore s → IsStore (run_all calls s)
  unfolding run_all
  run_all-IsStore [] s h = h
  run_all-IsStore (c ∷ calls) s h = run_all-IsStore calls (run c s) (run-IsStore c s h)
