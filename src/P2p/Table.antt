-- ===== src/P2p/Table.antt =====
-- `AddNode` and `RemoveNode` keep the buckets and the map of peers in step.
use thrive.Prelude.{
  ℕ, ◌≡◌, refl, true, arith, List, [], ◌∷◌, Text, eq_iff, lookup, lookup-insert, lookup-remove,
  keys, contains, IsNodup, keys-insert, keys-remove, insert-IsNodup, remove-IsNodup,
}
use thrive.P2p.{NodeId, bucket_index, Dht, new_dht, add_node, remove_node}

-- A peer stands in the bucket of its index and in no other, with the address of `peers`; no
-- bucket holds a peer twice.
pub record IsTable (d : Dht) : Type 0 where
  pub agrees :
      (id : NodeId) → lookup id (d.kbuckets (bucket_index d.node_id id)).nodes ≡ lookup id d.peers
  pub placed :
      (i : ℕ) (id : NodeId)
      → contains (keys (d.kbuckets i).nodes) id ≡ true
      → bucket_index d.node_id id ≡ i
  pub once : (i : ℕ) → IsNodup (keys (d.kbuckets i).nodes)

-- The table of `NewDHT`, which knows no peer, is in step.
pub new_dht-IsTable : (self addr : Text) → IsTable (new_dht self addr)
unfolding new_dht lookup keys contains
new_dht-IsTable self addr = record { agrees = λ id. refl; placed = λ i id h. cc; once = λ i. tt }

-- Adding a peer, new or known, keeps a table in step: a peer stands in the bucket of its index and
-- in no other, under the address of `peers`, and in no bucket twice.
pub add_node-IsTable :
    (d : Dht) (peer : NodeId) (addr : Text) (random : ℕ)
    → IsTable d
    → IsTable (add_node d peer addr random)
unfolding add_node
add_node-IsTable d peer addr random h =
    let idx = bucket_index d.node_id peer in
    let nodes = (d.kbuckets idx).nodes in
    record {
      agrees = λ id. ground (
        arith,
        h.agrees id,
        lookup-insert peer id addr nodes,
        lookup-insert peer id addr d.peers,
        eq_iff peer id,
      );
      placed = λ i id m.
          ground
            (arith, h.placed i id, h.placed idx id, keys-insert peer addr nodes id, eq_iff peer id);
      once = λ i. ground (arith, h.once i, insert-IsNodup peer addr nodes (h.once idx));
    }

-- Removing a peer, known or not, keeps a table in step, in the same sense.
pub remove_node-IsTable : (d : Dht) (peer : NodeId) → IsTable d → IsTable (remove_node d peer)
unfolding remove_node
remove_node-IsTable d peer h =
    let idx = bucket_index d.node_id peer in
    let nodes = (d.kbuckets idx).nodes in
    record {
      agrees = λ id. ground (
        arith,
        h.agrees id,
        lookup-remove peer id nodes,
        lookup-remove peer id d.peers,
        eq_iff peer id,
      );
      placed = λ i id m.
          ground (arith, h.placed i id, h.placed idx id, keys-remove peer nodes id, eq_iff peer id);
      once = λ i. ground (arith, h.once i, remove-IsNodup peer nodes (h.once idx));
    }

-- The calls that change the table.
pub data Call : Type 0 where
  add_call : (peer addr : Text) (random : ℕ) → Call
  remove_call : (peer : Text) → Call

unfoldable pub run_all : List Call → Dht → Dht
run_all [] d = d
run_all (add_call peer addr random ∷ calls) d = run_all calls (add_node d peer addr random)
run_all (remove_call peer ∷ calls) d = run_all calls (remove_node d peer)

keeps-IsTable : (calls : List Call) (d : Dht) → IsTable d → IsTable (run_all calls d)
unfolding run_all
keeps-IsTable [] d h = h
keeps-IsTable (add_call peer addr random ∷ calls) d h =
    keeps-IsTable calls (add_node d peer addr random) (add_node-IsTable d peer addr random h)
keeps-IsTable (remove_call peer ∷ calls) d h =
    keeps-IsTable calls (remove_node d peer) (remove_node-IsTable d peer h)

-- After any sequence of additions and removals of peers, known or not, from the table of `NewDHT`, a
-- peer stands in the bucket of its index and in no other, under the address of `peers`, and in no
-- bucket twice.
pub run_all-IsTable :
    (calls : List Call) (self addr : Text) → IsTable (run_all calls (new_dht self addr))
run_all-IsTable calls self addr =
    keeps-IsTable calls (new_dht self addr) (new_dht-IsTable self addr)
