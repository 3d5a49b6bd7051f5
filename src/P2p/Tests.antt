-- ===== src/P2p/Tests.antt =====
-- A table of three peers, and the theorems at it.
use thrive.Prelude.{
  ℕ, zero, suc, ◌<◌, ◌≡◌, refl, true, [], ◌∷◌, some, text, ◌=ᵗ◌, lookup, insert, contains, length,
  arith,
}
use thrive.P2p.{
  NodeId, Dht, xor, log2, bucket_index, new_dht, add_node, find_node, k, scan_all, scan_bucket,
  scan_range, widen,
}
use thrive.P2p.Index.{Leads, here, next, bucket_index_order}
use thrive.P2p.Table.{
  IsTable, new_dht-IsTable, add_node-IsTable, add_call, remove_call, run_all, run_all-IsTable,
}
use thrive.P2p.Find.{ids, IsFound, find_node-IsFound, find_node_complete}

abbrev zeros : ℕ → NodeId
zeros zero = []
zeros (suc n) = 0 ∷ zeros n

abbrev self : NodeId
self = zeros 32

-- Distances 8 and 1 in the second byte, and 3 in the first.
abbrev eight : NodeId
eight = 0 ∷ 8 ∷ zeros 30

abbrev one : NodeId
one = 0 ∷ 1 ∷ zeros 30

abbrev far : NodeId
far = 3 ∷ zeros 31

abbrev empty : Dht
empty = new_dht self (text "self")

abbrev table : Dht
table = add_node (add_node empty eight (text "e") 7) far (text "f") 9

eight-Leads : Leads (xor eight self) 1 8
unfolding xor
eight-Leads = next (here (omega arith) (omega arith))

one-Leads : Leads (xor one self) 1 1
unfolding xor
one-Leads = next (here (omega arith) (omega arith))

-- Both distances begin in byte 1.
abbrev SameByte : Type 0
SameByte = ◌≡◌ {A = ℕ} 1 1

bucket_index_order_example :
    (1 < 1 → bucket_index self eight < bucket_index self one)
    × (SameByte × (log2 1 < log2 8) → bucket_index self eight < bucket_index self one)
bucket_index_order_example =
    bucket_index_order self one eight one-Leads eight-Leads (omega arith) (omega arith)

table-IsTable : IsTable table
table-IsTable =
    add_node-IsTable (add_node empty eight (text "e") 7) far (text "f") 9
      (add_node-IsTable empty eight (text "e") 7 (new_dht-IsTable self (text "self")))

run_all-IsTable_example :
    IsTable (run_all (add_call eight (text "e") 7 ∷ remove_call eight ∷ []) empty)
run_all-IsTable_example =
    run_all-IsTable (add_call eight (text "e") 7 ∷ remove_call eight ∷ []) self (text "self")

find_node-IsFound_example : IsFound table (find_node table one)
find_node-IsFound_example = find_node-IsFound table one table-IsTable

few : length (find_node table one) < k
unfolding find_node scan_all scan_bucket scan_range widen add_node new_dht bucket_index log2 xor
    contains ◌=ᵗ◌ insert
few = omega arith

far-peer : lookup far table.peers ≡ some (text "f")
unfolding lookup insert ◌=ᵗ◌ add_node new_dht
far-peer = refl

find_node_complete_example : contains (ids (find_node table one)) far ≡ true
find_node_complete_example = find_node_complete table one far (text "f") table-IsTable few far-peer
