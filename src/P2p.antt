-- ===== src/P2p.antt =====
-- internal/p2p/dht.go: node ids, the k-buckets and the search of the Kademlia table. A `NodeID` is
-- the list of its 32 bytes. The locks, the log lines and the SHA-256 of a chunk digest are left out;
-- the random number of `AddNode` is an argument.
pub mod Index
pub mod Table
pub mod Find
pub mod Hex
pub mod Tests
use Prim.Native.Nat.{bit_xor}
use thrive.Prelude.{
  ℕ, zero, suc, ◌+◌, ◌-◌, ◌*◌, ◌/◌, ◌^◌, Bool, true, false, ◌&&◌, Option, none, some, List, [], ◌∷◌,
  ◌++◌, Text, Dict, lookup, insert, remove, contains, length, take, ltb, leb, ◌==◌, if◌then◌else◌,
}

abbrev pub k : ℕ
k = 8

-- A `NodeID`: 32 bytes, the most significant first.
abbrev pub NodeId : Type 0
NodeId = Text

unfoldable pub xor : NodeId → NodeId → NodeId
xor [] b = []
xor (x ∷ a) [] = x ∷ a
xor (x ∷ a) (y ∷ b) = bit_xor x y ∷ xor a b

abbrev pub shift_if : ℕ → ℕ × ℕ → ℕ × ℕ
shift_if bits (x, n) = if leb (2 ^ bits) x then (x / 2 ^ bits, n + bits) else (x, n)

-- The ladder of shifts; the last step leaves `x` as it is.
unfoldable pub log2 : ℕ → ℕ
log2 x =
    if x == 0
    then 0
    else let (y, n) = shift_if 2 (shift_if 4 (shift_if 8 (shift_if 16 (x, 0)))) in
      if leb 2 y then n + 1 else n

-- The loop over the bytes of the distance, from byte `i`.
unfoldable pub index_from : ℕ → NodeId → ℕ
unfolding log2
index_from i [] = 0
index_from i (x ∷ d) =
    let rest = index_from (i + 1) d in if x == 0 then rest else 255 - i * 8 - log2 x

unfoldable pub bucket_index : NodeId → NodeId → ℕ
unfolding index_from xor
bucket_index self id = index_from 0 (xor id self)

pub record Bucket : Type 0 where
  pub nodes : Dict Text
  pub lri_time : Dict ℕ

abbrev pub empty_bucket : Bucket
empty_bucket = record { nodes = []; lri_time = [] }

-- `kbuckets` is an array of 256 buckets, here the function from its indices.
pub record Dht : Type 0 where
  pub node_id : NodeId
  pub kbuckets : ℕ → Bucket
  pub self_addr : Text
  pub peers : Dict Text

abbrev pub set_bucket : (ℕ → Bucket) → ℕ → Bucket → ℕ → Bucket
set_bucket f i b j = if i == j then b else f j

unfoldable pub new_dht : NodeId → Text → Dht
new_dht self_id addr = record {
  node_id = self_id;
  kbuckets = λ i. empty_bucket;
  self_addr = addr;
  peers = [];
}

unfoldable pub add_node : Dht → NodeId → Text → ℕ → Dht
add_node d peer addr random =
    let idx = bucket_index d.node_id peer in
    let kb = d.kbuckets idx in
    record d {
      kbuckets =
          set_bucket d.kbuckets idx (record {
            nodes = insert peer addr kb.nodes;
            lri_time = insert peer random kb.lri_time;
          });
      peers = insert peer addr d.peers;
    }

unfoldable pub remove_node : Dht → NodeId → Dht
remove_node d peer =
    let idx = bucket_index d.node_id peer in
    let kb = d.kbuckets idx in
    record d {
      kbuckets =
          set_bucket d.kbuckets idx
            (record { nodes = remove peer kb.nodes; lri_time = remove peer kb.lri_time });
      peers = remove peer d.peers;
    }

pub record NodeInfo : Type 0 where
  pub id : NodeId
  pub addr : Text

-- The variables of `FindNode`.
pub record Search : Type 0 where
  pub candidates : List NodeInfo
  pub seen : List NodeId

abbrev pub take_node : NodeId → Text → Search → Search
take_node id addr s = record {
  candidates = s.candidates ++ record { id = id; addr = addr } ∷ [];
  seen = id ∷ s.seen;
}

-- The loop over the target's own bucket, which takes every node.
unfoldable pub scan_all : Dict Text → Search → Search
scan_all [] s = s
scan_all ((id, addr) ∷ nodes) s =
    scan_all nodes (if contains s.seen id then s else take_node id addr s)

-- The loop over another bucket, with `true` for the jump to `done`.
unfoldable pub scan_bucket : Dict Text → Search → Search × Bool
scan_bucket [] s = (s, false)
scan_bucket ((id, addr) ∷ nodes) s =
    let t = take_node id addr s in
    let skip = scan_bucket nodes s in
    let next = scan_bucket nodes t in
    if contains s.seen id then skip else if leb k (length t.candidates) then (t, true) else next

-- The buckets from `j` on, `n` of them.
unfoldable pub scan_range : Dht → ℕ → ℕ → Search → Search × Bool
scan_range d zero j s = (s, false)
scan_range d (suc n) j s =
    let (t, done) = scan_bucket (d.kbuckets j).nodes s in
    let next = scan_range d n (j + 1) t in if done then (t, true) else next

-- hi - lo + 1, with both clamped to the table.
abbrev pub low : ℕ → ℕ → ℕ
low at i = at - i

abbrev pub high : ℕ → ℕ → ℕ
high at i = if leb 256 (at + i) then 255 else at + i

-- The loop of growing distance `i`, with `n` rounds left.
unfoldable pub widen : Dht → ℕ → ℕ → ℕ → Search → Search
unfolding scan_range scan_bucket
widen d at zero i s = s
widen d at (suc n) i s =
    let (t, done) = scan_range d (high at i + 1 - low at i) (low at i) s in
    let next = widen d at n (i + 1) t in
    if ltb (length s.candidates) k then (if done then t else next) else s

unfoldable pub find_node : Dht → NodeId → List NodeInfo
unfolding scan_all widen
find_node d target =
    let at = bucket_index d.node_id target in
    let found =
      widen d at 255 1 (scan_all (d.kbuckets at).nodes (record { candidates = []; seen = [] })) in
    found.candidates

-- The number that the first 8 bytes of a distance stand for, the most significant first.
unfoldable pub bytes_value : ℕ → Text → ℕ
bytes_value v [] = v
bytes_value v (x ∷ d) = bytes_value (v * 256 + x) d

unfoldable pub xor_distance : NodeId → NodeId → ℕ
xor_distance a b = bytes_value 0 (take 8 (xor a b))
