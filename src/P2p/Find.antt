-- ===== src/P2p/Find.antt =====
-- `FindNode`: what it returns, and that it misses a peer only when it has found enough.
use thrive.Prelude.{
  ℕ, zero, suc, ◌+◌, ◌-◌, ◌≤◌, ◌<◌, ◌≡◌, refl, ap, ◌∙◌, inl, inr, Bool, true, false, some, List, [],
  ◌∷◌, ◌++◌, arith, Text, eq_iff, eq_refl, Dict, lookup, keys, contains, contains-snoc,
  contains-keys, IsNodup, IsNodup-snoc, All, All-append, Bool-cases, length, ltb, leb, leb→le,
  if◌then◌else◌,
}
use native.Mathlib.Decide.{dec_lt}
use thrive.P2p.{
  k, NodeId, xor, index_from, bucket_index, Dht, NodeInfo, Search, take_node, scan_all, scan_bucket,
  scan_range, low, high, widen, find_node,
}
use thrive.P2p.Table.{IsTable}

abbrev pub ids : List NodeInfo → List NodeId
ids [] = []
ids (n ∷ l) = n.id ∷ ids l

ids-snoc : (l : List NodeInfo) (n : NodeInfo) → ids (l ++ n ∷ []) ≡ ids l ++ n.id ∷ []
ids-snoc [] n = refl
ids-snoc (m ∷ l) n = rw (ids-snoc l n)

-- Every candidate is a peer under its address, and no candidate stands twice.
pub record IsFound (d : Dht) (l : List NodeInfo) : Type 0 where
  pub known : All (λ n. lookup n.id d.peers ≡ some n.addr) l
  pub once : IsNodup (ids l)

pub record Inv (d : Dht) (s : Search) : Type 0 where
  pub found : IsFound d s.candidates
  pub same : (a : NodeId) → contains s.seen a ≡ contains (ids s.candidates) a

-- The entries of a bucket are peers under their addresses.
abbrev AllKnown : Dht → Dict Text → Type 0
AllKnown d [] = Unit
AllKnown d ((id, addr) ∷ nodes) = (lookup id d.peers ≡ some addr) × AllKnown d nodes

AllKnown-rest :
    (d : Dht) (nodes : Dict Text)
    → IsNodup (keys nodes)
    → ((id : NodeId) → contains (keys nodes) id ≡ true → lookup id nodes ≡ lookup id d.peers)
    → AllKnown d nodes
unfolding lookup keys contains
AllKnown-rest d [] n h = tt
AllKnown-rest d ((id, addr) ∷ nodes) n h = (
  ground (arith, h id, eq_refl id),
  AllKnown-rest d nodes n.1 (λ a m. ground (arith, h a, n.0, eq_iff id a)),
)

bucket-AllKnown : (d : Dht) (j : ℕ) → IsTable d → AllKnown d (d.kbuckets j).nodes
bucket-AllKnown d j h =
    AllKnown-rest d (d.kbuckets j).nodes (h.once j)
      (λ id m. ground (arith, h.placed j id, h.agrees id))

take_node-Inv :
    (d : Dht) (id : NodeId) (addr : Text) (s : Search)
    → lookup id d.peers ≡ some addr
    → contains s.seen id ≡ false
    → Inv d s
    → Inv d (take_node id addr s)
unfolding contains
take_node-Inv d id addr s here new h =
    let n : NodeInfo = record { id = id; addr = addr } in
    record {
      found = record {
        known =
            All-append (λ m. lookup m.id d.peers ≡ some m.addr) s.candidates (n ∷ []) h.found.known
              (here, tt);
        once =
            rw (ids-snoc s.candidates n)
              (IsNodup-snoc (ids s.candidates) id (ground (arith, h.same id)) h.found.once);
      };
      same = λ a.
          rw (ids-snoc s.candidates n)
            (ground (arith, contains-snoc (ids s.candidates) id a, h.same a));
    }

-- What is seen stays seen.
abbrev Grows : Search → Search → Type 0
Grows s t = (a : NodeId) → contains s.seen a ≡ true → contains t.seen a ≡ true

take_node-Grows : (id : NodeId) (addr : Text) (s : Search) → Grows s (take_node id addr s)
unfolding contains
take_node-Grows id addr s a m = ground arith

abbrev Covers : Dict Text → Search → Type 0
Covers nodes t = (a : NodeId) → contains (keys nodes) a ≡ true → contains t.seen a ≡ true

record Scanned (d : Dht) (nodes : Dict Text) (s t : Search) (done : Bool) : Type 0 where
  inv : Inv d t
  grows : Grows s t
  covers : done ≡ false → Covers nodes t
  enough : done ≡ true → k ≤ length t.candidates

Scanned-cons :
    (d : Dht) (id : NodeId) (addr : Text) (nodes : Dict Text) (s u t : Search) (done : Bool)
    → Grows s u
    → contains u.seen id ≡ true
    → Scanned d nodes u t done
    → Scanned d ((id, addr) ∷ nodes) s t done
unfolding keys contains
Scanned-cons d id addr nodes s u t done g m h = record {
  inv = h.inv;
  grows = λ a x. h.grows a (g a x);
  covers = λ e a x. ground (arith, h.covers e a, h.grows a, eq_iff id a);
  enough = h.enough;
}

scan_bucket-Scanned :
    (d : Dht) (nodes : Dict Text) (s : Search)
    → AllKnown d nodes
    → Inv d s
    → Scanned d nodes s (scan_bucket nodes s).0 (scan_bucket nodes s).1
unfolding scan_bucket
scan_bucket-Scanned d [] s known h = record {
  inv = h;
  grows = λ a m. m;
  covers = λ e a m. unfold keys contains in cc;
  enough = λ e. cc;
}
scan_bucket-Scanned d ((id, addr) ∷ nodes) s known h = elim (Bool-cases (contains s.seen id)) [
  | inl old ↦ rw old (
      Scanned-cons d id addr nodes s s (scan_bucket nodes s).0 (scan_bucket nodes s).1 (λ a m. m)
        old (scan_bucket-Scanned d nodes s known.1 h))
  | inr new ↦
      let t = take_node id addr s in
      let inv = take_node-Inv d id addr s known.0 new h in
      let at : contains t.seen id ≡ true = unfold contains in ground (arith, eq_refl id) in
      elim (Bool-cases (leb k (length t.candidates))) [
        | inl full ↦
            rw (new, full)
              (record {
                inv = inv;
                grows = take_node-Grows id addr s;
                covers = λ e. cc;
                enough = λ e. leb→le k (length t.candidates) full;
              })
        | inr room ↦
            rw (new, room)
              (Scanned-cons d id addr nodes s t (scan_bucket nodes t).0 (scan_bucket nodes t).1
                (take_node-Grows id addr s) at (scan_bucket-Scanned d nodes t known.1 inv))
      ]
]

scan_all-Scanned :
    (d : Dht) (nodes : Dict Text) (s : Search)
    → AllKnown d nodes
    → Inv d s
    → Inv d (scan_all nodes s)
unfolding scan_all
scan_all-Scanned d [] s known h = h
scan_all-Scanned d ((id, addr) ∷ nodes) s known h = elim (Bool-cases (contains s.seen id)) [
  | inl old ↦ rw old (scan_all-Scanned d nodes s known.1 h)
  | inr new ↦ rw new (
      scan_all-Scanned d nodes (take_node id addr s) known.1
        (take_node-Inv d id addr s known.0 new h))
]

-- The buckets j, …, j + n - 1 are covered.
abbrev CoversRange : Dht → ℕ → ℕ → Search → Type 0
CoversRange d n j t = (i : ℕ) → j ≤ i → i < j + n → Covers (d.kbuckets i).nodes t

record Ranged (d : Dht) (n j : ℕ) (s t : Search) (done : Bool) : Type 0 where
  inv : Inv d t
  grows : Grows s t
  covers : done ≡ false → CoversRange d n j t
  enough : done ≡ true → k ≤ length t.candidates

scan_range-Ranged :
    (d : Dht) (n j : ℕ) (s : Search)
    → IsTable d
    → Inv d s
    → Ranged d n j s (scan_range d n j s).0 (scan_range d n j s).1
unfolding scan_range
scan_range-Ranged d zero j s table h = record {
  inv = h;
  grows = λ a m. m;
  covers = λ e i ge lt. absurd (omega arith);
  enough = λ e. cc;
}
scan_range-Ranged d (suc n) j s table h =
    let nodes = (d.kbuckets j).nodes in
    let one = scan_bucket-Scanned d nodes s (bucket-AllKnown d j table) h in
    let t = (scan_bucket nodes s).0 in
    elim (Bool-cases (scan_bucket nodes s).1) [
      | inl full ↦ rw full (record {
        inv = one.inv;
        grows = one.grows;
        covers = λ e. cc;
        enough = λ e. one.enough full;
      })
      | inr more ↦
          let rest = scan_range-Ranged d n (j + 1) t table one.inv in
          rw more (record {
            inv = rest.inv;
            grows = λ a m. rest.grows a (one.grows a m);
            covers = λ e i ge lt a m. elim (dec_lt j i) [
              | yes later ↦ rest.covers e i (omega arith) (omega arith) a m
              | no at ↦
                  let same : j ≡ i = omega arith in
                  rest.grows a (one.covers more a (rw (← same) at m))
            ];
            enough = rest.enough;
          })
    ]

record Widened (d : Dht) (s t : Search) : Type 0 where
  inv : Inv d t
  grows : Grows s t
  covers : length t.candidates < k → CoversRange d 256 0 t

round-Widened :
    (d : Dht) (at i : ℕ) (s next : Search)
    → IsTable d
    → Inv d s
    → ((one : Ranged d
          (high at i + 1 - low at i)
          (low at i)
          s
          (scan_range d (high at i + 1 - low at i) (low at i) s).0
          false)
        → Widened d (scan_range d (high at i + 1 - low at i) (low at i) s).0 next)
    → Widened d s (
        if ltb (length s.candidates) k
        then (if (scan_range d (high at i + 1 - low at i) (low at i) s).1
            then (scan_range d (high at i + 1 - low at i) (low at i) s).0
            else next)
        else s)
round-Widened d at i s next table h rest = elim (Bool-cases (ltb (length s.candidates) k)) [
  | inr full ↦ rw full (record { inv = h; grows = λ a m. m; covers = λ few. absurd (ground arith) })
  | inl room ↦
      let width = high at i + 1 - low at i in
      let one = scan_range-Ranged d width (low at i) s table h in
      elim (Bool-cases (scan_range d width (low at i) s).1) [
        | inl done ↦
            rw (room, done)
              (record {
                inv = one.inv;
                grows = one.grows;
                covers = λ few. absurd (omega (arith, one.enough done));
              })
        | inr more ↦
            let later = rest (rw more at one) in
            rw (room, more)
              (record {
                inv = later.inv;
                grows = λ a m. later.grows a (one.grows a m);
                covers = later.covers;
              })
      ]
]

-- The last round, at distance 255, looks into every bucket.
widen-Widened :
    (d : Dht) (at n i : ℕ) (s : Search)
    → IsTable d
    → at < 256
    → suc n + i ≡ 256
    → Inv d s
    → Widened d s (widen d at (suc n) i s)
unfolding widen
widen-Widened d at zero i s table lt sum h =
    round-Widened d at i s (scan_range d (high at i + 1 - low at i) (low at i) s).0 table h λ one.
      record {
        inv = one.inv;
        grows = λ a m. m;
        covers = λ few j ge below. one.covers refl j (ground arith) (ground arith);
      }
widen-Widened d at (suc n) i s table lt sum h =
    round-Widened d at i s
      (widen d at (suc n) (i + 1) (scan_range d (high at i + 1 - low at i) (low at i) s).0) table h
      λ one.
        widen-Widened d at n (i + 1) (scan_range d (high at i + 1 - low at i) (low at i) s).0 table
          lt (omega arith) one.inv

index_from-lt : (i : ℕ) (d : NodeId) → index_from i d < 256
unfolding index_from
index_from-lt i [] = omega arith
index_from-lt i (x ∷ d) = ground (arith, index_from-lt (i + 1) d)

bucket_index-lt : (self id : NodeId) → bucket_index self id < 256
unfolding bucket_index
bucket_index-lt self id = index_from-lt 0 (xor id self)

find_node-Widened :
    (d : Dht) (target : NodeId)
    → IsTable d
    → (s : Search) × Inv d s
      × (find_node d target ≡ s.candidates)
      × (length s.candidates < k → CoversRange d 256 0 s)
unfolding find_node
find_node-Widened d target table =
    let at = bucket_index d.node_id target in
    let empty : Search = record { candidates = []; seen = [] } in
    let nodes = (d.kbuckets at).nodes in
    let first =
      scan_all-Scanned d nodes empty (bucket-AllKnown d at table)
        (record { found = record { known = tt; once = tt }; same = λ a. refl }) in
    let all =
      widen-Widened d at 254 1 (scan_all nodes empty) table (bucket_index-lt d.node_id target) refl
        first in
    (widen d at 255 1 (scan_all nodes empty), all.inv, refl, all.covers)

-- In a table in step, every node that `FindNode` returns is a peer of the table under its own
-- address, and none is returned twice.
pub find_node-IsFound : (d : Dht) (target : NodeId) → IsTable d → IsFound d (find_node d target)
find_node-IsFound d target table =
    let (s, inv, e, covers) = find_node-Widened d target table in rw e inv.found

-- In a table in step, `FindNode` returns fewer than `k` nodes only if it returns every peer of the
-- table.
pub find_node_complete :
    (d : Dht) (target id : NodeId) (addr : Text)
    → IsTable d
    → length (find_node d target) < k
    → lookup id d.peers ≡ some addr
    → contains (ids (find_node d target)) id ≡ true
find_node_complete d target id addr table few peer =
    let (s, inv, e, covers) = find_node-Widened d target table in
    let at = bucket_index d.node_id id in
    let placed : contains (keys (d.kbuckets at).nodes) id ≡ true =
      contains-keys (d.kbuckets at).nodes id addr (table.agrees id ∙ peer) in
    let seen =
      covers (omega (arith, ap length e)) at (omega arith)
        (omega (arith, bucket_index-lt d.node_id id)) id placed in
    rw e (ground (arith, inv.same id))
