-- ===== src/P2p/Index.antt =====
-- `bucketIndex` and `log2` of dht.go.
use thrive.Prelude.{
  ℕ, zero, suc, ◌+◌, ◌-◌, ◌*◌, ◌^◌, ◌≤◌, ◌<◌, ◌≡◌, refl, ◌↔◌, Bool, true, ◌&&◌, ◌∷◌, arith, ltb,
  leb, ◌==◌, if◌then◌else◌,
}
use thrive.P2p.{NodeId, xor, log2, index_from, bucket_index}

-- Over a small range every value is checked by evaluation.
unfoldable pub all_below : ℕ → (ℕ → Bool) → Bool
all_below zero p = true
all_below (suc n) p = p n && all_below n p

pub all_below_sound :
    (bound : ℕ) (test : ℕ → Bool) (value : ℕ)
    → value < bound
    → all_below bound test ≡ true
    → test value ≡ true
unfolding all_below
all_below_sound zero test value small h = absurd (omega arith)
all_below_sound (suc bound) test value small h = ground (arith, all_below_sound bound test value)

log2_table :
    all_below 256
      (λ x. if x == 0 then true else leb (2 ^ log2 x) x && ltb x (2 * 2 ^ log2 x) && leb (log2 x) 7)
    ≡ true
unfolding all_below log2
log2_table = refl

pub record IsLog (x n : ℕ) : Type 0 where
  pub below : 2 ^ n ≤ x
  pub above : x < 2 * 2 ^ n
  pub small : n ≤ 7

-- On a non-zero byte `log2` is the position of the highest bit.
pub log2-IsLog : (x : ℕ) → 0 < x → x < 256 → IsLog x (log2 x)
log2-IsLog x pos lt =
    let row =
      all_below_sound 256
        (λ x.
          if x == 0 then true else leb (2 ^ log2 x) x && ltb x (2 * 2 ^ log2 x) && leb (log2 x) 7)
        x lt log2_table in
    record { below = ground arith; above = ground arith; small = ground arith }

-- A distance whose first non-zero byte is byte `i`, with value `x`.
pub data Leads : NodeId → ℕ → ℕ → Type 0 where
  here : {x : ℕ} {d : NodeId} → 0 < x → x < 256 → Leads (x ∷ d) 0 x
  next : {d : NodeId} {i x : ℕ} → Leads d i x → Leads (0 ∷ d) (suc i) x

Leads-byte : {d : NodeId} {i x : ℕ} → Leads d i x → (0 < x) × (x < 256)
Leads-byte (here pos lt) = (pos, lt)
Leads-byte (next h) = Leads-byte h

index_from-Leads :
    (j : ℕ) {d : NodeId} {i x : ℕ} → Leads d i x → index_from j d ≡ 255 - (j + i) * 8 - log2 x
unfolding index_from
index_from-Leads j (here {x} pos lt) = ground arith
index_from-Leads j (next {i = i} h) =
    let same : j + 1 + i ≡ j + suc i = omega arith in rw (← same) (index_from-Leads (j + 1) h)

-- Where a distance begins in byte `i` of the 32, nothing is cut off below 0: the index counts the
-- bytes down from 255, and within a byte the positions of its highest bit.
pub bucket_index-Leads :
    (self id : NodeId) {i x : ℕ}
    → Leads (xor id self) i x
    → i < 32
    → bucket_index self id + i * 8 + log2 x ≡ 255
unfolding bucket_index
bucket_index-Leads self id {i} {x} h lt =
    let (pos, byte) = Leads-byte h in
    omega (arith, index_from-Leads 0 h, (log2-IsLog x pos byte).small)

-- Two peers, neither of them the node itself, share a bucket exactly when their distances from the
-- node have their highest bit in the same place.
pub bucket_index_iff :
    (self a b : NodeId) {i j x y : ℕ}
    → Leads (xor a self) i x
    → Leads (xor b self) j y
    → i < 32
    → j < 32
    → (bucket_index self a ≡ bucket_index self b) ↔ ((i ≡ j) × (log2 x ≡ log2 y))
bucket_index_iff self a b {i} {j} {x} {y} h k hi hj =
    let (px, bx) = Leads-byte h in
    let (py, by) = Leads-byte k in
    let ea = bucket_index-Leads self a h hi in
    let eb = bucket_index-Leads self b k hj in
    let sx = (log2-IsLog x px bx).small in
    let sy = (log2-IsLog y py by).small in
    (λ e. (omega arith, omega arith), λ e. omega (arith, e.0, e.1))

-- The index does not follow the distance. Of two peers whose distances begin in different bytes the
-- closer one has the smaller index; of two whose distances begin in the same byte, at different
-- bits, the closer one has the larger index.
pub bucket_index_order :
    (self a b : NodeId) {i j x y : ℕ}
    → Leads (xor a self) i x
    → Leads (xor b self) j y
    → i < 32
    → j < 32
    → (i < j → bucket_index self b < bucket_index self a)
      × ((i ≡ j) × (log2 x < log2 y) → bucket_index self b < bucket_index self a)
bucket_index_order self a b {i} {j} {x} {y} h k hi hj =
    let (px, bx) = Leads-byte h in
    let (py, by) = Leads-byte k in
    let ea = bucket_index-Leads self a h hi in
    let eb = bucket_index-Leads self b k hj in
    let sx = (log2-IsLog x px bx).small in
    let sy = (log2-IsLog y py by).small in (λ e. omega arith, λ e. omega (arith, e.0, e.1))
