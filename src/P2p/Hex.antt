-- ===== src/P2p/Hex.antt =====
-- `NodeIDFromString` and `parseHex` of dht.go, and `Announce`, which hashes a digest to an id.
use Prim.Native.Nat.{bit_or}
use thrive.Prelude.{
  ℕ, ◌+◌, ◌-◌, ◌*◌, ◌/◌, ◌%◌, ◌<◌, ◌≡◌, refl, Bool, true, false, ◌&&◌, Option, none, some, [], ◌∷◌,
  arith, Text, length, All, ltb, leb, ◌==◌, ==_iff, if◌then◌else◌,
}
use thrive.P2p.{NodeId, Dht, add_node}
use thrive.P2p.Index.{all_below, all_below_sound}

unfoldable pub hex_digit : ℕ → Option ℕ
hex_digit c =
    if leb b'0' c && leb c b'9'
    then some (c - b'0')
    else if leb b'a' c && leb c b'f'
    then some (c - b'a' + 10)
    else if leb b'A' c && leb c b'F'
    then some (c - b'A' + 10)
    else none

-- v << 4 | b, on a byte.
unfoldable pub hex_from : ℕ → Text → Option ℕ
unfolding hex_digit
hex_from v [] = some v
hex_from v (c ∷ s) = elim (hex_digit c) [
  | none ↦ none
  | some b ↦ hex_from (bit_or (v * 16 % 256) b) s
]

unfoldable pub parse_hex : Text → Option ℕ
unfolding hex_from
parse_hex s = hex_from 0 s

-- The bytes of the pairs of digits, in order, up to the first bad one.
unfoldable pub parse_pairs : Text → Option NodeId
unfolding parse_hex
parse_pairs (a ∷ b ∷ s) = elim (parse_hex (a ∷ b ∷ [])) [
  | none ↦ none
  | some x ↦ elim (parse_pairs s) [ none ↦ none | some d ↦ some (x ∷ d) ]
]
parse_pairs _ = some []

unfoldable pub node_id_from_string : Text → Option NodeId
unfolding parse_pairs
node_id_from_string s = if length s == 64 then parse_pairs s else none

-- `Announce`; `none` is the panic of slicing `chunkDigest[:12]` for the log line.
unfoldable pub announce : (Text → NodeId) → Dht → Text → Text → ℕ → Option Dht
announce sha256 d digest peer_addr random =
    if ltb (length digest) 12 then none else some (add_node d (sha256 digest) peer_addr random)

-- Two digits for a byte, as `%x` prints it.
abbrev pub digit : ℕ → ℕ
digit n = if ltb n 10 then b'0' + n else b'a' + (n - 10)

abbrev pub print_id : NodeId → Text
print_id [] = []
print_id (x ∷ d) = digit (x / 16) ∷ digit (x % 16) ∷ print_id d

is_read : ℕ → Bool
unfolding parse_hex
is_read x = elim (parse_hex (digit (x / 16) ∷ digit (x % 16) ∷ [])) [
  | none ↦ false
  | some y ↦ y == x
]

read_table : all_below 256 is_read ≡ true
unfolding all_below is_read
read_table = refl

parse_hex-digits : (x : ℕ) → x < 256 → parse_hex (digit (x / 16) ∷ digit (x % 16) ∷ []) ≡ some x
parse_hex-digits x lt =
    let row = all_below_sound 256 is_read x lt read_table in
    go (parse_hex (digit (x / 16) ∷ digit (x % 16) ∷ [])) refl row
  where
    go :
        (r : Option ℕ)
        → parse_hex (digit (x / 16) ∷ digit (x % 16) ∷ []) ≡ r
        → is_read x ≡ true
        → r ≡ some x
    go r e row = unfold is_read in ground (arith, e, row)

length-print_id : (d : NodeId) → length (print_id d) ≡ 2 * length d
length-print_id [] = refl
length-print_id (x ∷ d) = omega (arith, length-print_id d)

parse_pairs-print : (d : NodeId) → All (λ x. x < 256) d → parse_pairs (print_id d) ≡ some d
unfolding parse_pairs
parse_pairs-print [] h = refl
parse_pairs-print (x ∷ d) h = ground (arith, parse_hex-digits x h.0, parse_pairs-print d h.1)

-- An id of 32 bytes is read back from its 64 digits.
pub node_id_from_string-print :
    (d : NodeId) → length d ≡ 32 → All (λ x. x < 256) d → node_id_from_string (print_id d) ≡ some d
unfolding node_id_from_string
node_id_from_string-print d len bytes =
    let size : (length (print_id d) == 64) ≡ true =
      (==_iff (length (print_id d)) 64).1 (omega (arith, length-print_id d)) in
    rw size (parse_pairs-print d bytes)
