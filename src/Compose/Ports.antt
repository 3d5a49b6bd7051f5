-- ===== src/Compose/Ports.antt =====
-- `parseComposePorts` and `parsePortNum` of compose.go.
use thrive.Prelude.{
  ℕ, zero, suc, ◌+◌, ◌-◌, ◌*◌, ◌/◌, ◌%◌, ◌^◌, ◌<◌, ◌≡◌, refl, inl, inr, Bool, false, ◌&&◌, ◌||◌,
  Option, none, some, List, [], ◌∷◌, ◌++◌, arith, Text, text, ltb, Bool-cases, has, cut, cut-append,
  cut_last, cut_last-append, itoa, digits_onto, has-itoa, if◌then◌else◌,
}

-- A Go `int` is 64 bits wide: the values of `n` modulo 2^64, those from 2^63 negative.
abbrev pub int_mod : ℕ
int_mod = 2 ^ 64

abbrev pub int_limit : ℕ
int_limit = 2 ^ 63

-- `n > 0` of an `int`.
abbrev pub is_positive : ℕ → Bool
is_positive n = ltb 0 n && ltb n int_limit

unfoldable pub port_value : ℕ → Text → ℕ
port_value n [] = n
port_value n (c ∷ s) =
    let rest = port_value ((n * 10 + (c - 48)) % int_mod) s in
    if ltb c 48 || ltb 57 c then 0 else rest

unfoldable pub parse_port_num : Text → ℕ
unfolding port_value
parse_port_num s = port_value 0 s

pub record PortMapping : Type 0 where
  pub host_port : ℕ
  pub container_port : ℕ
  pub protocol : Text

-- The protocol behind the last '/', and the rest of the spec.
unfoldable pub split_protocol : Text → Text × Text
split_protocol spec = elim (cut_last b'/' spec) [ none ↦ (text "tcp", spec) | some (s, p) ↦ (p, s) ]

-- The body of the loop: the mapping of one spec, if it gives one.
unfoldable pub parse_port : Text → Option PortMapping
unfolding split_protocol
parse_port given =
    let (proto, spec) = split_protocol given in
    elim (cut b':' spec) [
      | none ↦ none
      | some (host, container) ↦
          let hp = parse_port_num host in
          let cp = parse_port_num container in
          if is_positive hp && is_positive cp
          then some (record { host_port = hp; container_port = cp; protocol = proto })
          else none
    ]

unfoldable pub parse_compose_ports : List Text → List PortMapping
unfolding parse_port parse_port_num
parse_compose_ports [] = []
parse_compose_ports (spec ∷ specs) =
    let rest = parse_compose_ports specs in
    elim (parse_port spec) [ none ↦ rest | some m ↦ m ∷ rest ]

port_value-digits_onto :
    (fuel n : ℕ) (acc : Text)
    → n < fuel
    → n < int_mod
    → port_value 0 (digits_onto fuel n acc) ≡ port_value n acc
unfolding port_value digits_onto
port_value-digits_onto zero n acc h lt = absurd (omega arith)
port_value-digits_onto (suc fuel) n acc h lt = elim (Bool-cases (ltb n 10)) [
  | inl small ↦
      let same : (0 * 10 + (48 + n - 48)) % int_mod ≡ n = omega arith in rw small (ground arith)
  | inr large ↦
      let next =
        port_value-digits_onto fuel (n / 10) ((48 + n % 10) ∷ acc) (ground arith) (omega arith) in
      let same : (n / 10 * 10 + (48 + n % 10 - 48)) % int_mod ≡ n = omega arith in
      rw (large, next) (ground arith)
]

-- A number that fits is read back.
parse_port_num-itoa : (n : ℕ) → n < int_mod → parse_port_num (itoa n) ≡ n
unfolding parse_port_num itoa
parse_port_num-itoa n lt = port_value-digits_onto (suc n) n [] (omega arith) lt

-- The spec "HOST:CONTAINER/PROTOCOL", and the short form without a protocol.
abbrev pub print_port : PortMapping → Text
print_port m = (itoa m.host_port ++ b':' ∷ itoa m.container_port) ++ b'/' ∷ m.protocol

pub record IsPrintable (m : PortMapping) : Type 0 where
  pub host : (0 < m.host_port) × (m.host_port < int_limit)
  pub container : (0 < m.container_port) × (m.container_port < int_limit)
  pub protocol : has b'/' m.protocol ≡ false

-- A mapping whose ports are positive `int`s and whose protocol has no '/' is read back from its
-- spec "HOST:CONTAINER/PROTOCOL".
pub parse_port-print : (m : PortMapping) → IsPrintable m → parse_port (print_port m) ≡ some m
unfolding parse_port
parse_port-print m h =
    let host = itoa m.host_port in
    let container = itoa m.container_port in
    ground (
      arith,
      cut_last-append b'/' (host ++ b':' ∷ container) m.protocol h.protocol,
      cut-append b':' host container (has-itoa b':' m.host_port refl),
      parse_port_num-itoa m.host_port (omega (arith, h.host)),
      parse_port_num-itoa m.container_port (omega (arith, h.container)),
      h.host,
      h.container,
    )
