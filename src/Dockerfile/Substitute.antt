-- ===== src/Dockerfile/Substitute.antt =====
-- `substitute` of dockerfile.go: $VAR, ${VAR}, ${VAR:-default} and ${VAR:+alt}.
use thrive.Prelude.{
  ℕ, zero, suc, ◌≤◌, ◌≡◌, refl, ap, ◌∙◌, sym, inl, inr, Bool, true, false, ◌&&◌, ◌||◌, Option, none,
  some, [], ◌∷◌, ◌++◌, arith, Text, Dict, lookup, leb, ◌==◌, ==_iff, is_empty, length, cut,
  Bool-cases, if◌then◌else◌,
}

-- env, and then args.
unfoldable pub value_of : Dict Text → Dict Text → Text → Option Text
value_of args env name = elim (lookup name env) [ some v ↦ some v | none ↦ lookup name args ]

abbrev pub is_name_byte : ℕ → Bool
is_name_byte c =
    (c == b'_')
    || (leb b'a' c && leb c b'z')
    || (leb b'A' c && leb c b'Z')
    || (leb b'0' c && leb c b'9')

-- The longest beginning of name bytes, and the rest.
unfoldable pub span_name : Text → Text × Text
span_name [] = ([], [])
span_name (c ∷ s) =
    let (name, rest) = span_name s in if is_name_byte c then (c ∷ name, rest) else ([], c ∷ s)

-- The parts before and behind the first ':' that is followed by `op`.
unfoldable pub cut_op : ℕ → Text → Option (Text × Text)
cut_op op [] = none
cut_op op (c ∷ []) = none
cut_op op (c ∷ d ∷ s) =
    let rest : Option (Text × Text) = elim (cut_op op (d ∷ s)) [
      | none ↦ none
      | some (a, b) ↦ some (c ∷ a, b)
    ] in
    if (c == b':') && (d == op) then some ([], s) else rest

abbrev pub or_empty : Option Text → Text
or_empty none = []
or_empty (some v) = v

-- What a ${…} with the inside `expr` becomes.
unfoldable pub expand : (Text → Option Text) → Text → Text
unfolding cut_op
expand value expr = elim (cut_op b'-' expr) [
  | some (name, def) ↦ if is_empty (or_empty (value name)) then def else or_empty (value name)
  | none ↦ elim (cut_op b'+' expr) [
    | some (name, alt) ↦ if is_empty (or_empty (value name)) then or_empty (value name) else alt
    | none ↦ or_empty (value expr)
  ]
]

-- The loop over the text; each round takes at least one byte of it.
unfoldable pub substitute_from : ℕ → (Text → Option Text) → Text → Text
unfolding expand span_name
substitute_from zero value s = []
substitute_from (suc fuel) value [] = []
substitute_from (suc fuel) value (c ∷ []) = c ∷ []
substitute_from (suc fuel) value (c ∷ d ∷ s) =
    let plain = c ∷ substitute_from fuel value (d ∷ s) in
    let dollar = b'$' ∷ substitute_from fuel value s in
    let braces : Text = elim (cut b'}' s) [
      | none ↦ c ∷ d ∷ s
      | some (expr, rest) ↦ expand value expr ++ substitute_from fuel value rest
    ] in
    let (name, rest) = span_name (d ∷ s) in
    let variable = or_empty (value name) ++ substitute_from fuel value rest in
    if c == b'$'
    then (if d == b'$'
        then dollar
        else if d == b'{'
        then braces
        else if is_empty name
        then plain
        else variable)
    else plain

-- A round takes a byte, so as many rounds as bytes are enough.
unfoldable pub substitute : Dict Text → Dict Text → Text → Text
unfolding substitute_from value_of
substitute args env s = substitute_from (length s) (value_of args env) s

-- Each '$' doubled.
abbrev pub escape_dollars : Text → Text
escape_dollars [] = []
escape_dollars (c ∷ s) = if c == b'$' then c ∷ c ∷ escape_dollars s else c ∷ escape_dollars s

substitute_from-plain :
    (fuel : ℕ) (value : Text → Option Text) (c : ℕ) (s : Text)
    → (c == b'$') ≡ false
    → length s ≤ fuel
    → substitute_from (suc fuel) value (c ∷ s) ≡ c ∷ substitute_from fuel value s
unfolding substitute_from
substitute_from-plain zero value c [] n h = refl
substitute_from-plain (suc fuel) value c [] n h = refl
substitute_from-plain fuel value c (d ∷ s) n h = rw n

-- The two steps of the round trip below.
substitute_from-escape_dollar :
    (fuel : ℕ) (value : Text → Option Text) (c : ℕ) (s : Text)
    → (c == b'$') ≡ true
    → ((f : ℕ) → length (escape_dollars s) ≤ f → substitute_from f value (escape_dollars s) ≡ s)
    → length (escape_dollars (c ∷ s)) ≤ fuel
    → substitute_from fuel value (escape_dollars (c ∷ s)) ≡ c ∷ s
unfolding substitute_from
substitute_from-escape_dollar zero value c s e ih h = ground arith
substitute_from-escape_dollar (suc zero) value c s e ih h = ground arith
substitute_from-escape_dollar (suc (suc fuel)) value c s e ih h =
    let same : c ≡ b'$' = (==_iff c b'$').0 e in
    let len : length (escape_dollars s) ≤ suc fuel = ground arith in
    rw (e, e) (ap (λ t. b'$' ∷ t) (ih (suc fuel) len) ∙ ap (λ x. x ∷ s) (sym same))

substitute_from-escape_plain :
    (fuel : ℕ) (value : Text → Option Text) (c : ℕ) (s : Text)
    → (c == b'$') ≡ false
    → ((f : ℕ) → length (escape_dollars s) ≤ f → substitute_from f value (escape_dollars s) ≡ s)
    → length (escape_dollars (c ∷ s)) ≤ fuel
    → substitute_from fuel value (escape_dollars (c ∷ s)) ≡ c ∷ s
substitute_from-escape_plain zero value c s e ih h = ground arith
substitute_from-escape_plain (suc fuel) value c s e ih h =
    let len : length (escape_dollars s) ≤ fuel = ground arith in
    rw e
      (substitute_from-plain fuel value c (escape_dollars s) e len ∙ ap (λ t. c ∷ t) (ih fuel len))

substitute_from-escape :
    (fuel : ℕ) (value : Text → Option Text) (s : Text)
    → length (escape_dollars s) ≤ fuel
    → substitute_from fuel value (escape_dollars s) ≡ s
unfolding substitute_from
substitute_from-escape zero value [] h = refl
substitute_from-escape (suc fuel) value [] h = refl
substitute_from-escape fuel value (c ∷ s) h = elim (Bool-cases (c == b'$')) [
  | inl e ↦ substitute_from-escape_dollar fuel value c s e (λ f. substitute_from-escape f value s) h
  | inr e ↦ substitute_from-escape_plain fuel value c s e (λ f. substitute_from-escape f value s) h
]

-- A text whose every '$' is doubled comes out of `substitute` as it was, whatever the build
-- arguments and the environment are.
pub substitute-escape :
    (args env : Dict Text) (s : Text) → substitute args env (escape_dollars s) ≡ s
unfolding substitute
substitute-escape args env s =
    substitute_from-escape (length (escape_dollars s)) (value_of args env) s (omega arith)
