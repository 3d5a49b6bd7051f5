-- ===== src/Runtime/Restart.antt =====
-- ParseRestartPolicy of lifecycle.go, and the decision of tryRestart.
use thrive.Prelude.{
  ℕ, ◌^◌, ◌<◌, pos, negsuc, ◌≡◌, refl, ◌⊎◌, inl, inr, Bool, true, false, not, ◌&&◌, ◌||◌, Option,
  none, some, [], ◌∷◌, ◌++◌, arith, Text, text, ◌=ᵗ◌, eq_iff, cut, cut-append, cut-none, has,
  has-append, ap, atoi, atoi-itoa, itoa, itoa-nonempty, is_empty, leb, ltb, ◌==◌, Bool-cases,
  if◌then◌else◌,
}
use thrive.Runtime.{RestartPolicy, ExitCode, exited, signalled}

-- The three policies that have a maximum.
unfoldable pub is_policy : Text → Bool
is_policy name =
    (name =ᵗ text "always") || (name =ᵗ text "on-failure") || (name =ᵗ text "unless-stopped")

-- An empty maximum is 0, and stands for none; a negative one is refused.
unfoldable pub parse_max : Text → Option ℕ
parse_max max =
    if is_empty max
    then some 0
    else elim (atoi max) [ some (pos n) ↦ some n | some (negsuc n) ↦ none | none ↦ none ]

unfoldable pub named_policy : Text → Option ℕ → Option RestartPolicy
named_policy name none = none
named_policy name (some max) =
    if is_policy name then some (record { name = name; max_retry_attempts = max }) else none

abbrev pub parse_named : Text → Text → Option RestartPolicy
parse_named name max = named_policy name (parse_max max)

unfoldable pub parse_restart_policy : Text → Option RestartPolicy
parse_restart_policy spec =
    if is_empty spec || (spec =ᵗ text "no")
    then some (record { name = text "no"; max_retry_attempts = 0 })
    else elim (cut b':' spec) [
      | none ↦ parse_named spec []
      | some (name, max) ↦ parse_named name max
    ]

unfoldable pub is_failure : ExitCode → Bool
is_failure (exited n) = ltb 0 n
is_failure signalled = true

unfoldable pub should_restart : RestartPolicy → ExitCode → Bool
should_restart policy code =
    if (policy.name =ᵗ text "always") || (policy.name =ᵗ text "unless-stopped")
    then true
    else (policy.name =ᵗ text "on-failure") && is_failure code

-- Whether tryRestart counts one more restart, with `restarts` of them before.
unfoldable pub may_restart : RestartPolicy → ExitCode → ℕ → Bool
may_restart policy code restarts =
    let limit = policy.max_retry_attempts in
    should_restart policy code && not (ltb 0 limit && leb limit restarts)

-- How a policy is written: the maximum 0 is left out.
unfoldable pub print : RestartPolicy → Text
print policy =
    if policy.max_retry_attempts == 0
    then policy.name
    else policy.name ++ b':' ∷ itoa policy.max_retry_attempts

-- What ParseRestartPolicy accepts: one of the three names and a maximum that is an int.
pub record IsPolicy (policy : RestartPolicy) : Type 0 where
  pub known : is_policy policy.name ≡ true
  pub small : policy.max_retry_attempts < 2 ^ 63

policy_name-cases :
    (name : Text)
    → is_policy name ≡ true
    → (name ≡ text "always") ⊎ (name ≡ text "on-failure") ⊎ (name ≡ text "unless-stopped")
unfolding is_policy
policy_name-cases name known = ground (
  arith,
  eq_iff name (text "always"),
  eq_iff name (text "on-failure"),
  eq_iff name (text "unless-stopped"),
)

-- A name of a policy is not empty and not "no", and has no colon.
abbrev IsPlain : Text → Type 0
IsPlain name = (is_empty name ≡ false) × ((name =ᵗ text "no") ≡ false) × (has b':' name ≡ false)

policy_name-IsPlain : (name : Text) → is_policy name ≡ true → IsPlain name
unfolding has ◌=ᵗ◌
policy_name-IsPlain name known = elim (policy_name-cases name known) [
  | inl e ↦ rw e (refl, refl, refl)
  | inr (inl e) ↦ rw e (refl, refl, refl)
  | inr (inr e) ↦ rw e (refl, refl, refl)
]

is_empty-append : (name rest : Text) → is_empty name ≡ false → is_empty (name ++ rest) ≡ false
is_empty-append [] rest h = cc
is_empty-append (c ∷ name) rest h = refl

-- A name with a colon behind it is not a name without one.
no-append : (name rest : Text) → ((name ++ b':' ∷ rest) =ᵗ text "no") ≡ false
no-append name rest = elim (Bool-cases ((name ++ b':' ∷ rest) =ᵗ text "no")) [
  | inr e ↦ e
  | inl e ↦
      let same = (eq_iff (name ++ b':' ∷ rest) (text "no")).0 e in
      let at = ap (has b':') same in
      unfold has in absurd (ground (arith, has-append b':' name (b':' ∷ rest), at))
]

parse_max-itoa : (n : ℕ) → n < 2 ^ 63 → parse_max (itoa n) ≡ some n
unfolding parse_max
parse_max-itoa n small =
    let (c, s, e) = itoa-nonempty n in let value = atoi-itoa n small in rw value (rw e refl)

parse_named_lem :
    (name max : Text) (n : ℕ)
    → parse_max max ≡ some n
    → is_policy name ≡ true
    → parse_named name max ≡ some (record { name = name; max_retry_attempts = n })
unfolding named_policy
parse_named_lem name max n value known = rw value (rw known refl)

parse_bare :
    (name : Text)
    → is_policy name ≡ true
    → parse_restart_policy name ≡ some (record { name = name; max_retry_attempts = 0 })
unfolding parse_restart_policy
parse_bare name known =
    let (filled, not_no, no_colon) = policy_name-IsPlain name known in
    rw (filled, not_no, cut-none b':' name no_colon)
      (parse_named_lem name [] 0 (unfold parse_max in refl) known)

parse_with_max :
    (name : Text) (n : ℕ)
    → is_policy name ≡ true
    → n < 2 ^ 63
    → parse_restart_policy (name ++ b':' ∷ itoa n)
      ≡ some (record { name = name; max_retry_attempts = n })
unfolding parse_restart_policy
parse_with_max name n known small =
    let (filled, not_no, no_colon) = policy_name-IsPlain name known in
    rw
      (
        is_empty-append name (b':' ∷ itoa n) filled,
        no-append name (itoa n),
        cut-append b':' name (itoa n) no_colon,
      )
      (parse_named_lem name (itoa n) n (parse_max-itoa n small) known)

-- A policy with one of the three names that have a maximum, and a maximum below 2^63, is read back from
-- the way it is written.
pub parse_restart_policy-print :
    (policy : RestartPolicy) → IsPolicy policy → parse_restart_policy (print policy) ≡ some policy
unfolding print
parse_restart_policy-print policy h = elim (Bool-cases (policy.max_retry_attempts == 0)) [
  | inl zero ↦ rw zero (ground (arith, parse_bare policy.name h.known))
  | inr more ↦ rw more (parse_with_max policy.name policy.max_retry_attempts h.known h.small)
]
