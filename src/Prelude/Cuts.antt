-- ===== src/Prelude/Cuts.antt =====
-- Splitting a string at a byte: `strings.Cut`, and the cut at the last occurrence.
use Prim.Native.Nat.{ℕ}
use mathlib.Core.Path.{◌≡◌, refl}
use mathlib.Core.Bool.{Bool, false, ◌||◌}
use mathlib.Core.Option.{Option, none, some}
use mathlib.Core.List.{[], ◌∷◌, ◌++◌}
use native.Mathlib.Omega.{arith}
use thrive.Prelude.Tests.{◌==◌, if◌then◌else◌}
use thrive.Prelude.Texts.{Text}

-- Whether the byte stands in the text.
unfoldable pub has : ℕ → Text → Bool
has c [] = false
has c (x ∷ s) = (x == c) || has c s

abbrev pub cons_fst : ℕ → Option (Text × Text) → Option (Text × Text)
cons_fst x none = none
cons_fst x (some (a, b)) = some (x ∷ a, b)

-- The parts before and behind the first occurrence.
unfoldable pub cut : ℕ → Text → Option (Text × Text)
cut c [] = none
cut c (x ∷ s) = let rest = cut c s in if x == c then some ([], s) else cons_fst x rest

-- The parts before and behind the last occurrence.
unfoldable pub cut_last : ℕ → Text → Option (Text × Text)
cut_last c [] = none
cut_last c (x ∷ s) = elim (cut_last c s) [
  | some (a, b) ↦ some (x ∷ a, b)
  | none ↦ if x == c then some ([], s) else none
]

pub cut-append : (c : ℕ) (a b : Text) → has c a ≡ false → cut c (a ++ c ∷ b) ≡ some (a, b)
unfolding cut has
cut-append c [] b h = ground arith
cut-append c (x ∷ a) b h = ground (arith, cut-append c a b)

pub cut-none : (c : ℕ) (s : Text) → has c s ≡ false → cut c s ≡ none
unfolding cut has
cut-none c [] h = refl
cut-none c (x ∷ s) h = ground (arith, cut-none c s)

pub cut_last-none : (c : ℕ) (b : Text) → has c b ≡ false → cut_last c b ≡ none
unfolding cut_last has
cut_last-none c [] h = refl
cut_last-none c (x ∷ b) h = ground (arith, cut_last-none c b)

pub cut_last-append : (c : ℕ) (a b : Text) → has c b ≡ false → cut_last c (a ++ c ∷ b) ≡ some (a, b)
unfolding cut_last
cut_last-append c [] b h = ground (arith, cut_last-none c b)
cut_last-append c (x ∷ a) b h = ground (arith, cut_last-append c a b)

pub has-append : (c : ℕ) (a b : Text) → has c (a ++ b) ≡ (has c a || has c b)
unfolding has
has-append c [] b = refl
has-append c (x ∷ a) b = ground (arith, has-append c a b)
