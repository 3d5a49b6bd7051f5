-- ===== src/Prelude/Texts.antt =====
-- Go strings: the list of their bytes, with Go's `==`, `<`, prefixes and constants.
use Prim.Native.Nat.{ℕ}
use Prim.Native.Char.{code}
use Prim.Native.String.{String}
use mathlib.Core.Path.{◌≡◌, refl}
use mathlib.Core.Logic.{◌↔◌}
use mathlib.Core.Bool.{Bool, true, false, ◌&&◌}
use mathlib.Core.Option.{Option, none, some}
use mathlib.Core.List.{List, [], ◌∷◌, ◌++◌}
use native.Mathlib.Omega.{arith}
use thrive.Prelude.Tests.{◌==◌, ltb, if◌then◌else◌}

abbrev pub Text : Type 0
Text = List ℕ

-- A string constant of the source, which is ASCII in every use here.
abbrev pub text : String → Text
text String.[] = []
text (String.◌∷◌ c s) = code c ∷ text s

-- Go's `==` on strings.
infix 50 ◌=ᵗ◌
unfoldable pub ◌=ᵗ◌ : Text → Text → Bool
[] =ᵗ [] = true
[] =ᵗ (y ∷ ys) = false
(x ∷ xs) =ᵗ [] = false
(x ∷ xs) =ᵗ (y ∷ ys) = (x == y) && (xs =ᵗ ys)

pub eq_refl : (s : Text) → (s =ᵗ s) ≡ true
unfolding ◌=ᵗ◌
eq_refl [] = refl
eq_refl (x ∷ xs) = ground (arith, eq_refl xs)

pub eq_sound : (s t : Text) → (s =ᵗ t) ≡ true → s ≡ t
unfolding ◌=ᵗ◌
eq_sound [] [] h = refl
eq_sound [] (y ∷ ys) h = cc
eq_sound (x ∷ xs) [] h = cc
eq_sound (x ∷ xs) (y ∷ ys) h = ground (arith, eq_sound xs ys)

pub eq_iff : (s t : Text) → ((s =ᵗ t) ≡ true) ↔ (s ≡ t)
eq_iff s t = (eq_sound s t, λ e. rw e (eq_refl t))

-- Go's `<` on strings: lexicographic on the bytes.
unfoldable pub less : Text → Text → Bool
less xs [] = false
less [] (y ∷ ys) = true
less (x ∷ xs) (y ∷ ys) = if x == y then less xs ys else ltb x y

pub less_irrefl : (s : Text) → less s s ≡ false
unfolding less
less_irrefl [] = refl
less_irrefl (x ∷ xs) = ground (arith, less_irrefl xs)

pub less_trans : (s t u : Text) → less s t ≡ true → less t u ≡ true → less s u ≡ true
unfolding less
less_trans s t [] h k = cc
less_trans s [] (z ∷ zs) h k = ground arith
less_trans [] (y ∷ ys) (z ∷ zs) h k = refl
less_trans (x ∷ xs) (y ∷ ys) (z ∷ zs) h k = ground (arith, less_trans xs ys zs)

pub less_antisym : (s t : Text) → less s t ≡ false → less t s ≡ false → s ≡ t
unfolding less
less_antisym [] [] h k = refl
less_antisym [] (y ∷ ys) h k = cc
less_antisym (x ∷ xs) [] h k = cc
less_antisym (x ∷ xs) (y ∷ ys) h k = ground (arith, less_antisym xs ys)

-- `s[len(p):]` if `s` begins with `p`: `strings.CutPrefix`, and the slice tests of the source.
unfoldable pub cut_prefix : Text → Text → Option Text
cut_prefix [] s = some s
cut_prefix (p ∷ ps) [] = none
cut_prefix (p ∷ ps) (c ∷ s) = if p == c then cut_prefix ps s else none

pub cut_prefix-append : (p s : Text) → cut_prefix p (p ++ s) ≡ some s
unfolding cut_prefix
cut_prefix-append [] s = refl
cut_prefix-append (c ∷ p) s = ground (arith, cut_prefix-append p s)

pub cut_prefix_sound : (p s : Text) {t : Text} → cut_prefix p s ≡ some t → s ≡ p ++ t
unfolding cut_prefix
cut_prefix_sound [] s h = ground arith
cut_prefix_sound (p ∷ ps) [] h = cc
cut_prefix_sound (p ∷ ps) (c ∷ s) {t} h = ground (arith, cut_prefix_sound ps s {t = t})
