-- ===== src/Dockerfile/Scan.antt =====
-- The functions of package `strings` that the parser uses, and `splitInstruction`.
use thrive.Prelude.{
  ℕ, ◌-◌, Bool, true, false, ◌&&◌, ◌||◌, Option, none, some, List, [], ◌∷◌, ◌++◌, Text, leb, ◌==◌,
  is_empty, cut_prefix, if◌then◌else◌,
}

-- '\t', '\n', '\v', '\f', '\r' and ' '.
abbrev pub is_space : ℕ → Bool
is_space c = (c == 32) || (leb 9 c && leb c 13)

unfoldable pub trim_left : Text → Text
trim_left [] = []
trim_left (c ∷ s) = let rest = trim_left s in if is_space c then rest else c ∷ s

-- `strings.TrimRight`, with the test for the bytes that go.
unfoldable pub trim_right : (ℕ → Bool) → Text → Text
trim_right p [] = []
trim_right p (c ∷ s) = let rest = trim_right p s in if is_empty rest && p c then [] else c ∷ rest

unfoldable pub trim_space : Text → Text
unfolding trim_left trim_right
trim_space s = trim_right is_space (trim_left s)

abbrev pub flush : Text → List Text → List Text
flush [] l = l
flush (c ∷ w) l = (c ∷ w) ∷ l

-- `strings.Fields`, from the word that has begun.
unfoldable pub fields_from : Text → Text → List Text
fields_from w [] = flush w []
fields_from w (c ∷ s) =
    let rest = flush w (fields_from [] s) in
    let more = fields_from (w ++ c ∷ []) s in if is_space c then rest else more

unfoldable pub fields : Text → List Text
unfolding fields_from
fields s = fields_from [] s

-- `strings.Split(s, "\n")`, from the line that has begun.
unfoldable pub split_from : Text → Text → List Text
split_from w [] = w ∷ []
split_from w (c ∷ s) =
    let rest = w ∷ split_from [] s in
    let more = split_from (w ++ c ∷ []) s in if c == 10 then rest else more

unfoldable pub split_lines : Text → List Text
unfolding split_from
split_lines s = split_from [] s

-- `strings.ToUpper`.
unfoldable pub to_upper : Text → Text
to_upper [] = []
to_upper (c ∷ s) = (if leb b'a' c && leb c b'z' then c - 32 else c) ∷ to_upper s

unfoldable pub has_prefix : Text → Text → Bool
has_prefix p s = elim (cut_prefix p s) [ none ↦ false | some rest ↦ true ]

-- The parts before and behind the first space or tab, as `strings.IndexAny` finds it.
unfoldable pub cut_blank : Text → Option (Text × Text)
cut_blank [] = none
cut_blank (c ∷ s) =
    let rest : Option (Text × Text) = elim (cut_blank s) [
      | none ↦ none
      | some (a, b) ↦ some (c ∷ a, b)
    ] in
    if (c == 32) || (c == 9) then some ([], s) else rest

-- "RUN echo hi" is ("RUN", "echo hi").
unfoldable pub split_instruction : Text → Text × Text
unfolding cut_blank to_upper trim_space
split_instruction line = elim (cut_blank line) [
  | none ↦ (to_upper line, [])
  | some (a, b) ↦ (to_upper a, trim_space b)
]

-- `strings.Join(words, " ")`.
unfoldable pub join_words : List Text → Text
join_words [] = []
join_words (w ∷ []) = w
join_words (w ∷ v ∷ ws) = w ++ 32 ∷ join_words (v ∷ ws)
