-- ===== src/Dockerfile/Lines.antt =====
-- `logicalLines`: continuations are joined, comments and blank lines dropped.
use thrive.Prelude.{
  ℕ, ◌≡◌, refl, inl, inr, Bool, true, false, ◌&&◌, ◌||◌, Option, none, some, List, [], ◌∷◌, ◌++◌,
  arith, Text, ◌==◌, is_empty, All, Bool-cases, Option-cases, if◌then◌else◌,
}
use thrive.Dockerfile.Scan.{is_space, trim_left, trim_right, trim_space, split_lines}

-- ' ', '\t' and '\r'.
abbrev pub is_blank : ℕ → Bool
is_blank c = (c == 32) || (c == 9) || (c == 13)

-- The line without its last byte, if that is a backslash.
unfoldable pub cut_backslash : Text → Option Text
cut_backslash [] = none
cut_backslash (c ∷ s) = elim (cut_backslash s) [
  | some t ↦ some (c ∷ t)
  | none ↦ if is_empty s && (c == 92) then some [] else none
]

abbrev pub is_comment : Text → Bool
is_comment [] = false
is_comment (c ∷ s) = c == b'#'

-- Whether a joined line is kept.
abbrev pub is_kept : Text → Bool
is_kept t = if is_empty t || is_comment t then false else true

unfoldable pub join_lines : Text → List Text → List Text
unfolding cut_backslash trim_space trim_right
join_lines pending [] = let last = trim_space pending in if is_kept last then last ∷ [] else []
join_lines pending (raw ∷ lines) =
    let line = trim_right is_blank raw in
    let joined = trim_space (pending ++ line) in
    let next = join_lines [] lines in
    elim (cut_backslash line) [
      | some t ↦ join_lines (pending ++ (t ++ 32 ∷ [])) lines
      | none ↦ if is_kept joined then joined ∷ next else next
    ]

unfoldable pub logical_lines : Text → List Text
unfolding join_lines split_lines
logical_lines s = join_lines [] (split_lines s)

-- A line that the parser is given: trimmed, not empty and no comment.
pub record IsLogical (t : Text) : Type 0 where
  pub kept : is_kept t ≡ true
  pub trimmed : (s : Text) × (t ≡ trim_space s)

module _ (pending raw : Text) (lines : List Text) where
  join_lines-continued :
      {t : Text}
      → cut_backslash (trim_right is_blank raw) ≡ some t
      → join_lines pending (raw ∷ lines) ≡ join_lines (pending ++ (t ++ 32 ∷ [])) lines
  unfolding join_lines
  join_lines-continued e = rw (e, join_lines)

  join_lines-ended :
      cut_backslash (trim_right is_blank raw) ≡ none
      → join_lines pending (raw ∷ lines) ≡ (
          if is_kept (trim_space (pending ++ trim_right is_blank raw))
          then trim_space (pending ++ trim_right is_blank raw) ∷ join_lines [] lines
          else join_lines [] lines)
  unfolding join_lines
  join_lines-ended e = rw (e, join_lines)

keep-IsLogical :
    (s : Text) (rest : List Text)
    → All IsLogical rest
    → All IsLogical (if is_kept (trim_space s) then trim_space s ∷ rest else rest)
keep-IsLogical s rest h = elim (Bool-cases (is_kept (trim_space s))) [
  | inl kept ↦ rw kept (record { kept = kept; trimmed = (s, refl) }, h)
  | inr out ↦ rw out h
]

join_lines-IsLogical :
    (pending : Text) (lines : List Text) → All IsLogical (join_lines pending lines)
join_lines-IsLogical pending [] = unfold join_lines in keep-IsLogical pending [] tt
join_lines-IsLogical pending (raw ∷ lines) =
    elim (Option-cases (cut_backslash (trim_right is_blank raw))) [
      | inr (t, e) ↦
          rw (join_lines-continued pending raw lines e)
            (join_lines-IsLogical (pending ++ (t ++ 32 ∷ [])) lines)
      | inl e ↦ rw (join_lines-ended pending raw lines e) (
          keep-IsLogical (pending ++ trim_right is_blank raw) (join_lines [] lines)
            (join_lines-IsLogical [] lines))
    ]

-- Every line that `logicalLines` returns is trimmed, not empty and does not begin a comment.
pub logical_lines-IsLogical : (s : Text) → All IsLogical (logical_lines s)
unfolding logical_lines
logical_lines-IsLogical s = join_lines-IsLogical [] (split_lines s)

cut_backslash-snoc : (s : Text) → cut_backslash (s ++ 92 ∷ []) ≡ some s
unfolding cut_backslash
cut_backslash-snoc [] = refl
cut_backslash-snoc (c ∷ s) = ground (arith, cut_backslash-snoc s)

is_empty-snoc : (s : Text) (c : ℕ) → is_empty (s ++ c ∷ []) ≡ false
is_empty-snoc [] c = refl
is_empty-snoc (x ∷ s) c = refl

trim_right-snoc :
    (p : ℕ → Bool) (s : Text) (c : ℕ) → p c ≡ false → trim_right p (s ++ c ∷ []) ≡ s ++ c ∷ []
unfolding trim_right
trim_right-snoc p [] c h = rw h
trim_right-snoc p (x ∷ s) c h = rw (trim_right-snoc p s c h, is_empty-snoc s c)

trim_space-comment : (s : Text) → (t : Text) × (trim_space (b'#' ∷ s) ≡ b'#' ∷ t)
unfolding trim_space trim_right trim_left
trim_space-comment s = (trim_right is_space s, ground arith)

-- A comment line that ends in a backslash takes the next line with it, where that line does not end in a
-- backslash itself (blanks at its end aside): the lines that are returned are those of the rest of the file.
pub comment_continuation :
    (comment line : Text) (lines : List Text)
    → cut_backslash (trim_right is_blank line) ≡ none
    → join_lines [] ((b'#' ∷ comment ++ 92 ∷ []) ∷ line ∷ lines) ≡ join_lines [] lines
comment_continuation comment line lines h =
    let first : cut_backslash (trim_right is_blank (b'#' ∷ comment ++ 92 ∷ []))
        ≡ some (b'#' ∷ comment) =
      rw (trim_right-snoc is_blank (b'#' ∷ comment) 92 refl)
        (cut_backslash-snoc (b'#' ∷ comment)) in
    let (t, e) = trim_space-comment ((comment ++ 32 ∷ []) ++ trim_right is_blank line) in
    rw (
      join_lines-continued [] (b'#' ∷ comment ++ 92 ∷ []) (line ∷ lines) first,
      join_lines-ended (b'#' ∷ comment ++ 32 ∷ []) line lines h,
      e,
    )
