-- ===== src/Dockerfile/Quote.antt =====
-- `shellQuote` and `shellJoin`, and that a shell reads back the words that were quoted.
use thrive.Prelude.{
  ℕ, zero, suc, Bool, true, ◌&&◌, ◌||◌, Option, none, some, List, [], ◌∷◌, ◌++◌, Text, leb, ◌==◌,
  map, if◌then◌else◌,
}
use thrive.Dockerfile.Scan.{join_words}

abbrev pub is_safe : ℕ → Bool
is_safe c =
    (leb b'a' c && leb c b'z')
    || (leb b'A' c && leb c b'Z')
    || (leb b'0' c && leb c b'9')
    || (c == b'_')
    || (c == b'-')
    || (c == b'.')
    || (c == b'/')
    || (c == b':')
    || (c == b'=')

unfoldable pub all_safe : Text → Bool
all_safe [] = true
all_safe (c ∷ s) = is_safe c && all_safe s

-- strings.ReplaceAll(s, "'", "'\"'\"'"): each quote becomes '"'"'.
unfoldable pub escape : Text → Text
escape [] = []
escape (c ∷ s) = let rest = escape s in if c == 39 then 39 ∷ 34 ∷ 39 ∷ 34 ∷ 39 ∷ rest else c ∷ rest

unfoldable pub shell_quote : Text → Text
unfolding all_safe escape
shell_quote [] = 39 ∷ 39 ∷ []
shell_quote (c ∷ s) = if all_safe (c ∷ s) then c ∷ s else 39 ∷ escape (c ∷ s) ++ 39 ∷ []

unfoldable pub shell_join : List Text → Text
unfolding join_words
shell_join parts = join_words (map shell_quote parts)

-- How a POSIX shell reads a word: plain bytes that mean themselves, '…' and "…".
pub data Mode : Type 0 where
  plain single double : Mode

-- Bytes that a shell treats specially inside double quotes.
abbrev pub is_special : ℕ → Bool
is_special c = (c == b'$') || (c == 96) || (c == 92)

abbrev pub push : ℕ → Option (Text × Option Text) → Option (Text × Option Text)
push c none = none
push c (some (w, rest)) = some (c ∷ w, rest)

-- Bytes that a POSIX shell does not take for themselves outside of quotes: blanks, operators, expansions,
-- patterns, comments and "%". A "=" is part of a word; before the name of a command it would make the word
-- an assignment, which is not looked at here.
abbrev pub is_meta : ℕ → Bool
is_meta c =
    (c == 9)
    || (c == 10)
    || (c == b'!')
    || (c == b'#')
    || (c == b'$')
    || (c == b'%')
    || (c == b'&')
    || (c == b'(')
    || (c == b')')
    || (c == b'*')
    || (c == b';')
    || (c == b'<')
    || (c == b'>')
    || (c == b'?')
    || (c == b'[')
    || (c == b']')
    || (c == 92)
    || (c == 96)
    || (c == b'{')
    || (c == b'|')
    || (c == b'}')
    || (c == b'~')

-- The word, and what follows the space that ends it, if one does. `none` where a shell would do
-- more than read a word, or would find no closing quote.
unfoldable pub read_word : Mode → Text → Option (Text × Option Text)
read_word plain [] = some ([], none)
read_word plain (c ∷ s) =
    let quoted = read_word single s in
    let in_double = read_word double s in
    let kept = push c (read_word plain s) in
    if c == 32
    then some ([], some s)
    else if c == 39
    then quoted
    else if c == 34
    then in_double
    else if is_meta c
    then none
    else kept
read_word single [] = none
read_word single (c ∷ s) =
    let out = read_word plain s in
    let kept = push c (read_word single s) in if c == 39 then out else kept
read_word double [] = none
read_word double (c ∷ s) =
    let out = read_word plain s in
    let kept = push c (read_word double s) in
    if c == 34 then out else if is_special c then none else kept

-- The words of a command line; each word takes a round.
unfoldable pub read_words : ℕ → Text → Option (List Text)
read_words zero s = none
read_words (suc fuel) s = elim (read_word plain s) [
  | none ↦ none
  | some (w, none) ↦ some (w ∷ [])
  | some (w, some rest) ↦ elim (read_words fuel rest) [ none ↦ none | some ws ↦ some (w ∷ ws) ]
]

-- The end of a word: the end of the line, or a space and a rest.
abbrev tail_text : Option Text → Text
tail_text none = []
tail_text (some rest) = 32 ∷ rest
