-- ===== src/Dockerfile/Tests.antt =====
-- A Dockerfile of three steps, and the theorems at it. The instance of the parameters reads no JSON.
use thrive.Prelude.{
  ◌≡◌, refl, List, [], ◌∷◌, ◌++◌, Option, none, Text, text, ◌=ᵗ◌, Dict, lookup, insert, contains,
  cut, has, cut_prefix,
}
use thrive.Dag.{levels, new, topological_sort}
use thrive.Dockerfile.Scan.{
  trim_left, trim_right, split_from, split_lines, fields, has_prefix, split_instruction,
}
use thrive.Dockerfile.Lines.{cut_backslash, join_lines, logical_lines, comment_continuation}
use thrive.Dockerfile.Substitute.{substitute, escape_dollars, substitute-escape}
use thrive.Dockerfile.Parse.{Step, ok, exec_instruction, exec_lines}
use thrive.Dockerfile.Graph.{Parsed, link, finish, parse}
use thrive.Dockerfile.Chain.{IsChain, parse-IsChain}
use thrive.Dockerfile.Buildable.{parse-IsSortable}
use thrive.Dockerfile.Known.{IsChecked, parse-IsKnown}

abbrev unmarshal : Text → Option (List Text)
unmarshal s = none

abbrev join : Text → Text → Text
join a b = a ++ b'/' ∷ b

abbrev order : Dict Text → Dict Text
order m = m

abbrev given : Text
given = text "FROM a" ++ 10 ∷ text "RUN b" ++ 10 ∷ text "CMD c"

abbrev built : Step
built = record { name = []; run = text "b"; copy = []; depends_on = []; cache_key = [] }

abbrev parsed : Parsed
parsed = record {
  graph =
      link 0 [] (built ∷ [])
        (record { steps = []; base_image = text "a"; entry_cmd = text "c" ∷ []; edges = [] });
  warnings = [];
}

accepted : parse unmarshal join order given [] ≡ ok parsed
unfolding parse exec_lines exec_instruction finish logical_lines join_lines cut_backslash trim_left
    trim_right split_lines split_from fields has_prefix split_instruction cut has cut_prefix
    contains ◌=ᵗ◌ lookup insert substitute
accepted = refl

comment_continuation_example :
    join_lines [] ((b'#' ∷ text " note" ++ 92 ∷ []) ∷ text "RUN b" ∷ text "CMD c" ∷ [])
    ≡ join_lines [] (text "CMD c" ∷ [])
unfolding cut_backslash trim_right
comment_continuation_example =
    comment_continuation (text " note") (text "RUN b") (text "CMD c" ∷ []) refl

substitute-escape_example :
    substitute [] ((text "A", text "x") ∷ []) (escape_dollars (text "cost: $A")) ≡ text "cost: $A"
substitute-escape_example = substitute-escape [] ((text "A", text "x") ∷ []) (text "cost: $A")

parse-IsChain_example : (l : List Step) × IsChain l parsed.graph
parse-IsChain_example = parse-IsChain unmarshal join order given [] parsed accepted

parse-IsSortable_example :
    (ls : List (List Text)) × (topological_sort (new [] parsed.graph.edges) ≡ levels ls)
parse-IsSortable_example = parse-IsSortable unmarshal join order given [] parsed [] accepted

parse-IsKnown_example : IsChecked unmarshal join order given (parse unmarshal join order given [])
parse-IsKnown_example = parse-IsKnown unmarshal join order given []
