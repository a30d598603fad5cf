-- ===== src/Protocol/Arguments.antt =====
-- `parseArgs` of server/commands/commandHandling. The first argument of the loop is the quoted
-- argument that is open. `quotedArg.back()` on an empty string is undefined: the result is `none`.
use myteams.Prelude.{List, [], ◌∷◌, ◌++◌, true, false, Option, none, some, Text, empty}
use mathlib.Core.Option
use myteams.Protocol.Words.{words, starts_quoted, ends_quoted, tail, pop_back}

unfoldable pub collect_args : Option Text → List Text → Option (List Text)
collect_args none [] = some []
collect_args none (w ∷ ws) = elim (starts_quoted w) [
  | true ↦ elim (empty (tail w)) [
    | true ↦ none
    | false ↦ elim (ends_quoted (tail w)) [
      | true ↦ Option.map (◌∷◌ (pop_back (tail w))) (collect_args none ws)
      | false ↦ collect_args (some (tail w)) ws
    ]
  ]
  | false ↦ Option.map (◌∷◌ w) (collect_args none ws)
]
collect_args (some quoted) [] = some []
collect_args (some quoted) (w ∷ ws) = elim (ends_quoted w) [
  | true ↦ Option.map (◌∷◌ (pop_back (quoted ++ (32 ∷ w)))) (collect_args none ws)
  | false ↦ collect_args (some (quoted ++ (32 ∷ w))) ws
]

unfoldable pub parse_args : Text → Option (List Text)
unfolding collect_args words starts_quoted ends_quoted pop_back
parse_args raw = collect_args none (words raw)
