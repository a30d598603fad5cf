-- ===== src/Protocol/TokenParser.antt =====
-- client/protocol/TokenParser.cpp. The result is `none` for a quote that is never closed.
use myteams.Prelude.{List, [], ◌∷◌, ◌++◌, true, false, not, ◌&&◌, Option, none, some, Text, empty}
use mathlib.Core.Option
use myteams.Protocol.Words.{words, starts_quoted, ends_quoted, tail, pop_back}

unfoldable pub collect_tokens : Option Text → List Text → Option (List Text)
collect_tokens none [] = some []
collect_tokens none (w ∷ ws) = elim (starts_quoted w) [
  | true ↦ elim (not (empty (tail w)) && ends_quoted (tail w)) [
    | true ↦ Option.map (◌∷◌ (pop_back (tail w))) (collect_tokens none ws)
    | false ↦ collect_tokens (some (tail w)) ws
  ]
  | false ↦ Option.map (◌∷◌ w) (collect_tokens none ws)
]
collect_tokens (some quoted) [] = none
collect_tokens (some quoted) (w ∷ ws) = elim (not (empty w) && ends_quoted w) [
  | true ↦ Option.map (◌∷◌ (pop_back (quoted ++ (32 ∷ w)))) (collect_tokens none ws)
  | false ↦ collect_tokens (some (quoted ++ (32 ∷ w))) ws
]

unfoldable pub parse : Text → Option (List Text)
unfolding collect_tokens words starts_quoted ends_quoted pop_back
parse raw = collect_tokens none (words raw)
