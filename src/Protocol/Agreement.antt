-- ===== src/Protocol/Agreement.antt =====
-- The server's tokeniser beside the client's.
use mathlib.Core.Option
use myteams.Prelude.{
  List, [], ◌∷◌, ◌++◌, Bool, true, false, ◌&&◌, ◌≡◌, refl, Option, none, some, Text, empty, arith,
  Bool-cases, inl, inr, All,
}
use myteams.Protocol.Words.{words, starts_quoted, ends_quoted, tail, pop_back}
use myteams.Protocol.TokenParser.{collect_tokens, parse}
use myteams.Protocol.Arguments.{collect_args, parse_args}

-- A word that is one quote and nothing else.
abbrev pub is_lone_quote : Text → Bool
is_lone_quote w = starts_quoted w && empty (tail w)

-- What the first result gives, the second gives too.
abbrev Follows : Option (List Text) → Option (List Text) → Type 0
Follows a b = (us : List Text) → a ≡ some us → b ≡ some us

map-Follows :
    (w : Text) (a b : Option (List Text))
    → Follows a b
    → Follows (Option.map (◌∷◌ w) a) (Option.map (◌∷◌ w) b)
map-Follows w none b f us e = cc
map-Follows w (some vs) b f us e = rw (f vs refl) e

pub not_lone :
    (w : Text) → is_lone_quote w ≡ false → starts_quoted w ≡ true → empty (tail w) ≡ false
not_lone w h q = ground arith

collect-Follows :
    (open_quote : Option Text) (ws : List Text)
    → All (λ w. is_lone_quote w ≡ false) ws
    → Follows (collect_tokens open_quote ws) (collect_args open_quote ws)
unfolding collect_tokens collect_args ends_quoted
collect-Follows none [] h = λ us e. e
collect-Follows none (w ∷ ws) (h, hs) = elim (Bool-cases (starts_quoted w)) [
  | inl q ↦ elim (Bool-cases (ends_quoted (tail w))) [
    | inl e ↦
        rw (q, not_lone w h q, e, collect_tokens, collect_args)
          (map-Follows (pop_back (tail w)) (collect_tokens none ws) (collect_args none ws)
            (collect-Follows none ws hs))
    | inr e ↦
        rw (q, not_lone w h q, e, collect_tokens, collect_args)
          (collect-Follows (some (tail w)) ws hs)
  ]
  | inr q ↦
      rw (q, collect_tokens, collect_args)
        (map-Follows w (collect_tokens none ws) (collect_args none ws) (collect-Follows none ws hs))
]
collect-Follows (some q) [] h = λ us e. cc
collect-Follows (some q) ([] ∷ ws) (h, hs) = collect-Follows (some (q ++ 32 ∷ [])) ws hs
collect-Follows (some q) ((c ∷ w) ∷ ws) (h, hs) = elim (Bool-cases (ends_quoted (c ∷ w))) [
  | inl e ↦
      rw (e, collect_tokens, collect_args)
        (map-Follows (pop_back (q ++ (32 ∷ c ∷ w))) (collect_tokens none ws) (collect_args none ws)
          (collect-Follows none ws hs))
  | inr e ↦ rw (e, collect_tokens, collect_args) (collect-Follows (some (q ++ (32 ∷ c ∷ w))) ws hs)
]

-- The server's tokeniser returns the arguments that the client's tokeniser returns, on each line
-- with no word that is one quote and nothing else.
pub parse_args-agree :
    (raw : Text) (us : List Text)
    → All (λ w. is_lone_quote w ≡ false) (words raw)
    → parse raw ≡ some us
    → parse_args raw ≡ some us
unfolding parse parse_args
parse_args-agree raw us h e = collect-Follows none (words raw) h us e
