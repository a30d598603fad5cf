-- ===== src/Protocol/Unclosed.antt =====
-- The two tokenisers on every line: also on one whose last quote is never closed.
use mathlib.Core.Option
use myteams.Prelude.{
  List, [], ◌∷◌, ◌++◌, true, false, ◌≡◌, refl, ap, sym, subst, ◌∙◌, ◌⊎◌, Option, none, some, Text,
  Bool-cases, inl, inr, All,
}
use myteams.Protocol.Words.{words, starts_quoted, ends_quoted, tail, pop_back}
use myteams.Protocol.TokenParser.{collect_tokens, parse}
use myteams.Protocol.Arguments.{collect_args, parse_args}
use myteams.Protocol.Agreement.{is_lone_quote, not_lone}

abbrev pub AllOpen : List Text → Type 0
AllOpen ws = All (λ w. ends_quoted w ≡ false) ws

-- A word opens a quote that neither it nor a later word closes, and the words before it are the
-- tokens `us`.
pub record Unclosed (quoted : Option Text) (ws us : List Text) : Type 0 where
  pub before : List Text
  pub word : Text
  pub behind : List Text
  pub split : ws ≡ before ++ word ∷ behind
  pub given : collect_tokens quoted before ≡ some us
  pub opens : starts_quoted word ≡ true
  pub unclosed : ends_quoted (tail word) ≡ false
  pub later : AllOpen behind

-- Or the quote that was open from the start is never closed.
abbrev End : Option Text → List Text → List Text → Type 0
End quoted ws us = Unclosed quoted ws us ⊎ ((q : Text) × (quoted ≡ some q) × (us ≡ []) × AllOpen ws)

abbrev Agrees : Option Text → List Text → Type 0
Agrees quoted ws =
    (us : List Text) × (collect_args quoted ws ≡ some us)
    × ((collect_tokens quoted ws ≡ some us)
        ⊎ ((collect_tokens quoted ws ≡ none) × End quoted ws us))

-- A word that ends a token.
ended-Agrees :
    (quoted : Option Text) (w v : Text) (ws : List Text)
    → ((xs : List Text)
        → collect_tokens quoted (w ∷ xs) ≡ Option.map (◌∷◌ v) (collect_tokens none xs))
    → collect_args quoted (w ∷ ws) ≡ Option.map (◌∷◌ v) (collect_args none ws)
    → Agrees none ws
    → Agrees quoted (w ∷ ws)
ended-Agrees quoted w v ws tokens args (us, a, inl t) =
    (v ∷ us, args ∙ ap (Option.map (◌∷◌ v)) a, inl (tokens ws ∙ ap (Option.map (◌∷◌ v)) t))
ended-Agrees quoted w v ws tokens args (us, a, inr (t, inl u)) = (
  v ∷ us,
  args ∙ ap (Option.map (◌∷◌ v)) a,
  inr (
    tokens ws ∙ ap (Option.map (◌∷◌ v)) t,
    inl record {
      before = w ∷ u.before;
      word = u.word;
      behind = u.behind;
      split = ap (λ xs. w ∷ xs) u.split;
      given = tokens u.before ∙ ap (Option.map (◌∷◌ v)) u.given;
      opens = u.opens;
      unclosed = u.unclosed;
      later = u.later;
    },
  ),
)
ended-Agrees quoted w v ws tokens args (us, a, inr (t, inr (q, e, nil, all_open))) = absurd cc

-- A word behind which a quote is open.
open-Agrees :
    (quoted : Option Text) (q w : Text) (ws : List Text)
    → ((xs : List Text) → collect_tokens quoted (w ∷ xs) ≡ collect_tokens (some q) xs)
    → collect_args quoted (w ∷ ws) ≡ collect_args (some q) ws
    → (AllOpen ws → End quoted (w ∷ ws) [])
    → Agrees (some q) ws
    → Agrees quoted (w ∷ ws)
open-Agrees quoted q w ws tokens args stays (us, a, inl t) = (us, args ∙ a, inl (tokens ws ∙ t))
open-Agrees quoted q w ws tokens args stays (us, a, inr (t, inl u)) = (
  us,
  args ∙ a,
  inr (
    tokens ws ∙ t,
    inl record {
      before = w ∷ u.before;
      word = u.word;
      behind = u.behind;
      split = ap (λ xs. w ∷ xs) u.split;
      given = tokens u.before ∙ u.given;
      opens = u.opens;
      unclosed = u.unclosed;
      later = u.later;
    },
  ),
)
open-Agrees quoted q w ws tokens args stays (us, a, inr (t, inr (r, e, nil, all_open))) =
    (us, args ∙ a, inr (tokens ws ∙ t, subst (End quoted (w ∷ ws)) (sym nil) (stays all_open)))

opened :
    (w : Text) (ws : List Text)
    → starts_quoted w ≡ true
    → ends_quoted (tail w) ≡ false
    → AllOpen ws
    → End none (w ∷ ws) []
unfolding collect_tokens
opened w ws s e a = inl record {
  before = [];
  word = w;
  behind = ws;
  split = refl;
  given = refl;
  opens = s;
  unclosed = e;
  later = a;
}

collect-Agrees :
    (quoted : Option Text) (ws : List Text)
    → All (λ w. is_lone_quote w ≡ false) ws
    → Agrees quoted ws
unfolding collect_tokens collect_args ends_quoted
collect-Agrees none [] h = ([], refl, inl refl)
collect-Agrees (some q) [] h = ([], refl, inr (refl, inr (q, refl, refl, tt)))
collect-Agrees none (w ∷ ws) (h, hs) = elim (Bool-cases (starts_quoted w)) [
  | inr s ↦
      ended-Agrees none w w ws (λ xs. rw (s, collect_tokens) refl) (rw (s, collect_args) refl)
        (collect-Agrees none ws hs)
  | inl s ↦ elim (Bool-cases (ends_quoted (tail w))) [
    | inl e ↦
        ended-Agrees none w (pop_back (tail w)) ws
          (λ xs. rw (s, not_lone w h s, e, collect_tokens) refl)
          (rw (s, not_lone w h s, e, collect_args) refl) (collect-Agrees none ws hs)
    | inr e ↦
        open-Agrees none (tail w) w ws (λ xs. rw (s, not_lone w h s, e, collect_tokens) refl)
          (rw (s, not_lone w h s, e, collect_args) refl) (opened w ws s e)
          (collect-Agrees (some (tail w)) ws hs)
  ]
]
collect-Agrees (some q) ([] ∷ ws) (h, hs) =
    open-Agrees (some q) (q ++ 32 ∷ []) [] ws (λ xs. refl) refl
      (λ a. inr (q, refl, refl, (refl, a))) (collect-Agrees (some (q ++ 32 ∷ [])) ws hs)
collect-Agrees (some q) ((c ∷ w) ∷ ws) (h, hs) = elim (Bool-cases (ends_quoted (c ∷ w))) [
  | inl e ↦
      ended-Agrees (some q) (c ∷ w) (pop_back (q ++ (32 ∷ c ∷ w))) ws
        (λ xs. rw (e, collect_tokens) refl) (rw (e, collect_args) refl) (collect-Agrees none ws hs)
  | inr e ↦
      open-Agrees (some q) (q ++ (32 ∷ c ∷ w)) (c ∷ w) ws (λ xs. rw (e, collect_tokens) refl)
        (rw (e, collect_args) refl) (λ a. inr (q, refl, refl, (e, a)))
        (collect-Agrees (some (q ++ (32 ∷ c ∷ w))) ws hs)
]

-- On each line with no word that is one quote and nothing else, the server's tokeniser has a
-- result. It is that of the client's tokeniser, if that has one. If it has none, then a word opens a
-- quote that is never closed, and the server's result is what the client's tokeniser makes of the
-- words before it.
pub parse_args-parse :
    (raw : Text)
    → All (λ w. is_lone_quote w ≡ false) (words raw)
    → (us : List Text) × (parse_args raw ≡ some us)
      × ((parse raw ≡ some us) ⊎ ((parse raw ≡ none) × Unclosed none (words raw) us))
unfolding parse parse_args
parse_args-parse raw h =
    let (us, a, r) = collect-Agrees none (words raw) h in
    elim r [
      | inl t ↦ (us, a, inl t)
      | inr n ↦ elim n.1 [
        | inl u ↦ (us, a, inr (n.0, u))
        | inr still ↦ absurd (let (q, e, nil, all_open) = still in cc)
      ]
    ]
