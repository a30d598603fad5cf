-- ===== src/Protocol/RoundTrip.antt =====
-- A line of words and quoted fields comes back from the client's tokeniser.
use mathlib.Core.List.{append_assoc, append-nil}
use mathlib.Core.Option
use myteams.Prelude.{
  ℕ, List, [], ◌∷◌, ◌++◌, Bool, true, false, not, ◌&&◌, ◌≡◌, ◌≢◌, ◌⊎◌, refl, sym, ap, ◌∙◌, none,
  some, Text, empty, ◌==◌, arith, Bool-cases, inl, inr,
}
use myteams.Protocol.Words.{is_space, words_from, starts_quoted, ends_quoted, pop_back}
use myteams.Protocol.TokenParser.{collect_tokens}
use myteams.Protocol.Quoting.{
  is_plain, is_clean, ends_quoted-concat, pop_back-concat, Ends, words_from-Ends, concat-ne-nil,
  words_from-plain, words_from-space,
}

-- The four things that a word does to the tokeniser.
closing :
    (q w : Text) (ws : List Text)
    → (not (empty w) && ends_quoted w) ≡ true
    → collect_tokens (some q) (w ∷ ws)
      ≡ Option.map (◌∷◌ (pop_back (q ++ (32 ∷ w)))) (collect_tokens none ws)
unfolding collect_tokens
closing q w ws h = rw (h, collect_tokens) refl

keeping :
    (q w : Text) (ws : List Text)
    → ends_quoted w ≡ false
    → collect_tokens (some q) (w ∷ ws) ≡ collect_tokens (some (q ++ (32 ∷ w))) ws
unfolding collect_tokens
keeping q [] ws h = refl
keeping q (c ∷ w) ws h = rw (h, collect_tokens) refl

quoted_whole :
    (w : Text) (ws : List Text)
    → (not (empty w) && ends_quoted w) ≡ true
    → collect_tokens none ((b'"' ∷ w) ∷ ws) ≡ Option.map (◌∷◌ (pop_back w)) (collect_tokens none ws)
unfolding collect_tokens starts_quoted
quoted_whole w ws h = rw (h, collect_tokens) refl

opening :
    (w : Text) (ws : List Text)
    → ends_quoted w ≡ false
    → collect_tokens none ((b'"' ∷ w) ∷ ws) ≡ collect_tokens (some w) ws
unfolding collect_tokens starts_quoted
opening [] ws h = refl
opening (c ∷ w) ws h = rw (h, collect_tokens) refl

concat_closes : (w : Text) → (not (empty (w ++ b'"' ∷ [])) && ends_quoted (w ++ b'"' ∷ [])) ≡ true
concat_closes [] = ends_quoted-concat [] b'"'
concat_closes (c ∷ w) = ends_quoted-concat (c ∷ w) b'"'

close :
    (q w : Text) (ws : List Text)
    → collect_tokens (some q) ((w ++ b'"' ∷ []) ∷ ws)
      ≡ Option.map (◌∷◌ (q ++ (32 ∷ w))) (collect_tokens none ws)
close q w ws =
    closing q (w ++ b'"' ∷ []) ws (concat_closes w)
    ∙ ap (λ x. Option.map (◌∷◌ x) (collect_tokens none ws))
        (ap pop_back (sym (append_assoc q (32 ∷ w) (b'"' ∷ [])))
          ∙ pop_back-concat (q ++ 32 ∷ w) b'"')

pub quote_is_no_space : is_space b'"' ≡ false
unfolding is_space
quote_is_no_space = refl

clean_cases :
    (spaced : Bool) (c : ℕ) (s : Text)
    → is_clean spaced (c ∷ s) ≡ true
    → ((c ≡ 32) × ((spaced ≡ false) × (is_clean true s ≡ true)))
      ⊎ ((is_space c ≡ false) × (((c == b'"') ≡ false) × (is_clean false s ≡ true)))
unfolding is_clean is_plain
clean_cases spaced c s h = elim (Bool-cases (c == 32)) [
  | inl e ↦ inl (ground arith, (ground arith, ground arith))
  | inr e ↦ inr (ground arith, (ground arith, ground arith))
]

ends_plain : (acc : Text) (c : ℕ) → (c == b'"') ≡ false → ends_quoted (acc ++ c ∷ []) ≡ false
ends_plain acc c h = ends_quoted-concat acc c ∙ h

not_empty : (xs : Text) → empty xs ≡ false → xs ≢ []
not_empty [] h = cc
not_empty (x ∷ xs) h = λ e. cc

grown :
    (acc : Text) (c : ℕ) (f : Text)
    → is_clean false f ≡ true
    → is_clean (empty (acc ++ c ∷ [])) f ≡ true
grown [] c f h = h
grown (a ∷ acc) c f h = h

pub first_is :
    {x y : Text} (ws : List Text)
    → x ≡ y
    → Option.map (◌∷◌ x) (collect_tokens none ws) ≡ Option.map (◌∷◌ y) (collect_tokens none ws)
first_is ws e = ap (λ x. Option.map (◌∷◌ x) (collect_tokens none ws)) e

-- The rest of a field whose quote is open, behind `acc`, the word that is being read.
read_open :
    (q acc f : Text) {rest r : Text}
    → Ends rest r
    → is_clean (empty acc) f ≡ true
    → ends_quoted acc ≡ false
    → collect_tokens (some q) (words_from acc (f ++ b'"' ∷ rest))
      ≡ Option.map (◌∷◌ (q ++ (32 ∷ (acc ++ f)))) (collect_tokens none (words_from [] r))
unfolding ends_quoted
read_open q acc [] {rest} {r} e h shut =
    rw
      (
        words_from-plain acc b'"' rest (quote_is_no_space),
        words_from-Ends (acc ++ b'"' ∷ []) e (concat-ne-nil acc b'"'),
        append-nil acc,
      )
      (close q acc (words_from [] r))
read_open q acc (c ∷ f) {rest} {r} e h shut = elim (clean_cases (empty acc) c f h) [
  | inl (is_blank, (full, later)) ↦ rw is_blank (
      ap (collect_tokens (some q)) (words_from-space acc (f ++ b'"' ∷ rest) (not_empty acc full))
      ∙ keeping q acc (words_from [] (f ++ b'"' ∷ rest)) shut
      ∙ read_open (q ++ (32 ∷ acc)) [] f e later refl
      ∙ first_is (words_from [] r) (append_assoc q (32 ∷ acc) (32 ∷ f)))
  | inr (word, (other, later)) ↦
      ap (collect_tokens (some q)) (words_from-plain acc c (f ++ b'"' ∷ rest) word)
      ∙ read_open q (acc ++ c ∷ []) f e (grown acc c f later) (ends_plain acc c other)
      ∙ first_is (words_from [] r) (ap (λ x. q ++ (32 ∷ x)) (append_assoc acc (c ∷ []) f))
]

-- A quoted field whose first word is being read, `acc` behind the quote.
pub read_quoted :
    (acc f : Text) {rest r : Text}
    → Ends rest r
    → is_clean false f ≡ true
    → ends_quoted acc ≡ false
    → collect_tokens none (words_from (b'"' ∷ acc) (f ++ b'"' ∷ rest))
      ≡ Option.map (◌∷◌ (acc ++ f)) (collect_tokens none (words_from [] r))
unfolding ends_quoted
read_quoted acc [] {rest} {r} e h shut =
    ap (collect_tokens none) (
      words_from-plain (b'"' ∷ acc) b'"' rest quote_is_no_space
      ∙ words_from-Ends (b'"' ∷ (acc ++ b'"' ∷ [])) e (λ z. cc))
    ∙ quoted_whole (acc ++ b'"' ∷ []) (words_from [] r) (concat_closes acc)
    ∙ first_is (words_from [] r) (pop_back-concat acc b'"' ∙ sym (append-nil acc))
read_quoted acc (c ∷ f) {rest} {r} e h shut = elim (clean_cases false c f h) [
  | inl (is_blank, (full, later)) ↦ rw is_blank (
      ap (collect_tokens none) (words_from-space (b'"' ∷ acc) (f ++ b'"' ∷ rest) (λ z. cc))
      ∙ opening acc (words_from [] (f ++ b'"' ∷ rest)) shut
      ∙ read_open acc [] f e later refl)
  | inr (word, (other, later)) ↦
      ap (collect_tokens none) (words_from-plain (b'"' ∷ acc) c (f ++ b'"' ∷ rest) word)
      ∙ read_quoted (acc ++ c ∷ []) f e later (ends_plain acc c other)
      ∙ first_is (words_from [] r) (append_assoc acc (c ∷ []) f)
]
