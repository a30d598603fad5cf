-- ===== src/Protocol/Lines.antt =====
-- A line of the protocol: bare words and quoted fields, one space between them.
use mathlib.Core.List.{append_assoc, append-nil}
use mathlib.Core.Option
use myteams.Prelude.{
  ℕ, List, [], ◌∷◌, ◌++◌, map, Bool, true, false, not, ◌&&◌, ◌≡◌, refl, ap, ◌∙◌, none, some, Text,
  empty, ◌==◌, arith, All,
}
use myteams.Protocol.{quote_protocol_field}
use myteams.Protocol.Words.{is_space, words_from, words, starts_quoted, ends_quoted}
use myteams.Protocol.TokenParser.{collect_tokens, parse}
use myteams.Protocol.Quoting.{
  is_plain, is_clean, escape_clean, Ends, words_from-Ends, words_from-plain,
}
use myteams.Protocol.RoundTrip.{read_quoted, quote_is_no_space}

-- An argument of a line: a bare word, or a field behind `quoteProtocolField`.
pub data Part : Type 0 where
  word : Text → Part
  field : Text → Part

abbrev pub content : Part → Text
content (word s) = s
content (field s) = s

unfoldable pub all_plain : Text → Bool
all_plain [] = true
all_plain (c ∷ s) = is_plain c && all_plain s

-- The arguments that come back: no escapes, no runs of spaces, none at the start of a field.
unfoldable pub is_sound : Part → Bool
is_sound (word s) = not (empty s) && all_plain s
is_sound (field s) = is_clean false s

unfoldable pub show : Part → Text
show (word s) = s
show (field s) = quote_protocol_field s

-- The ending of the line is empty or `"\r\n"`.
unfoldable pub render_more : Text → List Part → Text
render_more ending [] = ending
render_more ending (p ∷ ps) = 32 ∷ (show p ++ render_more ending ps)

unfoldable pub render : Text → List Part → Text
render ending [] = []
render ending (p ∷ ps) = show p ++ render_more ending ps

more-Ends :
    (ending : Text) (ps : List Part)
    → Ends ending []
    → Ends (render_more ending ps) (render ending ps)
unfolding render render_more
more-Ends ending [] e = e
more-Ends ending (p ∷ ps) e = Ends.blank (show p ++ render_more ending ps)

plain_byte : (c : ℕ) → is_plain c ≡ true → ((c == b'"') ≡ false) × (is_space c ≡ false)
unfolding is_plain
plain_byte c h = (ground arith, ground arith)

read_word :
    (a : ℕ) (acc w : Text) {rest r : Text}
    → Ends rest r
    → all_plain w ≡ true
    → words_from (a ∷ acc) (w ++ rest) ≡ (a ∷ (acc ++ w)) ∷ words_from [] r
unfolding all_plain
read_word a acc [] e h = rw (append-nil acc) (words_from-Ends (a ∷ acc) e (λ z. cc))
read_word a acc (c ∷ w) {rest} {r} e h =
    words_from-plain (a ∷ acc) c (w ++ rest) (plain_byte c (ground arith)).1
    ∙ read_word a (acc ++ c ∷ []) w e (ground arith)
    ∙ ap (λ x. (a ∷ x) ∷ words_from [] r) (append_assoc acc (c ∷ []) w)

take_word :
    (c : ℕ) (w : Text) (ws : List Text)
    → (c == b'"') ≡ false
    → collect_tokens none ((c ∷ w) ∷ ws) ≡ Option.map (◌∷◌ (c ∷ w)) (collect_tokens none ws)
unfolding collect_tokens starts_quoted
take_word c w ws h = rw (h, collect_tokens) refl

read_part :
    (p : Part) {rest r : Text}
    → Ends rest r
    → is_sound p ≡ true
    → collect_tokens none (words_from [] (show p ++ rest))
      ≡ Option.map (◌∷◌ (content p)) (collect_tokens none (words_from [] r))
unfolding is_sound show quote_protocol_field all_plain ends_quoted
read_part (word []) e h = cc
read_part (word (c ∷ s)) {rest} {r} e h =
    ap (collect_tokens none) (
      words_from-plain [] c (s ++ rest) (plain_byte c (ground arith)).1
      ∙ read_word c [] s e (ground arith))
    ∙ take_word c s (words_from [] r) (plain_byte c (ground arith)).0
read_part (field s) {rest} {r} e h =
    rw (escape_clean false s h, append_assoc s (b'"' ∷ []) rest)
      (ap (collect_tokens none) (words_from-plain [] b'"' (s ++ b'"' ∷ rest) quote_is_no_space)
        ∙ read_quoted [] s e h refl)

read_parts :
    (ending : Text) (ps : List Part)
    → Ends ending []
    → All (λ p. is_sound p ≡ true) ps
    → collect_tokens none (words_from [] (render ending ps)) ≡ some (map content ps)
unfolding render collect_tokens words_from
read_parts ending [] e h = refl
read_parts ending (p ∷ ps) e (h, hs) =
    read_part p (more-Ends ending ps e) h
    ∙ ap (Option.map (◌∷◌ (content p))) (read_parts ending ps e hs)

-- The client's tokeniser reads a line of words and quoted fields, one space between them and with
-- or without `"\r\n"` behind them, back as the list of what the words and fields hold. The words
-- are not empty; no byte of a word or field is a quote, a backslash or a separator, but a field
-- may have single spaces inside or at its end.
pub parse-render :
    (ending : Text) (ps : List Part)
    → Ends ending []
    → All (λ p. is_sound p ≡ true) ps
    → parse (render ending ps) ≡ some (map content ps)
unfolding parse words
parse-render ending ps e h = read_parts ending ps e h
