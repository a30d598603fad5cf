-- ===== src/Client/Sending.antt =====
-- What the server reads of a frame that the client sends.
use mathlib.Core.List.{append_assoc, append-nil}
use mathlib.Core.Option
use myteams.Prelude.{
  ℕ, List, [], ◌∷◌, ◌++◌, true, false, ◌≡◌, ◌≢◌, refl, sym, ap, ◌∙◌, none, some, Text, ◌==◌, length,
  if◌then◌else◌, arith, Bool-cases, Option-cases, inl, inr, All,
}
use myteams.Protocol.Words.{is_space, words, words_from, starts_quoted}
use myteams.Protocol.Arguments.{parse_args}
use myteams.Protocol.TokenParser.{collect_tokens, parse}
use myteams.Protocol.Agreement.{is_lone_quote, parse_args-agree}
use myteams.Commands.Handling.{find_command}
use myteams.Client.Schemas.{schemas}
use myteams.Client.CommandLine.{
  dispatch_command_line, sent, is_supported_server_command, starts_with_slash, trim_left,
  remove_prefix, any_named, extract_command,
}
use myteams.Client.Validation.{IsValid, dispatch_command_line-IsPassed}

-- A text up to its first separator, and from there on.
unfoldable pub word_of : Text → Text
word_of [] = []
word_of (c ∷ s) = let rest = word_of s in if is_space c then [] else c ∷ rest

unfoldable pub after : Text → Text
after [] = []
after (c ∷ s) = let rest = after s in if is_space c then c ∷ s else rest

separator : (c : ℕ) (s : Text) → is_space c ≡ true → words_from [] (c ∷ s) ≡ words_from [] s
unfolding words_from
separator c s h = rw (h, words_from) refl

words_from-word :
    (a : ℕ) (acc s : Text)
    → words_from (a ∷ acc) s ≡ (a ∷ (acc ++ word_of s)) ∷ words_from [] (after s)
unfolding words_from word_of after
words_from-word a acc [] = ap (λ w. (a ∷ w) ∷ []) (sym (append-nil acc))
words_from-word a acc (c ∷ s) = elim (Bool-cases (is_space c)) [
  | inl e ↦
      rw (e, append-nil acc, words_from, word_of, after)
        (ap (λ ws. (a ∷ acc) ∷ ws) (sym (separator c s e)))
  | inr e ↦
      rw (e, words_from, word_of, after)
        (words_from-word a (acc ++ c ∷ []) s
          ∙ ap (λ w. (a ∷ w) ∷ words_from [] (after s)) (append_assoc acc (c ∷ []) (word_of s)))
]

word-after : (s : Text) → word_of s ++ after s ≡ s
unfolding word_of after
word-after [] = refl
word-after (c ∷ s) = elim (Bool-cases (is_space c)) [
  | inl e ↦ rw (e, word_of, after) refl
  | inr e ↦ rw (e, word_of, after) (ap (λ x. c ∷ x) (word-after s))
]

remove_prefix-word : (s : Text) → remove_prefix (length (word_of s)) s ≡ after s
unfolding word_of after remove_prefix
remove_prefix-word [] = refl
remove_prefix-word (c ∷ s) = elim (Bool-cases (is_space c)) [
  | inl e ↦ rw (e, word_of, after) refl
  | inr e ↦ rw (e, word_of, after) (remove_prefix-word s)
]

slash_is_plain : (c : ℕ) → (c == b'/') ≡ true → (is_space c ≡ false) × ((c == b'"') ≡ false)
unfolding is_space
slash_is_plain c h = (ground arith, ground arith)

first_word :
    (c : ℕ) (s : Text)
    → is_space c ≡ false
    → words_from [] (c ∷ s) ≡ (c ∷ word_of s) ∷ words_from [] (after s)
unfolding words_from
first_word c s h = rw (h, words_from) (words_from-word c [] s)

taken :
    (c : ℕ) (w : Text) (ws : List Text)
    → (c == b'"') ≡ false
    → collect_tokens none ((c ∷ w) ∷ ws) ≡ Option.map (◌∷◌ (c ∷ w)) (collect_tokens none ws)
unfolding collect_tokens starts_quoted
taken c w ws h = rw (h, collect_tokens) refl

parse-slash :
    (c : ℕ) (s : Text)
    → (c == b'/') ≡ true
    → parse (c ∷ s) ≡ Option.map (◌∷◌ (c ∷ word_of s)) (parse (after s))
unfolding parse words
parse-slash c s h =
    let plain = slash_is_plain c h in
    ap (collect_tokens none) (first_word c s plain.0)
    ∙ taken c (word_of s) (words (after s)) plain.1

extract_command-slash :
    (c : ℕ) (s command : Text)
    → (c == b'/') ≡ true
    → extract_command (c ∷ s) ≡ some command
    → command ≡ c ∷ word_of s
unfolding extract_command
extract_command-slash c s command h e = elim (Option-cases (parse (after s))) [
  | inl f ↦ absurd (ground (arith, parse-slash c s h))
  | inr (us, f) ↦ ground (arith, parse-slash c s h)
]

frame-slash :
    (c : ℕ) (s command : Text)
    → command ≡ c ∷ word_of s
    → command ++ remove_prefix (length command) (c ∷ s) ≡ c ∷ s
unfolding remove_prefix
frame-slash c s command e = rw (e, remove_prefix-word s) (ap (λ x. c ∷ x) (word-after s))

rest-slash :
    (c : ℕ) (s command : Text)
    → command ≡ c ∷ word_of s
    → remove_prefix (length command) (c ∷ s) ≡ after s
unfolding remove_prefix
rest-slash c s command e = rw (e, remove_prefix-word s) refl

parse-frame :
    (trimmed command : Text) (tokens : List Text)
    → starts_with_slash trimmed ≡ true
    → extract_command trimmed ≡ some command
    → parse (remove_prefix (length command) trimmed) ≡ some tokens
    → (command ++ remove_prefix (length command) trimmed ≡ trimmed)
      × (parse trimmed ≡ some (command ∷ tokens))
unfolding starts_with_slash
parse-frame [] command tokens h e v = cc
parse-frame (c ∷ s) command tokens h e v =
    let same = extract_command-slash c s command h e in
    (
      frame-slash c s command same,
      parse-slash c s h
          ∙ ap (Option.map (◌∷◌ (c ∷ word_of s))) (ap parse (sym (rest-slash c s command same)) ∙ v)
          ∙ ap (λ w. some (w ∷ tokens)) (sym same),
    )

-- The names in the client's table are those of the server's commands.
named-known : (command : Text) → any_named command schemas ≡ true → find_command command ≢ none
unfolding any_named schemas find_command
named-known command h e = ground arith

-- A line that starts with a slash and that the client sends goes out as it is, but for separators
-- in front. Unless a word of it is one quote and nothing else, the server's tokeniser reads it as
-- the command and the arguments that the client has validated, and the server has a handler for
-- the command.
pub dispatch_command_line-parse_args :
    (line command frame : Text)
    → dispatch_command_line line ≡ sent command frame
    → starts_with_slash (trim_left line) ≡ true
    → All (λ w. is_lone_quote w ≡ false) (words frame)
    → (frame ≡ trim_left line)
      × (v : IsValid command (remove_prefix (length command) (trim_left line))) × (parse_args frame
          ≡ some (command ∷ v.tokens))
      × (find_command command ≢ none)
unfolding is_supported_server_command
dispatch_command_line-parse_args line command frame h slash lone =
    let (first, supported, starts, framed, v) =
      dispatch_command_line-IsPassed line command frame h in
    let (whole, parsed) = parse-frame (trim_left line) command v.tokens slash first v.parsed in
    (
      framed ∙ whole,
      v,
      parse_args-agree frame (command ∷ v.tokens) lone (ap parse (framed ∙ whole) ∙ parsed),
      named-known command supported,
    )
