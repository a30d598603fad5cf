-- ===== src/Client/Quotes.antt =====
-- `hasUnquotedArgs` of client/protocol/CommandLineDispatcher.cpp against a description of what it
-- passes.
use myteams.Prelude.{
  ℕ, [], ◌∷◌, ◌++◌, true, false, ◌≡◌, ◌↔◌, refl, sym, ap, subst, ◌∙◌, Text, ◌==◌, arith, Bool-cases,
  inl, inr, All,
}
use myteams.Protocol.Words.{is_space}
use myteams.Client.CommandLine.{has_unquoted, has_unquoted_args}

-- A list of arguments that are all quoted: separators, and texts between quotes.
pub data IsQuoted : Text → Type 0 where
  done : IsQuoted []
  blank : (c : ℕ) (s : Text) → is_space c ≡ true → IsQuoted s → IsQuoted (c ∷ s)
  quoted :
      (f s : Text)
      → All (λ c. (c == b'"') ≡ false) f
      → IsQuoted s
      → IsQuoted (b'"' ∷ (f ++ b'"' ∷ s))

-- Behind an opening quote: a text without quotes up to the closing one.
pub record IsOpen (s : Text) : Type 0 where
  pub inside : Text
  pub rest : Text
  pub clean : All (λ c. (c == b'"') ≡ false) inside
  pub split : s ≡ inside ++ b'"' ∷ rest
  pub later : IsQuoted rest

quote_byte : (c : ℕ) → (c == b'"') ≡ true → c ≡ b'"'
quote_byte c h = ground arith

quotes_sound :
    (s : Text)
    → (has_unquoted false s ≡ false → IsQuoted s) × (has_unquoted true s ≡ false → IsOpen s)
unfolding has_unquoted
quotes_sound [] = (λ h. done, λ h. cc)
quotes_sound (c ∷ s) = (
  λ h. elim (Bool-cases (is_space c)) [
    | inl e ↦ blank c s e ((quotes_sound s).0 (ground arith))
    | inr e ↦ elim (Bool-cases (c == b'"')) [
      | inl q ↦
          let o = (quotes_sound s).1 (ground arith) in
          subst IsQuoted
            (sym (
              ap (λ x. c ∷ x) o.split ∙ ap (λ d. d ∷ (o.inside ++ b'"' ∷ o.rest)) (quote_byte c q)))
            (quoted o.inside o.rest o.clean o.later)
      | inr q ↦ absurd (ground arith)
    ]
  ],
  λ h. elim (Bool-cases (c == b'"')) [
    | inl q ↦ record {
      inside = [];
      rest = s;
      clean = tt;
      split = ap (λ d. d ∷ s) (quote_byte c q);
      later = (quotes_sound s).0 (ground arith);
    }
    | inr q ↦
        let o = (quotes_sound s).1 (ground arith) in
        record {
          inside = c ∷ o.inside;
          rest = o.rest;
          clean = (q, o.clean);
          split = ap (λ x. c ∷ x) o.split;
          later = o.later;
        }
  ],
)

inside-skipped :
    (f s : Text)
    → All (λ c. (c == b'"') ≡ false) f
    → has_unquoted true (f ++ b'"' ∷ s) ≡ has_unquoted false s
unfolding has_unquoted
inside-skipped [] s h = refl
inside-skipped (c ∷ f) s (h, hs) = rw (h, has_unquoted) (inside-skipped f s hs)

quotes_complete : (s : Text) → IsQuoted s → has_unquoted false s ≡ false
unfolding has_unquoted is_space
quotes_complete _ done = refl
quotes_complete _ (blank c s e q) = rw (e, has_unquoted) (quotes_complete s q)
quotes_complete _ (quoted f s clean q) = inside-skipped f s clean ∙ quotes_complete s q

-- The client's scan for unquoted arguments passes exactly the texts that are separators and texts
-- between quotes.
pub has_unquoted_args-IsQuoted : (s : Text) → (has_unquoted_args s ≡ false) ↔ IsQuoted s
unfolding has_unquoted_args
has_unquoted_args-IsQuoted s = ((quotes_sound s).0, quotes_complete s)
