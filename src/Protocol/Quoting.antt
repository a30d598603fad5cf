-- ===== src/Protocol/Quoting.antt =====
-- Which fields the quoting of `quoteProtocolField` carries through the tokeniser.
use myteams.Prelude.{
  ℕ, [], ◌∷◌, ◌++◌, Bool, true, false, not, ◌&&◌, ◌≡◌, ◌≢◌, refl, ap, Text, ◌==◌, if◌then◌else◌,
  arith,
}
use myteams.Protocol.{escape}
use myteams.Protocol.Words.{is_space, words_from, ends_quoted, pop_back}

-- A byte of a field that is neither a quote, nor a backslash, nor a separator.
unfoldable pub is_plain : ℕ → Bool
is_plain c = not (c == b'"') && not (c == b'\\') && not (is_space c)

-- Plain bytes, with single spaces between them; the flag is set behind a space.
unfoldable pub is_clean : Bool → Text → Bool
is_clean spaced [] = true
is_clean spaced (c ∷ s) = (if c == 32 then not spaced else is_plain c) && is_clean (c == 32) s

pub ends_quoted-concat : (xs : Text) (c : ℕ) → ends_quoted (xs ++ c ∷ []) ≡ (c == b'"')
unfolding ends_quoted
ends_quoted-concat [] c = refl
ends_quoted-concat (x ∷ []) c = refl
ends_quoted-concat (x ∷ y ∷ xs) c = ends_quoted-concat (y ∷ xs) c

pub pop_back-concat : (xs : Text) (c : ℕ) → pop_back (xs ++ c ∷ []) ≡ xs
unfolding pop_back
pop_back-concat [] c = refl
pop_back-concat (x ∷ []) c = refl
pop_back-concat (x ∷ y ∷ xs) c = ap (◌∷◌ x) (pop_back-concat (y ∷ xs) c)

-- Nothing in a clean field is escaped.
pub escape_clean : (spaced : Bool) (s : Text) → is_clean spaced s ≡ true → escape s ≡ s
unfolding escape is_clean is_plain
escape_clean spaced [] h = refl
escape_clean spaced (c ∷ s) h = ground (arith, escape_clean (c == 32) s)

-- `rest` ends a word, and the words behind it are those of `r`.
pub data Ends : Text → Text → Type 0 where
  stop : Ends [] []
  blank : (r : Text) → Ends (32 ∷ r) r
  line_end : Ends (13 ∷ 10 ∷ []) []

pub words_from-Ends :
    (acc : Text) {rest r : Text}
    → Ends rest r
    → acc ≢ []
    → words_from acc rest ≡ acc ∷ words_from [] r
unfolding words_from is_space
words_from-Ends [] e ne = absurd (ne refl)
words_from-Ends (a ∷ acc) stop ne = refl
words_from-Ends (a ∷ acc) (blank r) ne = refl
words_from-Ends (a ∷ acc) line_end ne = refl

pub concat-ne-nil : (xs : Text) (c : ℕ) → xs ++ c ∷ [] ≢ []
concat-ne-nil [] c e = cc
concat-ne-nil (x ∷ xs) c e = cc

pub words_from-plain :
    (acc : Text) (c : ℕ) (s : Text)
    → is_space c ≡ false
    → words_from acc (c ∷ s) ≡ words_from (acc ++ c ∷ []) s
unfolding words_from
words_from-plain acc c s h = rw (h, words_from) refl

pub words_from-space : (acc s : Text) → acc ≢ [] → words_from acc (32 ∷ s) ≡ acc ∷ words_from [] s
words_from-space acc s ne = words_from-Ends acc (blank s) ne
