-- ===== src/Persistence/Strings.antt =====
-- Strings and the first bytes of what is written.
use mathlib.Core.List.{append_assoc}
use myteams.Prelude.{
  ℕ, [], ◌∷◌, ◌++◌, ◌≡◌, ap, refl, true, false, Text, text, ◌==◌, arith, Bool-cases, inl, inr,
}
use myteams.Protocol.Numbers.{to_string-StartsWithDigit}
use myteams.Protocol.Words.{is_space}
use myteams.Persistence.Json.{null, bool, num, str, arr, obj}
use myteams.Persistence.Parser.{read_chars, parse_str, skip_ws}
use myteams.Persistence.Printer.{escape_bytes, escape_json}
use myteams.Persistence.Documents.{Doc, emit}

eq_of_test : (b c : ℕ) → (c == b) ≡ true → b ≡ c
eq_of_test b c e = ground arith

read_chars-escape_bytes :
    (s rest : Text) → read_chars false (escape_bytes s ++ b'"' ∷ rest) ≡ (s, rest)
unfolding read_chars escape_bytes
read_chars-escape_bytes [] rest = refl
read_chars-escape_bytes (c ∷ s) rest = elim (Bool-cases (c == b'"')) [
  | inl e ↦
      rw (e, escape_bytes)
        (rw (read_chars-escape_bytes s rest) (ap (λ x. (x ∷ s, rest)) (eq_of_test b'"' c e)))
  | inr e ↦ elim (Bool-cases (c == b'\\')) [
    | inl k ↦
        rw (e, k, escape_bytes)
          (rw (read_chars-escape_bytes s rest) (ap (λ x. (x ∷ s, rest)) (eq_of_test b'\\' c k)))
    | inr k ↦ rw (e, k, escape_bytes) (rw (e, k, read_chars) (rw (read_chars-escape_bytes s rest)))
  ]
]

-- `parseStr` reads back what `escapeJson` has written, whatever bytes it holds.
pub parse_str-escape_json : (s rest : Text) → parse_str (escape_json s ++ rest) ≡ (s, rest)
unfolding parse_str escape_json
parse_str-escape_json s rest =
    rw (append_assoc (escape_bytes s) (b'"' ∷ []) rest) (read_chars-escape_bytes s rest)

-- What is written of a document starts with a byte that is neither a space nor a bracket that
-- closes.
pub record Opens (s : Text) : Type 0 where
  pub first : ℕ
  pub later : Text
  pub split : s ≡ first ∷ later
  pub solid : is_space first ≡ false
  pub unclosed : (first == b']') ≡ false

pub emit-Opens : (v : Doc) → Opens (emit v)
unfolding emit escape_json text is_space
emit-Opens null = record { first = b'n'; later = _; split = refl; solid = refl; unclosed = refl }
emit-Opens (bool true) = record {
  first = b't';
  later = _;
  split = refl;
  solid = refl;
  unclosed = refl;
}
emit-Opens (bool false) = record {
  first = b'f';
  later = _;
  split = refl;
  solid = refl;
  unclosed = refl;
}
emit-Opens (num n) =
    let start = to_string-StartsWithDigit n in
    record {
      first = start.first;
      later = start.later;
      split = start.split;
      solid = ground arith;
      unclosed = ground arith;
    }
emit-Opens (str s) = record { first = b'"'; later = _; split = refl; solid = refl; unclosed = refl }
emit-Opens (arr vs) = record {
  first = b'[';
  later = _;
  split = refl;
  solid = refl;
  unclosed = refl;
}
emit-Opens (obj fs) = record {
  first = b'{';
  later = _;
  split = refl;
  solid = refl;
  unclosed = refl;
}

pub parse_str-quoted :
    (s rest : Text) → parse_str (b'"' ∷ (escape_bytes s ++ b'"' ∷ rest)) ≡ (s, rest)
unfolding parse_str
parse_str-quoted s rest = read_chars-escape_bytes s rest

-- Between two values.
pub skip_ws-Opens : (s rest : Text) → Opens s → skip_ws (s ++ rest) ≡ s ++ rest
unfolding skip_ws
skip_ws-Opens s rest o = rw (o.split, skip_ws, o.solid)
