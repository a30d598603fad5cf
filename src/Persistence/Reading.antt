-- ===== src/Persistence/Reading.antt =====
-- The parser reads what was written.
use mathlib.Core.List.{append_assoc, append-nil}
use myteams.Prelude.{
  ℕ, zero, suc, ◌+◌, ◌*◌, ◌<◌, ◌≤◌, [], ◌∷◌, ◌++◌, ◌≡◌, refl, ap, sym, ◌∙◌, true, false, some, Text,
  text, ◌==◌, arith, length, length-append,
}
use myteams.Protocol.{to_string}
use myteams.Protocol.Numbers.{to_string-StartsWithDigit}
use myteams.Persistence.Json.{
  JsonVal, Items, Fields, null, bool, num, str, arr, obj, nil, item, end, field, insert_field,
}
use myteams.Persistence.Numbers.{read_as, Doubles, ends_value}
use myteams.Persistence.Parser.{
  skip_ws, skip_comma, parse_str, parse_num, parse_value, parse_array, parse_object, parse_json,
  advance,
}
use myteams.Persistence.Printer.{escape_bytes, escape_json}
use myteams.Persistence.Documents.{Doc, emit, emit_items, emit_fields, value_of, values_of, map_of}
use myteams.Persistence.Strings.{Opens, emit-Opens, parse_str-quoted, skip_ws-Opens}

after_item :
    (vs : Items ℕ) (rest : Text)
    → skip_comma (skip_ws (emit_items false vs ++ b']' ∷ rest)) ≡ emit_items true vs ++ b']' ∷ rest
unfolding emit skip_ws skip_comma
after_item nil rest = refl
after_item (item v vs) rest = refl

after_field :
    (fs : Fields ℕ) (rest : Text)
    → skip_ws (skip_comma (skip_ws (emit_fields false fs ++ b'}' ∷ rest)))
      ≡ emit_fields true fs ++ b'}' ∷ rest
unfolding emit skip_ws skip_comma escape_json
after_field end rest = refl
after_field (field k v fs) rest = refl

first_field :
    (fs : Fields ℕ) (rest : Text)
    → skip_ws (emit_fields true fs ++ b'}' ∷ rest) ≡ emit_fields true fs ++ b'}' ∷ rest
unfolding emit skip_ws escape_json
first_field end rest = refl
first_field (field k v fs) rest = refl

first_item :
    (vs : Items ℕ) (rest : Text)
    → skip_ws (emit_items true vs ++ b']' ∷ rest) ≡ emit_items true vs ++ b']' ∷ rest
unfolding emit skip_ws
first_item nil rest = refl
first_item (item v vs) rest =
    rw (append_assoc (emit v) (emit_items false vs) (b']' ∷ rest))
      (skip_ws-Opens (emit v) _ (emit-Opens v))

ends_item : (vs : Items ℕ) (rest : Text) → ends_value (emit_items false vs ++ b']' ∷ rest) ≡ true
unfolding emit ends_value
ends_item nil rest = refl
ends_item (item v vs) rest = refl

ends_field : (fs : Fields ℕ) (rest : Text) → ends_value (emit_fields false fs ++ b'}' ∷ rest) ≡ true
unfolding emit ends_value
ends_field end rest = refl
ends_field (field k v fs) rest = refl

length-emit_pos : (v : Doc) → 0 < length (emit v)
length-emit_pos v = let o = emit-Opens v in rw o.split (omega arith)

length-items_first : (vs : Items ℕ) → length (emit_items true vs) ≤ length (emit_items false vs)
unfolding emit
length-items_first nil = omega arith
length-items_first (item v vs) = omega arith

length-fields_first : (fs : Fields ℕ) → length (emit_fields true fs) ≤ length (emit_fields false fs)
unfolding emit
length-fields_first end = omega arith
length-fields_first (field k v fs) = omega arith

length-field : (k v fs : Text) → length v + length fs < length (escape_json k ++ b':' ∷ (v ++ fs))
length-field k v fs =
    omega (arith, length-append (escape_json k) (b':' ∷ (v ++ fs)), length-append v fs)

field_text :
    (k v fs rest : Text)
    → (escape_json k ++ b':' ∷ (v ++ fs)) ++ rest
      ≡ b'"' ∷ (escape_bytes k ++ b'"' ∷ b':' ∷ (v ++ (fs ++ rest)))
unfolding escape_json
field_text k v fs rest = simp append_assoc

module _ (d : Doubles) where
  open d use {Double, zero_double, reads_digits}

  parse_value-digit :
      (f c : ℕ) (t : Text)
      → 48 ≤ c
      → c < 58
      → parse_value d (suc f) (c ∷ t) ≡ some (parse_num d (c ∷ t))
  unfolding parse_value skip_ws
  parse_value-digit f c t low high = ground arith

  parse_num-to_string :
      (n : ℕ) (rest : Text)
      → ends_value rest ≡ true
      → parse_num d (to_string n ++ rest) ≡ (num (read_as d n), rest)
  unfolding parse_num
  parse_num-to_string n rest e = rw (reads_digits n rest zero_double e)

  reads_number :
      (n : ℕ) (rest : Text) (f : ℕ)
      → ends_value rest ≡ true
      → parse_value d (suc f) (to_string n ++ rest) ≡ some (num (read_as d n), rest)
  reads_number n rest f e =
      let start = to_string-StartsWithDigit n in
      let whole = ap (◌++ rest) start.split in
      ap (parse_value d (suc f)) whole
      ∙ parse_value-digit f start.first (start.later ++ rest) start.low start.high
      ∙ ap some (ap (parse_num d) (sym whole) ∙ parse_num-to_string n rest e)

  parse_array-byte :
      (f c : ℕ) (t r left : Text) (v : JsonVal Double) (vs : Items Double)
      → (c == b']') ≡ false
      → parse_value d f (c ∷ t) ≡ some (v, r)
      → parse_array d f (skip_comma (skip_ws r)) ≡ some (vs, left)
      → parse_array d (suc f) (c ∷ t) ≡ some (item v vs, left)
  unfolding parse_value
  parse_array-byte f c t r left v vs unclosed p q = rw (unclosed, p, q)

  parse_array-item :
      (f : ℕ) (s rest r left : Text) (v : JsonVal Double) (vs : Items Double)
      → Opens s
      → parse_value d f (s ++ rest) ≡ some (v, r)
      → parse_array d f (skip_comma (skip_ws r)) ≡ some (vs, left)
      → parse_array d (suc f) (s ++ rest) ≡ some (item v vs, left)
  parse_array-item f s rest r left v vs o p q =
      rw o.split
        (parse_array-byte f o.first (o.later ++ rest) r left v vs o.unclosed (rw o.split at p) q)

  parse_object-field :
      (f : ℕ) (t key r after left : Text) (v : JsonVal Double) (read m : Fields Double)
      → parse_str (b'"' ∷ t) ≡ (key, b':' ∷ r)
      → parse_value d f r ≡ some (v, after)
      → parse_object d f (insert_field key v read) (skip_ws (skip_comma (skip_ws after)))
        ≡ some (m, left)
      → parse_object d (suc f) read (b'"' ∷ t) ≡ some (m, left)
  unfolding parse_value skip_ws
  parse_object-field f t key r after left v read m k p q = rw k (rw p q)

  mutual
    unfolding parse_value emit value_of escape_json text advance

    reads_value :
        (v : Doc) (rest : Text) (f : ℕ)
        → 2 * length (emit v) < f
        → ends_value rest ≡ true
        → parse_value d f (emit v ++ rest) ≡ some (value_of d v, rest)
    reads_value v rest zero h e = absurd (omega arith)
    reads_value null rest (suc f) h e = refl
    reads_value (bool true) rest (suc f) h e = refl
    reads_value (bool false) rest (suc f) h e = refl
    reads_value (num n) rest (suc f) h e = reads_number n rest f e
    reads_value (str s) rest (suc f) h e =
        rw (append_assoc (escape_bytes s) (b'"' ∷ []) rest, parse_str-quoted s rest)
    reads_value (arr vs) rest (suc f) h e =
        rw (append_assoc (emit_items true vs) (b']' ∷ []) rest, first_item vs rest)
          (rw
            (reads_items vs rest f (omega (arith, length-append (emit_items true vs) (b']' ∷ [])))))
    reads_value (obj fs) rest (suc f) h e =
        rw (append_assoc (emit_fields true fs) (b'}' ∷ []) rest, first_field fs rest)
          (rw (
            reads_fields fs end rest f
              (omega (arith, length-append (emit_fields true fs) (b'}' ∷ [])))))

    reads_items :
        (vs : Items ℕ) (rest : Text) (f : ℕ)
        → suc (2 * length (emit_items true vs)) < f
        → parse_array d f (emit_items true vs ++ b']' ∷ rest) ≡ some (values_of d vs, rest)
    reads_items vs rest zero h = absurd (omega arith)
    reads_items nil rest (suc f) h = refl
    reads_items (item v vs) rest (suc f) h =
        rw (append_assoc (emit v) (emit_items false vs) (b']' ∷ rest)) (
          parse_array-item f (emit v) _ (emit_items false vs ++ b']' ∷ rest) rest (value_of d v)
            (values_of d vs) (emit-Opens v)
            (reads_value v _ f (omega (arith, length-append (emit v) (emit_items false vs)))
              (ends_item vs rest))
            (rw (after_item vs rest) (
              reads_items vs rest f (
                omega (
                  arith,
                  length-append (emit v) (emit_items false vs),
                  length-items_first vs,
                  length-emit_pos v,
                )))))

    reads_fields :
        (fs : Fields ℕ) (read : Fields Double) (rest : Text) (f : ℕ)
        → suc (2 * length (emit_fields true fs)) < f
        → parse_object d f read (emit_fields true fs ++ b'}' ∷ rest) ≡ some (map_of d read fs, rest)
    reads_fields fs read rest zero h = absurd (omega arith)
    reads_fields end read rest (suc f) h = refl
    reads_fields (field k v fs) read rest (suc f) h =
        rw (field_text k (emit v) (emit_fields false fs) (b'}' ∷ rest)) (
          parse_object-field f _ k (emit v ++ (emit_fields false fs ++ b'}' ∷ rest))
            (emit_fields false fs ++ b'}' ∷ rest) rest (value_of d v) read _ (parse_str-quoted k _)
            (reads_value v _ f (omega (arith, length-field k (emit v) (emit_fields false fs)))
              (ends_field fs rest))
            (rw (after_field fs rest) (
              reads_fields fs (insert_field k (value_of d v) read) rest f (
                omega (
                  arith,
                  length-field k (emit v) (emit_fields false fs),
                  length-fields_first fs,
                )))))

  -- The parser reads any document that was written, and fuel above twice its length is enough. The result holds the strings
  -- as they were, each number as `from_chars` reads it, and each object as the map of its fields.
  pub parse_json-emit :
      (v : Doc) (f : ℕ) → 2 * length (emit v) < f → parse_json d f (emit v) ≡ some (value_of d v)
  unfolding parse_json ends_value
  parse_json-emit v f h = let whole = reads_value v [] f h refl in rw (rw append-nil at whole)
