-- ===== src/Persistence/Parser.antt =====
-- server/saveManager/JsonParser.cpp. The state of the parser is the text from `_pos` on, empty where
-- `_pos` has passed the end. A loop that does not end for every text takes fuel, and `none` means
-- that the fuel ran out.
use myteams.Prelude.{
  ℕ, zero, suc, [], ◌∷◌, Bool, true, false, Option, none, some, Text, ◌==◌, if◌then◌else◌,
}
use myteams.Protocol.Words.{is_space, tail}
use myteams.Persistence.Json.{
  JsonVal, Items, Fields, null, bool, num, str, arr, obj, nil, item, end, insert_field,
}
use myteams.Persistence.Numbers.{Doubles}

-- `skipWs`
unfoldable pub skip_ws : Text → Text
unfolding is_space
skip_ws [] = []
skip_ws (c ∷ s) = let rest = skip_ws s in if is_space c then rest else c ∷ s

-- `_pos += n`
unfoldable pub advance : ℕ → Text → Text
advance zero s = s
advance (suc n) [] = []
advance (suc n) (c ∷ s) = advance n s

-- `if (_src[_pos] == ',') ++_pos;`
unfoldable pub skip_comma : Text → Text
skip_comma [] = []
skip_comma (c ∷ s) = if c == b',' then s else c ∷ s

abbrev before : ℕ → Text × Text → Text × Text
before c (read, rest) = (c ∷ read, rest)

-- The loop of `parseStr` and the step over the closing quote. The flag is set behind a backslash;
-- there the end of the text is read as the null byte behind a `std::string`.
unfoldable pub read_chars : Bool → Text → Text × Text
read_chars false [] = ([], [])
read_chars true [] = (0 ∷ [], [])
read_chars true (c ∷ s) = before c (read_chars false s)
read_chars false (c ∷ s) =
    let escaped = read_chars true s in
    let more = before c (read_chars false s) in
    if c == b'"' then ([], s) else if c == b'\\' then escaped else more

-- `parseStr` steps over its first byte unseen.
unfoldable pub parse_str : Text → Text × Text
unfolding read_chars
parse_str s = read_chars false (tail s)

infixl 1 ◌>>=◌
abbrev ◌>>=◌ {ℓ κ} : {A : Type ℓ} {B : Type κ} → Option A → (A → Option B) → Option B
none >>= f = none
some a >>= f = f a

module _ (d : Doubles) where
  open d use {Double, zero_double, from_chars}

  unfoldable pub parse_num : Text → JsonVal Double × Text
  parse_num s = let (value, rest) = from_chars s zero_double in (num value, rest)

  unfoldable mutual
    unfolding skip_ws skip_comma

    pub parse_value : ℕ → Text → Option (JsonVal Double × Text)
    parse_value zero s = none
    parse_value (suc f) s = elim (skip_ws s) [
      | [] ↦ some (null, [])
      | c ∷ t ↦
          let array = (do (values, rest) ← parse_array f (skip_ws t); some (arr values, rest)) in
          let object = (do
            (fields, rest) ← parse_object f end (skip_ws t)
            some (obj fields, rest)) in
          if c == b'"'
          then (let (value, rest) = parse_str (c ∷ t) in some (str value, rest))
          else if c == b'['
          then array
          else if c == b'{'
          then object
          else if c == b't'
          then some (bool true, advance 4 (c ∷ t))
          else if c == b'f'
          then some (bool false, advance 5 (c ∷ t))
          else if c == b'n'
          then some (null, advance 4 (c ∷ t))
          else some (parse_num (c ∷ t))
    ]

    -- the loop of `parseArray` and the step over the closing bracket
    pub parse_array : ℕ → Text → Option (Items Double × Text)
    parse_array zero s = none
    parse_array (suc f) [] = some (nil, [])
    parse_array (suc f) (c ∷ t) =
        let more = do
          (value, rest) ← parse_value f (c ∷ t)
          (values, left) ← parse_array f (skip_comma (skip_ws rest))
          some (item value values, left)
        in if c == b']' then some (nil, t) else more

    -- the loop of `parseObject`, with the map that has been read, and the step over the brace
    pub parse_object : ℕ → Fields Double → Text → Option (Fields Double × Text)
    parse_object zero read s = none
    parse_object (suc f) read [] = some (read, [])
    parse_object (suc f) read (c ∷ t) =
        let (key, after_key) = parse_str (c ∷ t) in
        let more = do
          (value, rest) ← parse_value f (tail (skip_ws after_key))
          parse_object f (insert_field key value read) (skip_ws (skip_comma (skip_ws rest)))
        in if c == b'}' then some (read, t) else more

  -- `parse`
  unfoldable pub parse_json : ℕ → Text → Option (JsonVal Double)
  unfolding parse_value
  parse_json f s = do (value, rest) ← parse_value f s; some value
