-- ===== src/Persistence/Stray.antt =====
-- A byte that starts no value.
use myteams.Prelude.{
  ℕ, zero, suc, ◌∷◌, ◌≡◌, refl, Bool, true, false, not, ◌&&◌, none, some, Text, ◌==◌, arith,
}
use myteams.Protocol.Words.{is_space}
use myteams.Persistence.Json.{JsonVal, num}
use myteams.Persistence.Numbers.{Doubles, starts_number}
use myteams.Persistence.Parser.{
  skip_ws, skip_comma, parse_num, parse_value, parse_array, parse_json,
}

-- No separator, no first byte of a value, and neither a comma nor the end of an array.
unfoldable pub is_stray : ℕ → Bool
is_stray c =
    not (is_space c)
    && not (starts_number c)
    && not (c == b'"')
    && not (c == b'[')
    && not (c == b'{')
    && not (c == b't')
    && not (c == b'f')
    && not (c == b',')
    && not (c == b']')

module _ (d : Doubles) where
  open d use {Double, zero_double, reads_nothing}

  parse_value-stray :
      (f c : ℕ) (t : Text)
      → is_stray c ≡ true
      → parse_value d (suc f) (c ∷ t) ≡ some (num zero_double, c ∷ t)
  unfolding parse_value skip_ws parse_num is_stray starts_number
  parse_value-stray f c t h = ground (arith, reads_nothing c t zero_double)

  stray_stays : (c : ℕ) (t : Text) → is_stray c ≡ true → skip_comma (skip_ws (c ∷ t)) ≡ c ∷ t
  unfolding skip_comma skip_ws is_stray
  stray_stays c t h = ground arith

  stray_is_open : (c : ℕ) → is_stray c ≡ true → (c == b']') ≡ false
  unfolding is_stray
  stray_is_open c h = ground arith

  parse_array-none :
      (f c : ℕ) (t r : Text) (v : JsonVal Double)
      → (c == b']') ≡ false
      → parse_value d f (c ∷ t) ≡ some (v, r)
      → parse_array d f (skip_comma (skip_ws r)) ≡ none
      → parse_array d (suc f) (c ∷ t) ≡ none
  unfolding parse_value
  parse_array-none f c t r v unclosed p q = rw (unclosed, p, q)

  parse_array-stray : (f c : ℕ) (t : Text) → is_stray c ≡ true → parse_array d f (c ∷ t) ≡ none
  unfolding parse_value
  parse_array-stray zero c t h = refl
  parse_array-stray (suc zero) c t h = rw (stray_is_open c h)
  parse_array-stray (suc (suc f)) c t h =
      parse_array-none (suc f) c t (c ∷ t) (num zero_double) (stray_is_open c h)
        (parse_value-stray f c t h) (rw (stray_stays c t h) (parse_array-stray (suc f) c t h))

  stray_is_solid : (c : ℕ) (t : Text) → is_stray c ≡ true → skip_ws (c ∷ t) ≡ c ∷ t
  unfolding skip_ws is_stray
  stray_is_solid c t h = ground arith

  -- On an array whose first byte behind the bracket starts no value and is no separator, comma or
  -- closing bracket, the parser does not end: no fuel is enough, whatever follows the byte.
  pub parse_json-stray :
      (f c : ℕ) (t : Text) → is_stray c ≡ true → parse_json d f (b'[' ∷ c ∷ t) ≡ none
  unfolding parse_json parse_value
  parse_json-stray zero c t h = refl
  parse_json-stray (suc f) c t h = rw (stray_is_solid c t h) (rw (parse_array-stray f c t h))
