-- ===== src/Persistence/Numbers.antt =====
-- The floating-point numbers of the JSON parser: `double`, `std::from_chars` and the cast to
-- `time_t` are the language's, and stand here as an interface.
use mathlib.Core.Option
use myteams.Prelude.{
  Option, none, some, ℕ, ◌≤◌, [], ◌∷◌, ◌++◌, Bool, true, false, ◌||◌, ◌&&◌, ◌≡◌, Text, ◌==◌, ltb,
}
use myteams.Protocol.{to_string}

-- A byte with which a number may begin: a digit, a minus sign, a point, or a letter of `inf`, `nan`.
unfoldable pub starts_number : ℕ → Bool
starts_number c =
    (ltb 47 c && ltb c 58)
    || c == b'-'
    || c == b'.'
    || c == b'i'
    || c == b'I'
    || c == b'n'
    || c == b'N'

-- The text ends, or its first byte stands behind a value of a JSON text.
unfoldable pub ends_value : Text → Bool
ends_value [] = true
ends_value (c ∷ s) = c == b',' || c == b']' || c == b'}'

-- Every natural number up to 2 ^ 53 is a `double`.
abbrev pub exact_limit : ℕ
exact_limit = 9007199254740992

abbrev pub or_old : {A : Type 0} → Option A → A → A
or_old none old = old
or_old (some x) old = x

pub record Doubles : Type 1 where
  pub Double : Type 0
  -- `0.0`
  pub zero_double : Double
  -- `std::from_chars(first, last, value)`: the value and what is left of the text; `value` is given
  -- since a failure leaves it as it was
  pub from_chars : Text → Double → Double × Text
  -- `static_cast<time_t>` of a value that is not negative
  pub to_time : Double → ℕ
  -- the `double` nearest to a natural number, if the number is in the range of `double`
  pub nearest : ℕ → Option Double
  -- Digits are read to the first byte that is none, and rounded to the nearest. A number out of range
  -- is read to its end too (`result_out_of_range`), and leaves the value as it was.
  pub reads_digits :
      (n : ℕ) (rest : Text) (old : Double)
      → ends_value rest ≡ true
      → from_chars (to_string n ++ rest) old ≡ (or_old (nearest n) old, rest)
  -- Where no number starts, the value and the position stay.
  pub reads_nothing :
      (c : ℕ) (s : Text) (old : Double)
      → starts_number c ≡ false
      → from_chars (c ∷ s) old ≡ (old, c ∷ s)
  pub nearest_exact : (n : ℕ) → n ≤ exact_limit → Option.map to_time (nearest n) ≡ some n

-- what a number is read as: `nVal` is 0.0 before
abbrev pub read_as : (d : Doubles) → ℕ → d.Double
read_as d n = or_old (d.nearest n) d.zero_double

map-or_old :
    {A : Type 0} (f : A → ℕ) (o : Option A) (old : A) (n : ℕ)
    → Option.map f o ≡ some n
    → f (or_old o old) ≡ n
map-or_old f none old n h = absurd cc
map-or_old f (some x) old n h = cc

pub to_time-read_as : (d : Doubles) (n : ℕ) → n ≤ exact_limit → d.to_time (read_as d n) ≡ n
to_time-read_as d n h = map-or_old d.to_time (d.nearest n) d.zero_double n (d.nearest_exact n h)
