-- ===== src/Client/Integers.antt =====
-- `std::stoll` and `std::stoi`, on which the client's handlers stand: a 64-bit integer in decimal at
-- the start of a text.
use myteams.Prelude.{
  ℕ, zero, suc, ◌-◌, ◌%◌, [], ◌∷◌, Bool, true, false, Option, none, some, Text, empty, ◌==◌, ltb,
  if◌then◌else◌,
}
use myteams.Protocol.Numbers.{is_digit, number_from}
use myteams.Protocol.Words.{is_space}

-- `negsuc n` is -(n + 1).
pub data ℤ : Type 0 where
  pos : ℕ → ℤ
  negsuc : ℕ → ℤ

-- the digits at the start of a text
unfoldable pub digits_of : Text → Text
unfolding is_digit
digits_of [] = []
digits_of (c ∷ s) = let more = digits_of s in if is_digit c then c ∷ more else []

unfoldable pub skip_spaces : Text → Text
unfolding is_space
skip_spaces [] = []
skip_spaces (c ∷ s) = let rest = skip_spaces s in if is_space c then rest else c ∷ s

abbrev negated : ℕ → ℤ
negated zero = pos 0
negated (suc n) = negsuc n

-- No digits is an `invalid_argument`, a number out of range an `out_of_range`.
unfoldable pub signed : ℕ → Bool → Text → Option ℤ
unfolding digits_of number_from
signed limit minus s =
    let digits = digits_of s in
    let n = number_from 0 digits in
    if empty digits
    then none
    else if minus
    then (if ltb limit n then none else some (negated n))
    else if ltb n limit
    then some (pos n)
    else none

-- an integer from -`limit` up to, and without, `limit`
unfoldable pub read_integer : ℕ → Text → Option ℤ
unfolding skip_spaces signed
read_integer limit s = elim (skip_spaces s) [
  | [] ↦ none
  | c ∷ t ↦
      if c == b'-'
      then signed limit true t
      else if c == b'+'
      then signed limit false t
      else signed limit false (c ∷ t)
]

-- 2 ^ 63 and 2 ^ 31
abbrev pub long_limit : ℕ
long_limit = 9223372036854775808

abbrev pub int_limit : ℕ
int_limit = 2147483648

unfoldable pub stoll : Text → Option ℤ
stoll = read_integer long_limit

unfoldable pub stoi : Text → Option ℤ
stoi = read_integer int_limit

-- the `int` with this remainder by 2 ^ 32
unfoldable pub int_of_word : ℕ → ℤ
int_of_word w = if ltb w int_limit then pos w else negsuc (4294967295 - w)

-- `static_cast<int>` of a 64-bit integer: -(n + 1) is 2 ^ 32 - 1 - n, modulo 2 ^ 32
unfoldable pub to_int : ℤ → ℤ
unfolding int_of_word
to_int (pos n) = int_of_word (n % 4294967296)
to_int (negsuc n) = int_of_word (4294967295 - n % 4294967296)
