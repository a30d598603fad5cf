-- ===== src/Client/Decimals.antt =====
-- The integers that the server writes, as the client reads them.
use myteams.Prelude.{
  ℕ, ◌≤◌, ◌<◌, [], ◌∷◌, ◌≡◌, refl, ap, sym, ◌∙◌, true, false, some, Text, empty, arith,
}
use myteams.Protocol.{to_string}
use myteams.Protocol.Words.{is_space}
use myteams.Protocol.Numbers.{
  all_digits, to_string-all_digits, number_from-to_string, to_string-StartsWithDigit,
}
use myteams.Client.Integers.{pos, digits_of, skip_spaces, signed, read_integer, stoll, long_limit}

pub digits_of-all : (s : Text) → all_digits s ≡ true → digits_of s ≡ s
unfolding digits_of all_digits
digits_of-all [] h = refl
digits_of-all (c ∷ s) h = ground (arith, digits_of-all s)

signed-to_string : (limit n : ℕ) → n < limit → signed limit false (to_string n) ≡ some (pos n)
unfolding signed
signed-to_string limit n h =
    let start = to_string-StartsWithDigit n in
    let filled : empty (to_string n) ≡ false = rw start.split refl in
    rw (digits_of-all (to_string n) (to_string-all_digits n), filled, number_from-to_string n)
      (ground arith)

read_integer-digit :
    (limit c : ℕ) (s : Text)
    → 48 ≤ c
    → c < 58
    → read_integer limit (c ∷ s) ≡ signed limit false (c ∷ s)
unfolding read_integer skip_spaces is_space
read_integer-digit limit c s low high = ground arith

-- `std::stoll` reads what `std::to_string` has written for a natural number below 2 ^ 63.
pub stoll-to_string : (n : ℕ) → n < long_limit → stoll (to_string n) ≡ some (pos n)
unfolding stoll
stoll-to_string n h =
    let start = to_string-StartsWithDigit n in
    ap (read_integer long_limit) start.split
    ∙ read_integer-digit long_limit start.first start.later start.low start.high
    ∙ ap (signed long_limit false) (sym start.split)
    ∙ signed-to_string long_limit n h
