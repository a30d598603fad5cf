-- ===== src/Programs/Ports.antt =====
-- Which texts are ports.
use myteams.Prelude.{
  ℕ, ◌≤◌, ◌<◌, ◌∷◌, ◌≡◌, refl, ap, sym, ◌∙◌, false, none, some, Text, empty, ltb, ◌||◌, ◌==◌,
  if◌then◌else◌, arith,
}
use myteams.Protocol.{to_string}
use myteams.Protocol.Words.{is_space}
use myteams.Protocol.Numbers.{
  number_from-to_string, to_string-StartsWithDigit, to_string-all_digits,
}
use myteams.Client.Integers.{skip_spaces}
use myteams.Client.Decimals.{digits_of-all}
use myteams.Programs.{unsigned, stoull, parse_port, word_limit, max_port}

unsigned-to_string :
    (n : ℕ) → unsigned false (to_string n) ≡ (if ltb n word_limit then some n else none)
unfolding unsigned
unsigned-to_string n =
    let start = to_string-StartsWithDigit n in
    let filled : empty (to_string n) ≡ false = rw start.split refl in
    rw (digits_of-all (to_string n) (to_string-all_digits n), filled, number_from-to_string n) refl

stoull-digit : (c : ℕ) (s : Text) → 48 ≤ c → c < 58 → stoull (c ∷ s) ≡ unsigned false (c ∷ s)
unfolding stoull skip_spaces is_space
stoull-digit c s low high = ground arith

stoull-to_string : (n : ℕ) → stoull (to_string n) ≡ (if ltb n word_limit then some n else none)
stoull-to_string n =
    let start = to_string-StartsWithDigit n in
    ap stoull start.split
    ∙ stoull-digit start.first start.later start.low start.high
    ∙ ap (unsigned false) (sym start.split)
    ∙ unsigned-to_string n

-- Of the natural numbers in decimal, exactly those from 1 to 65535 are ports, and such a port is
-- the number; a number that does not fit 64 bits is refused like any other.
pub parse_port-to_string :
    (n : ℕ) → parse_port (to_string n) ≡ (if n == 0 || ltb max_port n then none else some n)
unfolding parse_port
parse_port-to_string n = ground (arith, stoull-to_string n)

pub parse_port_bounds : (s : Text) (n : ℕ) → parse_port s ≡ some n → (1 ≤ n) × (n ≤ max_port)
unfolding parse_port
parse_port_bounds s n h = (ground arith, ground arith)
