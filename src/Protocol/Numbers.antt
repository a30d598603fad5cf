-- ===== src/Protocol/Numbers.antt =====
-- The decimal numbers of the messages are words of the protocol.
use myteams.Prelude.{
  ◌∙◌, ◌*◌, ◌-◌, ◌<◌, ◌≤◌, ℕ, zero, suc, ◌+◌, ◌/◌, ◌%◌, ◌<◌, [], ◌∷◌, ◌++◌, ◌≡◌, refl, Bool, ◌&&◌,
  true, false, Text, empty, ltb, arith, Bool-cases, inl, inr,
}
use myteams.Protocol.{to_string, decimal}
use myteams.Protocol.Words.{is_space}
use myteams.Protocol.Quoting.{is_plain}
use myteams.Protocol.Lines.{all_plain, is_sound, word}

digit : (n : ℕ) → n < 10 → is_plain (b'0' + n) ≡ true
unfolding is_plain is_space
digit n h = ground arith

all_plain-append :
    (s : Text) (c : ℕ) → all_plain s ≡ true → is_plain c ≡ true → all_plain (s ++ c ∷ []) ≡ true
unfolding all_plain
all_plain-append [] c h k = ground arith
all_plain-append (x ∷ s) c h k = ground (arith, all_plain-append s c)

decimal-plain : (f n : ℕ) → all_plain (decimal f n) ≡ true
unfolding decimal all_plain
decimal-plain zero n = refl
decimal-plain (suc f) n = elim (Bool-cases (ltb n 10)) [
  | inl e ↦ rw (e, digit n (ground arith)) refl
  | inr e ↦ rw e (
      all_plain-append (decimal f (n / 10)) _ (decimal-plain f (n / 10))
        (digit (n % 10) (omega arith)))
]

not_empty-append : (s : Text) (c : ℕ) → empty (s ++ c ∷ []) ≡ false
not_empty-append [] c = refl
not_empty-append (x ∷ s) c = refl

decimal-not_empty : (f n : ℕ) → empty (decimal (suc f) n) ≡ false
unfolding decimal
decimal-not_empty f n = elim (Bool-cases (ltb n 10)) [
  | inl e ↦ rw e refl
  | inr e ↦ rw e (not_empty-append (decimal f (n / 10)) _)
]

pub to_string-is_sound : (n : ℕ) → is_sound (word (to_string n)) ≡ true
unfolding to_string is_sound
to_string-is_sound n = rw (decimal-not_empty n n) (decimal-plain (suc n) n)

-- The number that a text of digits denotes, behind `acc`.
unfoldable pub number_from : ℕ → Text → ℕ
number_from acc [] = acc
number_from acc (c ∷ s) = number_from (acc * 10 + (c - b'0')) s

number_from-append :
    (acc c : ℕ) (s : Text) → number_from acc (s ++ c ∷ []) ≡ number_from acc s * 10 + (c - b'0')
unfolding number_from
number_from-append acc c [] = refl
number_from-append acc c (d ∷ s) = number_from-append (acc * 10 + (d - b'0')) c s

-- As many rounds as the number and one more give all its digits.
number_from-decimal : (f n : ℕ) → n < f → number_from 0 (decimal f n) ≡ n
unfolding number_from decimal
number_from-decimal zero n h = omega arith
number_from-decimal (suc f) n h = elim (Bool-cases (ltb n 10)) [
  | inl e ↦ rw e (omega arith)
  | inr e ↦
      let shorter = number_from-decimal f (n / 10) (ground arith) in
      rw e (number_from-append 0 (b'0' + n % 10) (decimal f (n / 10)) ∙ omega (arith, shorter))
]

-- `std::to_string` writes a text of digits that denotes the number: no digit is lost.
pub number_from-to_string : (n : ℕ) → number_from 0 (to_string n) ≡ n
unfolding to_string
number_from-to_string n = number_from-decimal (suc n) n (omega arith)

-- The first byte of a number is a digit.
pub record StartsWithDigit (s : Text) : Type 0 where
  pub first : ℕ
  pub later : Text
  pub split : s ≡ first ∷ later
  pub low : 48 ≤ first
  pub high : first < 58

StartsWithDigit-append : (s t : Text) → StartsWithDigit s → StartsWithDigit (s ++ t)
StartsWithDigit-append s t h = record {
  first = h.first;
  later = h.later ++ t;
  split = rw h.split refl;
  low = h.low;
  high = h.high;
}

decimal-StartsWithDigit : (f n : ℕ) → n < f → StartsWithDigit (decimal f n)
unfolding decimal
decimal-StartsWithDigit zero n h = absurd (omega arith)
decimal-StartsWithDigit (suc f) n h = elim (Bool-cases (ltb n 10)) [
  | inl e ↦ rw e (record {
    first = b'0' + n;
    later = [];
    split = refl;
    low = omega arith;
    high = ground arith;
  })
  | inr e ↦ rw e (
      StartsWithDigit-append (decimal f (n / 10)) _
        (decimal-StartsWithDigit f (n / 10) (ground arith)))
]

pub to_string-StartsWithDigit : (n : ℕ) → StartsWithDigit (to_string n)
unfolding to_string
to_string-StartsWithDigit n = decimal-StartsWithDigit (suc n) n (omega arith)

unfoldable pub is_digit : ℕ → Bool
is_digit c = ltb 47 c && ltb c 58

unfoldable pub all_digits : Text → Bool
all_digits [] = true
all_digits (c ∷ s) = is_digit c && all_digits s

all_digits-append :
    (s : Text) (c : ℕ) → all_digits s ≡ true → is_digit c ≡ true → all_digits (s ++ c ∷ []) ≡ true
unfolding all_digits
all_digits-append [] c h k = ground arith
all_digits-append (x ∷ s) c h k = ground (arith, all_digits-append s c)

digit-is_digit : (n : ℕ) → n < 10 → is_digit (b'0' + n) ≡ true
unfolding is_digit
digit-is_digit n h = ground arith

decimal-all_digits : (f n : ℕ) → all_digits (decimal f n) ≡ true
unfolding decimal all_digits
decimal-all_digits zero n = refl
decimal-all_digits (suc f) n = elim (Bool-cases (ltb n 10)) [
  | inl e ↦ rw (e, digit-is_digit n (ground arith)) refl
  | inr e ↦ rw e (
      all_digits-append (decimal f (n / 10)) _ (decimal-all_digits f (n / 10))
        (digit-is_digit (n % 10) (omega arith)))
]

pub to_string-all_digits : (n : ℕ) → all_digits (to_string n) ≡ true
unfolding to_string
to_string-all_digits n = decimal-all_digits (suc n) n
