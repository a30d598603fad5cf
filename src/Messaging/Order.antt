-- ===== src/Messaging/Order.antt =====
-- `operator<` of strings, on which the map of conversations stands.
use myteams.Prelude.{[], ◌∷◌, ◌≡◌, ◌≢◌, refl, Text, text_lt, true, false, arith}

pub text_lt_irrefl : (a : Text) → text_lt a a ≡ false
unfolding text_lt
text_lt_irrefl [] = refl
text_lt_irrefl (x ∷ xs) = ground (arith, text_lt_irrefl xs)

pub text_lt_trans : (a b c : Text) → text_lt a b ≡ true → text_lt b c ≡ true → text_lt a c ≡ true
unfolding text_lt
text_lt_trans _ _ [] h k = k
text_lt_trans [] [] (z ∷ zs) h k = refl
text_lt_trans [] (y ∷ ys) (z ∷ zs) h k = refl
text_lt_trans (x ∷ xs) [] (z ∷ zs) h k = cc
text_lt_trans (x ∷ xs) (y ∷ ys) (z ∷ zs) h k = ground (arith, text_lt_trans xs ys zs)

pub text_lt_total : (a b : Text) → a ≢ b → text_lt a b ≡ false → text_lt b a ≡ true
unfolding text_lt
text_lt_total [] [] ne h = absurd (ne refl)
text_lt_total [] (y ∷ ys) ne h = cc
text_lt_total (x ∷ xs) [] ne h = refl
text_lt_total (x ∷ xs) (y ∷ ys) ne h = ground (arith, text_lt_total xs ys)
