-- ===== src/Client/Items/Kinds.antt =====
-- The kinds of lists and the numbers in them.
use myteams.Prelude.{ℕ, ◌<◌, ◌≡◌, refl, true, text, length, arith}
use myteams.Protocol.{to_string}
use myteams.Protocol.Words.{is_space}
use myteams.Protocol.Quoting.{is_plain}
use myteams.Protocol.Lines.{word, is_sound, all_plain}
use myteams.Client.Integers.{ℤ, pos, long_limit}
use myteams.Client.Decimals.{stoll-to_string}
use myteams.Client.Calls.{Call, Router, call}
use myteams.Client.Router.{with_number}

-- The kinds of lists are words.
pub kinds_are_sound :
    (is_sound (word (text "TEAMS")) ≡ true)
    × (is_sound (word (text "CHANNELS")) ≡ true)
    × (is_sound (word (text "THREADS")) ≡ true)
    × (is_sound (word (text "REPLIES")) ≡ true)
    × (is_sound (word (text "USERS")) ≡ true)
    × (is_sound (word (text "MESSAGES")) ≡ true)
unfolding is_sound all_plain is_plain is_space text
kinds_are_sound = (refl, refl, refl, refl, refl, refl)

pub kinds_fit :
    (length (text "TEAMS") < 100)
    × (length (text "CHANNELS") < 100)
    × (length (text "THREADS") < 100)
    × (length (text "REPLIES") < 100)
    × (length (text "USERS") < 100)
    × (length (text "MESSAGES") < 100)
unfolding text
kinds_fit = omega arith

pub with_number-to_string :
    (n : ℕ) (made : ℤ → Call) (r : Router)
    → n < long_limit
    → with_number (to_string n) made r ≡ call (made (pos n)) r
unfolding with_number
with_number-to_string n made r h = rw (stoll-to_string n h, with_number)
