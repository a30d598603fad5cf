-- ===== src/Tests/Saving.antt =====
-- Saving and loading on a small database.
use mathlib.Core.Option
use myteams.Prelude.{
  ltb, Option, ◌^◌, find_first, ℕ, suc, ◌+◌, ◌*◌, ◌-◌, ◌≤◌, ◌<◌, [], ◌∷◌, ◌++◌, map, ◌≡◌, refl, ap,
  sym, ◌∙◌, true, false, none, some, Text, text, text_lt, text_discrete, All, length, if◌then◌else◌,
  arith,
}
use myteams.Protocol.{to_string}
use myteams.Protocol.Numbers.{
  number_from, number_from-to_string, all_digits, to_string-all_digits, to_string-StartsWithDigit,
  is_digit,
}
use myteams.Protocol.Words.{is_space}
use myteams.Models.{User, Team, Message, Thread}
use myteams.Database.{Database, user_is}
use myteams.State.{Server, user_loaded}
use myteams.Accounting.Users.{connections}
use myteams.Accounting.Counts.{count_sessions, logged_as}
use myteams.Accounting.Invariant.{IsAccounted}
use myteams.Persistence.Numbers.{Doubles, or_old, exact_limit, starts_number, ends_value}
use myteams.Persistence.Parser.{parse_json}
use myteams.Persistence.Stray.{is_stray, parse_json-stray}
use myteams.Persistence.Saving.{save, load, loaded}
use myteams.Persistence.Decoded.{UserIsDated, TeamIsDated}
use myteams.Persistence.RoundTrip.{disconnected, load-save}
use myteams.Tests.Samples.{server, ann, bob, crew, hall}

-- Natural numbers below 2 ^ 1024, all exact, in the place of `double`.
abbrev pub range : ℕ
range = 2 ^ 1024

unfoldable pub in_range : ℕ → Option ℕ
in_range n = if ltb n range then some n else none

abbrev pub ranged : ℕ → ℕ × Text → ℕ × Text
ranged old r = (or_old (in_range r.0) old, r.1)

read_digits : ℕ → Text → ℕ × Text
read_digits acc [] = (acc, [])
read_digits acc (c ∷ s) =
    let more = read_digits (acc * 10 + (c - b'0')) s in if is_digit c then more else (acc, c ∷ s)

pub read_natural : Text → ℕ → ℕ × Text
read_natural [] old = (old, [])
read_natural (c ∷ s) old = if is_digit c then ranged old (read_digits 0 (c ∷ s)) else (old, c ∷ s)

read_digits-append :
    (acc : ℕ) (s rest : Text)
    → all_digits s ≡ true
    → ends_value rest ≡ true
    → read_digits acc (s ++ rest) ≡ (number_from acc s, rest)
unfolding read_digits number_from all_digits ends_value is_digit
read_digits-append acc [] [] h e = refl
read_digits-append acc [] (c ∷ rest) h e = ground arith
read_digits-append acc (c ∷ s) rest h e =
    ground (arith, read_digits-append (acc * 10 + (c - b'0')) s rest)

read_natural-start :
    (c : ℕ) (s : Text) (old : ℕ)
    → 48 ≤ c
    → c < 58
    → read_natural (c ∷ s) old ≡ ranged old (read_digits 0 (c ∷ s))
unfolding read_natural is_digit
read_natural-start c s old low high = ground arith

pub read_natural-digits :
    (n : ℕ) (rest : Text) (old : ℕ)
    → ends_value rest ≡ true
    → read_natural (to_string n ++ rest) old ≡ (or_old (in_range n) old, rest)
read_natural-digits n rest old e =
    let start = to_string-StartsWithDigit n in
    let whole = ap (◌++ rest) start.split in
    ap (λ s. read_natural s old) whole
    ∙ read_natural-start start.first (start.later ++ rest) old start.low start.high
    ∙ ap (λ t. ranged old (read_digits 0 t)) (sym whole)
    ∙ ap (ranged old) (read_digits-append 0 (to_string n) rest (to_string-all_digits n) e)
    ∙ ap (λ k. (or_old (in_range k) old, rest)) (number_from-to_string n)

pub read_natural-nothing :
    (c : ℕ) (s : Text) (old : ℕ) → starts_number c ≡ false → read_natural (c ∷ s) old ≡ (old, c ∷ s)
unfolding read_natural starts_number is_digit
read_natural-nothing c s old h = ground arith

pub in_range-exact : (n : ℕ) → n ≤ exact_limit → Option.map (λ k. k) (in_range n) ≡ some n
unfolding in_range
in_range-exact n h = ground arith

abbrev pub naturals : Doubles
naturals = record {
  Double = ℕ;
  zero_double = 0;
  from_chars = read_natural;
  to_time = λ n. n;
  nearest = in_range;
  reads_digits = read_natural-digits;
  reads_nothing = read_natural-nothing;
  nearest_exact = in_range-exact;
}

abbrev hi : Message
hi = record {
  sender_uuid = b'a' ∷ [];
  receiver_uuid = b'b' ∷ [];
  timestamp = 12;
  body = b'"' ∷ b'\\' ∷ [];
}

abbrev keeper : User
keeper = record ann { messages = (b'b' ∷ [], hi ∷ []) ∷ (b'c' ∷ [], []) ∷ [] }

abbrev news : Thread
news = record {
  uuid = b'n' ∷ [];
  user_uuid = b'a' ∷ [];
  timestamp = 7;
  title = b'N' ∷ [];
  body = [];
  replies = record { uuid = []; user_uuid = []; timestamp = 0; body = [] } ∷ [];
}

abbrev camp : Team
camp = record crew { channels = record hall { threads = news ∷ [] } ∷ [] }

abbrev pub stored : Database
stored = record { users = keeper ∷ bob ∷ []; teams = camp ∷ crew ∷ [] }

pub stored-users : All UserIsDated stored.users
unfolding text_lt
stored-users = ((((refl, tt), (tt, tt)), ((omega arith, tt), (tt, tt))), ((tt, tt), tt))

pub stored-teams : All TeamIsDated stored.teams
stored-teams = omega arith

load-save_example :
    load naturals
      (suc (2 * length (save stored)))
      (some (save stored))
      (record { users = []; teams = [] }, [])
    ≡ some (
      record { users = map disconnected stored.users; teams = stored.teams },
      user_loaded ann.uuid ann.name ∷ user_loaded bob.uuid bob.name ∷ [],
    )
unfolding loaded text_lt
load-save_example =
    load-save naturals stored (record { users = []; teams = [] }) []
      (suc (2 * length (save stored))) stored-users stored-teams (omega arith)

parse_json-stray_example : parse_json naturals 100 (text "[x]") ≡ none
unfolding is_stray starts_number text is_space
parse_json-stray_example = parse_json-stray naturals 100 b'x' (text "]") refl

abbrev pub busy : Server
busy = record server { db = stored }

pub busy-IsAccounted : IsAccounted busy
unfolding find_first connections count_sessions logged_as user_is text_discrete
busy-IsAccounted = record {
  distinct = ground arith;
  named = refl;
  balanced = λ user ne. ground arith;
}
