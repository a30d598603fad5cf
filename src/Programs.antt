-- ===== src/Programs.antt =====
-- server/main.cpp, client/main.cpp and `parsePort` of client/ClientApplication.cpp: the arguments
-- of the two programs. What a program does once it has its arguments is a parameter.
use myteams.Prelude.{
  ℕ, ◌-◌, List, [], ◌∷◌, Bool, true, false, Option, none, some, Text, text, text_eq, empty, ltb,
  ◌==◌, ◌||◌, if◌then◌else◌,
}
use myteams.Protocol.Numbers.{number_from}
use myteams.Client.Integers.{digits_of, skip_spaces}
pub mod Ports

-- 2 ^ 64
abbrev pub word_limit : ℕ
word_limit = 18446744073709551616

-- No digits is an `invalid_argument`, a number from 2 ^ 64 on an `out_of_range`. A number behind a
-- minus is taken from 2 ^ 64.
unfoldable pub unsigned : Bool → Text → Option ℕ
unfolding digits_of number_from
unsigned minus s =
    let digits = digits_of s in
    let n = number_from 0 digits in
    if empty digits
    then none
    else if ltb n word_limit
    then (if minus then (if n == 0 then some 0 else some (word_limit - n)) else some n)
    else none

-- `std::stoull`
unfoldable pub stoull : Text → Option ℕ
unfolding skip_spaces unsigned
stoull s = elim (skip_spaces s) [
  | [] ↦ none
  | c ∷ t ↦
      if c == b'-'
      then unsigned true t
      else if c == b'+'
      then unsigned false t
      else unsigned false (c ∷ t)
]

abbrev pub max_port : ℕ
max_port = 65535

-- Where `parsePort` throws there is no port. `main` of the server has the same test.
unfoldable pub parse_port : Text → Option ℕ
unfolding stoull
parse_port s = elim (stoull s) [
  | none ↦ none
  | some raw_port ↦ if raw_port == 0 || ltb max_port raw_port then none else some raw_port
]

-- How a program ends: its usage printed or not, and its exit code.
pub record Ended : Type 0 where
  pub usage : Bool
  pub code : ℕ

abbrev pub exit_error : ℕ
exit_error = 84

abbrev pub refused : Ended
refused = record { usage = true; code = exit_error }

abbrev pub after_run : Bool → Ended
after_run true = record { usage = false; code = 0 }
after_run false = refused

-- `main` of the server, without the program's name; `serve` tells whether the server stops without
-- an exception.
unfoldable pub server_main : (ℕ → Bool) → List Text → Ended
unfolding parse_port
server_main serve (arg ∷ []) =
    if text_eq arg (text "--help")
    then record { usage = true; code = 0 }
    else elim (parse_port arg) [ none ↦ refused | some port ↦ after_run (serve port) ]
server_main serve arguments = refused

-- `main` of the client; `run` tells whether the client stops without an exception.
unfoldable pub client_main : (Text → ℕ → Bool) → List Text → Ended
unfolding parse_port
client_main run (arg ∷ []) =
    if text_eq arg (text "--help") then record { usage = true; code = 0 } else refused
client_main run (ip ∷ port_arg ∷ []) = elim (parse_port port_arg) [
  | none ↦ refused
  | some port ↦ after_run (run ip port)
]
client_main run arguments = refused
