-- ===== src/Client/System.antt =====
-- client/sys/Posix.cpp and client/sys/ClientError.cpp: the wrappers of system calls. What the
-- system answers is an argument: a list holds the answers to the attempts of one call, and where a
-- list of answers ends the call still waits, so that there is no result. The numbers of the errors
-- are those of Linux.
use myteams.Prelude.{
  ℕ, ◌+◌, ◌*◌, ◌-◌, ◌/◌, List, [], ◌∷◌, Bool, true, false, Option, none, some, Text, text, ◌==◌,
  ltb, if◌then◌else◌,
}

-- What a call returns, or the `errno` of a call that returns -1.
pub data SysResult : Type 0 where
  returned : ℕ → SysResult
  failed : ℕ → SysResult

-- client/sys/ClientError.hpp
pub record ClientError : Type 0 where
  pub context : Text
  pub code : Option ℕ

pub data Result (A : Type 0) : Type 0 where
  ok : A → Result A
  throws : ClientError → Result A

abbrev pub eintr : ℕ
eintr = 4

-- also EWOULDBLOCK
abbrev pub eagain : ℕ
eagain = 11

abbrev pub einprogress : ℕ
einprogress = 115

unfoldable pub throw_client : {A : Type 0} → Text → ℕ → Result A
throw_client name e = throws (record { context = name; code = some e })

unfoldable pub socket : SysResult → Result ℕ
unfolding throw_client
socket (returned fd) = ok fd
socket (failed e) = throw_client (text "socket") e

-- whether the connection stands at once
unfoldable pub connect : List SysResult → Option (Result Bool)
unfolding throw_client
connect [] = none
connect (returned n ∷ rs) = some (ok true)
connect (failed e ∷ rs) =
    let later = connect rs in
    if e == eintr
    then later
    else if e == einprogress
    then some (ok false)
    else some (throw_client (text "connect") e)

-- `none` is the -1 of EAGAIN
unfoldable pub read : List SysResult → Option (Result (Option ℕ))
unfolding throw_client
read [] = none
read (returned n ∷ rs) = some (ok (some n))
read (failed e ∷ rs) =
    let later = read rs in
    if e == eintr
    then later
    else if e == eagain
    then some (ok none)
    else some (throw_client (text "read") e)

unfoldable pub write : List SysResult → Option (Result ℕ)
unfolding throw_client
write [] = none
write (returned n ∷ rs) = some (ok n)
write (failed e ∷ rs) =
    let later = write rs in
    if e == eintr
    then later
    else if e == eagain
    then some (ok 0)
    else some (throw_client (text "write") e)

-- The clock, in nanoseconds, in front of a call of `::poll`, and the answer for each timeout.
pub record Wait : Type 0 where
  pub now : ℕ
  pub answer : ℕ → SysResult

abbrev pub nanoseconds : ℕ
nanoseconds = 1000000

-- `poll` with a timeout that is not negative
unfoldable pub poll_until : ℕ → List Wait → Option (Result ℕ)
unfolding throw_client
poll_until deadline [] = none
poll_until deadline (w ∷ ws) =
    let later = poll_until deadline ws in
    if ltb w.now deadline
    then elim (w.answer ((deadline - w.now) / nanoseconds)) [
      | returned n ↦ some (ok n)
      | failed e ↦ if e == eintr then later else some (throw_client (text "poll") e)
    ]
    else some (ok 0)

unfoldable pub poll : ℕ → ℕ → List Wait → Option (Result ℕ)
unfolding poll_until
poll timeout start ws = poll_until (start + timeout * nanoseconds) ws

-- the error that `close` throws, if it does
unfoldable pub close : SysResult → Option ClientError
close (returned n) = none
close (failed e) =
    if e == eintr then none else some (record { context = text "close"; code = some e })
