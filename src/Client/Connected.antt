-- ===== src/Client/Connected.antt =====
-- The sockets of `connectTo`: which one the client keeps, and that the others are closed.
use myteams.Prelude.{
  ℕ, ◌+◌, ◌*◌, List, [], ◌∷◌, ◌++◌, ◌≡◌, ◌≢◌, refl, sym, ap, ◌∙◌, Bool, true, false, Option, none,
  some, All, ◌==◌, ltb, if◌then◌else◌, arith, ◌⊎◌, inl, inr, Option-cases,
}
use mathlib.Core.List.{append-nil}
use myteams.Client.System.{
  SysResult, returned, failed, ClientError, Result, ok, throws, socket, connect, Wait, poll_until,
  poll, eintr, nanoseconds, throw_client,
}
use myteams.Client.Network.{TcpClient, disconnect}
use myteams.Client.Connecting.{
  Attempt, connect_timeout_ms, complete_pending_connect, connect_attempt, Sockets, no_sockets,
  close_attempt, try_addresses, addresses, connected_to, connect_to, warn, open_socket,
  attempt_failed,
}

-- Some answer is not EINTR.
unfoldable pub has_answer : List SysResult → Bool
has_answer [] = false
has_answer (returned n ∷ rs) = true
has_answer (failed e ∷ rs) = let later = has_answer rs in if e == eintr then later else true

-- Some attempt is made at the deadline or later.
unfoldable pub passes : ℕ → List Wait → Bool
passes deadline [] = false
passes deadline (w ∷ ws) =
    let later = passes deadline ws in if ltb w.now deadline then later else true

-- No call is interrupted for ever, and the clock of `poll` passes its deadline.
abbrev pub Settles : Attempt → Type 0
Settles a =
    (has_answer a.connects ≡ true)
    × (passes (a.pending.start + connect_timeout_ms * nanoseconds) a.pending.waits ≡ true)

-- the socket of an address, if the connection to it stands
unfoldable pub connected_socket : Attempt → Option ℕ
connected_socket a = elim (socket a.opened) [
  | throws _ ↦ none
  | ok fd ↦ elim (connect_attempt a) [
    | none ↦ none
    | some (throws _) ↦ none
    | some (ok _) ↦ some fd
  ]
]

-- that of the first address for which it stands
unfoldable pub first_connected : List Attempt → Option ℕ
unfolding connected_socket
first_connected [] = none
first_connected (a ∷ tries) =
    let later = first_connected tries in
    elim (connected_socket a) [ none ↦ later | some fd ↦ some fd ]

abbrev pub left_open : Option ℕ → List ℕ
left_open none = []
left_open (some fd) = fd ∷ []

connect-ends : (rs : List SysResult) → has_answer rs ≡ true → connect rs ≢ none
unfolding connect has_answer throw_client
connect-ends [] h e = ground arith
connect-ends (returned n ∷ rs) h e = ground arith
connect-ends (failed n ∷ rs) h e = ground (arith, connect-ends rs)

poll_until-ends :
    (deadline : ℕ) (ws : List Wait) → passes deadline ws ≡ true → poll_until deadline ws ≢ none
unfolding poll_until passes throw_client
poll_until-ends deadline [] h e = ground arith
poll_until-ends deadline (w ∷ ws) h e = ground (arith, poll_until-ends deadline ws)

connect_attempt-ends : (a : Attempt) → Settles a → connect_attempt a ≢ none
unfolding connect_attempt complete_pending_connect poll
connect_attempt-ends a (h, k) e =
    ground (arith, connect-ends a.connects h, poll_until-ends _ a.pending.waits k)

closed_after :
    (fd : ℕ) (r : SysResult) (s : Sockets) → (close_attempt fd r s).closed ≡ s.closed ++ fd ∷ []
unfolding close_attempt
closed_after fd r s = ground arith

opened_after : (fd : ℕ) (r : SysResult) (s : Sockets) → (close_attempt fd r s).opened ≡ s.opened
unfolding close_attempt
opened_after fd r s = ground arith

abbrev Tried : List Attempt → Sockets → Type 0
Tried tries s =
    (t : Sockets) × (try_addresses tries s ≡ some (t, first_connected tries))
    × (t.opened ≡ t.closed ++ left_open (first_connected tries))

data Outcome (a : Attempt) : Type 0 where
  no_socket : (e : ClientError) → socket a.opened ≡ throws e → Outcome a
  stands : (fd : ℕ) → socket a.opened ≡ ok fd → connect_attempt a ≡ some (ok tt) → Outcome a
  gave_up :
      (fd : ℕ) (e : ClientError)
      → socket a.opened ≡ ok fd
      → connect_attempt a ≡ some (throws e)
      → Outcome a

Result-cases :
    {A : Type 0} (r : Result A) → ((a : A) × (r ≡ ok a)) ⊎ ((e : ClientError) × (r ≡ throws e))
Result-cases (ok a) = inl (a, refl)
Result-cases (throws e) = inr (e, refl)

outcome : (a : Attempt) → Settles a → Outcome a
outcome a h = elim (Result-cases (socket a.opened)) [
  | inr (e, f) ↦ no_socket e f
  | inl (fd, f) ↦ elim (Option-cases (connect_attempt a)) [
    | inl g ↦ absurd (connect_attempt-ends a h g)
    | inr (r, g) ↦ elim (Result-cases r) [
      | inl (tt, k) ↦ stands fd f (g ∙ ap some k)
      | inr (e, k) ↦ gave_up fd e f (g ∙ ap some k)
    ]
  ]
]

try_addresses-ends :
    (tries : List Attempt) (s : Sockets) → All Settles tries → s.opened ≡ s.closed → Tried tries s
unfolding try_addresses first_connected connected_socket
try_addresses-ends [] s h b = (s, refl, b ∙ sym (append-nil s.closed))
try_addresses-ends (a ∷ tries) s (h, hs) b = elim (outcome a h) [
  | no_socket e f ↦
      let (t, r, o) = try_addresses-ends tries (warn (attempt_failed e) s) hs b in
      (t, rw (f, try_addresses, first_connected) r, rw (f, first_connected) o)
  | stands fd f g ↦ (
    open_socket fd s,
    rw (f, g, try_addresses, first_connected) refl,
    rw (f, g, first_connected, b) refl,
  )
  | gave_up fd e f g ↦
      let s' = close_attempt fd a.closed (open_socket fd s) in
      let b' =
        opened_after fd a.closed (open_socket fd s)
        ∙ ap (◌++ fd ∷ []) b
        ∙ sym (closed_after fd a.closed (open_socket fd s)) in
      let (t, r, o) = try_addresses-ends tries (warn (attempt_failed e) s') hs b' in
      (t, rw (f, g, try_addresses, first_connected) r, rw (f, g, first_connected) o)
]

-- `connectTo` ends, where no call is interrupted for ever and the clock of `poll` passes its
-- deadline: the client gets the socket of the first address, in the order of `getaddrinfo`, for
-- which a socket is opened and its connection stands, and the error is thrown if there is none.
-- Every other socket that was opened is closed.
pub connect_to-ends :
    (tries : List Attempt) (c : TcpClient)
    → All Settles tries
    → (s : Sockets) × (connect_to (addresses tries) c
        ≡ some (s, connected_to (disconnect c) (first_connected tries)))
      × (s.opened ≡ s.closed ++ left_open (first_connected tries))
unfolding connect_to
connect_to-ends tries c h =
    let (s, r, o) = try_addresses-ends tries no_sockets h refl in (s, rw (r, connect_to) refl, o)
