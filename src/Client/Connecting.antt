-- ===== src/Client/Connecting.antt =====
-- `connectTo` of client/network/TcpClient.cpp: the addresses of the host are tried in order.
use myteams.Prelude.{
  ℕ, List, [], ◌∷◌, ◌++◌, true, false, Option, none, some, Text, text, ◌==◌, if◌then◌else◌,
}
use myteams.Client.System.{
  SysResult, returned, failed, ClientError, Result, ok, throws, throw_client, socket, connect, Wait,
  poll, close,
}
use myteams.Client.Network.{TcpClient, disconnect}

abbrev pub connect_timeout_ms : ℕ
connect_timeout_ms = 5000

-- What the system answers while a connection is completed: the clock at the start, the answers of
-- poll, and the error that `getsockopt` reads.
pub record Pending : Type 0 where
  pub start : ℕ
  pub waits : List Wait
  pub connect_error : SysResult

-- What the system answers while one address is tried.
pub record Attempt : Type 0 where
  pub opened : SysResult
  pub connects : List SysResult
  pub pending : Pending
  pub closed : SysResult

unfoldable pub read_connect_error : SysResult → Result Unit
unfolding throw_client
read_connect_error (failed e) = throw_client (text "getsockopt") e
read_connect_error (returned n) = if n == 0 then ok tt else throw_client (text "connect") n

unfoldable pub complete_pending_connect : Pending → Option (Result Unit)
unfolding poll read_connect_error
complete_pending_connect p = elim (poll connect_timeout_ms p.start p.waits) [
  | none ↦ none
  | some (throws e) ↦ some (throws e)
  | some (ok ready) ↦
      if ready == 0
      then some (throws (record { context = text "connect timeout"; code = none }))
      else some (read_connect_error p.connect_error)
]

-- What stands behind the socket in the `try`.
unfoldable pub connect_attempt : Attempt → Option (Result Unit)
unfolding connect complete_pending_connect
connect_attempt a = elim (connect a.connects) [
  | none ↦ none
  | some (throws e) ↦ some (throws e)
  | some (ok true) ↦ some (ok tt)
  | some (ok false) ↦ complete_pending_connect a.pending
]

pub data Warning : Type 0 where
  close_failed attempt_failed : ClientError → Warning

-- The sockets that were opened and closed, and the warnings that were printed, in order.
pub record Sockets : Type 0 where
  pub opened : List ℕ
  pub closed : List ℕ
  pub warnings : List Warning

abbrev pub no_sockets : Sockets
no_sockets = record { opened = []; closed = []; warnings = [] }

abbrev pub warn : Warning → Sockets → Sockets
warn w s = record s { warnings = s.warnings ++ w ∷ [] }

abbrev pub open_socket : ℕ → Sockets → Sockets
open_socket fd s = record s { opened = s.opened ++ fd ∷ [] }

abbrev close_failure : Option ClientError → Sockets → Sockets
close_failure none s = s
close_failure (some e) s = warn (close_failed e) s

unfoldable pub close_attempt : ℕ → SysResult → Sockets → Sockets
unfolding close
close_attempt fd answer s = close_failure (close answer) (record s { closed = s.closed ++ fd ∷ [] })

-- the loop over the addresses, with the socket that it leaves
unfoldable pub try_addresses : List Attempt → Sockets → Option (Sockets × Option ℕ)
unfolding socket connect_attempt close_attempt
try_addresses [] s = some (s, none)
try_addresses (a ∷ tries) s = elim (socket a.opened) [
  | throws e ↦ try_addresses tries (warn (attempt_failed e) s)
  | ok fd ↦ elim (connect_attempt a) [
    | none ↦ none
    | some (ok _) ↦ some (open_socket fd s, some fd)
    | some (throws e) ↦
        try_addresses tries (warn (attempt_failed e) (close_attempt fd a.closed (open_socket fd s)))
  ]
]

-- What `getaddrinfo` answers: the addresses, or its error tries a text.
pub data Resolved : Type 0 where
  addresses : List Attempt → Resolved
  unresolved : Text → Resolved

abbrev pub unable_to_connect : ClientError
unable_to_connect = record { context = text "unable to connect to server"; code = none }

unfoldable pub connected_to : TcpClient → Option ℕ → Result TcpClient
connected_to c none = throws unable_to_connect
connected_to c (some fd) = ok (record c { socket_fd = some fd })

-- Where `connectTo` has a result: the sockets of the attempts, and the client or the error thrown.
unfoldable pub connect_to : Resolved → TcpClient → Option (Sockets × Result TcpClient)
unfolding try_addresses connected_to disconnect
connect_to (unresolved why) c =
    some (no_sockets, throws (record { context = text "getaddrinfo: " ++ why; code = none }))
connect_to (addresses tries) c = elim (try_addresses tries no_sockets) [
  | none ↦ none
  | some (s, fd) ↦ some (s, connected_to (disconnect c) fd)
]
