-- ===== src/Client/Network.antt =====
-- client/network/TcpClient.cpp, the writes that wait. What the socket takes is an argument.
use myteams.Prelude.{
  ℕ, zero, suc, ◌+◌, List, [], ◌∷◌, ◌++◌, Bool, true, false, Option, none, some, Text, length, ltb,
  ◌==◌, if◌then◌else◌,
}
use myteams.Loop.{drop}

-- `written` is what the socket has taken so far.
pub record TcpClient : Type 0 where
  pub socket_fd : Option ℕ
  pub pending_writes : Text
  pub pending_offset : ℕ
  pub written : Text

abbrev pub new_tcp_client : TcpClient
new_tcp_client = record { socket_fd = none; pending_writes = []; pending_offset = 0; written = [] }

unfoldable pub take : ℕ → Text → Text
take zero s = []
take (suc n) [] = []
take (suc n) (c ∷ s) = c ∷ take n s

-- `sendAll`
unfoldable pub send_all : Text → TcpClient → TcpClient
send_all message c = record c { pending_writes = c.pending_writes ++ message }

unfoldable pub has_pending_writes : TcpClient → Bool
has_pending_writes c = ltb c.pending_offset (length c.pending_writes)

-- what `write` is offered
unfoldable pub unsent : TcpClient → Text
unfolding drop
unsent c = drop c.pending_offset c.pending_writes

-- One call of `write` that takes `n` bytes, or all that it is offered: it returns their number.
unfoldable pub write_some : ℕ → TcpClient → TcpClient
unfolding unsent take
write_some n c = record c {
  pending_offset = c.pending_offset + length (take n (unsent c));
  written = c.written ++ take n (unsent c);
}

abbrev cleared : TcpClient → TcpClient
cleared c = record c { pending_writes = []; pending_offset = 0 }

-- `flushPendingWrites`; the list holds what the calls of `write` take, and 0, for EAGAIN, behind its
-- end. The result tells whether something is left.
unfoldable pub flush_pending_writes : List ℕ → TcpClient → TcpClient × Bool
unfolding write_some has_pending_writes
flush_pending_writes [] c = if has_pending_writes c then (c, true) else (cleared c, false)
flush_pending_writes (n ∷ ns) c =
    let more = flush_pending_writes ns (write_some n c) in
    if has_pending_writes c then (if n == 0 then (c, true) else more) else (cleared c, false)

-- `disconnect`
unfoldable pub disconnect : TcpClient → TcpClient
disconnect c = elim c.socket_fd [
  | none ↦ c
  | some fd ↦ record c { socket_fd = none; pending_writes = []; pending_offset = 0 }
]
