-- ===== src/Loop.antt =====
-- server/server.cpp: the client table and the event loop. The results of the system calls are
-- arguments; a call that throws ends the program and has no next state.
use Prim.Native.Nat.{zero, suc}
use mathlib.Core.Option
use myteams.Prelude.{
  List, ℕ, ◌+◌, [], ◌∷◌, ◌++◌, Bool, true, false, not, Option, none, some, Text, empty, ◌==◌,
  if◌then◌else◌,
}
use myteams.Models.{User}
use myteams.State.{Env, Client, Clients, new_client, Server, find_client, on_client}
use myteams.Commands.Login.{release_user, announce_logout}
use myteams.Commands.Handling.{handle_command}
use myteams.Poller.{
  Poller, PollEvent, pollin, pollout, pollerr, pollhup, has_event, add_file_descriptor,
  update_watched_events, remove_file_descriptor,
}

-- `_clients.erase(fd)`
unfoldable pub erase_client : ℕ → Clients → Clients
erase_client fd [] = []
erase_client fd ((k, c) ∷ cs) =
    let rest = erase_client fd cs in if k == fd then cs else (k, c) ∷ rest

-- `_clients.emplace(fd, client)`: a key that is there keeps its client.
unfoldable pub emplace_client : ℕ → Client → Clients → Clients
emplace_client fd c cs = elim (find_client fd cs) [ none ↦ cs ++ (fd, c) ∷ [] | some _ ↦ cs ]

-- what `accept` returned is `fd`
unfoldable pub accept_client : ℕ → Server → Poller → Server × Poller
unfolding emplace_client
accept_client fd s poller = (
  record s { clients = emplace_client fd (record new_client { fd = some fd }) s.clients },
  add_file_descriptor fd pollin poller,
)

-- `if (line.back() == '\r') line.pop_back();`
unfoldable pub strip_return : Text → Text
strip_return [] = []
strip_return (c ∷ cs) =
    let rest = strip_return cs in if empty cs then (if c == 13 then [] else c ∷ cs) else c ∷ rest

unfoldable pub handle_line : Env → Text → ℕ → Server → Option Server
unfolding strip_return
handle_line env line fd s =
    let stripped = strip_return line in
    if empty stripped then some s else handle_command env stripped fd s

-- The loop of `_parseCommands`: `acc` is the line being read, and the unfinished line comes back
-- beside the server. The line number picks what the system answers during that line.
unfoldable pub parse_lines : (ℕ → Env) → ℕ → Text → Text → ℕ → Server → Option (Server × Text)
unfolding handle_line
parse_lines envs n acc [] fd s = some (s, acc)
parse_lines envs n acc (c ∷ buffer) fd s = elim (c == b'\n') [
  | false ↦ parse_lines envs n (acc ++ c ∷ []) buffer fd s
  | true ↦ elim (handle_line (envs n) acc fd s) [
    | none ↦ none
    | some s' ↦ parse_lines envs (n + 1) [] buffer fd s'
  ]
]

abbrev pub set_read_buffer : Text → Client → Client
set_read_buffer buffer c = record c { read_buffer = buffer }

unfoldable pub parse_commands : (ℕ → Env) → ℕ → Server → Option Server
unfolding parse_lines
parse_commands envs fd s = elim (find_client fd s.clients) [
  | none ↦ some s
  | some c ↦ elim (parse_lines envs 0 [] c.read_buffer fd s) [
    | none ↦ none
    | some (s', rest) ↦ some (on_client fd (set_read_buffer rest) s')
  ]
]

-- what `read` returned: -1 with EAGAIN, 0, or some bytes
pub data ReadResult : Type 0 where
  would_block end_of_file : ReadResult
  bytes : Text → ReadResult

abbrev pub append_to_read_buffer : Text → Client → Client
append_to_read_buffer chunk c = record c { read_buffer = c.read_buffer ++ chunk }

unfoldable pub handle_read : (ℕ → Env) → ReadResult → ℕ → Server → Option Server
unfolding parse_commands
handle_read envs would_block fd s = some s
handle_read envs end_of_file fd s = some (on_client fd (λ c. record c { fd = none }) s)
handle_read envs (bytes chunk) fd s =
    parse_commands envs fd (on_client fd (append_to_read_buffer chunk) s)

-- `erase(0, n)`
unfoldable pub drop : ℕ → Text → Text
drop zero s = s
drop (suc n) [] = []
drop (suc n) (c ∷ s) = drop n s

-- `write` took `written` bytes, 0 for EAGAIN
unfoldable pub handle_write : ℕ → ℕ → Server → Server
unfolding drop
handle_write written fd s =
    on_client fd
      (λ c.
        if empty c.write_buffer then c else record c { write_buffer = drop written c.write_buffer })
      s

unfoldable pub disconnect_user : ℕ → Server → Server × Option User
disconnect_user fd s = elim (find_client fd s.clients) [
  | none ↦ (s, none)
  | some c ↦ if empty c.user_uuid then (s, none) else release_user c.user_uuid s
]

-- The logout is announced once the client has left the table.
abbrev pub announce_after : ℕ → Server × Option User → Server
announce_after fd (s, none) = record s { clients = erase_client fd s.clients }
announce_after fd (s, some user) =
    announce_logout user.uuid (record s { clients = erase_client fd s.clients }, some user)

unfoldable pub disconnect_client : ℕ → Server → Poller → Server × Poller
unfolding disconnect_user erase_client
disconnect_client fd s poller =
    (announce_after fd (disconnect_user fd s), remove_file_descriptor fd poller)

-- the body of the loop of `_updatePollFlags`, over the clients that are left
unfoldable pub update_flags : Clients → Poller → Clients × Poller
update_flags [] poller = ([], poller)
update_flags ((fd, c) ∷ cs) poller =
    let need_poll_out = not (empty c.write_buffer) in
    let same = if need_poll_out then c.poll_out_enabled else not c.poll_out_enabled in
    let flags = if need_poll_out then pollin + pollout else pollin in
    let rest = update_flags cs (if same then poller else update_watched_events fd flags poller) in
    ((fd, if same then c else record c { poll_out_enabled = need_poll_out }) ∷ rest.0, rest.1)

unfoldable pub update_poll_flags : Server → Poller → Server × Poller
unfolding update_flags
update_poll_flags s poller =
    let (cs, poller') = update_flags s.clients poller in (record s { clients = cs }, poller')

-- What the system answers while one event is processed; `none`, and `closes` where it is false, is a
-- call that throws. `accepted` is what `accept` and `setNonBlocking` give.
pub record Answers : Type 0 where
  pub envs : ℕ → Env
  pub accepted : Option ℕ
  pub received : Option ReadResult
  pub written : Option ℕ
  pub closes : Bool

-- `client.getFd() == -1`
unfoldable pub is_closed : ℕ → Server → Bool
is_closed fd s = elim (find_client fd s.clients) [
  | none ↦ false
  | some c ↦ elim c.fd [ none ↦ true | some _ ↦ false ]
]

-- An empty buffer calls no `write`.
unfoldable pub waits_to_write : ℕ → Server → Bool
waits_to_write fd s = elim (find_client fd s.clients) [
  | none ↦ false
  | some c ↦ not (empty c.write_buffer)
]

-- `_handleWrite` with a `write` that may throw
unfoldable pub try_write : Option ℕ → ℕ → Server → Option Server
unfolding handle_write waits_to_write
try_write none fd s = if waits_to_write fd s then none else some s
try_write (some written) fd s = some (handle_write written fd s)

unfoldable pub then_write : Answers → PollEvent → Server → Poller → Option (Server × Poller)
unfolding try_write
then_write a ev s poller =
    if has_event ev.revents pollout
    then Option.map (λ s'. (s', poller)) (try_write a.written ev.fd s)
    else some (s, poller)

-- `_disconnectClient` with a `close` that may throw
unfoldable pub try_disconnect : Answers → ℕ → Server → Poller → Option (Server × Poller)
unfolding disconnect_client
try_disconnect a fd s poller = if a.closes then some (disconnect_client fd s poller) else none

-- `_handleRead` with a `read` that may throw
unfoldable pub try_read : Answers → ℕ → Server → Option Server
unfolding handle_read
try_read a fd s = elim a.received [ none ↦ none | some r ↦ handle_read a.envs r fd s ]

-- `_acceptClient` with an `accept` that may throw
unfoldable pub try_accept : Answers → Server → Poller → Option (Server × Poller)
unfolding accept_client
try_accept a s poller = Option.map (λ fd. accept_client fd s poller) a.accepted

unfoldable pub process_client_event :
    Answers → PollEvent → Server → Poller → Option (Server × Poller)
unfolding try_read then_write try_disconnect is_closed has_event
process_client_event a ev s poller =
    if has_event ev.revents (pollhup + pollerr)
    then try_disconnect a ev.fd s poller
    else if has_event ev.revents pollin
    then elim (try_read a ev.fd s) [
      | none ↦ none
      | some s' ↦
          if is_closed ev.fd s' then try_disconnect a ev.fd s' poller else then_write a ev s' poller
    ]
    else then_write a ev s poller

unfoldable pub process_event : ℕ → Answers → PollEvent → Server → Poller → Option (Server × Poller)
unfolding process_client_event try_accept has_event
process_event server_fd a ev s poller =
    if ev.fd == server_fd
    then (if has_event ev.revents pollin then try_accept a s poller else some (s, poller))
    else elim (find_client ev.fd s.clients) [
      | none ↦ some (s, poller)
      | some _ ↦ process_client_event a ev s poller
    ]

-- The events of one wait, each with what the system answers meanwhile.
unfoldable pub process_events :
    ℕ → List (Answers × PollEvent) → Server → Poller → Option (Server × Poller)
unfolding process_event
process_events server_fd [] s poller = some (s, poller)
process_events server_fd ((a, ev) ∷ evs) s poller = elim (process_event server_fd a ev s poller) [
  | none ↦ none
  | some r ↦ process_events server_fd evs r.0 r.1
]

-- A round of the loop of `run`. The events are those that `::poll` reports behind the update.
unfoldable pub run_round :
    ℕ → List (Answers × PollEvent) → Server → Poller → Option (Server × Poller)
unfolding process_events update_poll_flags
run_round server_fd evs s poller =
    let r = update_poll_flags s poller in process_events server_fd evs r.0 r.1
