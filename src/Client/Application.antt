-- ===== src/Client/Application.antt =====
-- client/ClientApplication.cpp: the state of the client and its event loop.
use myteams.Prelude.{
  ℕ, ◌+◌, List, [], ◌∷◌, ◌++◌, Bool, false, not, Option, none, some, Text, text, ◌==◌,
  if◌then◌else◌,
}
use myteams.Loop.{ReadResult, strip_return}
use myteams.Poller.{
  Poller, PollEvent, pollin, pollout, pollerr, pollhup, has_event, update_watched_events,
  remove_file_descriptor, add_file_descriptor,
}
use myteams.Client.CommandLine.{Dispatch, dispatch_command_line, sent}
use myteams.Client.Calls.{Router, set_pending_command}
use myteams.Client.Network.{
  TcpClient, send_all, flush_pending_writes, has_pending_writes, disconnect,
}
use myteams.Client.System.{ok, throws}
use myteams.Client.Connecting.{Resolved, Sockets, connect_to}
use myteams.Client.Frames.{Routed, kept, stopped, exceeded, handle_server_readable}

pub record App : Type 0 where
  pub client : TcpClient
  pub poller : Poller
  pub message_router : Router
  pub server_read_buffer : Text

-- What a handler does: go on, return false, or throw a `ClientError`.
pub data Outcome : Type 0 where
  running ended failed : App → Outcome

-- POLLNVAL of <poll.h>
abbrev pollnval : ℕ
pollnval = 32

unfoldable pub has_error : ℕ → Bool
unfolding has_event
has_error revents = has_event revents (pollerr + pollhup + pollnval)

-- `_poller.updateWatchedEvents(_client.getSocketFd(), events)`; no descriptor is -1, which no entry
-- has
abbrev watch_server : Option ℕ → ℕ → Poller → Poller
watch_server none events poller = poller
watch_server (some fd) events poller = update_watched_events fd events poller

unfoldable pub update_server_watched_events : App → App
unfolding has_pending_writes
update_server_watched_events a = record a {
  poller =
      watch_server a.client.socket_fd
        (if has_pending_writes a.client then pollin + pollout else pollin) a.poller;
}

unfoldable pub send_command_frame : Text → List ℕ → App → App
unfolding send_all flush_pending_writes update_server_watched_events
send_command_frame frame writes a = update_server_watched_events (record a {
  client = (flush_pending_writes writes (send_all (frame ++ text "\r\n") a.client)).0;
})

-- what `dispatchCommandLine` does with the router and the socket; it always returns true
unfoldable pub apply_dispatch : Dispatch → List ℕ → App → App
unfolding set_pending_command send_command_frame
apply_dispatch (sent command frame) writes a =
    send_command_frame frame writes
      (record a { message_router = set_pending_command command a.message_router })
apply_dispatch _ writes a = a

-- `line` is what `std::getline` reads.
unfoldable pub handle_stdin_event : ℕ → Option Text → List ℕ → App → Outcome
handle_stdin_event revents line writes a =
    if has_error revents
    then ended a
    else if not (has_event revents pollin)
    then running a
    else elim line [
      | none ↦ running (record a { poller = remove_file_descriptor 0 a.poller })
      | some typed ↦ running (apply_dispatch (dispatch_command_line (strip_return typed)) writes a)
    ]

-- The buffer of a client that ends is not read again, and stays as it was.
abbrev pub after_reading : App → Routed → Outcome
after_reading a (kept r buffer) =
    running
      (update_server_watched_events (record a { message_router = r; server_read_buffer = buffer }))
after_reading a (stopped r) = ended (record a { message_router = r })
after_reading a (exceeded r) = failed (record a { message_router = r })

-- `handleServerWritable` always returns true.
abbrev pub write_out : List ℕ → App → App
write_out writes a = record a { client = (flush_pending_writes writes a.client).0 }

unfoldable pub handle_server_event : ℕ → ReadResult → List ℕ → App → Outcome
handle_server_event revents received writes a =
    let written = if has_event revents pollout then write_out writes a else a in
    if has_error revents
    then ended a
    else if has_event revents pollin
    then after_reading written
        (handle_server_readable received written.server_read_buffer written.message_router)
    else running (update_server_watched_events written)

-- An event with what the system answers while it is handled.
pub record ClientEvent : Type 0 where
  pub event : PollEvent
  pub line : Option Text
  pub received : ReadResult
  pub writes : List ℕ

-- The descriptor of the server, -1 where there is none, is no 0.
unfoldable pub is_server : Option ℕ → ℕ → Bool
is_server none fd = false
is_server (some socket) fd = fd == socket

unfoldable pub handle_event : ClientEvent → App → Outcome
handle_event e a =
    if e.event.fd == 0
    then handle_stdin_event e.event.revents e.line e.writes a
    else if is_server a.client.socket_fd e.event.fd
    then handle_server_event e.event.revents e.received e.writes a
    else running a

-- `runEventLoop`, over the events of all its rounds
unfoldable pub run_event_loop : List ClientEvent → App → Outcome
run_event_loop [] a = running a
run_event_loop (e ∷ es) a = elim (handle_event e a) [
  | running a' ↦ run_event_loop es a'
  | ended a' ↦ ended a'
  | failed a' ↦ failed a'
]

-- `_poller.addFileDescriptor(_client.getSocketFd(), POLLIN)`
abbrev add_server : Option ℕ → Poller → Poller
add_server none poller = poller
add_server (some fd) poller = add_file_descriptor fd pollin poller

-- An exception passes by the `disconnect` behind the loop.
abbrev pub finished : Outcome → Outcome
finished (running a) = running a
finished (ended a) = ended (record a { client = disconnect a.client })
finished (failed a) = failed a

-- `run`, where `connectTo` has a result, over the events that come
unfoldable pub run : Resolved → List ClientEvent → App → Option (Sockets × Outcome)
unfolding connect_to run_event_loop disconnect
run resolved es a = elim (connect_to resolved a.client) [
  | none ↦ none
  | some (s, throws e) ↦ some (s, failed (record a { client = disconnect a.client }))
  | some (s, ok c) ↦ some (
    s,
    finished (
        run_event_loop es (record a {
          client = c;
          poller = add_server c.socket_fd (add_file_descriptor 0 pollin a.poller);
        })),
  )
]
