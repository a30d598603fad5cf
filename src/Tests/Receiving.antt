-- ===== src/Tests/Receiving.antt =====
-- The client at work on small inputs.
use myteams.Prelude.{[], ◌∷◌, ◌++◌, map, ◌≡◌, refl, false, none, some, text, arith}
use myteams.Models.{Thread}
use myteams.Protocol.{quote_protocol_field, to_string}
use myteams.Protocol.Words.{is_space}
use myteams.Protocol.Quoting.{is_plain, is_clean}
use myteams.Protocol.Lines.{is_sound, all_plain, show, render, render_more}
use myteams.Loop.{would_block, bytes, drop}
use myteams.Commands.Listing.{list}
use myteams.Commands.Login.{ok_user, logged_in_event}
use myteams.Commands.Create.Emit.{thread_fields}
use myteams.Client.Integers.{pos}
use myteams.Client.Calls.{new_router, call, event_logged_in, event_thread_created}
use myteams.Client.Network.{TcpClient, new_tcp_client, flush_pending_writes, unsent}
use myteams.Client.Stream.{stream, flush_pending_writes_ends}
use myteams.Client.Frames.{kept, stopped, route_frames, handle_server_readable}
use myteams.Client.Framing.{behind, handle_server_readable-append}
use myteams.Client.Application.{App, ClientEvent}
use myteams.Client.Listed.{Shows, Readable}
use myteams.Client.Items.Places.{team_call, TeamIsReadable}
use myteams.Client.Shown.{list-Shows}
use myteams.Client.Notified.{
  ok_parts, logged_in_parts, thread_parts, logged_in, logged_out, login_read, logout_read,
  thread_read,
}
use myteams.Tests.Samples.{server, ann, ann_client, crew}

abbrev waiting : TcpClient
waiting = record new_tcp_client { pending_writes = text "abcd"; pending_offset = 1 }

flush_pending_writes_ends_example :
    flush_pending_writes (2 ∷ 1 ∷ 5 ∷ []) waiting
    ≡ (record waiting { pending_writes = []; pending_offset = 0; written = stream waiting }, false)
unfolding unsent drop text
flush_pending_writes_ends_example =
    flush_pending_writes_ends (2 ∷ 1 ∷ 5 ∷ []) waiting (omega arith) (omega arith)

abbrev pub app : App
app = record {
  client = record new_tcp_client { socket_fd = some 3 };
  poller = [];
  message_router = new_router;
  server_read_buffer = [];
}

abbrev pub typed : ClientEvent
typed = record {
  event = record { fd = 0; revents = 1 };
  line = some (text "/login \"a\"");
  received = would_block;
  writes = 2 ∷ [];
}

abbrev pub writable : ClientEvent
writable = record {
  event = record { fd = 3; revents = 4 };
  line = none;
  received = would_block;
  writes = 40 ∷ [];
}

handle_server_readable-append_example :
    handle_server_readable (bytes (text "01 UNAUTH" ++ text "ORIZED\r\n40")) (text "4") new_router
    ≡ behind
        (handle_server_readable (bytes (text "01 UNAUTH")) (text "4") new_router)
        λ r rest. handle_server_readable (bytes (text "ORIZED\r\n40")) rest r
handle_server_readable-append_example =
    handle_server_readable-append (text "01 UNAUTH") (text "ORIZED\r\n40") (text "4") new_router

crew-is_readable : TeamIsReadable crew
unfolding is_sound all_plain is_plain is_space is_clean text render render_more show
    quote_protocol_field
crew-is_readable = ((refl, (refl, (refl, (refl, tt)))), omega arith)

list-Shows_example :
    Shows 5 server (list 5 ann_client server) new_router (map team_call server.db.teams)
list-Shows_example = list-Shows 5 server new_router refl ann_client refl refl (crew-is_readable, tt)

ann_answer-Readable : Readable (ok_parts ann)
unfolding is_sound all_plain is_plain is_space is_clean text render render_more show
    quote_protocol_field
ann_answer-Readable = ((refl, (refl, (refl, (refl, tt)))), omega arith)

ann_event-Readable : Readable (logged_in_parts ann)
unfolding is_sound all_plain is_plain is_space is_clean text render render_more show
    quote_protocol_field
ann_event-Readable = ((refl, (refl, (refl, (refl, tt)))), omega arith)

login_read_example :
    route_frames [] (ok_user ann ++ logged_in_event ann) new_router
    ≡ kept (call (event_logged_in ann.uuid ann.name) (logged_in ann new_router)) []
login_read_example = login_read ann new_router refl ann_answer-Readable ann_event-Readable

logout_read_example :
    route_frames []
      (text "200 OK\r\n" ++ text "EVENT")
      (record new_router { pending_command = text "/logout" })
    ≡ stopped (logged_out (record new_router { pending_command = text "/logout" }))
logout_read_example =
    logout_read (text "EVENT") (record new_router { pending_command = text "/logout" }) refl

abbrev fresh_thread : Thread
fresh_thread = record {
  uuid = b'n' ∷ [];
  user_uuid = b'a' ∷ [];
  timestamp = 70;
  title = text "New";
  body = text "Two words";
  replies = [];
}

fresh_thread-Readable : Readable (thread_parts (text "EVENT") (text "THREAD_CREATED") fresh_thread)
unfolding is_sound all_plain is_plain is_space is_clean text render render_more show
    quote_protocol_field to_string
fresh_thread-Readable = ((refl, (refl, (refl, (refl, (refl, (refl, (refl, tt))))))), omega arith)

thread_read_example :
    route_frames []
      ((text "EVENT THREAD_CREATED " ++ thread_fields fresh_thread) ++ text "4")
      new_router
    ≡ route_frames [] (text "4") (
        call
          (event_thread_created fresh_thread.uuid fresh_thread.user_uuid
            (pos 70)
            fresh_thread.title
            fresh_thread.body)
          new_router)
thread_read_example =
    thread_read fresh_thread (text "4") new_router refl (omega arith) fresh_thread-Readable
