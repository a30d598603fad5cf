-- ===== src/Tests/Sessions.antt =====
-- Sessions: connections that come, log in and go.
use myteams.Prelude.{
  true, ◌≤◌, [], ◌∷◌, ◌≡◌, ◌≢◌, refl, Option, none, some, Text, text, arith, ltb, length,
  text_discrete, find_first,
}
use myteams.Models.{increment_connection, is_connected}
use myteams.Database.{find_user, find_user_by_name, user_is, user_named, add_user}
use myteams.State.{
  Server, find_client, on_client, update_client, set_args, send_to_client, set_user_uuid,
  server_event, broadcast, append_where, append_to_write_buffer,
}
use myteams.Commands.Handling.{handle_command, find_command, execute}
use myteams.Commands.Login.{login, registered, create_new_user}
use myteams.Protocol.Arguments.{parse_args}
use myteams.Poller.{Poller, PollEvent, pollin}
use myteams.Loop.{Answers, process_event, bytes, would_block}
use myteams.Accounting.Counts.{count_sessions}
use myteams.Accounting.Users.{connections}
use myteams.Accounting.Invariant.{IsAccounted}
use myteams.Accounting.Supply.{Supplies}
use myteams.Accounting.Loop.{Step, event, Reach, here, next, Reach-balanced}
use myteams.Accounting.Bounds.{Reach-is_connected, started-IsAccounted}
use myteams.Session.UserNames.{HasDistinctNames, Reach-HasDistinctNames}
use myteams.Tests.Samples.{empty_server, envs}

abbrev poller : Poller
poller = (record { fd = 3; events = pollin; revents = 0 }) ∷ []

abbrev accepted : Answers
accepted = record {
  envs = envs;
  accepted = some 5;
  received = some (would_block);
  written = some 0;
  closes = true;
}

abbrev login_received : Answers
login_received = record {
  envs = envs;
  accepted = some 0;
  received = some (bytes (text "/login A\n"));
  written = some 0;
  closes = true;
}

abbrev knock : PollEvent
knock = record { fd = 3; revents = pollin }

abbrev talk : PollEvent
talk = record { fd = 5; revents = pollin }

abbrev state_or : Option (Server × Poller) → Server × Poller
state_or none = (empty_server, [])
state_or (some r) = r

unfoldable after_accept : Server × Poller
unfolding process_event
after_accept = state_or (process_event 3 accepted knock empty_server poller)

unfoldable after_login : Server × Poller
unfolding process_event
after_login = state_or (process_event 3 login_received talk after_accept.0 after_accept.1)

empty_server-IsAccounted : IsAccounted empty_server
unfolding connections find_user find_first
empty_server-IsAccounted = started-IsAccounted empty_server.db [] tt refl λ user. refl

fresh-Supplies : (s : Server) → s.db.users ≡ [] → Supplies envs 0 s
unfolding find_first
fresh-Supplies s e = record {
  named = λ m le. λ z. cc;
  unused = λ m le. rw e refl;
  distinct = λ m k le lt. λ z. ground arith;
}

accept-Step : Step 3 empty_server poller after_accept.0 after_accept.1
unfolding after_accept process_event
accept-Step = event accepted knock (fresh-Supplies empty_server refl) refl

login-Step : Step 3 after_accept.0 after_accept.1 after_login.0 after_login.1
unfolding after_login after_accept process_event handle_command parse_args find_client on_client
    update_client set_args login find_user_by_name find_first user_named text text_discrete
    send_to_client set_user_uuid server_event broadcast find_command execute append_to_write_buffer
    append_where add_user
login-Step = event login_received talk (fresh-Supplies after_accept.0 refl) refl

Reach-login : Reach 3 empty_server poller after_login.0 after_login.1
Reach-login = next (next here accept-Step) login-Step

abbrev first_uuid : Text
first_uuid = 1 ∷ []

first_uuid-ne-nil : first_uuid ≢ []
first_uuid-ne-nil e = cc

Reach-balanced_example :
    connections after_login.0.db.users first_uuid ≡ count_sessions first_uuid after_login.0.clients
Reach-balanced_example =
    Reach-balanced 3 empty_server after_login.0 poller after_login.1 first_uuid
      empty_server-IsAccounted Reach-login first_uuid-ne-nil

login_found : find_user after_login.0.db first_uuid ≡ some (registered (envs 0) (text "A"))
unfolding after_login after_accept process_event handle_command parse_args find_client on_client
    update_client set_args login find_user_by_name find_user find_first user_named user_is text
    text_discrete send_to_client set_user_uuid server_event broadcast find_command execute
    append_to_write_buffer append_where add_user create_new_user increment_connection
login_found = refl

Reach-is_connected_example :
    (is_connected (registered (envs 0) (text "A"))
      ≡ ltb 0 (count_sessions first_uuid after_login.0.clients))
    × ((registered (envs 0) (text "A")).connected_count ≤ length after_login.0.clients)
Reach-is_connected_example =
    Reach-is_connected 3 empty_server after_login.0 poller after_login.1 first_uuid
      (registered (envs 0) (text "A")) empty_server-IsAccounted Reach-login first_uuid-ne-nil
      login_found

Reach-HasDistinctNames_example : HasDistinctNames after_login.0
Reach-HasDistinctNames_example =
    Reach-HasDistinctNames 3 empty_server after_login.0 poller after_login.1 tt Reach-login
