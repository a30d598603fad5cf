-- ===== src/Tests/Serving.antt =====
-- Servers with stored teams and conversations that serve a client.
use myteams.Prelude.{
  true, subst, ◌++◌, ℕ, ◌+◌, ◌*◌, suc, [], ◌∷◌, ◌≡◌, refl, map, Option, none, some, Text, text,
  text_lt, text_discrete, arith, length, find_first, All, modify_first,
}
use myteams.Models.{push_message, add_message}
use myteams.Database.{find_user, user_is, update_user, add_team}
use myteams.State.{
  Env, Client, Server, find_client, on_client, update_client, set_args, send_to_client,
  send_to_user, server_event, broadcast, append_where, append_to_write_buffer,
}
use myteams.Protocol.Arguments.{parse_args}
use myteams.Commands.Handling.{handle_command, find_command, execute}
use myteams.Commands.Messages.{send, deliver}
use myteams.Commands.Create.{create, execute_team}
use myteams.Commands.Create.Emit.{emit_team_created}
use myteams.Poller.{Poller, PollEvent, pollin}
use mathlib.Core.Option.{some-injective}
use myteams.Loop.{ReadResult, strip_return, Answers, process_event, bytes}
use myteams.Teams.Invariant.{IsTidy}
use myteams.Teams.Reached.{Reach-IsTidy}
use myteams.Messaging.Reached.{IsFiled}
use myteams.Accounting.Invariant.{IsAccounted}
use myteams.Accounting.Supply.{Supplies}
use myteams.Accounting.Loop.{Step, event, here, next}
use myteams.Persistence.Decoded.{TeamIsDated}
use myteams.Persistence.Saving.{save, start}
use myteams.Persistence.RoundTrip.{disconnected}
use myteams.Persistence.Session.{MessagesAreDated, Reach-restart}
use myteams.Protocol.Words.{is_space, words, starts_quoted}
use myteams.Session.Total.{HasDefinedLines, Succeeds, received_bytes, process_event_ends}
use myteams.Tests.Samples.{server, ann_client}
use myteams.Tests.Storing.{server-IsTidy}
use myteams.Tests.Saving.{naturals, stored, stored-teams, busy, busy-IsAccounted}

-- Uuids that no user of the servers has.
abbrev later : ℕ → Env
later n = record { uuid = (n + 200) ∷ []; now = n }

abbrev watched : Poller
watched = (record { fd = 5; events = pollin; revents = 0 }) ∷ []

abbrev says : Text → Answers
says line = record {
  envs = later;
  accepted = some 0;
  received = some (bytes line);
  written = some 0;
  closes = true;
}

abbrev ready : PollEvent
ready = record { fd = 5; revents = pollin }

abbrev state_or : Option (Server × Poller) → Server × Poller
state_or none = (server, [])
state_or (some r) = r

later-Supplies : Supplies later 0 server
unfolding find_first user_is text_discrete
later-Supplies = record {
  named = λ m le. λ z. cc;
  unused = λ m le. ground arith;
  distinct = λ m k le lt. λ z. ground arith;
}

busy-Supplies : Supplies later 0 busy
unfolding find_first user_is text_discrete
busy-Supplies = record {
  named = λ m le. λ z. cc;
  unused = λ m le. ground arith;
  distinct = λ m k le lt. λ z. ground arith;
}

unfoldable after_found : Server × Poller
unfolding process_event
after_found = state_or (process_event 3 (says (text "/create \"N\" \"d\"\n")) ready server watched)

unfoldable after_send : Server × Poller
unfolding process_event
after_send = state_or (process_event 3 (says (text "/send b \"hi\"\n")) ready busy watched)

found-Step : Step 3 server watched after_found.0 after_found.1
unfolding after_found process_event handle_command parse_args find_client on_client update_client
    set_args create execute_team find_user find_first user_is text text_discrete send_to_client
    server_event broadcast find_command execute append_to_write_buffer append_where add_team
    emit_team_created
found-Step = event (says (text "/create \"N\" \"d\"\n")) ready later-Supplies refl

send-Step : Step 3 busy watched after_send.0 after_send.1
unfolding after_send process_event handle_command parse_args find_client on_client update_client
    set_args send find_user find_first user_is text text_discrete send_to_client send_to_user
    server_event find_command execute append_to_write_buffer append_where
send-Step = event (says (text "/send b \"hi\"\n")) ready busy-Supplies refl

length-after_found : length after_found.0.db.teams ≡ 2
unfolding after_found process_event handle_command parse_args find_client on_client update_client
    set_args create execute_team find_user find_first user_is text text_discrete send_to_client
    server_event broadcast find_command execute append_to_write_buffer append_where add_team
    emit_team_created
length-after_found = refl

Reach-IsTidy_example : IsTidy after_found.0.db
Reach-IsTidy_example =
    Reach-IsTidy 3 server after_found.0 watched after_found.1 server-IsTidy (next here found-Step)

stored-IsFiled : IsFiled stored
unfolding text_lt
stored-IsFiled = (((refl, tt), (tt, tt)), (tt, tt))

after_send-dated : All MessagesAreDated after_send.0.db.users
unfolding after_send process_event handle_command parse_args find_client on_client update_client
    set_args send deliver find_user find_first user_is text text_discrete send_to_client
    send_to_user server_event find_command execute append_to_write_buffer append_where update_user
    add_message push_message modify_first text_lt
after_send-dated = omega arith

after_send-teams : All TeamIsDated after_send.0.db.teams
unfolding after_send process_event handle_command parse_args find_client on_client update_client
    set_args send deliver find_user find_first user_is text text_discrete send_to_client
    send_to_user server_event find_command execute append_to_write_buffer append_where update_user
after_send-teams = stored-teams

Reach-restart_example :
    (t' : Server) × (start naturals
        (suc (2 * length (save after_send.0.db)))
        (some (save after_send.0.db))
      ≡ some t')
    × (t'.clients ≡ [])
    × (t'.db.users ≡ map disconnected after_send.0.db.users)
    × (t'.db.teams ≡ after_send.0.db.teams)
    × IsAccounted t'
    × IsFiled t'.db
Reach-restart_example =
    Reach-restart naturals 3 busy after_send.0 watched after_send.1
      (suc (2 * length (save after_send.0.db))) busy-IsAccounted stored-IsFiled
      (next here send-Step) after_send-dated after_send-teams (omega arith)

found-ann : (c : Client) → find_client 5 busy.clients ≡ some c → ann_client ≡ c
unfolding find_client
found-ann c e = cc

send_line-HasDefinedLines : HasDefinedLines [] (text "/send b \"hi\"\n")
unfolding HasDefinedLines text is_space words strip_return starts_quoted
send_line-HasDefinedLines = ((refl, (refl, (refl, tt))), tt)

says-Succeeds : (line : Text) → Succeeds (says line)
says-Succeeds line = record { accepts = λ e. cc; reads = λ e. cc; writes = λ e. cc; closes = refl }

says-Completes :
    (r : ReadResult) (c : Client)
    → some (bytes (text "/send b \"hi\"\n")) ≡ some r
    → find_client 5 busy.clients ≡ some c
    → HasDefinedLines [] (c.read_buffer ++ received_bytes r)
says-Completes r c e f =
    subst (λ (c : Client). HasDefinedLines [] (c.read_buffer ++ received_bytes r)) (found-ann c f)
      (subst (λ (r : ReadResult). HasDefinedLines [] (received_bytes r)) (some-injective _ _ e)
        send_line-HasDefinedLines)

process_event_ends_example :
    (t : Server) × (q : Poller) × (process_event 3
        (says (text "/send b \"hi\"\n"))
        ready
        busy
        watched
      ≡ some (t, q))
process_event_ends_example =
    process_event_ends 3 (says (text "/send b \"hi\"\n")) ready busy watched
      (says-Succeeds (text "/send b \"hi\"\n")) (λ r e c f. says-Completes r c e f)
