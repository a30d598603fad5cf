-- ===== src/Tests/Storing.antt =====
-- Commands on the small server.
use myteams.Prelude.{
  [], ◌∷◌, ◌++◌, ◌≡◌, ◌≢◌, ◌⊎◌, refl, false, none, some, text, text_eq, text_discrete, find_first,
  if◌then◌else◌, arith,
}
use myteams.Models.{
  User, is_user_subscribed, increment_connection, Conversations, Message, push_message, contains,
}
use myteams.Database.{find_user, find_user_by_name, user_is, find_team, team_is}
use myteams.State.{Client, Context, Server, find_client, notify_subscribers, set_context}
use myteams.Commands.Answers.{unauthorized}
use myteams.Commands.Login.{login, registered}
use myteams.Commands.Messages.{deliver, private_message, find_messages}
use myteams.Commands.Context.{use_context}
use myteams.Commands.Handling.{execute, create_cmd, login_cmd, send_cmd, list_cmd}
use myteams.Answering.Sending.{IsAnswer}
use myteams.Answering.Queries.{query-IsAnswer, lists}
use myteams.Answering.Unauthenticated.{execute-unauthenticated}
use myteams.Session.Delivery.{Noticed, notify_subscribers-Noticed}
use myteams.Session.Choosing.{IsChoice, use_context-IsChoice}
use myteams.Session.Logging.{user_of, login-user_of}
use myteams.Teams.Invariant.{IsTidy}
use myteams.Messaging.Conversations.{or_none, find_messages-push_message}
use myteams.Messaging.Delivering.{said, deliver-said, deliver_self}
use myteams.Accounting.Users.{connections}
use myteams.Accounting.Counts.{count_sessions, logged_as, logged_as-nil}
use myteams.Accounting.Invariant.{IsAccounted}
use myteams.Accounting.Commands.{IsFresh, execute-IsAccounted}
use myteams.Tests.Samples.{server, ann, bob, crew, hall, ann_client, guest, envs, empty_server}

abbrev login_client : Client
login_client = record guest { args = text "/login" ∷ (b'C' ∷ []) ∷ [] }

abbrev found_client : Client
found_client = record ann_client { args = text "/create" ∷ (b'N' ∷ []) ∷ (b'd' ∷ []) ∷ [] }

abbrev use_client : Client
use_client = record ann_client { args = text "/use" ∷ crew.uuid ∷ hall.uuid ∷ [] }

pub server-IsTidy : IsTidy server.db
server-IsTidy = record {
  names = (tt, tt);
  teams = (record { subscribers = (tt, tt); names = (tt, tt); channels = (tt, tt) }, tt);
}

login-user_of_example :
    (u : User) × (find_user_by_name (login (envs 0) 7 login_client server).db (b'C' ∷ []) ≡ some u)
    × (user_of 7 (login (envs 0) 7 login_client server).clients ≡ some u.uuid)
    × (u ≡ elim (find_user_by_name server.db (b'C' ∷ [])) [
      | none ↦ registered (envs 0) (b'C' ∷ [])
      | some old ↦ increment_connection old
    ])
unfolding find_client text
login-user_of_example = login-user_of (envs 0) 7 login_client guest server refl refl refl refl

ann-found : find_user server.db ann.uuid ≡ some ann
unfolding find_user find_first user_is text_discrete
ann-found = refl

bob-found : find_user server.db bob.uuid ≡ some bob
unfolding find_user find_first user_is text_discrete
bob-found = refl

ann-ne-bob : ann.uuid ≢ bob.uuid
ann-ne-bob e = ground arith

abbrev note : Message
note = private_message (envs 0) ann.uuid bob.uuid (b'!' ∷ [])

deliver-said_example :
    (said (deliver (envs 0) 5 ann bob (b'!' ∷ []) server).db ann.uuid bob.uuid
      ≡ said server.db ann.uuid bob.uuid ++ note ∷ [])
    × (said (deliver (envs 0) 5 ann bob (b'!' ∷ []) server).db bob.uuid ann.uuid
        ≡ said server.db bob.uuid ann.uuid ++ note ∷ [])
deliver-said_example =
    deliver-said (envs 0) 5 ann bob (b'!' ∷ []) server ann-found bob-found ann-ne-bob tt tt

abbrev memo : Message
memo = private_message (envs 0) ann.uuid ann.uuid (b'!' ∷ [])

deliver_self_example :
    said (deliver (envs 0) 5 ann ann (b'!' ∷ []) server).db ann.uuid ann.uuid
    ≡ (said server.db ann.uuid ann.uuid ++ memo ∷ []) ++ memo ∷ []
deliver_self_example = deliver_self (envs 0) 5 ann (b'!' ∷ []) server ann-found tt

abbrev talks : Conversations
talks = (ann.uuid, note ∷ []) ∷ []

find_messages-push_message_example : find_messages ann.uuid (push_message bob.uuid note talks) ≡ (
    if text_eq bob.uuid ann.uuid
    then some (or_none (find_messages ann.uuid talks) ++ note ∷ [])
    else find_messages ann.uuid talks)
find_messages-push_message_example =
    find_messages-push_message bob.uuid ann.uuid note talks (tt, tt)

use_context-IsChoice_example :
    IsAnswer 5 server (use_context 5 use_client server)
    ⊎ ((ctx : Context) × (s1 : Server) × IsChoice server.db ann.uuid ctx
        × IsAnswer 5 server s1
        × (use_context 5 use_client server ≡ set_context ctx 5 s1))
use_context-IsChoice_example = use_context-IsChoice 5 use_client server

query-IsAnswer_example : IsAnswer 5 server (execute list_cmd (envs 0) 5 ann_client server)
query-IsAnswer_example = query-IsAnswer list_cmd (envs 0) 5 ann_client server lists

create-ne-login : create_cmd ≢ login_cmd
create-ne-login e = cc

create-ne-send : create_cmd ≢ send_cmd
create-ne-send e = cc

execute-unauthenticated_example : execute create_cmd (envs 0) 7 guest server ≡ unauthorized 7 server
execute-unauthenticated_example =
    execute-unauthenticated create_cmd (envs 0) 7 guest server refl create-ne-login create-ne-send

crew-found : find_team server.db crew.uuid ≡ some crew
unfolding find_team find_first team_is text_discrete
crew-found = refl

ann_client-found : find_client 5 server.clients ≡ some ann_client
unfolding find_client
ann_client-found = refl

notify_subscribers-Noticed_example :
    (d : Client) × (find_client 5 (notify_subscribers crew.uuid (b'!' ∷ []) server).clients
      ≡ some d)
    × Noticed crew.subscriber_uuids (b'!' ∷ []) ann_client d
notify_subscribers-Noticed_example =
    notify_subscribers-Noticed crew.uuid (b'!' ∷ []) 5 server crew ann_client refl refl crew-found
      ann_client-found

bob-outside : is_user_subscribed bob.uuid crew ≡ false
unfolding is_user_subscribed text_discrete contains
bob-outside = refl

-- One connection that has not logged in, and no user.
abbrev empty_guest : Server
empty_guest = record empty_server { clients = (7, login_client) ∷ [] }

empty_guest-IsFresh : IsFresh (envs 0) empty_guest
unfolding find_user find_first
empty_guest-IsFresh = record { not_empty = λ e. cc; new_user = refl }

login_client-found : find_client 7 empty_guest.clients ≡ some login_client
unfolding find_client
login_client-found = refl

empty_guest-IsAccounted : IsAccounted empty_guest
unfolding find_first connections count_sessions logged_as
empty_guest-IsAccounted = record {
  distinct = tt;
  named = refl;
  balanced = λ user ne. omega (arith, logged_as-nil user ne);
}

execute-IsAccounted_example : IsAccounted (execute login_cmd (envs 0) 7 login_client empty_guest)
unfolding find_user find_first
execute-IsAccounted_example =
    execute-IsAccounted login_cmd (envs 0) 7 login_client empty_guest login_client-found
      empty_guest-IsFresh empty_guest-IsAccounted
