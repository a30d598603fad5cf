-- ===== src/Messaging/Reached.antt =====
-- The conversations of the users after any events of the loop.
use myteams.Prelude.{ℕ, ◌≡◌, Text, All, arith, empty, Bool-cases, inl, inr, none, some, Option}
use myteams.Models.{User, Message, add_message, increment_connection, decrement_connection}
use myteams.Database.{
  Database, user_is, user_named, update_user, update_user_by_name, add_user, add_team, update_team,
  update_channel, update_thread,
}
use myteams.State.{
  Env, Client, Server, send_to_client, set_context, server_event, on_client, broadcast,
  set_user_uuid,
}
use myteams.Poller.{Poller}
use myteams.Commands.Login.{
  login, logout, create_new_user, log_user_in, release_user, announce_logout, registered,
}
use myteams.Commands.Handling.{Command, execute, login_cmd, logout_cmd}
use myteams.Frame.Writes.{
  Frame, Change, founds_team, opens_channel, starts_thread, replies, subscribes, unsubscribes,
  delivers,
}
use myteams.Frame.Commands.{execute-P}
use myteams.Frame.Lasting.{Lasting, Reach-Holds}
use myteams.Teams.Distinct.{All-append, All-modify_first}
use myteams.Messaging.Conversations.{IsOrdered, push_message-IsOrdered}
use myteams.Accounting.Loop.{Reach}

abbrev pub HasOrder : User → Type 0
HasOrder u = IsOrdered u.messages

-- Every user has a map of conversations with its keys in order, as any `std::map` has.
abbrev pub IsFiled : Database → Type 0
IsFiled db = All HasOrder db.users

add_message-HasOrder :
    (key : Text) (m : Message) (u : User) → HasOrder u → HasOrder (add_message key m u)
unfolding add_message
add_message-HasOrder key m u h = push_message-IsOrdered key m u.messages h

increment-HasOrder : (u : User) → HasOrder u → HasOrder (increment_connection u)
unfolding increment_connection
increment-HasOrder u h = h

decrement_messages : (u : User) → (decrement_connection u).messages ≡ u.messages
unfolding decrement_connection
decrement_messages u = ground arith

decrement-HasOrder : (u : User) → HasOrder u → HasOrder (decrement_connection u)
decrement-HasOrder u h = rw (decrement_messages u) h

Change-IsFiled : (db db2 : Database) → Change db db2 → IsFiled db → IsFiled db2
unfolding add_team update_team update_channel update_thread update_user
Change-IsFiled db _ (founds_team t new few no_channels) h = h
Change-IsFiled db _ (opens_channel uuid t c found new none_yet) h = h
Change-IsFiled db _ (starts_thread team_uuid channel_uuid c th found new) h = h
Change-IsFiled db _ (replies channel_uuid thread_uuid r) h = h
Change-IsFiled db _ (subscribes uuid user) h = h
Change-IsFiled db _ (unsubscribes uuid user) h = h
Change-IsFiled db _ (delivers uuid key m) h =
    All-modify_first HasOrder (user_is uuid) (add_message key m) db.users
      (add_message-HasOrder key m) h

IsFiled-frame : Frame (λ s. IsFiled s.db)
unfolding send_to_client set_context server_event on_client
IsFiled-frame = record {
  sends = λ msg fd s a. a;
  sets_context = λ ctx fd s a. a;
  logs = λ e s a. a;
  appends = λ test msg s a. a;
  changes = λ s db c. Change-IsFiled s.db db c;
}

create_new_user-IsFiled :
    (env : Env) (fd : ℕ) (name : Text) (s : Server)
    → IsFiled s.db
    → IsFiled (create_new_user env fd name s).db
unfolding create_new_user add_user increment_connection send_to_client set_user_uuid on_client
    server_event broadcast
create_new_user-IsFiled env fd name s h = All-append HasOrder s.db.users (registered env name) h tt

log_user_in-IsFiled :
    (fd : ℕ) (name : Text) (s : Server) → IsFiled s.db → IsFiled (log_user_in fd name s).db
unfolding log_user_in update_user_by_name send_to_client set_user_uuid on_client server_event
    broadcast
log_user_in-IsFiled fd name s h =
    let kept =
      All-modify_first HasOrder (user_named name) increment_connection s.db.users increment-HasOrder
        h in
    ground arith

login-IsFiled :
    (env : Env) (fd : ℕ) (c : Client) (s : Server) → IsFiled s.db → IsFiled (login env fd c s).db
unfolding login send_to_client on_client
login-IsFiled env fd c s h = grind (arith, create_new_user-IsFiled, log_user_in-IsFiled)

release_user-IsFiled :
    (uuid : Text) (s : Server) → IsFiled s.db → IsFiled (release_user uuid s).0.db
unfolding release_user update_user
release_user-IsFiled uuid s h =
    let kept =
      All-modify_first HasOrder (user_is uuid) decrement_connection s.db.users decrement-HasOrder
        h in
    ground arith

announce_logout-IsFiled :
    (uuid : Text) (r : Server × Option User) → IsFiled r.0.db → IsFiled (announce_logout uuid r).db
unfolding announce_logout server_event broadcast
announce_logout-IsFiled uuid (s, none) h = h
announce_logout-IsFiled uuid (s, some user) h = h

logout-IsFiled : (fd : ℕ) (c : Client) (s : Server) → IsFiled s.db → IsFiled (logout fd c s).db
unfolding logout send_to_client set_user_uuid on_client
logout-IsFiled fd c s h =
    let released =
      announce_logout-IsFiled c.user_uuid (release_user c.user_uuid s)
        (release_user-IsFiled c.user_uuid s h) in
    elim (Bool-cases (empty c.user_uuid)) [
      | inl e ↦ rw (e, logout) h
      | inr e ↦ rw (e, logout) released
    ]

execute-IsFiled :
    (cmd : Command) (env : Env) (fd : ℕ) (c : Client) (s : Server)
    → IsFiled s.db
    → IsFiled (execute cmd env fd c s).db
unfolding execute
execute-IsFiled login_cmd env fd c s h = login-IsFiled env fd c s h
execute-IsFiled logout_cmd env fd c s h = logout-IsFiled fd c s h
execute-IsFiled cmd env fd c s h = execute-P IsFiled-frame cmd env fd c s (λ e. cc) (λ e. cc) h

IsFiled-Lasting : Lasting IsFiled
IsFiled-Lasting = record { commands = execute-IsFiled; releases = release_user-IsFiled }

-- After any events the conversations of every user have their keys in order, if they had at the
-- start.
pub Reach-IsFiled :
    {server_fd : ℕ} {s : Server} {p : Poller} {t : Server} {q : Poller}
    → IsFiled s.db
    → Reach server_fd s p t q
    → IsFiled t.db
Reach-IsFiled h r = Reach-Holds IsFiled IsFiled-Lasting h r
