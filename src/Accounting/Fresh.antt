-- ===== src/Accounting/Fresh.antt =====
-- Which uuids the users have: only `login` adds one, and it is the generator's.
use myteams.Prelude.{
  get_or, ℕ, ◌≡◌, ◌≢◌, [], refl, none, arith, find_first, Text, inl, inr, Option-cases,
}
use myteams.Models.{increment_connection, decrement_connection, add_message}
use myteams.Database.{
  Database, user_is, find_user_by_name, update_user, update_user_by_name, update_team,
  update_channel, update_thread, add_team, add_user,
}
use myteams.State.{
  Env, Client, Server, send_to_client, on_client, set_context, server_event, set_user_uuid,
  broadcast,
}
use myteams.Commands.Login.{login, logout, release_user, announce_logout, registered}
use myteams.Commands.Handling.{Command, execute, login_cmd, logout_cmd}
use myteams.Frame.Writes.{
  Frame, Change, founds_team, opens_channel, starts_thread, replies, subscribes, unsubscribes,
  delivers,
}
use myteams.Frame.Commands.{execute-P}
use myteams.Accounting.Users.{
  decrement-uuid, DistinctUuids, find_none-modify_first, find_first-append, modify_by_name,
}

abbrev pub Absent : Text → Server → Type 0
Absent v s = find_first (user_is v) s.db.users ≡ none

Change-Absent :
    (v : Text) (s : Server) (db : Database)
    → Change s.db db
    → Absent v s
    → Absent v (record s { db = db })
unfolding update_team update_channel update_thread add_team add_message update_user
Change-Absent v s db (delivers uuid key m) = find_none-modify_first uuid v _ s.db.users (λ u. refl)
Change-Absent v s db (founds_team t h few none_yet) = λ a. a
Change-Absent v s db (opens_channel uuid t c h k fresh) = λ a. a
Change-Absent v s db (starts_thread t c ch th h k) = λ a. a
Change-Absent v s db (replies c t r) = λ a. a
Change-Absent v s db (subscribes uuid user) = λ a. a
Change-Absent v s db (unsubscribes uuid user) = λ a. a

Absent-frame : (v : Text) → Frame (Absent v)
unfolding send_to_client set_context server_event on_client
Absent-frame v = record {
  sends = λ msg fd s a. a;
  sets_context = λ ctx fd s a. a;
  logs = λ e s a. a;
  appends = λ test msg s a. a;
  changes = Change-Absent v;
}

login-Absent :
    (v : Text) (env : Env) (fd : ℕ) (c : Client) (s : Server)
    → DistinctUuids s.db.users
    → v ≢ env.uuid
    → Absent v s
    → Absent v (login env fd c s)
unfolding login send_to_client set_user_uuid on_client server_event broadcast find_user_by_name
    update_user_by_name add_user increment_connection
login-Absent v env fd c s d ne a =
    elim (Option-cases (find_user_by_name s.db (get_or c.args 1 []))) [
      | inl e ↦ ground (arith, find_first-append v s.db.users (registered env (get_or c.args 1 [])))
      | inr (u, e) ↦ ground (
        arith,
        modify_by_name (get_or c.args 1 []) increment_connection s.db.users u d e,
        find_none-modify_first u.uuid v increment_connection s.db.users (λ w. refl) a,
      )
    ]

logout-Absent :
    (v : Text) (fd : ℕ) (c : Client) (s : Server) → Absent v s → Absent v (logout fd c s)
unfolding logout release_user announce_logout send_to_client set_user_uuid on_client server_event
    broadcast update_user
logout-Absent v fd c s a =
    ground
      (arith, find_none-modify_first c.user_uuid v decrement_connection s.db.users decrement-uuid a)

-- Where the uuids of the users are distinct, a uuid that nobody has and that the generator does not
-- return is still nobody's behind any command.
pub execute-Absent :
    (v : Text) (cmd : Command) (env : Env) (fd : ℕ) (c : Client) (s : Server)
    → DistinctUuids s.db.users
    → v ≢ env.uuid
    → Absent v s
    → Absent v (execute cmd env fd c s)
unfolding execute
execute-Absent v login_cmd env fd c s d ne a = login-Absent v env fd c s d ne a
execute-Absent v logout_cmd env fd c s d ne a = logout-Absent v fd c s a
execute-Absent v cmd env fd c s d ne a =
    execute-P (Absent-frame v) cmd env fd c s (λ e. cc) (λ e. cc) a
