-- ===== src/Session/UserNames.antt =====
-- No two users have one name: `/login` makes a user only for a name that nobody has.
use myteams.Prelude.{
  ℕ, List, [], ◌∷◌, ◌≡◌, ◌≢◌, refl, none, Text, All, arith, find_first, get_or, inl, inr,
  Option-cases,
}
use myteams.Models.{User, increment_connection, decrement_connection, add_message}
use myteams.Database.{
  Database, user_named, user_is, find_user_by_name, update_user, update_user_by_name, add_user,
  update_team, update_channel, update_thread, add_team,
}
use myteams.State.{
  Env, Client, Server, send_to_client, set_context, server_event, on_client, set_user_uuid,
  broadcast,
}
use myteams.Commands.Login.{
  login, logout, create_new_user, log_user_in, registered, release_user, announce_logout,
}
use myteams.Commands.Handling.{Command, execute, login_cmd, logout_cmd}
use myteams.Frame.Writes.{
  Frame, Change, founds_team, opens_channel, starts_thread, replies, subscribes, unsubscribes,
  delivers,
}
use myteams.Frame.Commands.{execute-P}
use myteams.Frame.Lasting.{Lasting, Reach-Holds}
use myteams.Poller.{Poller}
use myteams.Accounting.Loop.{Reach}
use myteams.Teams.Distinct.{DistinctBy, DistinctBy-append, DistinctBy-modify_first}

abbrev pub HasDistinctNames : Server → Type 0
HasDistinctNames s = DistinctBy (λ u. u.name) s.db.users

find_none-All :
    (name : Text) (us : List User)
    → find_first (user_named name) us ≡ none
    → All (λ u. u.name ≢ name) us
unfolding find_first user_named
find_none-All name [] h = tt
find_none-All name (u ∷ us) h = ground (arith, find_none-All name us)

Change-HasDistinctNames :
    (s : Server) (db : Database)
    → Change s.db db
    → HasDistinctNames s
    → HasDistinctNames (record s { db = db })
unfolding update_team update_channel update_thread add_team add_message update_user
Change-HasDistinctNames s db (delivers uuid key m) =
    DistinctBy-modify_first _ (user_is uuid) (add_message key m) s.db.users (λ u. refl)
Change-HasDistinctNames s db (founds_team t h few no_channels) = λ d. d
Change-HasDistinctNames s db (opens_channel uuid t c h k no_threads) = λ d. d
Change-HasDistinctNames s db (starts_thread t c ch th h k) = λ d. d
Change-HasDistinctNames s db (replies c t r) = λ d. d
Change-HasDistinctNames s db (subscribes uuid user) = λ d. d
Change-HasDistinctNames s db (unsubscribes uuid user) = λ d. d

HasDistinctNames-frame : Frame HasDistinctNames
unfolding send_to_client set_context server_event on_client
HasDistinctNames-frame = record {
  sends = λ msg fd s d. d;
  sets_context = λ ctx fd s d. d;
  logs = λ e s d. d;
  appends = λ test msg s d. d;
  changes = Change-HasDistinctNames;
}

login-HasDistinctNames :
    (env : Env) (fd : ℕ) (c : Client) (s : Server)
    → HasDistinctNames s
    → HasDistinctNames (login env fd c s)
unfolding login create_new_user log_user_in send_to_client set_user_uuid on_client server_event
    broadcast find_user_by_name update_user_by_name add_user increment_connection
login-HasDistinctNames env fd c s d =
    let name = get_or c.args 1 [] in
    elim (Option-cases (find_first (user_named name) s.db.users)) [
      | inl e ↦ grind (
        arith,
        DistinctBy-append (λ u. u.name) s.db.users (registered env name) d
            (find_none-All name s.db.users e),
      )
      | inr (u, e) ↦ grind (
        arith,
        DistinctBy-modify_first (λ u. u.name) (user_named name) increment_connection s.db.users
            (λ u. refl) d,
      )
    ]

decrement-name : (u : User) → (decrement_connection u).name ≡ u.name
unfolding decrement_connection
decrement-name u = ground arith

logout-HasDistinctNames :
    (fd : ℕ) (c : Client) (s : Server) → HasDistinctNames s → HasDistinctNames (logout fd c s)
unfolding logout release_user announce_logout send_to_client set_user_uuid on_client server_event
    broadcast update_user
logout-HasDistinctNames fd c s d = grind (
  arith,
  DistinctBy-modify_first (λ u. u.name) (user_is c.user_uuid) decrement_connection s.db.users
      decrement-name d,
)

execute-HasDistinctNames :
    (cmd : Command) (env : Env) (fd : ℕ) (c : Client) (s : Server)
    → HasDistinctNames s
    → HasDistinctNames (execute cmd env fd c s)
unfolding execute
execute-HasDistinctNames login_cmd env fd c s d = login-HasDistinctNames env fd c s d
execute-HasDistinctNames logout_cmd env fd c s d = logout-HasDistinctNames fd c s d
execute-HasDistinctNames cmd env fd c s d =
    execute-P HasDistinctNames-frame cmd env fd c s (λ e. cc) (λ e. cc) d

release_user-HasDistinctNames :
    (user : Text) (s : Server) → HasDistinctNames s → HasDistinctNames (release_user user s).0
unfolding release_user update_user
release_user-HasDistinctNames user s d = grind (
  arith,
  DistinctBy-modify_first (λ u. u.name) (user_is user) decrement_connection s.db.users
      decrement-name d,
)

names-Lasting : Lasting (λ db. DistinctBy (λ u. u.name) db.users)
names-Lasting = record {
  commands = execute-HasDistinctNames;
  releases = release_user-HasDistinctNames;
}

-- After any events, during each of which the generator keeps its promise, no two users have one
-- name, if no two had at the start.
pub Reach-HasDistinctNames :
    (server_fd : ℕ) (s t : Server) (p q : Poller)
    → HasDistinctNames s
    → Reach server_fd s p t q
    → HasDistinctNames t
Reach-HasDistinctNames server_fd s t p q h r = Reach-Holds _ names-Lasting h r
