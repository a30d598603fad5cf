-- ===== src/Teams/Commands.antt =====
-- Every command keeps the invariant of the teams.
use myteams.Prelude.{
  empty, ◌∙◌, ℕ, List, [], ◌∷◌, length, ◌≤◌, ◌≡◌, refl, Option, none, some, Text, find_first, arith,
  Bool-cases, Option-cases, inl, inr,
}
use myteams.Models.{User, Team, Channel, add_subscriber, remove_subscriber}
use myteams.Database.{
  Database, team_is, channel_is, thread_is, find_team, find_channel, update_team, update_channel_of,
  update_channel, update_thread_of, update_thread, has_channel, add_team, add_user, update_user,
  update_user_by_name,
}
use myteams.State.{
  Env, Client, Server, send_to_client, set_context, server_event, on_client, broadcast,
  set_user_uuid,
}
use myteams.Commands.Create.{add_channel, add_reply}
use myteams.Commands.Subscriptions.{subscribe_user, unsubscribe_user}
use myteams.Commands.Login.{
  login, logout, create_new_user, log_user_in, release_user, announce_logout,
}
use myteams.Commands.Handling.{Command, execute, login_cmd, logout_cmd}
use myteams.Frame.Writes.{
  Frame, Change, founds_team, opens_channel, starts_thread, replies, subscribes, unsubscribes,
  delivers,
}
use myteams.Frame.Commands.{execute-P}
use myteams.Teams.Distinct.{
  All-append, DistinctBy, DistinctBy-append, DistinctBy-modify_first, has_team_named-All,
  has_channel_named-All, has_thread_titled-All,
}
use myteams.Teams.Invariant.{
  IsTidy, subscribe_user-IsTidy, unsubscribe_user-IsTidy, update_team-IsTidy, update_found-IsTidy,
  add_channel-IsTidy, update_channel_of-IsTidy, add_thread-IsTidy,
}

few-DistinctBy : (xs : List Text) → length xs ≤ 1 → DistinctBy (λ u. u) xs
few-DistinctBy [] h = tt
few-DistinctBy (x ∷ []) h = (tt, tt)
few-DistinctBy (x ∷ y ∷ xs) h = absurd (omega arith)

find_channel-in :
    (db : Database) (team_uuid channel_uuid : Text) (c : Channel)
    → find_channel db team_uuid channel_uuid ≡ some c
    → (t : Team) × (find_first (team_is team_uuid) db.teams ≡ some t)
      × (find_first (channel_is channel_uuid) t.channels ≡ some c)
unfolding find_channel find_team
find_channel-in db team_uuid channel_uuid c h =
    elim (Option-cases (find_first (team_is team_uuid) db.teams)) [
      | inl e ↦ absurd (ground arith)
      | inr (t, e) ↦ (t, e, ground arith)
    ]

subscribe-name : (user : Text) (t : Team) → (subscribe_user user t).name ≡ t.name
unfolding add_subscriber
subscribe-name user t = ground arith

unsubscribe-name : (user : Text) (t : Team) → (unsubscribe_user user t).name ≡ t.name
unfolding remove_subscriber
unsubscribe-name user t = ground arith

Change-IsTidy : (db db2 : Database) → Change db db2 → IsTidy db → IsTidy db2
unfolding add_team update_team update_channel update_thread update_user find_team
Change-IsTidy db _ (founds_team t new few no_channels) h = record {
  names = DistinctBy-append _ db.teams t h.names (has_team_named-All t.name db.teams new);
  teams = All-append _ db.teams t h.teams (record {
    subscribers = few-DistinctBy t.subscriber_uuids few;
    names = rw no_channels tt;
    channels = rw no_channels tt;
  });
}
Change-IsTidy db _ (opens_channel uuid t c found new none_yet) h =
    update_found-IsTidy (team_is uuid) (add_channel c) db t (λ x. refl) found
      (add_channel-IsTidy c t (has_channel_named-All c.name t.channels new) none_yet) h
Change-IsTidy db _ (starts_thread team_uuid channel_uuid c th found new) h =
    let (t, found_team, found_channel) = find_channel-in db team_uuid channel_uuid c found in
    update_found-IsTidy (team_is team_uuid) _ db t (unfold update_channel_of in λ x. refl)
      found_team
      (add_thread-IsTidy channel_uuid t c th found_channel
        (has_thread_titled-All th.title c.threads new))
      h
Change-IsTidy db _ (replies channel_uuid thread_uuid r) h =
    update_team-IsTidy (has_channel channel_uuid) _ db (unfold update_channel_of in λ t. refl)
      (λ t.
        update_channel_of-IsTidy channel_uuid (update_thread_of thread_uuid (add_reply r)) t
          (unfold update_thread_of in λ c. refl)
          (λ c ch.
            unfold update_thread_of in
            DistinctBy-modify_first _ (thread_is thread_uuid) (add_reply r) c.threads (λ x. refl)
              ch))
      h
Change-IsTidy db _ (subscribes uuid user) h =
    update_team-IsTidy (team_is uuid) (subscribe_user user) db (subscribe-name user)
      (subscribe_user-IsTidy user) h
Change-IsTidy db _ (unsubscribes uuid user) h =
    update_team-IsTidy (team_is uuid) (unsubscribe_user user) db (unsubscribe-name user)
      (unsubscribe_user-IsTidy user) h
Change-IsTidy db _ (delivers uuid key m) h = record { names = h.names; teams = h.teams }

IsTidy-frame : Frame (λ s. IsTidy s.db)
unfolding send_to_client set_context server_event on_client
IsTidy-frame = record {
  sends = λ msg fd s a. a;
  sets_context = λ ctx fd s a. a;
  logs = λ e s a. a;
  appends = λ test msg s a. a;
  changes = λ s db c. Change-IsTidy s.db db c;
}

pub same_teams : (db db2 : Database) → db2.teams ≡ db.teams → IsTidy db → IsTidy db2
same_teams db db2 e h = record { names = rw e h.names; teams = rw e h.teams }

login-teams :
    (env : Env) (fd : ℕ) (c : Client) (s : Server) → (login env fd c s).db.teams ≡ s.db.teams
unfolding login create_new_user log_user_in update_user_by_name add_user send_to_client
    set_user_uuid on_client server_event broadcast
login-teams env fd c s = ground arith

announce_logout-teams :
    (uuid : Text) (r : Server × Option User) → (announce_logout uuid r).db.teams ≡ r.0.db.teams
unfolding announce_logout server_event broadcast
announce_logout-teams uuid (s, none) = refl
announce_logout-teams uuid (s, some user) = refl

pub release_user-teams : (uuid : Text) (s : Server) → (release_user uuid s).0.db.teams ≡ s.db.teams
unfolding release_user update_user
release_user-teams uuid s = ground arith

logout-teams : (fd : ℕ) (c : Client) (s : Server) → (logout fd c s).db.teams ≡ s.db.teams
unfolding logout send_to_client set_user_uuid on_client
logout-teams fd c s =
    let released = announce_logout-teams c.user_uuid (release_user c.user_uuid s) in
    elim (Bool-cases (empty c.user_uuid)) [
      | inl e ↦ rw (e, logout) refl
      | inr e ↦ rw (e, logout) (released ∙ release_user-teams c.user_uuid s)
    ]

-- Every command keeps the names of the teams distinct, the names of the channels of each team, the
-- titles of the threads of each channel and the subscribers of each team.
pub execute-IsTidy :
    (cmd : Command) (env : Env) (fd : ℕ) (c : Client) (s : Server)
    → IsTidy s.db
    → IsTidy (execute cmd env fd c s).db
unfolding execute
execute-IsTidy login_cmd env fd c s h = same_teams s.db _ (login-teams env fd c s) h
execute-IsTidy logout_cmd env fd c s h = same_teams s.db _ (logout-teams fd c s) h
execute-IsTidy cmd env fd c s h = execute-P IsTidy-frame cmd env fd c s (λ e. cc) (λ e. cc) h
