-- ===== src/Frame/Writes.antt =====
-- The writes of the commands. `login` and `logout` also move a user's connection count, and have
-- lemmas of their own for that.
use myteams.Prelude.{length, ◌≤◌, [], ℕ, Text, Bool, true, false, ◌≡◌, some, arith, text_eq}
use myteams.Models.{Team, Channel, Thread, Reply, Message, add_message}
use myteams.Database.{
  Database, find_team, find_channel, update_user, update_team, update_channel, update_thread,
  add_team,
}
use myteams.State.{
  Context, Client, Server, LogEvent, append_where, send_to_client, send_to_user, broadcast,
  notify_subscribers, server_event, set_context,
}
use myteams.Commands.Create.{
  add_channel, add_thread, add_reply, has_team_named, has_channel_named, has_thread_titled,
}
use myteams.Commands.Subscriptions.{subscribe_user, unsubscribe_user}

-- What a command other than `login` and `logout` may make of a database.
pub data Change (db : Database) : Database → Type 0 where
  founds_team :
      (t : Team)
      → has_team_named t.name db.teams ≡ false
      → length t.subscriber_uuids ≤ 1
      → t.channels ≡ []
      → Change db (add_team t db)
  opens_channel :
      (uuid : Text) (t : Team) (c : Channel)
      → find_team db uuid ≡ some t
      → has_channel_named c.name t.channels ≡ false
      → c.threads ≡ []
      → Change db (update_team uuid (add_channel c) db)
  starts_thread :
      (team_uuid channel_uuid : Text) (c : Channel) (t : Thread)
      → find_channel db team_uuid channel_uuid ≡ some c
      → has_thread_titled t.title c.threads ≡ false
      → Change db (update_channel team_uuid channel_uuid (add_thread t) db)
  replies :
      (channel_uuid thread_uuid : Text) (r : Reply)
      → Change db (update_thread channel_uuid thread_uuid (add_reply r) db)
  subscribes : (uuid user : Text) → Change db (update_team uuid (subscribe_user user) db)
  unsubscribes : (uuid user : Text) → Change db (update_team uuid (unsubscribe_user user) db)
  delivers : (uuid key : Text) (m : Message) → Change db (update_user uuid (add_message key m) db)

pub record Frame (P : Server → Type 0) : Type 0 where
  pub sends : (msg : Text) (fd : ℕ) (s : Server) → P s → P (send_to_client msg fd s)
  pub sets_context : (ctx : Context) (fd : ℕ) (s : Server) → P s → P (set_context ctx fd s)
  pub logs : (e : LogEvent) (s : Server) → P s → P (server_event e s)
  pub appends :
      (test : Client → Bool) (msg : Text) (s : Server)
      → P s
      → P (record s { clients = append_where test msg s.clients })
  pub changes : (s : Server) (db : Database) → Change s.db db → P s → P (record s { db = db })

module _ {P : Server → Type 0} (frame : Frame P) where
  pub sends-P : (msg : Text) (fd : ℕ) (s : Server) → P s → P (send_to_client msg fd s)
  sends-P = frame.sends

  pub logs-P : (e : LogEvent) (s : Server) → P s → P (server_event e s)
  logs-P = frame.logs

  pub broadcast-P : (msg : Text) (s : Server) → P s → P (broadcast msg s)
  unfolding broadcast
  broadcast-P msg s = frame.appends (λ _. true) msg s

  pub send_to_user-P : (user msg : Text) (s : Server) → P s → P (send_to_user user msg s)
  unfolding send_to_user
  send_to_user-P user msg s = frame.appends (λ c. text_eq c.user_uuid user) msg s

  pub notify_subscribers-P :
      (team msg : Text) (s : Server) → P s → P (notify_subscribers team msg s)
  unfolding notify_subscribers
  notify_subscribers-P team msg s p = grind (arith, frame.appends)
