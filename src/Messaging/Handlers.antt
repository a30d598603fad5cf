-- ===== src/Messaging/Handlers.antt =====
-- `/subscribe` and `/unsubscribe`: the team that they leave in the database.
use myteams.Prelude.{
  ◌++◌, Bool, ℕ, List, [], ◌∷◌, ◌||◌, ◌≡◌, refl, ap, ◌∙◌, true, false, some, Text, text_eq, empty,
  length, get_or, ltb, arith, Bool-cases, inl, inr, if◌then◌else◌,
}
use myteams.Models.{contains, Team, is_user_subscribed, add_subscriber, remove_subscriber}
use myteams.Database.{Database, find_team, update_team, team_is}
use myteams.State.{
  Client, Server, LogEvent, send_to_client, server_event, notify_subscribers, on_client,
}
use myteams.Commands.Answers.{forbidden}
use myteams.Commands.Subscriptions.{subscribe, unsubscribe, subscribe_user, unsubscribe_user}
use myteams.Messaging.Around.{Around, find_first-Around}
use myteams.Messaging.Subscribing.{is_user_subscribed-subscribe, is_user_subscribed-unsubscribe}

notified-db : (team msg : Text) (s : Server) → (notify_subscribers team msg s).db ≡ s.db
unfolding notify_subscribers
notified-db team msg s = ground arith

-- What both handlers do once they have changed the database.
announced-db :
    (e : LogEvent) (team msg answer : Text) (fd : ℕ) (s : Server)
    → (send_to_client answer fd (notify_subscribers team msg (server_event e s))).db ≡ s.db
unfolding send_to_client on_client server_event
announced-db e team msg answer fd s = notified-db team msg (server_event e s)

subscribe_user_again :
    (user : Text) (t : Team) → is_user_subscribed user t ≡ true → subscribe_user user t ≡ t
unfolding add_subscriber
subscribe_user_again user t h = rw (h, subscribe_user) refl

add_subscriber-changes :
    (user : Text) (t : Team) → is_user_subscribed user t ≡ false → (add_subscriber user t).1 ≡ true
unfolding add_subscriber
add_subscriber-changes user t h = rw h refl

subscribe_user-uuid : (user : Text) (t : Team) → (subscribe_user user t).uuid ≡ t.uuid
unfolding add_subscriber
subscribe_user-uuid user t = ground arith

unsubscribe_user_absent :
    (user : Text) (t : Team) → is_user_subscribed user t ≡ false → unsubscribe_user user t ≡ t
unfolding remove_subscriber is_user_subscribed
unsubscribe_user_absent user t h = rw (h, unsubscribe_user) refl

remove_subscriber-changes :
    (user : Text) (t : Team)
    → is_user_subscribed user t ≡ true
    → (remove_subscriber user t).1 ≡ true
unfolding remove_subscriber is_user_subscribed
remove_subscriber-changes user t h = rw h refl

unsubscribe_user-uuid : (user : Text) (t : Team) → (unsubscribe_user user t).uuid ≡ t.uuid
unfolding remove_subscriber
unsubscribe_user-uuid user t = ground arith

subscribe_user-rest :
    (user : Text) (t : Team)
    → subscribe_user user t
      ≡ record t { subscriber_uuids = (subscribe_user user t).subscriber_uuids }
unfolding add_subscriber
subscribe_user-rest user t = elim (Bool-cases (is_user_subscribed user t)) [
  | inl e ↦ rw (e, subscribe_user) refl
  | inr e ↦ rw (e, subscribe_user) refl
]

unsubscribe_user-rest :
    (user : Text) (t : Team)
    → unsubscribe_user user t
      ≡ record t { subscriber_uuids = (unsubscribe_user user t).subscriber_uuids }
unfolding remove_subscriber
unsubscribe_user-rest user t = elim (Bool-cases (contains user t.subscriber_uuids)) [
  | inl e ↦ rw (e, unsubscribe_user) refl
  | inr e ↦ rw (e, unsubscribe_user) refl
]

answered-db : (answer : Text) (fd : ℕ) (s : Server) → (send_to_client answer fd s).db ≡ s.db
unfolding send_to_client on_client
answered-db answer fd s = refl

with_teams : (db : Database) (ts : List Team) → db.teams ≡ ts → db ≡ record db { teams = ts }
with_teams db ts e = ap (λ us. record db { teams = us }) e

updated :
    (uuid : Text) (f : Team → Team) (db : Database) (t : Team)
    (a : Around (team_is uuid) f db.teams t)
    → update_team uuid f db ≡ record db { teams = a.before ++ f t ∷ a.behind }
unfolding update_team
updated uuid f db t a = ap (λ us. record db { teams = us }) a.changed

subscribe-db :
    (fd : ℕ) (c : Client) (s : Server) (t : Team)
    → empty c.user_uuid ≡ false
    → (ltb (length c.args) 2 || empty (get_or c.args 1 [])) ≡ false
    → find_team s.db (get_or c.args 1 []) ≡ some t
    → (a : Around (team_is (get_or c.args 1 [])) (subscribe_user c.user_uuid) s.db.teams t)
    → (subscribe fd c s).db
      ≡ record s.db { teams = a.before ++ subscribe_user c.user_uuid t ∷ a.behind }
unfolding subscribe
subscribe-db fd c s t known args found a = elim (Bool-cases (is_user_subscribed c.user_uuid t)) [
  | inl h ↦
      rw (known, args, found, h, subscribe, subscribe_user_again c.user_uuid t h)
        (answered-db _ fd s ∙ with_teams s.db _ a.split)
  | inr h ↦
      rw (known, args, found, h, add_subscriber-changes c.user_uuid t h, subscribe)
        (announced-db _ _ _ _ fd _ ∙ updated _ (subscribe_user c.user_uuid) s.db t a)
]

unsubscribe-db :
    (fd : ℕ) (c : Client) (s : Server) (t : Team)
    → empty c.user_uuid ≡ false
    → (ltb (length c.args) 2 || empty (get_or c.args 1 [])) ≡ false
    → find_team s.db (get_or c.args 1 []) ≡ some t
    → (a : Around (team_is (get_or c.args 1 [])) (unsubscribe_user c.user_uuid) s.db.teams t)
    → (unsubscribe fd c s).db
      ≡ record s.db { teams = a.before ++ unsubscribe_user c.user_uuid t ∷ a.behind }
unfolding unsubscribe forbidden
unsubscribe-db fd c s t known args found a = elim (Bool-cases (is_user_subscribed c.user_uuid t)) [
  | inr h ↦
      rw (known, args, found, h, unsubscribe, unsubscribe_user_absent c.user_uuid t h)
        (answered-db _ fd s ∙ with_teams s.db _ a.split)
  | inl h ↦
      rw (known, args, found, h, remove_subscriber-changes c.user_uuid t h, unsubscribe)
        (announced-db _ _ _ _ fd _ ∙ updated _ (unsubscribe_user c.user_uuid) s.db t a)
]

-- A database with one team exchanged for another that differs in its subscribers at most: `user`
-- subscribes to it or not, as `subscribed` says, and every other user as before. All other teams,
-- in their places, and all users stay.
pub record Resubscribed (user : Text) (subscribed : Bool) (t : Team) (db db2 : Database)
    : Type 0 where
  pub before : List Team
  pub behind : List Team
  pub team : Team
  pub split : db.teams ≡ before ++ t ∷ behind
  pub exchanged : db2 ≡ record db { teams = before ++ team ∷ behind }
  pub rest : team ≡ record t { subscriber_uuids = team.subscriber_uuids }
  pub subscribers :
      (other : Text)
      → is_user_subscribed other team
        ≡ (if text_eq user other then subscribed else is_user_subscribed other t)

-- `/subscribe` from a user, with the uuid of a team that is found, leaves that team with the user
-- among its subscribers and its other subscribers as they were, whether or not the user subscribed
-- before, and every other team and every user as it was.
pub subscribe-Resubscribed :
    (fd : ℕ) (c : Client) (s : Server) (t : Team)
    → empty c.user_uuid ≡ false
    → (ltb (length c.args) 2 || empty (get_or c.args 1 [])) ≡ false
    → find_team s.db (get_or c.args 1 []) ≡ some t
    → Resubscribed c.user_uuid true t s.db (subscribe fd c s).db
unfolding find_team
subscribe-Resubscribed fd c s t known args found =
    let a =
      find_first-Around (team_is (get_or c.args 1 [])) (subscribe_user c.user_uuid) s.db.teams t
        found in
    record {
      before = a.before;
      behind = a.behind;
      team = subscribe_user c.user_uuid t;
      split = a.split;
      exchanged = subscribe-db fd c s t known args found a;
      rest = subscribe_user-rest c.user_uuid t;
      subscribers = λ other. is_user_subscribed-subscribe c.user_uuid other t;
    }

-- `/unsubscribe` from a user, with the uuid of a team that is found, leaves that team without the
-- user among its subscribers and its other subscribers as they were, whether or not the user
-- subscribed before, and every other team and every user as it was.
pub unsubscribe-Resubscribed :
    (fd : ℕ) (c : Client) (s : Server) (t : Team)
    → empty c.user_uuid ≡ false
    → (ltb (length c.args) 2 || empty (get_or c.args 1 [])) ≡ false
    → find_team s.db (get_or c.args 1 []) ≡ some t
    → Resubscribed c.user_uuid false t s.db (unsubscribe fd c s).db
unfolding find_team
unsubscribe-Resubscribed fd c s t known args found =
    let a =
      find_first-Around (team_is (get_or c.args 1 [])) (unsubscribe_user c.user_uuid) s.db.teams t
        found in
    record {
      before = a.before;
      behind = a.behind;
      team = unsubscribe_user c.user_uuid t;
      split = a.split;
      exchanged = unsubscribe-db fd c s t known args found a;
      rest = unsubscribe_user-rest c.user_uuid t;
      subscribers = λ other. is_user_subscribed-unsubscribe c.user_uuid other t;
    }
