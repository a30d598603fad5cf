-- ===== src/Teams/Invariant.antt =====
-- The invariant of the teams, kept by every command.
use myteams.Prelude.{
  [], ◌≡◌, ◌≢◌, refl, Bool, some, Text, All, find_first, modify_first, Bool-cases, inl, inr,
}
use myteams.Models.{
  Team, Channel, Thread, contains, is_user_subscribed, add_subscriber, remove_subscriber,
}
use myteams.Database.{Database, channel_is, update_channel_of}
use myteams.Commands.Create.{add_channel, add_thread}
use myteams.Commands.Subscriptions.{subscribe_user, unsubscribe_user}
use myteams.Teams.Distinct.{
  All-append, All-find_first, All-modify_first, All-modify_found, DistinctBy, DistinctBy-append,
  DistinctBy-modify_first, contains-All, remove_all-DistinctBy,
}

abbrev pub IsTidyChannel : Channel → Type 0
IsTidyChannel c = DistinctBy (λ t. t.title) c.threads

pub record IsTidyTeam (t : Team) : Type 0 where
  pub subscribers : DistinctBy (λ u. u) t.subscriber_uuids
  pub names : DistinctBy (λ c. c.name) t.channels
  pub channels : All IsTidyChannel t.channels

pub record IsTidy (db : Database) : Type 0 where
  pub names : DistinctBy (λ t. t.name) db.teams
  pub teams : All IsTidyTeam db.teams

pub subscribe_user-IsTidy :
    (user : Text) (t : Team) → IsTidyTeam t → IsTidyTeam (subscribe_user user t)
unfolding add_subscriber
subscribe_user-IsTidy user t h = elim (Bool-cases (is_user_subscribed user t)) [
  | inl e ↦ rw (e, subscribe_user) h
  | inr e ↦
      rw (e, subscribe_user)
        (record {
          subscribers =
              DistinctBy-append (λ u. u) t.subscriber_uuids user h.subscribers
                (contains-All user t.subscriber_uuids (unfold is_user_subscribed in e));
          names = h.names;
          channels = h.channels;
        })
]

pub unsubscribe_user-IsTidy :
    (user : Text) (t : Team) → IsTidyTeam t → IsTidyTeam (unsubscribe_user user t)
unfolding remove_subscriber
unsubscribe_user-IsTidy user t h = elim (Bool-cases (contains user t.subscriber_uuids)) [
  | inr e ↦ rw (e, unsubscribe_user) h
  | inl e ↦
      rw (e, unsubscribe_user)
        (record {
          subscribers = remove_all-DistinctBy user t.subscriber_uuids h.subscribers;
          names = h.names;
          channels = h.channels;
        })
]

-- A change of one team that keeps its name.
pub update_team-IsTidy :
    (p : Team → Bool) (f : Team → Team) (db : Database)
    → ((t : Team) → (f t).name ≡ t.name)
    → ((t : Team) → IsTidyTeam t → IsTidyTeam (f t))
    → IsTidy db
    → IsTidy (record db { teams = modify_first p f db.teams })
update_team-IsTidy p f db keeps tidy h = record {
  names = DistinctBy-modify_first _ p f db.teams keeps h.names;
  teams = All-modify_first _ p f db.teams tidy h.teams;
}

-- A change of the team that a look-up found.
pub update_found-IsTidy :
    (p : Team → Bool) (f : Team → Team) (db : Database) (t : Team)
    → ((t : Team) → (f t).name ≡ t.name)
    → find_first p db.teams ≡ some t
    → (IsTidyTeam t → IsTidyTeam (f t))
    → IsTidy db
    → IsTidy (record db { teams = modify_first p f db.teams })
update_found-IsTidy p f db t keeps found tidy h = record {
  names = DistinctBy-modify_first _ p f db.teams keeps h.names;
  teams =
      All-modify_found _ p f db.teams t found (tidy (All-find_first _ p db.teams t found h.teams))
        h.teams;
}

pub add_channel-IsTidy :
    (c : Channel) (t : Team)
    → All (λ d. d.name ≢ c.name) t.channels
    → c.threads ≡ []
    → IsTidyTeam t
    → IsTidyTeam (add_channel c t)
add_channel-IsTidy c t new none_yet h = record {
  subscribers = h.subscribers;
  names = DistinctBy-append _ t.channels c h.names new;
  channels = All-append _ t.channels c h.channels (rw none_yet tt);
}

-- A change of one channel that keeps its name.
pub update_channel_of-IsTidy :
    (uuid : Text) (f : Channel → Channel) (t : Team)
    → ((c : Channel) → (f c).name ≡ c.name)
    → ((c : Channel) → IsTidyChannel c → IsTidyChannel (f c))
    → IsTidyTeam t
    → IsTidyTeam (update_channel_of uuid f t)
unfolding update_channel_of
update_channel_of-IsTidy uuid f t keeps tidy h = record {
  subscribers = h.subscribers;
  names = DistinctBy-modify_first _ (channel_is uuid) f t.channels keeps h.names;
  channels = All-modify_first _ (channel_is uuid) f t.channels tidy h.channels;
}

pub add_thread-IsTidy :
    (uuid : Text) (t : Team) (c : Channel) (th : Thread)
    → find_first (channel_is uuid) t.channels ≡ some c
    → All (λ x. x.title ≢ th.title) c.threads
    → IsTidyTeam t
    → IsTidyTeam (update_channel_of uuid (add_thread th) t)
unfolding update_channel_of
add_thread-IsTidy uuid t c th found new h = record {
  subscribers = h.subscribers;
  names =
      DistinctBy-modify_first _ (channel_is uuid) (add_thread th) t.channels (λ d. refl) h.names;
  channels =
      All-modify_found _ (channel_is uuid) (add_thread th) t.channels c found
        (DistinctBy-append _ c.threads th
          (All-find_first _ (channel_is uuid) t.channels c found h.channels) new)
        h.channels;
}
