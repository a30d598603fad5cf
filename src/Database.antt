-- ===== src/Database.antt =====
-- server/database: the look-ups. A pointer that a look-up returns is the element that it points
-- at, and a write through it is an update of the first element that the look-up would find.
use myteams.Prelude.{
  List, [], ◌∷◌, ◌++◌, Bool, true, false, Option, none, some, Text, text_eq, find_first,
  modify_first,
}
use myteams.Models.{User, Team, Channel, Thread}

pub record Database : Type 0 where
  pub users : List User
  pub teams : List Team

unfoldable pub user_is : Text → User → Bool
user_is uuid u = text_eq u.uuid uuid

unfoldable pub user_named : Text → User → Bool
user_named name u = text_eq u.name name

unfoldable pub team_is : Text → Team → Bool
team_is uuid t = text_eq t.uuid uuid

unfoldable pub channel_is : Text → Channel → Bool
channel_is uuid c = text_eq c.uuid uuid

unfoldable pub thread_is : Text → Thread → Bool
thread_is uuid t = text_eq t.uuid uuid

unfoldable pub find_user : Database → Text → Option User
find_user db uuid = find_first (user_is uuid) db.users

unfoldable pub find_user_by_name : Database → Text → Option User
find_user_by_name db name = find_first (user_named name) db.users

unfoldable pub find_team : Database → Text → Option Team
find_team db uuid = find_first (team_is uuid) db.teams

unfoldable pub find_channel : Database → Text → Text → Option Channel
unfolding find_team
find_channel db team_uuid channel_uuid = elim (find_team db team_uuid) [
  | none ↦ none
  | some team ↦ find_first (channel_is channel_uuid) team.channels
]

-- The first channel of that uuid in any team decides: the loop returns behind it.
unfoldable pub find_thread_in : List Team → Text → Text → Option Thread
find_thread_in [] channel_uuid thread_uuid = none
find_thread_in (team ∷ teams) channel_uuid thread_uuid =
    let later = find_thread_in teams channel_uuid thread_uuid in
    elim (find_first (channel_is channel_uuid) team.channels) [
      | none ↦ later
      | some channel ↦ find_first (thread_is thread_uuid) channel.threads
    ]

unfoldable pub find_thread : Database → Text → Text → Option Thread
unfolding find_thread_in
find_thread db channel_uuid thread_uuid = find_thread_in db.teams channel_uuid thread_uuid

-- Writes through the pointers.
unfoldable pub update_user : Text → (User → User) → Database → Database
update_user uuid f db = record db { users = modify_first (user_is uuid) f db.users }

unfoldable pub update_user_by_name : Text → (User → User) → Database → Database
update_user_by_name name f db = record db { users = modify_first (user_named name) f db.users }

unfoldable pub update_team : Text → (Team → Team) → Database → Database
update_team uuid f db = record db { teams = modify_first (team_is uuid) f db.teams }

unfoldable pub update_channel_of : Text → (Channel → Channel) → Team → Team
update_channel_of uuid f team = record team {
  channels = modify_first (channel_is uuid) f team.channels;
}

unfoldable pub update_channel : Text → Text → (Channel → Channel) → Database → Database
unfolding update_team update_channel_of
update_channel team_uuid channel_uuid f = update_team team_uuid (update_channel_of channel_uuid f)

unfoldable pub update_thread_of : Text → (Thread → Thread) → Channel → Channel
update_thread_of uuid f channel = record channel {
  threads = modify_first (thread_is uuid) f channel.threads;
}

unfoldable pub has_channel : Text → Team → Bool
has_channel uuid team = elim (find_first (channel_is uuid) team.channels) [
  | none ↦ false
  | some _ ↦ true
]

unfoldable pub update_thread : Text → Text → (Thread → Thread) → Database → Database
unfolding has_channel update_channel_of update_thread_of
update_thread channel_uuid thread_uuid f db = record db {
  teams =
      modify_first (has_channel channel_uuid)
        (update_channel_of channel_uuid (update_thread_of thread_uuid f)) db.teams;
}

unfoldable pub add_user : User → Database → Database
add_user u db = record db { users = db.users ++ u ∷ [] }

unfoldable pub add_team : Team → Database → Database
add_team t db = record db { teams = db.teams ++ t ∷ [] }
