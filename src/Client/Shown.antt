-- ===== src/Client/Shown.antt =====
-- What the client shows of the lists of the server.
use myteams.Prelude.{ℕ, map, ◌≡◌, true, false, some, All, arith, empty}
use myteams.Models.{Team, Channel, Thread}
use myteams.Database.{find_team, find_channel, find_thread}
use myteams.State.{Client, Server}
use myteams.Commands.Listing.{execute_team, execute_channel, execute_thread, execute_reply, list}
use myteams.Commands.Users.{users}
use myteams.Client.Calls.{Router}
use myteams.Client.Listed.{Shows, send_list-Shows}
use myteams.Client.Items.Places.{
  team_call, TeamIsReadable, team_item, channel_call, ChannelIsReadable, channel_item, thread_call,
  ThreadIsReadable, thread_item,
}
use myteams.Client.Items.People.{
  reply_call, ReplyIsReadable, reply_item, user_call, UserIsReadable, user_item,
}

module _ (fd : ℕ) (s : Server) (r : Router) (stays : r.should_disconnect ≡ false) where
  -- /list outside of a team
  pub execute_team-Shows :
      All TeamIsReadable s.db.teams → Shows fd s (execute_team fd s) r (map team_call s.db.teams)
  unfolding execute_team
  execute_team-Shows a = send_list-Shows TeamIsReadable team_item s.db.teams fd s r stays a

  pub users-Shows :
      (c : Client)
      → empty c.user_uuid ≡ false
      → All UserIsReadable s.db.users
      → Shows fd s (users fd c s) r (map user_call s.db.users)
  unfolding users
  users-Shows c e a = rw e (send_list-Shows UserIsReadable user_item s.db.users fd s r stays a)

  pub execute_channel-Shows :
      (c : Client) (team : Team)
      → find_team s.db c.context.team_uuid ≡ some team
      → All ChannelIsReadable team.channels
      → Shows fd s (execute_channel fd c s) r (map channel_call team.channels)
  unfolding execute_channel
  execute_channel-Shows c team e a =
      rw (e, execute_channel)
        (send_list-Shows ChannelIsReadable channel_item team.channels fd s r stays a)

  pub execute_thread-Shows :
      (c : Client) (channel : Channel)
      → find_channel s.db c.context.team_uuid c.context.channel_uuid ≡ some channel
      → All ThreadIsReadable channel.threads
      → Shows fd s (execute_thread fd c s) r (map thread_call channel.threads)
  unfolding execute_thread
  execute_thread-Shows c channel e a =
      rw (e, execute_thread)
        (send_list-Shows ThreadIsReadable thread_item channel.threads fd s r stays a)

  pub execute_reply-Shows :
      (c : Client) (thread : Thread)
      → find_thread s.db c.context.channel_uuid c.context.thread_uuid ≡ some thread
      → All (ReplyIsReadable thread) thread.replies
      → Shows fd s (execute_reply fd c s) r (map (reply_call thread) thread.replies)
  unfolding execute_reply
  execute_reply-Shows c thread e a =
      rw (e, execute_reply)
        (send_list-Shows (ReplyIsReadable thread) (reply_item thread) thread.replies fd s r stays a)

  list_outside :
      (c : Client)
      → empty c.user_uuid ≡ false
      → empty c.context.team_uuid ≡ true
      → list fd c s ≡ execute_team fd s
  unfolding list
  list_outside c e t = ground arith

  -- The answer of /list to a client that is logged in and in no team is one text. A client that
  -- reads it, from its first byte to its last, makes one call of `client_print_teams` for each team
  -- of the database, in their order and with their uuid, name and description, shows nothing else,
  -- and ends with no list open. It was not about to disconnect; the fields hold no quote, backslash
  -- or separator but single spaces, and each line fits a frame.
  pub list-Shows :
      (c : Client)
      → empty c.user_uuid ≡ false
      → empty c.context.team_uuid ≡ true
      → All TeamIsReadable s.db.teams
      → Shows fd s (list fd c s) r (map team_call s.db.teams)
  list-Shows c e t a = rw (list_outside c e t) (execute_team-Shows a)
