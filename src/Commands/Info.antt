-- ===== src/Commands/Info.antt =====
-- server/commands/info
use myteams.Prelude.{ℕ, text, empty, not, none, some, if◌then◌else◌}
use myteams.Database.{find_user, find_team, find_channel, find_thread}
use myteams.State.{Client, Server, send_to_client}
use myteams.Commands.Answers.{
  unauthorized, not_found, team_line, channel_line, thread_line, user_line, team_guard,
}

unfoldable pub execute_team : ℕ → Client → Server → Server
execute_team fd c s = elim (find_team s.db c.context.team_uuid) [
  | none ↦ not_found (text "TEAM") c.context.team_uuid fd s
  | some team ↦ send_to_client (team_line (text "200 INFO TEAM ") team) fd s
]

unfoldable pub execute_channel : ℕ → Client → Server → Server
execute_channel fd c s = elim (find_channel s.db c.context.team_uuid c.context.channel_uuid) [
  | none ↦ not_found (text "CHANNEL") c.context.channel_uuid fd s
  | some channel ↦ send_to_client (channel_line (text "200 INFO CHANNEL ") channel) fd s
]

unfoldable pub execute_thread : ℕ → Client → Server → Server
execute_thread fd c s = elim (find_thread s.db c.context.channel_uuid c.context.thread_uuid) [
  | none ↦ not_found (text "THREAD") c.context.thread_uuid fd s
  | some thread ↦ send_to_client (thread_line (text "200 INFO THREAD ") thread) fd s
]

unfoldable pub execute_user : ℕ → Client → Server → Server
execute_user fd c s =
    if empty c.user_uuid then unauthorized fd s else elim (find_user s.db c.user_uuid) [
      | none ↦ not_found (text "USER") c.user_uuid fd s
      | some user ↦ send_to_client (user_line (text "200 INFO USER ") user) fd s
    ]

unfoldable pub info : ℕ → Client → Server → Server
unfolding execute_team execute_channel execute_thread execute_user team_guard
info fd c s =
    if empty c.user_uuid
    then unauthorized fd s
    else team_guard fd c s λ s.
      if not (empty c.context.thread_uuid)
      then execute_thread fd c s
      else if not (empty c.context.channel_uuid)
      then execute_channel fd c s
      else if not (empty c.context.team_uuid)
      then execute_team fd c s
      else execute_user fd c s
