-- ===== src/Commands/Listing.antt =====
-- server/commands/list
use myteams.Prelude.{ℕ, List, Text, text, empty, not, ◌&&◌, ◌++◌, none, some, if◌then◌else◌}
use myteams.Models.{Thread, Reply}
use myteams.Database.{find_team, find_channel, find_thread}
use myteams.Protocol.{quote_protocol_field, to_string}
use myteams.State.{Client, Server, send_to_client, send_each}
use myteams.Commands.Answers.{
  unauthorized, not_found, team_line, channel_line, thread_line, team_guard,
}

unfoldable pub reply_line : Thread → Reply → Text
reply_line thread reply =
    text "210 "
    ++ quote_protocol_field thread.uuid
    ++ text " "
    ++ quote_protocol_field reply.user_uuid
    ++ text " "
    ++ to_string reply.timestamp
    ++ text " "
    ++ quote_protocol_field reply.body
    ++ text "\r\n"

-- A list answer: its begin line, a line for each item, its end line.
unfoldable pub send_list {ℓ} : {A : Type ℓ} → Text → (A → Text) → List A → ℕ → Server → Server
send_list kind line items fd s =
    let s1 = send_to_client (text "210-BEGIN " ++ kind ++ text "\r\n") fd s in
    let s2 = send_each line items fd s1 in
    send_to_client (text "210-END " ++ kind ++ text "\r\n") fd s2

unfoldable pub execute_reply : ℕ → Client → Server → Server
unfolding send_list
execute_reply fd c s = elim (find_thread s.db c.context.channel_uuid c.context.thread_uuid) [
  | none ↦ not_found (text "THREAD") c.context.thread_uuid fd s
  | some thread ↦ send_list (text "REPLIES") (reply_line thread) thread.replies fd s
]

unfoldable pub execute_thread : ℕ → Client → Server → Server
unfolding send_list
execute_thread fd c s = elim (find_channel s.db c.context.team_uuid c.context.channel_uuid) [
  | none ↦ not_found (text "CHANNEL") c.context.channel_uuid fd s
  | some channel ↦ send_list (text "THREADS") (thread_line (text "210 ")) channel.threads fd s
]

unfoldable pub execute_channel : ℕ → Client → Server → Server
unfolding send_list
execute_channel fd c s = elim (find_team s.db c.context.team_uuid) [
  | none ↦ not_found (text "TEAM") c.context.team_uuid fd s
  | some team ↦ send_list (text "CHANNELS") (channel_line (text "210 ")) team.channels fd s
]

unfoldable pub execute_team : ℕ → Server → Server
unfolding send_list
execute_team fd s = send_list (text "TEAMS") (team_line (text "210 ")) s.db.teams fd s

unfoldable pub list : ℕ → Client → Server → Server
unfolding execute_reply execute_thread execute_channel execute_team team_guard
list fd c s =
    if empty c.user_uuid
    then unauthorized fd s
    else team_guard fd c s λ s.
      if not (empty c.context.channel_uuid)
        && not (empty c.context.thread_uuid)
        && not (empty c.context.team_uuid)
      then execute_reply fd c s
      else if not (empty c.context.channel_uuid) && not (empty c.context.team_uuid)
      then execute_thread fd c s
      else if not (empty c.context.team_uuid)
      then execute_channel fd c s
      else execute_team fd s
