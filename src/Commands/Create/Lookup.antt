-- ===== src/Commands/Create/Lookup.antt =====
-- create.cpp: the look-ups that answer with an error when they fail
use myteams.Prelude.{ℕ, Text, text, not, ◌++◌, Option, none, some, if◌then◌else◌}
use myteams.Models.{Team, Channel, Thread, is_user_subscribed}
use myteams.Database.{find_team, find_channel, find_thread}
use myteams.Protocol.{quote_protocol_field}
use myteams.State.{Client, Server, send_to_client}

-- A look-up that answers with an error returns the server after the answer, and no team.
unfoldable pub find_accessible_team : ℕ → Client → Text → Server → Server × Option Team
find_accessible_team fd c team_uuid s = elim (find_team s.db team_uuid) [
  | none ↦ (
    send_to_client (text "404 NOT_FOUND " ++ quote_protocol_field team_uuid ++ text "\r\n") fd s,
    none,
  )
  | some team ↦
      if not (is_user_subscribed c.user_uuid team)
      then (send_to_client (text "403 FORBIDDEN\r\n") fd s, none)
      else (s, some team)
]

unfoldable pub find_channel_or_send404 : ℕ → Text → Text → Server → Server × Option Channel
find_channel_or_send404 fd team_uuid channel_uuid s =
    elim (find_channel s.db team_uuid channel_uuid) [
      | none ↦ (
        send_to_client (text "404 NOT_FOUND " ++ quote_protocol_field channel_uuid ++ text "\r\n")
            fd s,
        none,
      )
      | some channel ↦ (s, some channel)
    ]

unfoldable pub find_thread_or_send404 : ℕ → Text → Text → Server → Server × Option Thread
find_thread_or_send404 fd channel_uuid thread_uuid s =
    elim (find_thread s.db channel_uuid thread_uuid) [
      | none ↦ (
        send_to_client (text "404 NOT_FOUND " ++ quote_protocol_field thread_uuid ++ text "\r\n") fd
            s,
        none,
      )
      | some thread ↦ (s, some thread)
    ]
