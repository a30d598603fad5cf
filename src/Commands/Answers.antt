-- ===== src/Commands/Answers.antt =====
-- Answers that several commands give.
use myteams.Prelude.{ℕ, Text, text, empty, not, ◌++◌, none, some, if◌then◌else◌}
use myteams.Models.{User, Team, Channel, Thread, is_user_subscribed, is_connected}
use myteams.Database.{find_team}
use myteams.Protocol.{quote_protocol_field, to_string}
use myteams.State.{Client, Server, send_to_client}

unfoldable pub bad_request : ℕ → Server → Server
bad_request = send_to_client (text "400 BAD_REQUEST\r\n")

unfoldable pub unauthorized : ℕ → Server → Server
unauthorized = send_to_client (text "401 UNAUTHORIZED\r\n")

unfoldable pub forbidden : ℕ → Server → Server
forbidden = send_to_client (text "403 FORBIDDEN\r\n")

-- `"404 NOT_FOUND " + kind + " " + quoteProtocolField(uuid) + "\r\n"`
unfoldable pub not_found : Text → Text → ℕ → Server → Server
not_found kind uuid =
    send_to_client
      (text "404 NOT_FOUND " ++ kind ++ text " " ++ quote_protocol_field uuid ++ text "\r\n")

-- three quoted fields behind a head
unfoldable pub three_fields : Text → Text → Text → Text → Text
three_fields head a b c =
    head
    ++ quote_protocol_field a
    ++ text " "
    ++ quote_protocol_field b
    ++ text " "
    ++ quote_protocol_field c
    ++ text "\r\n"

unfoldable pub team_line : Text → Team → Text
unfolding three_fields
team_line head team = three_fields head team.uuid team.name team.description

unfoldable pub channel_line : Text → Channel → Text
unfolding three_fields
channel_line head channel = three_fields head channel.uuid channel.name channel.description

unfoldable pub thread_line : Text → Thread → Text
thread_line head thread =
    head
    ++ quote_protocol_field thread.uuid
    ++ text " "
    ++ quote_protocol_field thread.user_uuid
    ++ text " "
    ++ to_string thread.timestamp
    ++ text " "
    ++ quote_protocol_field thread.title
    ++ text " "
    ++ quote_protocol_field thread.body
    ++ text "\r\n"

unfoldable pub user_line : Text → User → Text
user_line head user =
    head
    ++ quote_protocol_field user.uuid
    ++ text " "
    ++ quote_protocol_field user.name
    ++ text " "
    ++ (if is_connected user then text "1" else text "0")
    ++ text "\r\n"

-- The guard that `/info` and `/list` share: a team in the context must exist and be subscribed to.
unfoldable pub team_guard : ℕ → Client → Server → (Server → Server) → Server
unfolding not_found forbidden
team_guard fd c s rest =
    if empty c.context.team_uuid then rest s else elim (find_team s.db c.context.team_uuid) [
      | none ↦ not_found (text "TEAM") c.context.team_uuid fd s
      | some team ↦ if not (is_user_subscribed c.user_uuid team) then forbidden fd s else rest s
    ]
