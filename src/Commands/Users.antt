-- ===== src/Commands/Users.antt =====
-- server/commands/user and server/commands/users
use myteams.Prelude.{ℕ, [], text, empty, length, get_or, ltb, ◌++◌, none, some, if◌then◌else◌}
use myteams.Database.{find_user}
use myteams.Protocol.{quote_protocol_field}
use myteams.State.{Client, Server, send_to_client}
use myteams.Commands.Listing.{send_list}
use myteams.Commands.Answers.{bad_request, unauthorized, user_line}

unfoldable pub user : ℕ → Client → Server → Server
user fd c s =
    if empty c.user_uuid
    then unauthorized fd s
    else if ltb (length c.args) 2
    then bad_request fd s
    else let uuid = get_or c.args 1 [] in
      elim (find_user s.db uuid) [
        | none ↦
            send_to_client (text "404 NOT_FOUND " ++ quote_protocol_field uuid ++ text "\r\n") fd s
        | some found ↦ send_to_client (user_line (text "200 USER ") found) fd s
      ]

unfoldable pub users : ℕ → Client → Server → Server
users fd c s =
    if empty c.user_uuid
    then unauthorized fd s
    else send_list (text "USERS") (user_line (text "210 ")) s.db.users fd s
