-- ===== src/Commands/Subscriptions.antt =====
-- server/commands/subscribe, server/commands/unsubscribe and server/commands/subscribed
use myteams.Prelude.{
  ℕ, [], ◌∷◌, List, Text, text, empty, not, length, get_or, ltb, ◌||◌, ◌++◌, ◌==◌, none, some,
  if◌then◌else◌,
}
use myteams.Models.{User, Team, is_user_subscribed, add_subscriber, remove_subscriber}
use myteams.Database.{Database, find_user, find_team, update_team}
use myteams.Protocol.{quote_protocol_field}
use myteams.State.{
  Client, Server, user_subscribed, user_unsubscribed, server_event, send_to_client,
  notify_subscribers,
}
use myteams.Commands.Listing.{send_list}
use myteams.Commands.Answers.{bad_request, unauthorized, forbidden, not_found, team_line, user_line}

-- uuid of the user and uuid of the team, quoted behind a head
unfoldable pub two_fields : Text → Text → Text → Text
two_fields head a b =
    head ++ quote_protocol_field a ++ text " " ++ quote_protocol_field b ++ text "\r\n"

-- The notices of both commands put the uuids between plain quotes.
unfoldable pub notice : Text → Text → Text → Text
notice head a b = head ++ text " \"" ++ a ++ text "\" \"" ++ b ++ text "\"\r\n"

-- The team that `addSubscriber` leaves, put back in its place.
abbrev pub subscribe_user : Text → Team → Team
subscribe_user user team = (add_subscriber user team).0

abbrev pub unsubscribe_user : Text → Team → Team
unsubscribe_user user team = (remove_subscriber user team).0

unfoldable pub subscribe : ℕ → Client → Server → Server
unfolding two_fields notice
subscribe fd c s =
    if empty c.user_uuid
    then unauthorized fd s
    else let team_uuid = get_or c.args 1 [] in
      if ltb (length c.args) 2 || empty team_uuid
      then bad_request fd s
      else elim (find_team s.db team_uuid) [
        | none ↦ not_found (text "TEAM") team_uuid fd s
        | some team ↦
            if is_user_subscribed c.user_uuid team
            then send_to_client (two_fields (text "200 SUBSCRIBE ") c.user_uuid team_uuid) fd s
            else if not (add_subscriber c.user_uuid team).1
            then bad_request fd s
            else let s1 = record s {
              db = update_team team_uuid (subscribe_user c.user_uuid) s.db;
            } in
              let s2 = server_event (user_subscribed team_uuid c.user_uuid) s1 in
              let s3 =
                notify_subscribers team_uuid (notice (text "user_subscribed") team_uuid c.user_uuid)
                  s2 in
              send_to_client (two_fields (text "200 SUBSCRIBE ") c.user_uuid team_uuid) fd s3
      ]

unfoldable pub unsubscribe : ℕ → Client → Server → Server
unfolding two_fields notice
unsubscribe fd c s =
    if empty c.user_uuid
    then unauthorized fd s
    else let team_uuid = get_or c.args 1 [] in
      if ltb (length c.args) 2 || empty team_uuid
      then bad_request fd s
      else elim (find_team s.db team_uuid) [
        | none ↦ not_found (text "TEAM") team_uuid fd s
        | some team ↦
            if not (is_user_subscribed c.user_uuid team)
            then forbidden fd s
            else if not (remove_subscriber c.user_uuid team).1
            then bad_request fd s
            else let s1 = record s {
              db = update_team team_uuid (unsubscribe_user c.user_uuid) s.db;
            } in
              let s2 = server_event (user_unsubscribed team_uuid c.user_uuid) s1 in
              let s3 =
                notify_subscribers team_uuid
                  (notice (text "user_unsubscribed") team_uuid c.user_uuid) s2 in
              send_to_client (two_fields (text "200 UNSUBSCRIBE ") c.user_uuid team_uuid) fd s3
      ]

-- The loops skip what they do not list.
unfoldable pub subscribed_teams : Text → List Team → List Team
subscribed_teams user [] = []
subscribed_teams user (t ∷ ts) =
    let rest = subscribed_teams user ts in if is_user_subscribed user t then t ∷ rest else rest

unfoldable pub known_users : Database → List Text → List User
known_users db [] = []
known_users db (u ∷ us) =
    let rest = known_users db us in elim (find_user db u) [ none ↦ rest | some user ↦ user ∷ rest ]

unfoldable pub list_all_teams : ℕ → Client → Server → Server
unfolding subscribed_teams
list_all_teams fd c s =
    send_list (text "TEAMS") (team_line (text "210 ")) (subscribed_teams c.user_uuid s.db.teams) fd
      s

unfoldable pub list_subscribed_users : ℕ → Text → Server → Server
unfolding known_users
list_subscribed_users fd team_uuid s = elim (find_team s.db team_uuid) [
  | none ↦ not_found (text "TEAM") team_uuid fd s
  | some team ↦
      send_list (text "USERS") (user_line (text "210 ")) (known_users s.db team.subscriber_uuids) fd
        s
]

unfoldable pub subscribed : ℕ → Client → Server → Server
unfolding list_all_teams list_subscribed_users
subscribed fd c s =
    if empty c.user_uuid
    then unauthorized fd s
    else if ltb (length c.args) 2
    then list_all_teams fd c s
    else if length c.args == 2
    then (let team_uuid = get_or c.args 1 [] in
        if empty team_uuid then bad_request fd s else list_subscribed_users fd team_uuid s)
    else bad_request fd s
