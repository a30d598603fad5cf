-- ===== src/Commands/Login.antt =====
-- server/commands/login and server/commands/logout
use myteams.Prelude.{
  ℕ, [], Text, text, empty, not, length, get_or, ltb, ◌||◌, ◌++◌, Option, none, some, if◌then◌else◌,
}
use myteams.Models.{User, new_user, increment_connection, decrement_connection, is_connected}
use myteams.Database.{find_user, find_user_by_name, add_user, update_user, update_user_by_name}
use myteams.Protocol.{quote_protocol_field}
use myteams.State.{
  Env, Client, Server, user_created, user_logged_in, user_logged_out, server_event, send_to_client,
  set_user_uuid, broadcast,
}

abbrev pub max_name_length : ℕ
max_name_length = 32

unfoldable pub ok_user : User → Text
ok_user u = text "200 OK \"" ++ u.uuid ++ text "\" \"" ++ u.name ++ text "\"\r\n"

unfoldable pub logged_in_event : User → Text
logged_in_event u =
    text "EVENT USER_LOGGED_IN "
    ++ quote_protocol_field u.uuid
    ++ text " "
    ++ quote_protocol_field u.name
    ++ text "\r\n"

unfoldable pub logged_out_event : User → Text
logged_out_event u =
    text "EVENT USER_LOGGED_OUT "
    ++ quote_protocol_field u.uuid
    ++ text " "
    ++ quote_protocol_field u.name
    ++ text "\r\n"

abbrev pub registered : Env → Text → User
registered env username = record (increment_connection (record new_user { name = username })) {
  uuid = env.uuid;
}

unfoldable pub create_new_user : Env → ℕ → Text → Server → Server
create_new_user env fd username s =
    let user = registered env username in
    let s1 = record s { db = add_user user s.db } in
    let s2 = set_user_uuid user.uuid fd s1 in
    let s3 = send_to_client (ok_user user) fd s2 in
    let s4 = server_event (user_created user.uuid user.name) s3 in
    let s5 = server_event (user_logged_in user.uuid) s4 in broadcast (logged_in_event user) s5

unfoldable pub log_user_in : ℕ → Text → Server → Server
log_user_in fd username s = elim (find_user_by_name s.db username) [
  | none ↦ send_to_client (text "404 NOT_FOUND\r\n") fd s
  | some user ↦
      let s1 = record s { db = update_user_by_name username increment_connection s.db } in
      let s2 = set_user_uuid user.uuid fd s1 in
      let s3 = send_to_client (ok_user user) fd s2 in
      let s4 = server_event (user_logged_in user.uuid) s3 in broadcast (logged_in_event user) s4
]

unfoldable pub login : Env → ℕ → Client → Server → Server
unfolding create_new_user log_user_in
login env fd c s =
    if ltb (length c.args) 2
    then send_to_client (text "400 BAD_REQUEST\r\n") fd s
    else if not (empty c.user_uuid)
    then send_to_client (text "401 UNAUTHORIZED\r\n") fd s
    else let username = get_or c.args 1 [] in
      if empty username || ltb max_name_length (length username)
      then send_to_client (text "400 BAD_REQUEST\r\n") fd s
      else elim (find_user_by_name s.db username) [
        | none ↦ create_new_user env fd username s
        | some _ ↦ log_user_in fd username s
      ]

-- What `logout` and `_disconnectClient` do to the user behind a connection: its count falls, and
-- the user comes back if that was the last connection.
unfoldable pub release_user : Text → Server → Server × Option User
release_user user_uuid s = elim (find_user s.db user_uuid) [
  | none ↦ (s, none)
  | some user ↦
      let user' = decrement_connection user in
      let s1 = record s { db = update_user user_uuid decrement_connection s.db } in
      if is_connected user' then (s1, none) else (s1, some user')
]

unfoldable pub announce_logout : Text → Server × Option User → Server
announce_logout user_uuid (s, none) = s
announce_logout user_uuid (s, some user) =
    server_event (user_logged_out user_uuid) (broadcast (logged_out_event user) s)

unfoldable pub logout : ℕ → Client → Server → Server
logout fd c s =
    if empty c.user_uuid
    then send_to_client (text "401 UNAUTHORIZED\r\n") fd s
    else let s1 = announce_logout c.user_uuid (release_user c.user_uuid s) in
      let s2 = set_user_uuid [] fd s1 in send_to_client (text "200 OK\r\n") fd s2
