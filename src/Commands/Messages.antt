-- ===== src/Commands/Messages.antt =====
-- server/commands/send and server/commands/messages
use myteams.Prelude.{
  ℕ, [], ◌∷◌, List, Text, text, empty, length, get_or, ltb, ◌||◌, ◌++◌, Option, none, some, text_eq,
  if◌then◌else◌,
}
use myteams.Models.{User, Message, Conversations, add_message}
use myteams.Database.{find_user, update_user}
use myteams.Protocol.{quote_protocol_field, to_string}
use myteams.State.{
  Env, Client, Server, private_message_sended, server_event, send_to_client, send_to_user,
}
use myteams.Commands.Listing.{send_list}
use myteams.Commands.Answers.{bad_request, unauthorized, not_found}

abbrev pub max_body_length : ℕ
max_body_length = 512

abbrev pub private_message : Env → Text → Text → Text → Message
private_message env sender receiver body = record {
  sender_uuid = sender;
  receiver_uuid = receiver;
  timestamp = env.now;
  body = body;
}

-- Both pointers may be one: then the message is added twice to the one user.
unfoldable pub deliver : Env → ℕ → User → User → Text → Server → Server
deliver env fd sender receiver body s =
    let message = private_message env sender.uuid receiver.uuid body in
    let db1 = update_user sender.uuid (add_message receiver.uuid message) s.db in
    let db2 = update_user receiver.uuid (add_message sender.uuid message) db1 in
    let s1 =
      server_event (private_message_sended sender.uuid receiver.uuid body)
        (record s { db = db2 }) in
    let s2 =
      send_to_user receiver.uuid
        (text "EVENT PRIVATE_MESSAGE "
          ++ quote_protocol_field sender.uuid
          ++ text " "
          ++ quote_protocol_field body
          ++ text "\r\n")
        s1 in
    send_to_client (text "200 OK\r\n") fd s2

unfoldable pub send : Env → ℕ → Client → Server → Server
unfolding deliver
send env fd c s =
    if ltb (length c.args) 3
    then bad_request fd s
    else let to = get_or c.args 1 [] in
      let body = get_or c.args 2 [] in
      if empty to || empty body || ltb max_body_length (length body)
      then bad_request fd s
      else elim (find_user s.db c.user_uuid) [
        | none ↦ unauthorized fd s
        | some sender ↦ elim (find_user s.db to) [
          | none ↦ not_found (text "USER") to fd s
          | some receiver ↦ deliver env fd sender receiver body s
        ]
      ]

unfoldable pub message_line : Message → Text
message_line message =
    text "210 "
    ++ quote_protocol_field message.sender_uuid
    ++ text " "
    ++ to_string message.timestamp
    ++ text " "
    ++ quote_protocol_field message.body
    ++ text "\r\n"

-- `messages.find(key)`
unfoldable pub find_messages : Text → Conversations → Option (List Message)
find_messages key [] = none
find_messages key ((k, ms) ∷ rest) =
    let later = find_messages key rest in if text_eq k key then some ms else later

unfoldable pub messages : ℕ → Client → Server → Server
messages fd c s =
    if empty c.user_uuid
    then unauthorized fd s
    else if ltb (length c.args) 2
    then bad_request fd s
    else let user_uuid = get_or c.args 1 [] in
      if empty user_uuid then bad_request fd s else elim (find_user s.db c.user_uuid) [
        | none ↦ unauthorized fd s
        | some sender ↦ elim (find_user s.db user_uuid) [
          | none ↦ not_found (text "USER") user_uuid fd s
          | some receiver ↦ elim (find_messages user_uuid sender.messages) [
            | none ↦ send_list {A = Message} (text "MESSAGES") message_line [] fd s
            | some ms ↦ send_list (text "MESSAGES") message_line ms fd s
          ]
        ]
      ]
