-- ===== src/Commands/Create/Emit.antt =====
-- create.cpp: the messages and the events of each creation
use myteams.Prelude.{ℕ, Text, text, ◌++◌}
use myteams.Models.{Team, Channel, Thread, Reply}
use myteams.Protocol.{quote_protocol_field, to_string}
use myteams.State.{
  Client, Server, team_created, channel_created, thread_created, reply_created, server_event,
  send_to_client, broadcast, notify_subscribers,
}

-- uuid, name and description, as the messages about teams and channels quote them
unfoldable pub described : Text → Text → Text → Text
described uuid name description =
    quote_protocol_field uuid
    ++ text " "
    ++ quote_protocol_field name
    ++ text " "
    ++ quote_protocol_field description
    ++ text "\r\n"

unfoldable pub emit_team_created : ℕ → Client → Team → Server → Server
unfolding described
emit_team_created fd c team s =
    let fields = described team.uuid team.name team.description in
    let s1 = send_to_client (text "201 CREATED TEAM " ++ fields) fd s in
    let s2 = server_event (team_created team.uuid team.name c.user_uuid) s1 in
    broadcast (text "EVENT TEAM_CREATED " ++ fields) s2

unfoldable pub emit_channel_created : ℕ → Text → Channel → Server → Server
unfolding described
emit_channel_created fd team_uuid channel s =
    let fields = described channel.uuid channel.name channel.description in
    let s1 = send_to_client (text "201 CREATED CHANNEL " ++ fields) fd s in
    let s2 = server_event (channel_created team_uuid channel.uuid channel.name) s1 in
    notify_subscribers team_uuid (text "EVENT CHANNEL_CREATED " ++ fields) s2

-- the fields of a thread, as the messages about threads quote them
unfoldable pub thread_fields : Thread → Text
thread_fields thread =
    quote_protocol_field thread.uuid
    ++ text " "
    ++ quote_protocol_field thread.user_uuid
    ++ text " "
    ++ to_string thread.timestamp
    ++ text " "
    ++ quote_protocol_field thread.title
    ++ text " "
    ++ quote_protocol_field thread.body
    ++ text "\r\n"

unfoldable pub emit_thread_created : ℕ → Client → Text → Text → Thread → Server → Server
unfolding thread_fields
emit_thread_created fd c team_uuid channel_uuid thread s =
    let s1 = send_to_client (text "201 CREATED THREAD " ++ thread_fields thread) fd s in
    let s2 =
      server_event (thread_created channel_uuid thread.uuid c.user_uuid thread.title thread.body)
        s1 in
    notify_subscribers team_uuid (text "EVENT THREAD_CREATED " ++ thread_fields thread) s2

unfoldable pub emit_reply_created : ℕ → Client → Text → Text → Reply → Server → Server
emit_reply_created fd c team_uuid thread_uuid reply s =
    let s1 =
      send_to_client
        (text "201 CREATED REPLY "
          ++ quote_protocol_field thread_uuid
          ++ text " "
          ++ quote_protocol_field reply.user_uuid
          ++ text " "
          ++ to_string reply.timestamp
          ++ text " "
          ++ quote_protocol_field reply.body
          ++ text "\r\n")
        fd s in
    let s2 = server_event (reply_created thread_uuid c.user_uuid reply.body) s1 in
    notify_subscribers team_uuid
      (text "EVENT REPLY_CREATED "
        ++ quote_protocol_field team_uuid
        ++ text " "
        ++ quote_protocol_field thread_uuid
        ++ text " "
        ++ quote_protocol_field reply.user_uuid
        ++ text " "
        ++ quote_protocol_field reply.body
        ++ text "\r\n")
      s2

unfoldable pub bad_request : ℕ → Server → Server
bad_request = send_to_client (text "400 BAD_REQUEST\r\n")

unfoldable pub already_exists : ℕ → Server → Server
already_exists = send_to_client (text "409 ALREADY_EXISTS\r\n")
