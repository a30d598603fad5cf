-- ===== src/Commands/Create.antt =====
-- server/commands/create
pub mod Lookup
pub mod Emit
use Emit.{
  bad_request, already_exists, emit_team_created, emit_channel_created, emit_thread_created,
  emit_reply_created,
}
use Lookup.{find_accessible_team, find_channel_or_send404, find_thread_or_send404}
use myteams.Prelude.{
  ℕ, [], ◌∷◌, List, Bool, true, false, Text, text, empty, not, length, get_or, ltb, ◌||◌, ◌++◌,
  Option, none, some, find_first, text_eq, if◌then◌else◌,
}
use myteams.Models.{Team, Channel, Thread, Reply, is_user_subscribed, add_subscriber}
use myteams.Database.{
  Database, find_team, find_channel, find_thread, add_team, update_team, update_channel,
  update_thread,
}
use myteams.Protocol.{quote_protocol_field, to_string}
use myteams.State.{
  Env, Client, Context, Server, team_created, channel_created, thread_created, reply_created,
  server_event, send_to_client, broadcast, notify_subscribers,
}

abbrev pub max_name_length : ℕ
max_name_length = 32

abbrev pub max_description_length : ℕ
max_description_length = 255

abbrev pub max_body_length : ℕ
max_body_length = 512

unfoldable pub is_invalid_length : Text → ℕ → Bool
is_invalid_length value max_length = empty value || ltb max_length (length value)

-- the loops that look for an equal name or title
unfoldable pub has_team_named : Text → List Team → Bool
has_team_named name [] = false
has_team_named name (t ∷ ts) =
    let later = has_team_named name ts in if text_eq t.name name then true else later

unfoldable pub has_channel_named : Text → List Channel → Bool
has_channel_named name [] = false
has_channel_named name (c ∷ cs) =
    let later = has_channel_named name cs in if text_eq c.name name then true else later

unfoldable pub has_thread_titled : Text → List Thread → Bool
has_thread_titled title [] = false
has_thread_titled title (t ∷ ts) =
    let later = has_thread_titled title ts in if text_eq t.title title then true else later

abbrev pub founded : Env → Text → Text → Team
founded env name description = record {
  uuid = env.uuid;
  name = name;
  description = description;
  subscriber_uuids = [];
  channels = [];
}

unfoldable pub execute_team : Env → ℕ → Client → Server → Server
unfolding is_invalid_length has_team_named bad_request already_exists
execute_team env fd c s =
    if ltb (length c.args) 3
    then bad_request fd s
    else let name = get_or c.args 1 [] in
      let description = get_or c.args 2 [] in
      if is_invalid_length name max_name_length
        || is_invalid_length description max_description_length
      then bad_request fd s
      else if has_team_named name s.db.teams
      then already_exists fd s
      else let new_team = founded env name description in
        let team =
          if not (empty c.user_uuid) then (add_subscriber c.user_uuid new_team).0 else new_team in
        emit_team_created fd c team (record s { db = add_team team s.db })

abbrev pub opened : Env → Text → Text → Channel
opened env name description = record {
  uuid = env.uuid;
  name = name;
  description = description;
  threads = [];
}

abbrev pub add_channel : Channel → Team → Team
add_channel channel team = record team { channels = team.channels ++ channel ∷ [] }

-- behind the look-up of the team
unfoldable pub channel_in : Env → ℕ → Client → Server × Option Team → Server
unfolding is_invalid_length has_channel_named bad_request already_exists
channel_in env fd c (s, none) = s
channel_in env fd c (s, some team) =
    if ltb (length c.args) 3
    then bad_request fd s
    else let name = get_or c.args 1 [] in
      let description = get_or c.args 2 [] in
      if is_invalid_length name max_name_length
        || is_invalid_length description max_description_length
      then bad_request fd s
      else if has_channel_named name team.channels
      then already_exists fd s
      else let channel = opened env name description in
        let s1 = record s { db = update_team c.context.team_uuid (add_channel channel) s.db } in
        emit_channel_created fd c.context.team_uuid channel s1

unfoldable pub execute_channel : Env → ℕ → Client → Server → Server
unfolding channel_in find_accessible_team
execute_channel env fd c s = channel_in env fd c (find_accessible_team fd c c.context.team_uuid s)

abbrev pub started : Env → Client → Text → Text → Thread
started env c title body = record {
  uuid = env.uuid;
  user_uuid = c.user_uuid;
  timestamp = env.now;
  title = title;
  body = body;
  replies = [];
}

abbrev pub add_thread : Thread → Channel → Channel
add_thread thread channel = record channel { threads = channel.threads ++ thread ∷ [] }

-- behind the look-up of the channel
unfoldable pub thread_in : Env → ℕ → Client → Server × Option Channel → Server
unfolding is_invalid_length has_thread_titled bad_request already_exists
thread_in env fd c (s, none) = s
thread_in env fd c (s, some channel) =
    if ltb (length c.args) 3
    then bad_request fd s
    else let title = get_or c.args 1 [] in
      let message = get_or c.args 2 [] in
      if is_invalid_length title max_name_length || is_invalid_length message max_body_length
      then bad_request fd s
      else if has_thread_titled title channel.threads
      then already_exists fd s
      else let thread = started env c title message in
        let s1 = record s {
          db = update_channel c.context.team_uuid c.context.channel_uuid (add_thread thread) s.db;
        } in
        emit_thread_created fd c c.context.team_uuid c.context.channel_uuid thread s1

-- The look-up of the channel is made only behind an accessible team.
unfoldable pub then_channel : ℕ → Client → Server × Option Team → Server × Option Channel
unfolding find_channel_or_send404
then_channel fd c (s, none) = (s, none)
then_channel fd c (s, some _) =
    find_channel_or_send404 fd c.context.team_uuid c.context.channel_uuid s

unfoldable pub execute_thread : Env → ℕ → Client → Server → Server
unfolding thread_in then_channel find_accessible_team
execute_thread env fd c s =
    thread_in env fd c (then_channel fd c (find_accessible_team fd c c.context.team_uuid s))

abbrev pub replied : Env → Client → Text → Reply
replied env c body = record {
  uuid = env.uuid;
  user_uuid = c.user_uuid;
  timestamp = env.now;
  body = body;
}

abbrev pub add_reply : Reply → Thread → Thread
add_reply reply thread = record thread { replies = thread.replies ++ reply ∷ [] }

unfoldable pub then_thread : ℕ → Client → Server × Option Channel → Server × Option Thread
unfolding find_thread_or_send404
then_thread fd c (s, none) = (s, none)
then_thread fd c (s, some _) =
    find_thread_or_send404 fd c.context.channel_uuid c.context.thread_uuid s

-- behind the look-up of the thread
unfoldable pub reply_in : Env → ℕ → Client → Server × Option Thread → Server
unfolding is_invalid_length bad_request
reply_in env fd c (s, none) = s
reply_in env fd c (s, some thread) =
    if ltb (length c.args) 2
    then bad_request fd s
    else let message = get_or c.args 1 [] in
      if is_invalid_length message max_body_length
      then bad_request fd s
      else let reply = replied env c message in
        let s1 = record s {
          db = update_thread c.context.channel_uuid c.context.thread_uuid (add_reply reply) s.db;
        } in
        emit_reply_created fd c c.context.team_uuid c.context.thread_uuid reply s1

unfoldable pub execute_reply : Env → ℕ → Client → Server → Server
unfolding reply_in then_thread then_channel find_accessible_team
execute_reply env fd c s =
    reply_in env fd c
      (then_thread fd c (then_channel fd c (find_accessible_team fd c c.context.team_uuid s)))

unfoldable pub create : Env → ℕ → Client → Server → Server
unfolding execute_team execute_channel execute_thread execute_reply
create env fd c s =
    if empty c.user_uuid
    then send_to_client (text "401 UNAUTHORIZED\r\n") fd s
    else if empty c.context.team_uuid
    then execute_team env fd c s
    else if empty c.context.channel_uuid
    then execute_channel env fd c s
    else if empty c.context.thread_uuid
    then execute_thread env fd c s
    else execute_reply env fd c s
