-- ===== src/Persistence/Decoder.antt =====
-- server/saveManager/JsonSerializer.cpp, the functions that read a parsed value.
use myteams.Prelude.{ℕ, List, [], ◌∷◌, map, Text, text}
use myteams.Models.{Message, Reply, Thread, Channel, Team, User, Conversations}
use myteams.Persistence.Maps.{assign}
use myteams.Persistence.Json.{JsonVal, member, str_of, num_of, array_of, object_of}
use myteams.Persistence.Numbers.{Doubles}

module _ (d : Doubles) where
  open d use {Double, zero_double, to_time}

  -- `static_cast<time_t>(val["timestamp"].num())`
  unfoldable pub time_of : JsonVal Double → ℕ
  unfolding member num_of
  time_of val = to_time (num_of zero_double (member val (text "timestamp")))

  unfoldable pub message_from_json : JsonVal Double → Message
  unfolding member str_of time_of
  message_from_json val = record {
    sender_uuid = str_of (member val (text "sender"));
    receiver_uuid = str_of (member val (text "receiver"));
    timestamp = time_of val;
    body = str_of (member val (text "body"));
  }

  unfoldable pub reply_from_json : JsonVal Double → Reply
  unfolding member str_of time_of
  reply_from_json val = record {
    uuid = str_of (member val (text "uuid"));
    user_uuid = str_of (member val (text "user_uuid"));
    timestamp = time_of val;
    body = str_of (member val (text "body"));
  }

  unfoldable pub thread_from_json : JsonVal Double → Thread
  unfolding member str_of time_of
  thread_from_json val = record {
    uuid = str_of (member val (text "uuid"));
    user_uuid = str_of (member val (text "user_uuid"));
    timestamp = time_of val;
    title = str_of (member val (text "title"));
    body = str_of (member val (text "body"));
    replies = map reply_from_json (array_of (member val (text "replies")));
  }

  unfoldable pub channel_from_json : JsonVal Double → Channel
  unfolding member str_of
  channel_from_json val = record {
    uuid = str_of (member val (text "uuid"));
    name = str_of (member val (text "name"));
    description = str_of (member val (text "description"));
    threads = map thread_from_json (array_of (member val (text "threads")));
  }

  unfoldable pub team_from_json : JsonVal Double → Team
  unfolding member str_of
  team_from_json val = record {
    uuid = str_of (member val (text "uuid"));
    name = str_of (member val (text "name"));
    description = str_of (member val (text "description"));
    subscriber_uuids = map str_of (array_of (member val (text "subscribers")));
    channels = map channel_from_json (array_of (member val (text "channels")));
  }

  -- the loop over `val["messages"].object()`, behind the map that is filled
  unfoldable pub read_conversations : Conversations → List (Text × JsonVal Double) → Conversations
  unfolding assign
  read_conversations messages [] = messages
  read_conversations messages ((interlocutor, msgs_val) ∷ rest) =
      read_conversations (assign interlocutor (map message_from_json (array_of msgs_val)) messages)
        rest

  unfoldable pub user_from_json : JsonVal Double → User
  unfolding member str_of object_of
  user_from_json val = record {
    uuid = str_of (member val (text "uuid"));
    name = str_of (member val (text "name"));
    connected_count = 0;
    teams = map str_of (array_of (member val (text "teams")));
    messages = read_conversations [] (object_of (member val (text "messages")));
  }
