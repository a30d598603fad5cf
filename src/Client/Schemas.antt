-- ===== src/Client/Schemas.antt =====
-- client/protocol/CommandSchemas.hpp
use myteams.Prelude.{ℕ, List, [], ◌∷◌, Text, text}

abbrev pub max_name : ℕ
max_name = 32

abbrev pub max_desc : ℕ
max_desc = 255

abbrev pub max_body : ℕ
max_body = 512

abbrev pub max_uuid : ℕ
max_uuid = 36

pub record ArgSchema : Type 0 where
  pub max_len : ℕ
  pub name : Text

-- `args` has three entries; those that an entry of the table leaves out are never read.
pub record CommandSchema : Type 0 where
  pub name : Text
  pub usage : Text
  pub min_args : ℕ
  pub max_args : ℕ
  pub args : List ArgSchema

abbrev no_args : Text → CommandSchema
no_args name = record { name = name; usage = name; min_args = 0; max_args = 0; args = [] }

abbrev uuid_arg : Text → ArgSchema
uuid_arg name = record { max_len = max_uuid; name = name }

unfoldable pub schemas : List CommandSchema
schemas =
    record {
      name = text "/login";
      usage = text "/login \"user_name\"";
      min_args = 1;
      max_args = 1;
      args = record { max_len = max_name; name = text "user_name" } ∷ [];
    }
    ∷ no_args (text "/logout")
    ∷ no_args (text "/users")
    ∷ record {
      name = text "/user";
      usage = text "/user \"user_uuid\"";
      min_args = 1;
      max_args = 1;
      args = uuid_arg (text "user_uuid") ∷ [];
    }
    ∷ record {
      name = text "/send";
      usage = text "/send \"user_uuid\" \"message_body\"";
      min_args = 2;
      max_args = 2;
      args =
          uuid_arg (text "user_uuid")
          ∷ record { max_len = max_body; name = text "message_body" }
          ∷ [];
    }
    ∷ record {
      name = text "/messages";
      usage = text "/messages \"user_uuid\"";
      min_args = 1;
      max_args = 1;
      args = uuid_arg (text "user_uuid") ∷ [];
    }
    ∷ record {
      name = text "/subscribe";
      usage = text "/subscribe \"team_uuid\"";
      min_args = 1;
      max_args = 1;
      args = uuid_arg (text "team_uuid") ∷ [];
    }
    ∷ record {
      name = text "/subscribed";
      usage = text "/subscribed ?\"team_uuid\"";
      min_args = 0;
      max_args = 1;
      args = uuid_arg (text "team_uuid") ∷ [];
    }
    ∷ record {
      name = text "/unsubscribe";
      usage = text "/unsubscribe \"team_uuid\"";
      min_args = 1;
      max_args = 1;
      args = uuid_arg (text "team_uuid") ∷ [];
    }
    ∷ record {
      name = text "/use";
      usage = text "/use ?\"team_uuid\" ?\"channel_uuid\" ?\"thread_uuid\"";
      min_args = 0;
      max_args = 3;
      args =
          uuid_arg (text "team_uuid")
          ∷ uuid_arg (text "channel_uuid")
          ∷ uuid_arg (text "thread_uuid")
          ∷ [];
    }
    ∷ record {
      name = text "/create";
      usage = text "/create \"comment_body\" (after /use team channel thread)";
      min_args = 1;
      max_args = 1;
      args = record { max_len = max_body; name = text "comment_body" } ∷ [];
    }
    ∷ record {
      name = text "/create";
      usage = text "/create \"name\" \"description/message\" (team, channel, or thread)";
      min_args = 2;
      max_args = 2;
      args =
          record { max_len = max_name; name = text "name" }
          ∷ record { max_len = max_body; name = text "description/message" }
          ∷ [];
    }
    ∷ no_args (text "/list")
    ∷ no_args (text "/info")
    ∷ []
