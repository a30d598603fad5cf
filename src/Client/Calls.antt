-- ===== src/Client/Calls.antt =====
-- What the client's router keeps and does: client/User.hpp, the state of ServerMessageRouter, and the
-- calls of the logging library.
use myteams.Prelude.{List, [], ◌∷◌, ◌++◌, Bool, true, false, Text}
use myteams.Client.Integers.{ℤ}

-- The calls of libs/myteams/logging_client.h, and a line of text that is shown.
pub data Call : Type 0 where
  event_team_created event_channel_created : Text → Text → Text → Call
  event_thread_created : Text → Text → ℤ → Text → Text → Call
  event_thread_reply_received : Text → Text → Text → Text → Call
  event_logged_in event_logged_out : Text → Text → Call
  event_private_message_received : Text → Text → Call
  print_users print_user : Text → Text → ℤ → Call
  print_teams team_print_channels print_team print_channel : Text → Text → Text → Call
  channel_print_threads print_thread : Text → Text → ℤ → Text → Text → Call
  thread_print_replies : Text → Text → ℤ → Text → Call
  private_message_print_messages : Text → ℤ → Text → Call
  print_team_created print_channel_created : Text → Text → Text → Call
  print_thread_created : Text → Text → ℤ → Text → Text → Call
  print_reply_created : Text → Text → ℤ → Text → Call
  print_subscribed print_unsubscribed : Text → Text → Call
  error_unauthorized error_already_exist : Call
  error_unknown_team error_unknown_channel error_unknown_thread error_unknown_user : Text → Call
  shown : Text → Call

-- client/User.hpp
pub record ClientUser : Type 0 where
  pub uuid : Text
  pub name : Text
  pub logged_in : Bool

abbrev pub new_client_user : ClientUser
new_client_user = record { uuid = []; name = []; logged_in = false }

-- `User::login`
unfoldable pub log_in : Text → Text → ClientUser → ClientUser
log_in uuid name user = record { uuid = uuid; name = name; logged_in = true }

-- `User::logout`
unfoldable pub log_out : ClientUser → ClientUser
log_out user = record { uuid = []; name = []; logged_in = false }

pub record Router : Type 0 where
  pub user : ClientUser
  pub should_disconnect : Bool
  pub pending_command : Text
  pub list_context : Text
  pub calls : List Call

abbrev pub new_router : Router
new_router = record {
  user = new_client_user;
  should_disconnect = false;
  pending_command = [];
  list_context = [];
  calls = [];
}

unfoldable pub set_pending_command : Text → Router → Router
set_pending_command command r = record r { pending_command = command }

abbrev pub call : Call → Router → Router
call c r = record r { calls = r.calls ++ c ∷ [] }
