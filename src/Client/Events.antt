-- ===== src/Client/Events.antt =====
-- client/protocol/handlers: the handlers of events.
use myteams.Prelude.{ℕ, List, [], none, some, Text, length, get_or, ltb, if◌then◌else◌}
use myteams.Client.Integers.{stoll}
use myteams.Client.Calls.{
  Router, call, event_team_created, event_channel_created, event_thread_created,
  event_thread_reply_received, event_logged_in, event_logged_out, event_private_message_received,
}

-- `tokens[i]`; each handler tests the number of tokens before.
abbrev pub token : List Text → ℕ → Text
token tokens i = get_or tokens i []

unfoldable pub team_created : List Text → Router → Router
team_created tokens r =
    if ltb (length tokens) 5
    then r
    else call (event_team_created (token tokens 2) (token tokens 3) (token tokens 4)) r

unfoldable pub channel_created : List Text → Router → Router
channel_created tokens r =
    if ltb (length tokens) 5
    then r
    else call (event_channel_created (token tokens 2) (token tokens 3) (token tokens 4)) r

unfoldable pub thread_created : List Text → Router → Router
thread_created tokens r = if ltb (length tokens) 7 then r else elim (stoll (token tokens 4)) [
  | none ↦ r
  | some timestamp ↦
      call
        (event_thread_created (token tokens 2) (token tokens 3) timestamp (token tokens 5)
          (token tokens 6))
        r
]

unfoldable pub reply_created : List Text → Router → Router
reply_created tokens r =
    if ltb (length tokens) 6
    then r
    else call
        (event_thread_reply_received (token tokens 2) (token tokens 3) (token tokens 4)
          (token tokens 5))
        r

unfoldable pub user_logged_in : List Text → Router → Router
user_logged_in tokens r =
    if ltb (length tokens) 4 then r else call (event_logged_in (token tokens 2) (token tokens 3)) r

unfoldable pub user_logged_out : List Text → Router → Router
user_logged_out tokens r =
    if ltb (length tokens) 4 then r else call (event_logged_out (token tokens 2) (token tokens 3)) r

unfoldable pub private_message : List Text → Router → Router
private_message tokens r =
    if ltb (length tokens) 4
    then r
    else call (event_private_message_received (token tokens 2) (token tokens 3)) r
