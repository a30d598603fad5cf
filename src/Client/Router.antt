-- ===== src/Client/Router.antt =====
-- client/protocol/ServerMessageRouter.cpp
use myteams.Prelude.{
  List, [], ◌∷◌, none, some, Text, text, text_eq, length, ltb, not, if◌then◌else◌,
}
use myteams.Protocol.TokenParser.{parse}
use myteams.Client.Integers.{ℤ, stoll, to_int}
use myteams.Client.Calls.{
  Router, Call, call, print_users, print_teams, team_print_channels, channel_print_threads,
  thread_print_replies, private_message_print_messages,
}
use myteams.Client.Events.{
  token, team_created, channel_created, thread_created, reply_created, user_logged_in,
  user_logged_out, private_message,
}
use myteams.Client.Status.{handle_status}

-- `safeLL` and what is done with its value
unfoldable pub with_number : Text → (ℤ → Call) → Router → Router
with_number value c r = elim (stoll value) [ none ↦ r | some n ↦ call (c n) r ]

unfoldable pub list_users : List Text → Router → Router
list_users tok r =
    if ltb (length tok) 4
    then r
    else with_number (token tok 3) (λ n. print_users (token tok 1) (token tok 2) (to_int n)) r

unfoldable pub list_teams : List Text → Router → Router
list_teams tok r =
    if ltb (length tok) 4 then r else call (print_teams (token tok 1) (token tok 2) (token tok 3)) r

unfoldable pub list_channels : List Text → Router → Router
list_channels tok r =
    if ltb (length tok) 4
    then r
    else call (team_print_channels (token tok 1) (token tok 2) (token tok 3)) r

unfoldable pub list_threads : List Text → Router → Router
list_threads tok r =
    if ltb (length tok) 6
    then r
    else with_number (token tok 3)
        (λ n. channel_print_threads (token tok 1) (token tok 2) n (token tok 4) (token tok 5)) r

unfoldable pub list_replies : List Text → Router → Router
list_replies tok r =
    if ltb (length tok) 5
    then r
    else with_number (token tok 3)
        (λ n. thread_print_replies (token tok 1) (token tok 2) n (token tok 4)) r

unfoldable pub list_messages : List Text → Router → Router
list_messages tok r =
    if ltb (length tok) 4
    then r
    else with_number (token tok 2)
        (λ n. private_message_print_messages (token tok 1) n (token tok 3)) r

-- `_listHandlers.find(_listContext)`
unfoldable pub handle_item : List Text → Router → Router
unfolding list_users list_teams list_channels list_threads list_replies list_messages
handle_item tok r =
    let context = r.list_context in
    if text_eq context (text "USERS")
    then list_users tok r
    else if text_eq context (text "TEAMS")
    then list_teams tok r
    else if text_eq context (text "CHANNELS")
    then list_channels tok r
    else if text_eq context (text "THREADS")
    then list_threads tok r
    else if text_eq context (text "REPLIES")
    then list_replies tok r
    else if text_eq context (text "MESSAGES")
    then list_messages tok r
    else r

-- `_handlers.find(command)` and the call of `handle`; the names of the events and of the status
-- codes do not meet.
unfoldable pub handle_command : Text → List Text → Router → Router
unfolding team_created channel_created thread_created reply_created user_logged_in user_logged_out
    private_message handle_status
handle_command command tokens r =
    if text_eq command (text "TEAM_CREATED")
    then team_created tokens r
    else if text_eq command (text "CHANNEL_CREATED")
    then channel_created tokens r
    else if text_eq command (text "THREAD_CREATED")
    then thread_created tokens r
    else if text_eq command (text "REPLY_CREATED")
    then reply_created tokens r
    else if text_eq command (text "USER_LOGGED_IN")
    then user_logged_in tokens r
    else if text_eq command (text "USER_LOGGED_OUT")
    then user_logged_out tokens r
    else if text_eq command (text "PRIVATE_MESSAGE")
    then private_message tokens r
    else handle_status command tokens r

unfoldable pub route_tokens : List Text → Router → Router
unfolding handle_item handle_command
route_tokens [] r = r
route_tokens (first ∷ rest) r =
    let tokens = first ∷ rest in
    if text_eq first (text "210-BEGIN")
    then (if not (ltb (length tokens) 2) then record r { list_context = token tokens 1 } else r)
    else if text_eq first (text "210-END")
    then record r { list_context = [] }
    else if text_eq first (text "210")
    then handle_item tokens r
    else if text_eq first (text "EVENT")
    then (if ltb (length tokens) 2 then r else handle_command (token tokens 1) tokens r)
    else handle_command first tokens r

-- `routeFrame`
unfoldable pub route_frame : Text → Router → Router
unfolding parse route_tokens
route_frame frame r = elim (parse frame) [ none ↦ r | some tokens ↦ route_tokens tokens r ]
