-- ===== src/Client/Status.antt =====
-- client/protocol/handlers/ResponseStatusHandler.cpp
use myteams.Prelude.{
  Option, List, true, not, ◌&&◌, ◌||◌, none, some, Text, text, text_eq, length, ltb, if◌then◌else◌,
}
use myteams.Client.Integers.{ℤ, stoll, stoi}
use myteams.Client.Calls.{
  Router, Call, call, log_in, log_out, print_user, print_team, print_channel, print_thread,
  print_team_created, print_channel_created, print_thread_created, print_reply_created,
  print_subscribed, print_unsubscribed, error_unauthorized, error_already_exist, error_unknown_team,
  error_unknown_channel, error_unknown_thread, error_unknown_user, shown,
}
use myteams.Client.Events.{token}

-- `parseTimestamp`; `time_t` has 64 bits
abbrev parse_timestamp : Text → Option ℤ
parse_timestamp = stoll

-- behind a time that is read
with_timestamp : Text → (ℤ → Call) → Router → Router
with_timestamp value c r = elim (parse_timestamp value) [ none ↦ r | some time ↦ call (c time) r ]

-- behind a status that is read
with_status : Text → (ℤ → Call) → Router → Router
with_status value c r = elim (stoi value) [ none ↦ r | some status ↦ call (c status) r ]

unfoldable pub handle_200_ok : List Text → Router → Router
unfolding log_in log_out
handle_200_ok tokens r =
    if not (ltb (length tokens) 4)
    then record r { user = log_in (token tokens 2) (token tokens 3) r.user }
    else if text_eq r.pending_command (text "/logout")
    then record r { user = log_out r.user; should_disconnect = true }
    else r

unfoldable pub handle_200_user : List Text → Router → Router
unfolding with_status
handle_200_user tokens r =
    if ltb (length tokens) 5
    then r
    else with_status (token tokens 4) (print_user (token tokens 2) (token tokens 3)) r

unfoldable pub handle_200_subscribe : List Text → Router → Router
handle_200_subscribe tokens r =
    if ltb (length tokens) 4 then r else call (print_subscribed (token tokens 2) (token tokens 3)) r

unfoldable pub handle_200_unsubscribe : List Text → Router → Router
handle_200_unsubscribe tokens r =
    if ltb (length tokens) 4
    then r
    else call (print_unsubscribed (token tokens 2) (token tokens 3)) r

unfoldable pub handle_200_info_user : List Text → Router → Router
unfolding with_status
handle_200_info_user tokens r =
    if ltb (length tokens) 6
    then r
    else with_status (token tokens 5) (print_user (token tokens 3) (token tokens 4)) r

unfoldable pub handle_200_info_team : List Text → Router → Router
handle_200_info_team tokens r =
    if ltb (length tokens) 6
    then r
    else call (print_team (token tokens 3) (token tokens 4) (token tokens 5)) r

unfoldable pub handle_200_info_channel : List Text → Router → Router
handle_200_info_channel tokens r =
    if ltb (length tokens) 6
    then r
    else call (print_channel (token tokens 3) (token tokens 4) (token tokens 5)) r

unfoldable pub handle_200_info_thread : List Text → Router → Router
unfolding with_timestamp
handle_200_info_thread tokens r =
    if ltb (length tokens) 8
    then r
    else with_timestamp (token tokens 5)
        (λ time.
          print_thread (token tokens 3) (token tokens 4) time (token tokens 6) (token tokens 7))
        r

unfoldable pub handle_200_info : List Text → Router → Router
unfolding handle_200_info_user handle_200_info_team handle_200_info_channel handle_200_info_thread
handle_200_info tokens r =
    let kind = token tokens 2 in
    if ltb (length tokens) 3
    then r
    else if text_eq kind (text "USER")
    then handle_200_info_user tokens r
    else if text_eq kind (text "TEAM")
    then handle_200_info_team tokens r
    else if text_eq kind (text "CHANNEL")
    then handle_200_info_channel tokens r
    else if text_eq kind (text "THREAD")
    then handle_200_info_thread tokens r
    else r

unfoldable pub handle_200 : List Text → Router → Router
unfolding handle_200_ok handle_200_user handle_200_subscribe handle_200_unsubscribe handle_200_info
handle_200 tokens r =
    let kind = token tokens 1 in
    if ltb (length tokens) 2
    then r
    else if text_eq kind (text "OK")
    then handle_200_ok tokens r
    else if text_eq kind (text "USER")
    then handle_200_user tokens r
    else if text_eq kind (text "SUBSCRIBE")
    then handle_200_subscribe tokens r
    else if text_eq kind (text "UNSUBSCRIBE")
    then handle_200_unsubscribe tokens r
    else if text_eq kind (text "INFO")
    then handle_200_info tokens r
    else r

unfoldable pub handle_201 : List Text → Router → Router
unfolding with_timestamp
handle_201 tokens r =
    let kind = token tokens 2 in
    let size = length tokens in
    if ltb size 3
    then r
    else if text_eq kind (text "TEAM") && not (ltb size 6)
    then call (print_team_created (token tokens 3) (token tokens 4) (token tokens 5)) r
    else if text_eq kind (text "CHANNEL") && not (ltb size 6)
    then call (print_channel_created (token tokens 3) (token tokens 4) (token tokens 5)) r
    else if text_eq kind (text "THREAD") && not (ltb size 8)
    then with_timestamp (token tokens 5)
        (λ time.
          print_thread_created (token tokens 3) (token tokens 4) time (token tokens 6)
            (token tokens 7))
        r
    else if text_eq kind (text "REPLY") && not (ltb size 7)
    then with_timestamp (token tokens 5)
        (λ time. print_reply_created (token tokens 3) (token tokens 4) time (token tokens 6)) r
    else r

unfoldable pub handle_404 : List Text → Router → Router
handle_404 tokens r =
    let kind = token tokens 2 in
    let uuid = token tokens 3 in
    if not (ltb (length tokens) 4)
    then (if text_eq kind (text "TEAM")
        then call (error_unknown_team uuid) r
        else if text_eq kind (text "CHANNEL")
        then call (error_unknown_channel uuid) r
        else if text_eq kind (text "THREAD")
        then call (error_unknown_thread uuid) r
        else if text_eq kind (text "USER")
        then call (error_unknown_user uuid) r
        else r)
    else if not (ltb (length tokens) 3)
    then (if text_eq r.pending_command (text "/user")
          || text_eq r.pending_command (text "/send")
          || text_eq r.pending_command (text "/messages")
        then call (error_unknown_user kind) r
        else r)
    else r

-- `handle400`, `handle401`, `handle403` and `handle409` do not look at the tokens.
unfoldable pub handle_400 : Router → Router
handle_400 = call (shown (text "Error: bad request\n"))

unfoldable pub handle_status : Text → List Text → Router → Router
unfolding handle_200 handle_201 handle_400 handle_404
handle_status code tokens r =
    if text_eq code (text "200")
    then handle_200 tokens r
    else if text_eq code (text "201")
    then handle_201 tokens r
    else if text_eq code (text "400")
    then handle_400 r
    else if text_eq code (text "401") || text_eq code (text "403")
    then call error_unauthorized r
    else if text_eq code (text "404")
    then handle_404 tokens r
    else if text_eq code (text "409")
    then call error_already_exist r
    else r
