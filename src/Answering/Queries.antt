-- ===== src/Answering/Queries.antt =====
-- The six commands that read the database.
use myteams.Prelude.{ℕ, arith}
use myteams.State.{Env, Client, Server}
use myteams.Commands.Answers.{bad_request, unauthorized, not_found}
use myteams.Commands.Info.{info}
use myteams.Commands.Listing.{list}
use myteams.Commands.Messages.{messages}
use myteams.Commands.Subscriptions.{subscribed}
use myteams.Commands.Users.{user, users}
use myteams.Commands.Handling.{
  Command, execute, info_cmd, list_cmd, messages_cmd, subscribed_cmd, user_cmd, users_cmd,
}
use myteams.Answering.Sending.{IsAnswer, send_to_client-IsAnswer, send_list-IsAnswer}

ruleset answers = (arith, send_to_client-IsAnswer, send_list-IsAnswer)

pub data IsQuery : Command → Type 0 where
  infos : IsQuery info_cmd
  lists : IsQuery list_cmd
  message_lists : IsQuery messages_cmd
  subscriptions : IsQuery subscribed_cmd
  one_user : IsQuery user_cmd
  all_users : IsQuery users_cmd

module _ (fd : ℕ) (c : Client) (s : Server) where
  info-IsAnswer : IsAnswer fd s (info fd c s)
  unfolding info unauthorized
  info-IsAnswer = grind answers

  list-IsAnswer : IsAnswer fd s (list fd c s)
  unfolding list unauthorized
  list-IsAnswer = grind answers

  messages-IsAnswer : IsAnswer fd s (messages fd c s)
  unfolding messages unauthorized bad_request not_found
  messages-IsAnswer = grind answers

  subscribed-IsAnswer : IsAnswer fd s (subscribed fd c s)
  unfolding subscribed unauthorized bad_request not_found
  subscribed-IsAnswer = grind answers

  user-IsAnswer : IsAnswer fd s (user fd c s)
  unfolding user unauthorized bad_request
  user-IsAnswer = grind answers

  users-IsAnswer : IsAnswer fd s (users fd c s)
  unfolding users unauthorized
  users-IsAnswer = grind answers

-- A query leaves the database, the event log and every other client as they were, and appends its
-- answer to the write buffer of the client that asked.
pub query-IsAnswer :
    (cmd : Command) (env : Env) (fd : ℕ) (c : Client) (s : Server)
    → IsQuery cmd
    → IsAnswer fd s (execute cmd env fd c s)
unfolding execute
query-IsAnswer _ env fd c s infos = info-IsAnswer fd c s
query-IsAnswer _ env fd c s lists = list-IsAnswer fd c s
query-IsAnswer _ env fd c s message_lists = messages-IsAnswer fd c s
query-IsAnswer _ env fd c s subscriptions = subscribed-IsAnswer fd c s
query-IsAnswer _ env fd c s one_user = user-IsAnswer fd c s
query-IsAnswer _ env fd c s all_users = users-IsAnswer fd c s
