-- ===== src/Commands/Handling.antt =====
-- server/commands/commandHandling: from a line to its handler.
use myteams.Prelude.{ℕ, List, [], ◌∷◌, Option, none, some, Text, text, text_eq, if◌then◌else◌}
use myteams.Protocol.Arguments.{parse_args}
use myteams.State.{Env, Client, Server, find_client, set_args}
use myteams.Commands.Login.{login, logout}
use myteams.Commands.Create.{create}
use myteams.Commands.Info.{info}
use myteams.Commands.Listing.{list}
use myteams.Commands.Context.{use_context}
use myteams.Commands.Subscriptions.{subscribe, unsubscribe, subscribed}
use myteams.Commands.Messages.{send, messages}
use myteams.Commands.Users.{user, users}

-- the commands that the constructor of `CommandHandling` registers
pub data Command : Type 0 where
  create_cmd list_cmd use_cmd info_cmd subscribe_cmd unsubscribe_cmd subscribed_cmd : Command
  login_cmd logout_cmd send_cmd messages_cmd user_cmd users_cmd : Command

-- `_commands.find(name)`
unfoldable pub find_command : Text → Option Command
find_command name =
    if text_eq name (text "/create")
    then some create_cmd
    else if text_eq name (text "/list")
    then some list_cmd
    else if text_eq name (text "/use")
    then some use_cmd
    else if text_eq name (text "/info")
    then some info_cmd
    else if text_eq name (text "/subscribe")
    then some subscribe_cmd
    else if text_eq name (text "/unsubscribe")
    then some unsubscribe_cmd
    else if text_eq name (text "/subscribed")
    then some subscribed_cmd
    else if text_eq name (text "/login")
    then some login_cmd
    else if text_eq name (text "/logout")
    then some logout_cmd
    else if text_eq name (text "/send")
    then some send_cmd
    else if text_eq name (text "/messages")
    then some messages_cmd
    else if text_eq name (text "/user")
    then some user_cmd
    else if text_eq name (text "/users")
    then some users_cmd
    else none

-- `execute` of each command
unfoldable pub execute : Command → Env → ℕ → Client → Server → Server
execute create_cmd env fd c s = create env fd c s
execute list_cmd env fd c s = list fd c s
execute use_cmd env fd c s = use_context fd c s
execute info_cmd env fd c s = info fd c s
execute subscribe_cmd env fd c s = subscribe fd c s
execute unsubscribe_cmd env fd c s = unsubscribe fd c s
execute subscribed_cmd env fd c s = subscribed fd c s
execute login_cmd env fd c s = login env fd c s
execute logout_cmd env fd c s = logout fd c s
execute send_cmd env fd c s = send env fd c s
execute messages_cmd env fd c s = messages fd c s
execute user_cmd env fd c s = user fd c s
execute users_cmd env fd c s = users fd c s

-- The client is the entry at `fd`; a handler sees it with its arguments set.
unfoldable pub run_command : Env → List Text → ℕ → Server → Server
unfolding find_command execute
run_command env [] fd s = s
run_command env (name ∷ args) fd s = elim (find_client fd s.clients) [
  | none ↦ s
  | some c ↦
      let s1 = set_args (name ∷ args) fd s in
      elim (find_command name) [
        | none ↦ s1
        | some command ↦ execute command env fd (record c { args = name ∷ args }) s1
      ]
]

-- `none` where `parseArgs` has no defined result
unfoldable pub handle_command : Env → Text → ℕ → Server → Option Server
unfolding run_command
handle_command env raw fd s = elim (parse_args raw) [
  | none ↦ none
  | some args ↦ some (run_command env args fd s)
]
