-- ===== src/Answering/Unauthenticated.antt =====
-- Commands of a connection that has not logged in.
use myteams.Prelude.{ℕ, [], ◌≡◌, ◌≢◌, refl}
use myteams.State.{Env, Client, Server}
use myteams.Commands.Answers.{unauthorized}
use myteams.Commands.Login.{logout}
use myteams.Commands.Create.{create}
use myteams.Commands.Info.{info}
use myteams.Commands.Listing.{list}
use myteams.Commands.Context.{use_context}
use myteams.Commands.Subscriptions.{subscribe, unsubscribe, subscribed}
use myteams.Commands.Messages.{messages}
use myteams.Commands.Users.{user, users}
use myteams.Commands.Handling.{
  Command, execute, create_cmd, list_cmd, use_cmd, info_cmd, subscribe_cmd, unsubscribe_cmd,
  subscribed_cmd, login_cmd, logout_cmd, send_cmd, messages_cmd, user_cmd, users_cmd,
}

-- Every command but `/login` and `/send`, given by a connection with no user, does nothing but
-- answer 401.
pub execute-unauthenticated :
    (cmd : Command) (env : Env) (fd : ℕ) (c : Client) (s : Server)
    → c.user_uuid ≡ []
    → cmd ≢ login_cmd
    → cmd ≢ send_cmd
    → execute cmd env fd c s ≡ unauthorized fd s
unfolding execute create list use_context info subscribe unsubscribe subscribed logout messages user
    users unauthorized
execute-unauthenticated create_cmd env fd c s e _ _ = rw e refl
execute-unauthenticated list_cmd env fd c s e _ _ = rw e refl
execute-unauthenticated use_cmd env fd c s e _ _ = rw e refl
execute-unauthenticated info_cmd env fd c s e _ _ = rw e refl
execute-unauthenticated subscribe_cmd env fd c s e _ _ = rw e refl
execute-unauthenticated unsubscribe_cmd env fd c s e _ _ = rw e refl
execute-unauthenticated subscribed_cmd env fd c s e _ _ = rw e refl
execute-unauthenticated logout_cmd env fd c s e _ _ = rw e refl
execute-unauthenticated messages_cmd env fd c s e _ _ = rw e refl
execute-unauthenticated user_cmd env fd c s e _ _ = rw e refl
execute-unauthenticated users_cmd env fd c s e _ _ = rw e refl
execute-unauthenticated login_cmd env fd c s e h _ = absurd (h refl)
execute-unauthenticated send_cmd env fd c s e _ h = absurd (h refl)
