-- ===== src/Accounting/Commands.antt =====
-- Each command keeps the invariant.
use myteams.Prelude.{ℕ, ◌≡◌, ◌≢◌, [], none, some}
use myteams.Database.{find_user}
use myteams.State.{Env, Client, Server, find_client}
use myteams.Commands.Handling.{Command, execute, login_cmd, logout_cmd}
use myteams.Frame.Commands.{execute-P}
use myteams.Accounting.Invariant.{IsAccounted, accounted_frame}
use myteams.Accounting.Login.{login-IsAccounted}
use myteams.Accounting.Logout.{logout-IsAccounted}

-- The uuid that the generator returns is not empty and no user has it.
pub record IsFresh (env : Env) (s : Server) : Type 0 where
  pub not_empty : env.uuid ≢ []
  pub new_user : find_user s.db env.uuid ≡ none

-- Every command keeps the accounting, where the client is in the table and the uuid that the
-- generator would return is not empty and nobody's: distinct uuids of users, none empty, and for
-- each user as many connections in the database as clients that are logged in as the user.
pub execute-IsAccounted :
    (cmd : Command) (env : Env) (fd : ℕ) (c : Client) (s : Server)
    → find_client fd s.clients ≡ some c
    → IsFresh env s
    → IsAccounted s
    → IsAccounted (execute cmd env fd c s)
unfolding execute
execute-IsAccounted login_cmd env fd c s here fresh inv =
    login-IsAccounted fd c s here env fresh.not_empty fresh.new_user inv
execute-IsAccounted logout_cmd env fd c s here fresh inv = logout-IsAccounted fd c s here inv
execute-IsAccounted cmd env fd c s here fresh inv =
    execute-P accounted_frame cmd env fd c s (λ e. cc) (λ e. cc) inv
