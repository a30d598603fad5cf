-- ===== src/Teams/Reached.antt =====
-- The teams of a server after any events of its loop.
use myteams.Prelude.{ℕ}
use myteams.State.{Server}
use myteams.Poller.{Poller}
use myteams.Teams.Invariant.{IsTidy}
use myteams.Teams.Commands.{execute-IsTidy, release_user-teams, same_teams}
use myteams.Frame.Lasting.{Lasting, Reach-Holds}
use myteams.Accounting.Loop.{Reach}

IsTidy-Lasting : Lasting IsTidy
IsTidy-Lasting = record {
  commands = execute-IsTidy;
  releases = λ user s h. same_teams s.db _ (release_user-teams user s) h;
}

-- After any events from a state with tidy teams, the names of the teams are distinct, and so are
-- the names of the channels of each team, the titles of the threads of each channel and the
-- subscribers of each team. The generator keeps its promise during each event.
pub Reach-IsTidy :
    (server_fd : ℕ) (s t : Server) (p q : Poller)
    → IsTidy s.db
    → Reach server_fd s p t q
    → IsTidy t.db
Reach-IsTidy server_fd s t p q h r = Reach-Holds IsTidy IsTidy-Lasting h r
