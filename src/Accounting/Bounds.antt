-- ===== src/Accounting/Bounds.antt =====
-- How many connections a user may have.
use myteams.Prelude.{ltb, none, ℕ, ◌≤◌, ◌≡◌, ◌≢◌, [], ◌∷◌, length, some, Text, arith, List}
use myteams.Models.{User, is_connected}
use myteams.Database.{Database, find_user}
use myteams.State.{Clients, Server, LogEvent}
use myteams.Poller.{Poller}
use myteams.Accounting.Counts.{count_sessions, logged_as, logged_as-nil}
use myteams.Accounting.Users.{connections, connections-found, DistinctUuids}
use myteams.Accounting.Invariant.{IsAccounted}
use myteams.Accounting.Loop.{Reach, Reach-balanced}

count_sessions-length : (user : Text) (cs : Clients) → count_sessions user cs ≤ length cs
unfolding count_sessions logged_as
count_sessions-length user [] = omega arith
count_sessions-length user ((k, c) ∷ cs) = ground (arith, count_sessions-length user cs)

-- After any events from an accounted state, the server reports a user that it finds under a uuid
-- that is not empty as connected exactly when some connection is logged in as that user, and counts
-- no more connections for the user than there are clients.
pub Reach-is_connected :
    (server_fd : ℕ) (s t : Server) (p q : Poller) (user : Text) (u : User)
    → IsAccounted s
    → Reach server_fd s p t q
    → user ≢ []
    → find_user t.db user ≡ some u
    → (is_connected u ≡ ltb 0 (count_sessions user t.clients))
      × (u.connected_count ≤ length t.clients)
unfolding is_connected find_user
Reach-is_connected server_fd s t p q user u inv r ne h =
    let same = Reach-balanced server_fd s t p q user inv r ne in
    let there = connections-found user t.db.users u h in
    let bound = count_sessions-length user t.clients in (ground arith, omega arith)

-- A server that has loaded its users and has no client yet: each user's count is still 0.
pub started-IsAccounted :
    (db : Database) (log : List LogEvent)
    → DistinctUuids db.users
    → find_user db [] ≡ none
    → ((user : Text) → connections db.users user ≡ 0)
    → IsAccounted (record { clients = []; db = db; log = log })
unfolding find_user count_sessions
started-IsAccounted db log d n zeros = record {
  distinct = d;
  named = n;
  balanced = λ user ne. omega (arith, zeros user, logged_as-nil user ne);
}
