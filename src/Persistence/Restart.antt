-- ===== src/Persistence/Restart.antt =====
-- A server that stops and starts again on its file.
use myteams.Prelude.{
  ℕ, ◌*◌, ◌<◌, List, [], ◌∷◌, map, ◌≡◌, ◌≢◌, refl, none, some, Text, All, length, find_first, arith,
}
use mathlib.Core.Option
use myteams.Models.{User}
use myteams.Database.{Database, find_user, user_is}
use myteams.State.{Server}
use myteams.Accounting.Users.{DistinctUuids, connections}
use myteams.Accounting.Invariant.{IsAccounted}
use myteams.Accounting.Bounds.{started-IsAccounted}
use myteams.Persistence.Numbers.{Doubles}
use myteams.Persistence.Decoded.{UserIsDated, TeamIsDated}
use myteams.Persistence.Saving.{save, start, loaded}
use myteams.Persistence.RoundTrip.{disconnected, load-save}

others_differ :
    (uuid : Text) (us : List User)
    → All (λ (v : User). v.uuid ≢ uuid) us
    → All (λ (v : User). v.uuid ≢ uuid) (map disconnected us)
others_differ uuid [] a = tt
others_differ uuid (u ∷ us) (h, a) = (h, others_differ uuid us a)

DistinctUuids-disconnected :
    (us : List User) → DistinctUuids us → DistinctUuids (map disconnected us)
DistinctUuids-disconnected [] d = tt
DistinctUuids-disconnected (u ∷ us) (a, d) =
    (others_differ u.uuid us a, DistinctUuids-disconnected us d)

find_first-disconnected :
    (uuid : Text) (us : List User)
    → find_first (user_is uuid) (map disconnected us)
      ≡ Option.map disconnected (find_first (user_is uuid) us)
unfolding find_first user_is
find_first-disconnected uuid [] = refl
find_first-disconnected uuid (u ∷ us) = ground (arith, find_first-disconnected uuid us)

connections-disconnected :
    (us : List User) (uuid : Text) → connections (map disconnected us) uuid ≡ 0
unfolding connections
connections-disconnected us uuid = ground (arith, find_first-disconnected uuid us)

find_user-disconnected :
    (db : Database)
    → find_user db [] ≡ none
    → find_user (record { users = map disconnected db.users; teams = db.teams }) [] ≡ none
unfolding find_user
find_user-disconnected db h = ground (arith, find_first-disconnected [] db.users)

module _ (d : Doubles) where
  -- A server whose accounts are in order and that stops, and so saves its database, starts again on
  -- that file with its accounts in order: it has no client, all its users with no connection, and
  -- all its teams. The maps of conversations have their keys in order, no time is above 2 ^ 53, and
  -- fuel above twice the length of the file is enough.
  pub start-IsAccounted :
      (s : Server) (f : ℕ)
      → IsAccounted s
      → All UserIsDated s.db.users
      → All TeamIsDated s.db.teams
      → 2 * length (save s.db) < f
      → (t : Server) × (start d f (some (save s.db)) ≡ some t)
        × IsAccounted t
        × (t.clients ≡ [])
        × (t.db.users ≡ map disconnected s.db.users)
        × (t.db.teams ≡ s.db.teams)
  unfolding start find_user
  start-IsAccounted s f inv us ts h =
      let db : Database = record { users = map disconnected s.db.users; teams = s.db.teams } in
      (
        record { clients = []; db = db; log = map loaded s.db.users },
        rw (load-save d s.db (record { users = []; teams = [] }) [] f us ts h, start) refl,
        started-IsAccounted db _ (DistinctUuids-disconnected s.db.users inv.distinct)
            (find_user-disconnected s.db inv.named)
            (λ user. connections-disconnected s.db.users user),
        refl,
        refl,
        refl,
      )
