-- ===== src/Persistence/Session.antt =====
-- A server that serves its clients, stops and starts again on its file.
use myteams.Prelude.{ℕ, ◌*◌, ◌<◌, List, [], ◌∷◌, map, ◌≡◌, some, All, length, subst, sym}
use myteams.Models.{User}
use myteams.State.{Server}
use myteams.Poller.{Poller}
use myteams.Messaging.Reached.{HasOrder, IsFiled, Reach-IsFiled}
use myteams.Accounting.Invariant.{IsAccounted}
use myteams.Accounting.Loop.{Reach, Reach-IsAccounted}
use myteams.Persistence.Numbers.{Doubles}
use myteams.Persistence.Decoded.{ConversationIsDated, UserIsDated, TeamIsDated}
use myteams.Persistence.Saving.{save, start}
use myteams.Persistence.RoundTrip.{disconnected}
use myteams.Persistence.Restart.{start-IsAccounted}

abbrev pub MessagesAreDated : User → Type 0
MessagesAreDated u = All ConversationIsDated u.messages

UserIsDated-filed :
    (us : List User) → All HasOrder us → All MessagesAreDated us → All UserIsDated us
UserIsDated-filed [] h ds = tt
UserIsDated-filed (u ∷ us) (h, hs) (d, ds) = ((h, d), UserIsDated-filed us hs ds)

HasOrder-disconnected : (us : List User) → All HasOrder us → All HasOrder (map disconnected us)
HasOrder-disconnected [] h = tt
HasOrder-disconnected (u ∷ us) (h, hs) = (h, HasOrder-disconnected us hs)

module _ (d : Doubles) where
  -- A server with its accounts and its conversations in order, that serves any events, stops and so
  -- saves its database, starts again on that file: with no client, with all its users, none of them
  -- connected, with all its teams, and again with its accounts and its conversations in order. The
  -- generator keeps its promise during each event, no time is above 2 ^ 53 at the end, and fuel
  -- above twice the length of the file is enough.
  pub Reach-restart :
      (server_fd : ℕ) (s t : Server) (p q : Poller) (f : ℕ)
      → IsAccounted s
      → IsFiled s.db
      → Reach server_fd s p t q
      → All MessagesAreDated t.db.users
      → All TeamIsDated t.db.teams
      → 2 * length (save t.db) < f
      → (t' : Server) × (start d f (some (save t.db)) ≡ some t')
        × (t'.clients ≡ [])
        × (t'.db.users ≡ map disconnected t.db.users)
        × (t'.db.teams ≡ t.db.teams)
        × IsAccounted t'
        × IsFiled t'.db
  Reach-restart server_fd s t p q f inv filed r dated ts h =
      let ordered = Reach-IsFiled filed r in
      let (t', started, inv', empty, users, teams) =
        start-IsAccounted d t f (Reach-IsAccounted inv r)
          (UserIsDated-filed t.db.users ordered dated) ts h in
      (
        t',
        started,
        empty,
        users,
        teams,
        inv',
        subst (All HasOrder) (sym users) (HasOrder-disconnected t.db.users ordered),
      )
