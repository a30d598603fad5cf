-- ===== src/Tests/Handling.antt =====
-- Handlers and a round of the loop on the small server.
use myteams.Prelude.{
  List, [], ◌∷◌, ◌≡◌, ◌≢◌, ◌⊎◌, ◌≤◌, refl, true, false, some, text, text_discrete, arith,
  find_first,
}
use myteams.Database.{find_team, team_is, add_team}
use myteams.State.{Client, Server, find_client}
use myteams.Poller.{add_file_descriptor, Poller, PollEvent, pollin, watches}
use myteams.Loop.{Answers, run_round, would_block, update_poll_flags}
use myteams.Commands.Create.{create}
use myteams.Commands.Subscriptions.{subscribe, unsubscribe}
use myteams.Messaging.Handlers.{Resubscribed, subscribe-Resubscribed, unsubscribe-Resubscribed}
use myteams.Session.Polling.{
  IsWatched, IsUpdated, HasDistinctKeys, watched, flags_of, update_poll_flags-IsWatched,
}
use myteams.Teams.Creating.{team_of, IsAcceptable, create-founds, create-IsAcceptable}
use myteams.Tests.Samples.{
  server, ann, bob, crew, ann_client, bob_client, guest, envs, empty_server,
}

abbrev joining : Client
joining = record bob_client { args = text "/subscribe" ∷ crew.uuid ∷ [] }

abbrev leaving : Client
leaving = record ann_client { args = text "/unsubscribe" ∷ crew.uuid ∷ [] }

abbrev founding : Client
founding = record ann_client { args = text "/create" ∷ (b'N' ∷ []) ∷ (b'd' ∷ []) ∷ [] }

abbrev entering : Client
entering = record guest { args = text "/login" ∷ (b'C' ∷ []) ∷ [] }

crew-found : find_team server.db crew.uuid ≡ some crew
unfolding find_team find_first team_is text_discrete
crew-found = refl

subscribe-Resubscribed_example :
    Resubscribed bob.uuid true crew server.db (subscribe 6 joining server).db
unfolding text
subscribe-Resubscribed_example = subscribe-Resubscribed 6 joining server crew refl refl crew-found

unsubscribe-Resubscribed_example :
    Resubscribed ann.uuid false crew server.db (unsubscribe 5 leaving server).db
unfolding text
unsubscribe-Resubscribed_example =
    unsubscribe-Resubscribed 5 leaving server crew refl refl crew-found

ann-bob : bob.name ≢ ann.name
ann-bob e = ground arith

crew-other : crew.name ≢ b'N' ∷ []
crew-other e = ground arith

founding-IsAcceptable : IsAcceptable (b'N' ∷ []) (b'd' ∷ []) server.db
founding-IsAcceptable = record {
  name_given = omega arith;
  name_short = omega arith;
  description_given = omega arith;
  description_short = omega arith;
  name_free = (crew-other, tt);
}

three_args : 3 ≤ 3
three_args = omega arith

create-founds_example :
    (create (envs 0) 5 founding server).db
    ≡ add_team (team_of (envs 0) ann.uuid (b'N' ∷ []) (b'd' ∷ [])) server.db
create-founds_example =
    create-founds (envs 0) 5 founding server refl refl three_args founding-IsAcceptable

create-IsAcceptable_example :
    ((create (envs 0) 5 founding server).db ≡ server.db)
    ⊎ (IsAcceptable (b'N' ∷ []) (b'd' ∷ []) server.db
        × ((create (envs 0) 5 founding server).db
            ≡ add_team (team_of (envs 0) ann.uuid (b'N' ∷ []) (b'd' ∷ [])) server.db))
create-IsAcceptable_example = create-IsAcceptable (envs 0) 5 founding server refl

abbrev poller : Poller
poller = (record { fd = 3; events = pollin; revents = 0 }) ∷ []

abbrev knocks : List (Answers × PollEvent)
knocks =
    (
      record {
        envs = envs;
        accepted = some 5;
        received = some would_block;
        written = some 0;
        closes = true;
      },
      record { fd = 3; revents = pollin },
    )
    ∷ []

abbrev accepted_server : Server
accepted_server = record empty_server { clients = (5, record guest { fd = some 5 }) ∷ [] }

abbrev accepted_poller : Poller
accepted_poller =
    (record { fd = 3; events = pollin; revents = 0 })
    ∷ (record { fd = 5; events = pollin; revents = 0 })
    ∷ []

knocks-run : run_round 3 knocks empty_server poller ≡ some (accepted_server, accepted_poller)
unfolding run_round find_client add_file_descriptor
knocks-run = refl

-- A client with output that is not yet watched for POLLOUT.
abbrev pending : Server
pending = record empty_server {
  clients = (5, record ann_client { write_buffer = b'!' ∷ [] }) ∷ (6, bob_client) ∷ [];
}

abbrev watching : Poller
watching =
    (record { fd = 5; events = pollin; revents = 0 })
    ∷ (record { fd = 6; events = pollin; revents = 0 })
    ∷ []

pending-HasDistinctKeys : HasDistinctKeys pending.clients
pending-HasDistinctKeys = ((λ e. cc, tt), (tt, tt))

pending-IsWatched : IsWatched watching pending.clients
unfolding watched flags_of find_first watches
pending-IsWatched = (refl, (refl, tt))

update_poll_flags-IsWatched_example :
    IsWatched (update_poll_flags pending watching).1 (update_poll_flags pending watching).0.clients
    × IsUpdated (update_poll_flags pending watching).0.clients
update_poll_flags-IsWatched_example =
    update_poll_flags-IsWatched pending watching pending-HasDistinctKeys pending-IsWatched
