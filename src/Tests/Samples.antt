-- ===== src/Tests/Samples.antt =====
-- A small server: two users, a team, three connections.
use myteams.Prelude.{ℕ, ◌+◌, [], ◌∷◌, some}
use myteams.Models.{User, Team, Channel, new_user}
use myteams.State.{Client, new_client, Server, Env}

abbrev pub empty_server : Server
empty_server = record { clients = []; db = record { users = []; teams = [] }; log = [] }

abbrev pub envs : ℕ → Env
envs n = record { uuid = (n + 1) ∷ []; now = n }

abbrev pub ann : User
ann = record new_user { uuid = b'a' ∷ []; name = b'A' ∷ []; connected_count = 1 }

abbrev pub bob : User
bob = record new_user { uuid = b'b' ∷ []; name = b'B' ∷ []; connected_count = 1 }

abbrev pub hall : Channel
hall = record { uuid = b'h' ∷ []; name = b'H' ∷ []; description = b'd' ∷ []; threads = [] }

abbrev pub crew : Team
crew = record {
  uuid = b't' ∷ [];
  name = b'T' ∷ [];
  description = b'd' ∷ [];
  subscriber_uuids = ann.uuid ∷ [];
  channels = hall ∷ [];
}

abbrev pub ann_client : Client
ann_client = record new_client { fd = some 5; user_uuid = ann.uuid }

abbrev pub bob_client : Client
bob_client = record new_client { fd = some 6; user_uuid = bob.uuid }

abbrev pub guest : Client
guest = record new_client { fd = some 7 }

abbrev pub server : Server
server = record {
  clients = (5, ann_client) ∷ (6, bob_client) ∷ (7, guest) ∷ [];
  db = record { users = ann ∷ bob ∷ []; teams = crew ∷ [] };
  log = [];
}
