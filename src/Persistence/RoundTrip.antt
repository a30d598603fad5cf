-- ===== src/Persistence/RoundTrip.antt =====
-- What `save` has written, `load` reads back.
use native.Mathlib.Decide.{ℕ_discrete}
use myteams.Prelude.{
  ℕ, ◌*◌, ◌<◌, List, [], ◌∷◌, ◌++◌, map, ◌≡◌, refl, ap, some, text, text_lt, text_discrete, All,
  length,
}
use myteams.Models.{User}
use myteams.Database.{Database}
use myteams.State.{LogEvent}
use myteams.Persistence.Json.{member, array_of, insert_field}
use myteams.Persistence.Numbers.{Doubles}
use myteams.Persistence.Documents.{value_of}
use myteams.Persistence.Reading.{parse_json-emit}
use myteams.Persistence.Printed.{array_doc, user_doc, team_doc, database_doc, save-emit}
use myteams.Persistence.Decoder.{user_from_json, team_from_json}
use myteams.Persistence.Decoded.{
  UserIsDated, TeamIsDated, map-array_doc, user_from_json-user_doc, team_from_json-team_doc,
}
use myteams.Persistence.Saving.{save, load, loaded, append_loaded}
use myteams.Persistence.Parser.{parse_json}

-- a user behind a restart: nobody is connected
abbrev pub disconnected : User → User
disconnected u = record u { connected_count = 0 }

module _ (d : Doubles) where
  map-user_doc :
      (us : List User)
      → All UserIsDated us
      → map (user_from_json d) (array_of (value_of d (array_doc user_doc us))) ≡ map disconnected us
  unfolding array_of value_of array_doc
  map-user_doc [] a = refl
  map-user_doc (u ∷ us) (h, a) =
      rw (user_from_json-user_doc d u h) (ap (◌∷◌ (disconnected u)) (map-user_doc us a))

  append_loaded-database_doc :
      (db into : Database) (log : List LogEvent)
      → All UserIsDated db.users
      → All TeamIsDated db.teams
      → append_loaded d into log (value_of d (database_doc db)) ≡ (
        record { users = into.users ++ map disconnected db.users; teams = into.teams ++ db.teams },
        log ++ map loaded (map disconnected db.users),
      )
  unfolding append_loaded member database_doc value_of text text_lt text_discrete ℕ_discrete
      insert_field
  append_loaded-database_doc db into log us ts = rw (
    map-user_doc db.users us,
    map-array_doc d TeamIsDated (team_from_json d) team_doc (team_from_json-team_doc d) db.teams ts,
  )

  map-loaded : (us : List User) → map loaded (map disconnected us) ≡ map loaded us
  unfolding loaded
  map-loaded [] = refl
  map-loaded (u ∷ us) = ap (◌∷◌ (loaded u)) (map-loaded us)

  parse_json-save :
      (db : Database) (f : ℕ)
      → 2 * length (save db) < f
      → parse_json d f (save db) ≡ some (value_of d (database_doc db))
  parse_json-save db f h =
      rw (save-emit db) (parse_json-emit d (database_doc db) f (rw (save-emit db) at h))

  -- Loading the file that `save` has written for a database appends, to the database that it is
  -- given, the same users with their names, teams and messages but with no connection, and the same
  -- teams with their channels, threads and replies, whatever bytes the texts hold; `user_loaded` is
  -- logged for each user in turn. The maps of conversations have their keys in order, no time is
  -- above 2 ^ 53, and fuel above twice the length of the file is enough.
  pub load-save :
      (db into : Database) (log : List LogEvent) (f : ℕ)
      → All UserIsDated db.users
      → All TeamIsDated db.teams
      → 2 * length (save db) < f
      → load d f (some (save db)) (into, log)
        ≡ some (
          record {
            users = into.users ++ map disconnected db.users;
            teams = into.teams ++ db.teams;
          },
          log ++ map loaded db.users,
        )
  unfolding load
  load-save db into log f us ts h =
      rw (parse_json-save db f h, load)
        (rw (append_loaded-database_doc db into log us ts, map-loaded db.users) refl)
