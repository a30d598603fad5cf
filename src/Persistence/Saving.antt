-- ===== src/Persistence/Saving.antt =====
-- server/saveManager/saveManager.cpp, with the text of the file in place of the file.
use myteams.Prelude.{ℕ, List, [], ◌++◌, map, Option, none, some, Text, text}
use myteams.Models.{User}
use myteams.Database.{Database}
use myteams.State.{LogEvent, Server, user_loaded}
use myteams.Persistence.Json.{JsonVal, member, array_of}
use myteams.Persistence.Numbers.{Doubles}
use myteams.Persistence.Parser.{parse_json}
use myteams.Persistence.Printer.{write_items, user_to_json, team_to_json}
use myteams.Persistence.Decoder.{user_from_json, team_from_json}

-- `save` writes what `database` holds. Nothing is written where the file cannot be opened.
unfoldable pub save : Database → Text
save db =
    text "{\"users\":["
    ++ (write_items [] db.users user_to_json
        ++ (text "],\"teams\":[" ++ (write_items [] db.teams team_to_json ++ text "]}")))

-- `server_event_user_loaded` for each user
unfoldable pub loaded : User → LogEvent
loaded u = user_loaded u.uuid u.name

module _ (d : Doubles) where
  open d use {Double}

  -- the loops of `load`: what was read is appended to the database
  unfoldable pub append_loaded :
      Database → List LogEvent → JsonVal Double → Database × List LogEvent
  unfolding member array_of user_from_json team_from_json loaded
  append_loaded db log root =
      let users = map (user_from_json d) (array_of (member root (text "users"))) in
      let teams = map (team_from_json d) (array_of (member root (text "teams"))) in
      (record { users = db.users ++ users; teams = db.teams ++ teams }, log ++ map loaded users)

  -- `load`; the file is `none` where it cannot be opened
  unfoldable pub load :
      ℕ → Option Text → Database × List LogEvent → Option (Database × List LogEvent)
  load f none (db, log) = some (db, log)
  load f (some content) (db, log) = elim (parse_json d f content) [
    | none ↦ none
    | some root ↦ some (append_loaded db log root)
  ]

  -- the constructor of `Server`: no client, and the database as it was loaded
  unfoldable pub start : ℕ → Option Text → Option Server
  start f file = elim (load f file (record { users = []; teams = [] }, [])) [
    | none ↦ none
    | some (db, log) ↦ some (record { clients = []; db = db; log = log })
  ]
