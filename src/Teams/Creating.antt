-- ===== src/Teams/Creating.antt =====
-- `/create` without a team in the context: what it leaves in the database.
use myteams.Prelude.{
  ℕ, List, [], ◌∷◌, ◌≤◌, ◌≡◌, ◌≢◌, ◌⊎◌, refl, ap, ◌∙◌, true, false, Text, empty, All, length,
  get_or, ltb, arith, inl, inr, Bool-cases,
}
use myteams.Models.{Team, add_subscriber, is_user_subscribed, contains}
use myteams.Database.{Database, add_team}
use myteams.State.{Env, Client, Server, send_to_client, server_event, on_client, broadcast}
use myteams.Commands.Create.Emit.{bad_request, already_exists, emit_team_created}
use myteams.Commands.Create.{create, execute_team, founded, is_invalid_length, has_team_named}
use myteams.Teams.Distinct.{has_team_named-All}

-- The team that a user founds: its one subscriber is the user, and it has no channels.
abbrev pub team_of : Env → Text → Text → Text → Team
team_of env user name description = record {
  uuid = env.uuid;
  name = name;
  description = description;
  subscriber_uuids = user ∷ [];
  channels = [];
}

-- What a name and a description must be.
pub record IsAcceptable (name description : Text) (db : Database) : Type 0 where
  pub name_given : 1 ≤ length name
  pub name_short : length name ≤ 32
  pub description_given : 1 ≤ length description
  pub description_short : length description ≤ 255
  pub name_free : All (λ t. t.name ≢ name) db.teams

valid_length :
    (value : Text) (max : ℕ)
    → 1 ≤ length value
    → length value ≤ max
    → is_invalid_length value max ≡ false
unfolding is_invalid_length
valid_length [] max h k = absurd (omega arith)
valid_length (x ∷ xs) max h k = ground arith

length-valid :
    (value : Text) (max : ℕ)
    → is_invalid_length value max ≡ false
    → (1 ≤ length value) × (length value ≤ max)
unfolding is_invalid_length
length-valid [] max h = cc
length-valid (x ∷ xs) max h = (omega arith, ground arith)

has_team_named-free :
    (name : Text) (ts : List Team) → All (λ t. t.name ≢ name) ts → has_team_named name ts ≡ false
unfolding has_team_named
has_team_named-free name [] h = refl
has_team_named-free name (t ∷ ts) (h, hs) = ground (arith, h, has_team_named-free name ts hs)

founder :
    (env : Env) (user name description : Text)
    → (add_subscriber user (founded env name description)).0 ≡ team_of env user name description
unfolding add_subscriber is_user_subscribed contains
founder env user name description = refl

emitted-db : (fd : ℕ) (c : Client) (t : Team) (s : Server) → (emit_team_created fd c t s).db ≡ s.db
unfolding emit_team_created send_to_client server_event on_client broadcast
emitted-db fd c t s = refl

founding-db :
    (env : Env) (fd : ℕ) (c : Client) (s : Server)
    → empty c.user_uuid ≡ false
    → empty c.context.team_uuid ≡ true
    → ltb (length c.args) 3 ≡ false
    → is_invalid_length (get_or c.args 1 []) 32 ≡ false
    → is_invalid_length (get_or c.args 2 []) 255 ≡ false
    → has_team_named (get_or c.args 1 []) s.db.teams ≡ false
    → (create env fd c s).db
      ≡ add_team (team_of env c.user_uuid (get_or c.args 1 []) (get_or c.args 2 [])) s.db
unfolding create
founding-db env fd c s known outside args name description free =
    rw (known, outside, args, name, description, free, create, execute_team)
      (emitted-db fd c _ _
        ∙ ap (λ t. add_team t s.db)
            (founder env c.user_uuid (get_or c.args 1 []) (get_or c.args 2 [])))

refused-db : (msg : Text) (fd : ℕ) (s : Server) → (send_to_client msg fd s).db ≡ s.db
unfolding send_to_client on_client
refused-db msg fd s = refl

-- A logged in connection with no team in its context founds a team with a name of 1 to 32 bytes
-- and a description of 1 to 255 bytes, if the name is free. The user is its one subscriber.
pub create-founds :
    (env : Env) (fd : ℕ) (c : Client) (s : Server)
    → empty c.user_uuid ≡ false
    → empty c.context.team_uuid ≡ true
    → 3 ≤ length c.args
    → IsAcceptable (get_or c.args 1 []) (get_or c.args 2 []) s.db
    → (create env fd c s).db
      ≡ add_team (team_of env c.user_uuid (get_or c.args 1 []) (get_or c.args 2 [])) s.db
create-founds env fd c s known outside args ok =
    founding-db env fd c s known outside (ground arith)
      (valid_length (get_or c.args 1 []) 32 ok.name_given ok.name_short)
      (valid_length (get_or c.args 2 []) 255 ok.description_given ok.description_short)
      (has_team_named-free (get_or c.args 1 []) s.db.teams ok.name_free)

-- With no team in the context `/create` leaves the database as it was, or it founds a team whose
-- name and description are acceptable and whose one subscriber is the user.
pub create-IsAcceptable :
    (env : Env) (fd : ℕ) (c : Client) (s : Server)
    → empty c.context.team_uuid ≡ true
    → ((create env fd c s).db ≡ s.db)
      ⊎ (IsAcceptable (get_or c.args 1 []) (get_or c.args 2 []) s.db
          × ((create env fd c s).db
              ≡ add_team (team_of env c.user_uuid (get_or c.args 1 []) (get_or c.args 2 [])) s.db))
unfolding create bad_request already_exists
create-IsAcceptable env fd c s outside = elim (Bool-cases (empty c.user_uuid)) [
  | inl e ↦ inl (rw (e, create) (refused-db _ fd s))
  | inr known ↦ elim (Bool-cases (ltb (length c.args) 3)) [
    | inl e ↦ inl (rw (known, outside, e, create, execute_team) (refused-db _ fd s))
    | inr args ↦ elim (Bool-cases (is_invalid_length (get_or c.args 1 []) 32)) [
      | inl e ↦ inl (rw (known, outside, args, e, create, execute_team) (refused-db _ fd s))
      | inr name ↦ elim (Bool-cases (is_invalid_length (get_or c.args 2 []) 255)) [
        | inl e ↦ inl (rw (known, outside, args, name, e, create, execute_team) (refused-db _ fd s))
        | inr description ↦ elim (Bool-cases (has_team_named (get_or c.args 1 []) s.db.teams)) [
          | inl e ↦ inl (
              rw (known, outside, args, name, description, e, create, execute_team)
                (refused-db _ fd s))
          | inr free ↦
              let short_name = length-valid (get_or c.args 1 []) 32 name in
              let short_description = length-valid (get_or c.args 2 []) 255 description in
              inr (
                record {
                  name_given = short_name.0;
                  name_short = short_name.1;
                  description_given = short_description.0;
                  description_short = short_description.1;
                  name_free = has_team_named-All (get_or c.args 1 []) s.db.teams free;
                },
                founding-db env fd c s known outside args name description free,
              )
        ]
      ]
    ]
  ]
]
