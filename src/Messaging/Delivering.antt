-- ===== src/Messaging/Delivering.antt =====
-- `/send`: both users keep the message.
use mathlib.Core.Option
use myteams.Prelude.{
  ℕ, List, [], ◌∷◌, ◌++◌, ◌≡◌, ◌≢◌, refl, sym, ap, ◌∙◌, none, some, Text, text_eq, arith,
  if◌then◌else◌,
}
use myteams.Models.{User, Message, add_message}
use myteams.Database.{Database, find_user, update_user}
use myteams.State.{Env, Server, send_to_client, send_to_user, server_event, on_client}
use myteams.Commands.Messages.{deliver, private_message, find_messages}
use myteams.Accounting.Users.{find_first-modify_first}
use myteams.Messaging.Conversations.{
  IsOrdered, or_none, find_messages-push_message, push_message-IsOrdered,
}

-- The messages that a user keeps under the uuid of another.
unfoldable pub said : Database → Text → Text → List Message
said db user key = elim (find_user db user) [
  | none ↦ []
  | some u ↦ or_none (find_messages key u.messages)
]

find_user-add_message :
    (uuid v key : Text) (m : Message) (db : Database)
    → find_user (update_user uuid (add_message key m) db) v
      ≡ (if text_eq uuid v then Option.map (add_message key m) (find_user db v) else find_user db v)
unfolding find_user update_user add_message
find_user-add_message uuid v key m db =
    find_first-modify_first uuid v (add_message key m) db.users (λ u. refl)

said-add_message :
    (user key : Text) (m : Message) (db : Database) (u : User)
    → find_user db user ≡ some u
    → IsOrdered u.messages
    → said (update_user user (add_message key m) db) user key ≡ said db user key ++ m ∷ []
unfolding said add_message or_none
said-add_message user key m db u h o = ground (
  arith,
  find_user-add_message user user key m db,
  find_messages-push_message key key m u.messages o,
)

said-other :
    (uuid user key k : Text) (m : Message) (db : Database)
    → uuid ≢ user
    → said (update_user uuid (add_message k m) db) user key ≡ said db user key
unfolding said
said-other uuid user key k m db ne = ground (arith, find_user-add_message uuid user k m db)

deliver-db :
    (env : Env) (fd : ℕ) (sender receiver : User) (body : Text) (s : Server)
    → (deliver env fd sender receiver body s).db ≡ (
        let m = private_message env sender.uuid receiver.uuid body in
        update_user receiver.uuid
          (add_message sender.uuid m)
          (update_user sender.uuid (add_message receiver.uuid m) s.db))
unfolding deliver send_to_client send_to_user server_event on_client
deliver-db env fd sender receiver body s = refl

-- A message between two different users of the database, whose maps of conversations are in order,
-- is put behind what the sender keeps under the receiver, and behind what the receiver keeps under
-- the sender.
pub deliver-said :
    (env : Env) (fd : ℕ) (sender receiver : User) (body : Text) (s : Server)
    → find_user s.db sender.uuid ≡ some sender
    → find_user s.db receiver.uuid ≡ some receiver
    → sender.uuid ≢ receiver.uuid
    → IsOrdered sender.messages
    → IsOrdered receiver.messages
    → (said (deliver env fd sender receiver body s).db sender.uuid receiver.uuid
        ≡ said s.db sender.uuid receiver.uuid
          ++ private_message env sender.uuid receiver.uuid body ∷ [])
      × (said (deliver env fd sender receiver body s).db receiver.uuid sender.uuid
          ≡ said s.db receiver.uuid sender.uuid
            ++ private_message env sender.uuid receiver.uuid body ∷ [])
deliver-said env fd sender receiver body s hs hr ne os or =
    let m = private_message env sender.uuid receiver.uuid body in
    let db1 = update_user sender.uuid (add_message receiver.uuid m) s.db in
    rw (deliver-db env fd sender receiver body s) (
      said-other receiver.uuid sender.uuid receiver.uuid sender.uuid m db1 (λ e. ne (sym e))
          ∙ said-add_message sender.uuid receiver.uuid m s.db sender hs os,
      said-add_message receiver.uuid sender.uuid m db1 receiver
            (ground (arith, find_user-add_message sender.uuid receiver.uuid receiver.uuid m s.db))
            or
          ∙ ap (λ ms. ms ++ m ∷ [])
              (said-other sender.uuid receiver.uuid sender.uuid receiver.uuid m s.db ne),
    )

-- A message of a user of the database to oneself is kept twice, where the map of conversations is
-- in order.
pub deliver_self :
    (env : Env) (fd : ℕ) (user : User) (body : Text) (s : Server)
    → find_user s.db user.uuid ≡ some user
    → IsOrdered user.messages
    → said (deliver env fd user user body s).db user.uuid user.uuid
      ≡ (said s.db user.uuid user.uuid ++ private_message env user.uuid user.uuid body ∷ [])
        ++ private_message env user.uuid user.uuid body ∷ []
deliver_self env fd user body s h o =
    let m = private_message env user.uuid user.uuid body in
    let db1 = update_user user.uuid (add_message user.uuid m) s.db in
    rw (deliver-db env fd user user body s) (
      said-add_message user.uuid user.uuid m db1 (add_message user.uuid m user)
        (ground (arith, find_user-add_message user.uuid user.uuid user.uuid m s.db))
        (unfold add_message in push_message-IsOrdered user.uuid m user.messages o)
      ∙ ap (λ ms. ms ++ m ∷ []) (said-add_message user.uuid user.uuid m s.db user h o))
