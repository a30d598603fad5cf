-- ===== src/State.antt =====
-- server/Context.hpp, server/client and the state of server/server.hpp with the functions that
-- write to clients. A client that a handler gets by reference is the entry of `_clients` at its
-- file descriptor, so a handler takes the descriptor and writes through it.
use myteams.Prelude.{
  ℕ, List, [], ◌∷◌, ◌++◌, Bool, true, false, ◌||◌, Option, none, some, Text, empty, text_eq, ◌==◌,
  if◌then◌else◌,
}
use myteams.Models.{contains}
use myteams.Database.{Database, find_team}

pub record Context : Type 0 where
  pub team_uuid : Text
  pub channel_uuid : Text
  pub thread_uuid : Text

abbrev pub new_context : Context
new_context = record { team_uuid = []; channel_uuid = []; thread_uuid = [] }

-- `_fd` is -1, here `none`, before `setFd` and after the peer has closed.
pub record Client : Type 0 where
  pub fd : Option ℕ
  pub user_uuid : Text
  pub context : Context
  pub read_buffer : Text
  pub write_buffer : Text
  pub args : List Text
  pub poll_out_enabled : Bool

abbrev pub new_client : Client
new_client = record {
  fd = none;
  user_uuid = [];
  context = new_context;
  read_buffer = [];
  write_buffer = [];
  args = [];
  poll_out_enabled = false;
}

-- The calls of libs/myteams/logging_server.h, in the order in which they are made.
pub data LogEvent : Type 0 where
  user_loaded user_created : Text → Text → LogEvent
  user_logged_in user_logged_out : Text → LogEvent
  team_created channel_created : Text → Text → Text → LogEvent
  thread_created : Text → Text → Text → Text → Text → LogEvent
  reply_created private_message_sended : Text → Text → Text → LogEvent
  user_subscribed user_unsubscribed : Text → Text → LogEvent

-- The order of an `unordered_map` is not specified; each loop over it treats its entries alike.
abbrev pub Clients : Type 0
Clients = List (ℕ × Client)

pub record Server : Type 0 where
  pub clients : Clients
  pub db : Database
  pub log : List LogEvent

-- What a handler may ask of the system: the next `uuid_generate` and `std::time`.
pub record Env : Type 0 where
  pub uuid : Text
  pub now : ℕ

-- `_clients.find(fd)`
unfoldable pub find_client : ℕ → Clients → Option Client
find_client fd [] = none
find_client fd ((k, c) ∷ cs) = let later = find_client fd cs in if k == fd then some c else later

unfoldable pub update_client : ℕ → (Client → Client) → Clients → Clients
update_client fd f [] = []
update_client fd f ((k, c) ∷ cs) =
    let later = update_client fd f cs in if k == fd then (k, f c) ∷ cs else (k, c) ∷ later

unfoldable pub append_to_write_buffer : Text → Client → Client
append_to_write_buffer msg c = record c { write_buffer = c.write_buffer ++ msg }

unfoldable pub on_client : ℕ → (Client → Client) → Server → Server
unfolding update_client
on_client fd f s = record s { clients = update_client fd f s.clients }

unfoldable pub set_user_uuid : Text → ℕ → Server → Server
unfolding on_client
set_user_uuid uuid fd = on_client fd λ c. record c { user_uuid = uuid }

unfoldable pub set_context : Context → ℕ → Server → Server
unfolding on_client
set_context context fd = on_client fd λ c. record c { context = context }

unfoldable pub set_args : List Text → ℕ → Server → Server
unfolding on_client
set_args args fd = on_client fd λ c. record c { args = args }

-- a call of the logging library
unfoldable pub server_event : LogEvent → Server → Server
server_event e s = record s { log = s.log ++ e ∷ [] }

unfoldable pub send_to_client : Text → ℕ → Server → Server
unfolding on_client append_to_write_buffer
send_to_client msg fd = on_client fd (append_to_write_buffer msg)

-- The loops over `_clients` with a test on each.
unfoldable pub append_where : (Client → Bool) → Text → Clients → Clients
unfolding append_to_write_buffer
append_where test msg [] = []
append_where test msg ((k, c) ∷ cs) =
    (k, if test c then append_to_write_buffer msg c else c) ∷ append_where test msg cs

unfoldable pub broadcast : Text → Server → Server
unfolding append_where
broadcast msg s = record s { clients = append_where (λ _. true) msg s.clients }

unfoldable pub send_to_user : Text → Text → Server → Server
unfolding append_where
send_to_user user_uuid msg s = record s {
  clients = append_where (λ c. text_eq c.user_uuid user_uuid) msg s.clients;
}

-- the tests of the loop in `notifySubscribers`
unfoldable pub is_subscriber : List Text → Client → Bool
unfolding contains
is_subscriber uuids c = if empty c.user_uuid then false else contains c.user_uuid uuids

unfoldable pub notify_subscribers : Text → Text → Server → Server
unfolding append_where is_subscriber
notify_subscribers team_uuid msg s =
    if empty team_uuid || empty msg then s else elim (find_team s.db team_uuid) [
      | none ↦ s
      | some team ↦ record s {
        clients = append_where (is_subscriber team.subscriber_uuids) msg s.clients;
      }
    ]

-- One message for each item, in order.
unfoldable pub send_each {ℓ} : {A : Type ℓ} → (A → Text) → List A → ℕ → Server → Server
unfolding send_to_client
send_each line [] fd s = s
send_each line (x ∷ xs) fd s = send_each line xs fd (send_to_client (line x) fd s)
