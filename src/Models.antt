-- ===== src/Models.antt =====
-- server/models: the classes that the database holds. A getter is a field and a setter a record
-- update; `time_t` is a natural number.
use myteams.Prelude.{
  ℕ, ◌+◌, ◌-◌, List, [], ◌∷◌, ◌++◌, Bool, true, false, not, Text, text_eq, text_lt, ltb,
  if◌then◌else◌,
}

-- models/Message.hpp
pub record Message : Type 0 where
  pub sender_uuid : Text
  pub receiver_uuid : Text
  pub timestamp : ℕ
  pub body : Text

-- models/Reply.hpp
pub record Reply : Type 0 where
  pub uuid : Text
  pub user_uuid : Text
  pub timestamp : ℕ
  pub body : Text

-- models/Thread.hpp
pub record Thread : Type 0 where
  pub uuid : Text
  pub user_uuid : Text
  pub timestamp : ℕ
  pub title : Text
  pub body : Text
  pub replies : List Reply

-- models/Channel.hpp
pub record Channel : Type 0 where
  pub uuid : Text
  pub name : Text
  pub description : Text
  pub threads : List Thread

-- models/Team.hpp
pub record Team : Type 0 where
  pub uuid : Text
  pub name : Text
  pub description : Text
  pub subscriber_uuids : List Text
  pub channels : List Channel

-- `std::map<std::string, std::vector<Message>>`: entries in the order of their keys
abbrev pub Conversations : Type 0
Conversations = List (Text × List Message)

-- models/User.hpp. `_connectedCount` is an `int` that starts at 0, and is lowered only above 0.
pub record User : Type 0 where
  pub uuid : Text
  pub name : Text
  pub connected_count : ℕ
  pub teams : List Text
  pub messages : Conversations

abbrev pub new_user : User
new_user = record { uuid = []; name = []; connected_count = 0; teams = []; messages = [] }

unfoldable pub is_connected : User → Bool
is_connected u = ltb 0 u.connected_count

unfoldable pub increment_connection : User → User
increment_connection u = record u { connected_count = u.connected_count + 1 }

unfoldable pub decrement_connection : User → User
decrement_connection u =
    if ltb 0 u.connected_count then record u { connected_count = u.connected_count - 1 } else u

-- `map[key].push_back(message)`: a missing key is inserted in its place with an empty vector.
unfoldable pub push_message : Text → Message → Conversations → Conversations
push_message key m [] = (key, m ∷ []) ∷ []
push_message key m ((k, ms) ∷ rest) =
    let later = push_message key m rest in
    if text_eq k key
    then (k, ms ++ m ∷ []) ∷ rest
    else if text_lt key k
    then (key, m ∷ []) ∷ (k, ms) ∷ rest
    else (k, ms) ∷ later

unfoldable pub add_message : Text → Message → User → User
unfolding push_message
add_message sender m u = record u { messages = push_message sender m u.messages }

-- `std::ranges::find(values, v) != values.end()`
unfoldable pub contains : Text → List Text → Bool
contains v [] = false
contains v (x ∷ xs) = let later = contains v xs in if text_eq x v then true else later

-- `std::ranges::remove(values, v)` with the erase of its tail
unfoldable pub remove_all : Text → List Text → List Text
remove_all v [] = []
remove_all v (x ∷ xs) = let rest = remove_all v xs in if text_eq x v then rest else x ∷ rest

unfoldable pub is_user_subscribed : Text → Team → Bool
unfolding contains
is_user_subscribed user t = contains user t.subscriber_uuids

-- models/Team.cpp: both methods return the team and whether it changed.
unfoldable pub add_subscriber : Text → Team → Team × Bool
unfolding is_user_subscribed
add_subscriber user t =
    if is_user_subscribed user t
    then (t, false)
    else (record t { subscriber_uuids = t.subscriber_uuids ++ user ∷ [] }, true)

-- The range that `remove` leaves behind is empty exactly when no element equals the value.
unfoldable pub remove_subscriber : Text → Team → Team × Bool
unfolding remove_all contains
remove_subscriber user t =
    if not (contains user t.subscriber_uuids)
    then (t, false)
    else (record t { subscriber_uuids = remove_all user t.subscriber_uuids }, true)
