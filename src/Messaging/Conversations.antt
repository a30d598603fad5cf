-- ===== src/Messaging/Conversations.antt =====
-- The conversations of a user: a map with its keys in order.
use myteams.Prelude.{
  List, [], ◌∷◌, ◌++◌, ◌≡◌, ◌≢◌, refl, Option, none, some, Text, text_eq, text_lt, true, false,
  arith, Bool-cases, inl, inr, if◌then◌else◌,
}
use myteams.Models.{Message, Conversations, push_message}
use myteams.Commands.Messages.{find_messages}
use myteams.Messaging.Order.{text_lt_irrefl, text_lt_trans, text_lt_total}

abbrev pub Behind {ℓ} : {V : Type ℓ} → Text → List (Text × V) → Type 0
Behind key [] = Unit
Behind key ((k, ms) ∷ rest) = (text_lt key k ≡ true) × Behind key rest

-- `std::map` keeps its keys in order.
abbrev pub IsOrdered {ℓ} : {V : Type ℓ} → List (Text × V) → Type 0
IsOrdered [] = Unit
IsOrdered ((k, ms) ∷ rest) = Behind k rest × IsOrdered rest

unfoldable pub or_none : Option (List Message) → List Message
or_none none = []
or_none (some ms) = ms

Behind-push_message :
    (low key : Text) (m : Message) (cs : Conversations)
    → text_lt low key ≡ true
    → Behind low cs
    → Behind low (push_message key m cs)
unfolding push_message
Behind-push_message low key m [] h b = (h, tt)
Behind-push_message low key m ((k, ms) ∷ rest) h (l, b) =
    ground (arith, Behind-push_message low key m rest)

Behind-trans :
    (low key : Text) (cs : Conversations) → text_lt low key ≡ true → Behind key cs → Behind low cs
Behind-trans low key [] h b = tt
Behind-trans low key ((k, ms) ∷ rest) h (l, b) =
    (text_lt_trans low key k h l, Behind-trans low key rest h b)

differs : (a b : Text) → text_eq a b ≡ false → b ≢ a
differs a b h e = ground arith

-- `addMessage` keeps the keys of the map in order.
pub push_message-IsOrdered :
    (key : Text) (m : Message) (cs : Conversations)
    → IsOrdered cs
    → IsOrdered (push_message key m cs)
unfolding push_message
push_message-IsOrdered key m [] h = (tt, tt)
push_message-IsOrdered key m ((k, ms) ∷ rest) (b, h) = elim (Bool-cases (text_eq k key)) [
  | inl e ↦ rw (e, push_message, IsOrdered) (b, h)
  | inr e ↦ elim (Bool-cases (text_lt key k)) [
    | inl f ↦ rw (e, f, push_message, IsOrdered) ((f, Behind-trans key k rest f b), (b, h))
    | inr f ↦
        rw (e, f, push_message, IsOrdered)
          (
            Behind-push_message k key m rest (text_lt_total key k (differs k key e) f) b,
            push_message-IsOrdered key m rest h,
          )
  ]
]

find_messages-Behind :
    (key : Text) (cs : Conversations) → Behind key cs → find_messages key cs ≡ none
unfolding find_messages
find_messages-Behind key [] b = refl
find_messages-Behind key ((k, ms) ∷ rest) (l, b) =
    ground (arith, text_lt_irrefl key, find_messages-Behind key rest)

-- In a map with its keys in order, `addMessage` puts the message at the end of the conversation of
-- its key, a new one if there was none, and leaves every other conversation as it was.
pub find_messages-push_message :
    (key other : Text) (m : Message) (cs : Conversations)
    → IsOrdered cs
    → find_messages other (push_message key m cs) ≡ (
        if text_eq key other
        then some (or_none (find_messages other cs) ++ m ∷ [])
        else find_messages other cs)
unfolding push_message find_messages or_none
find_messages-push_message key other m [] h = ground arith
find_messages-push_message key other m ((k, ms) ∷ rest) (b, h) = elim (Bool-cases (text_lt key k)) [
  | inl f ↦ ground (
    arith,
    find_messages-Behind key rest (Behind-trans key k rest f b),
    find_messages-push_message key other m rest h,
  )
  | inr f ↦ ground (arith, find_messages-push_message key other m rest h)
]
