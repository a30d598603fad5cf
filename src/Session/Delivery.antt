-- ===== src/Session/Delivery.antt =====
-- Who receives a message.
use mathlib.Core.Option
use myteams.Prelude.{
  ◌≢◌, ◌⊎◌, ◌++◌, List, All, ap, ◌∙◌, arith, ℕ, ◌≡◌, refl, [], ◌∷◌, Bool, true, false, some, Text,
  empty, ◌==◌, if◌then◌else◌, Bool-cases, inl, inr, text_eq,
}
use myteams.Models.{Team, contains}
use myteams.Database.{find_team}
use myteams.State.{
  Client, Clients, Server, find_client, append_where, append_to_write_buffer, notify_subscribers,
  is_subscriber, broadcast, send_to_user,
}

abbrev pub receive : (Client → Bool) → Text → Client → Client
receive test msg c = if test c then append_to_write_buffer msg c else c

find_client-append_where :
    (test : Client → Bool) (msg : Text) (fd : ℕ) (cs : Clients)
    → find_client fd (append_where test msg cs) ≡ Option.map (receive test msg) (find_client fd cs)
unfolding find_client append_where
find_client-append_where test msg fd [] = refl
find_client-append_where test msg fd ((k, c) ∷ cs) = elim (Bool-cases (k == fd)) [
  | inl e ↦ rw (e, find_client) refl
  | inr e ↦ rw (e, find_client) (find_client-append_where test msg fd cs)
]

-- What a notice makes of a client: it reaches those that are logged in as one of the subscribers,
-- behind what their write buffers hold.
pub data Noticed (subscribers : List Text) (msg : Text) (c : Client) : Client → Type 0 where
  reached :
      (before behind : List Text)
      → c.user_uuid ≢ []
      → subscribers ≡ before ++ c.user_uuid ∷ behind
      → Noticed subscribers msg c (record c { write_buffer = c.write_buffer ++ msg })
  logged_out : c.user_uuid ≡ [] → Noticed subscribers msg c c
  not_subscribed : All (λ u. u ≢ c.user_uuid) subscribers → Noticed subscribers msg c c

contains-cases :
    (v : Text) (us : List Text)
    → ((contains v us ≡ true)
        × (before : List Text) × (behind : List Text) × (us ≡ before ++ v ∷ behind))
      ⊎ ((contains v us ≡ false) × All (λ u. u ≢ v) us)
unfolding contains
contains-cases v [] = inr (refl, tt)
contains-cases v (u ∷ us) = elim (Bool-cases (text_eq u v)) [
  | inl e ↦ inl (rw (e, contains) refl, [], us, ap (λ w. w ∷ us) (ground arith))
  | inr e ↦ elim (contains-cases v us) [
    | inl (h, before, behind, k) ↦ inl (rw (e, contains) h, u ∷ before, behind, ap (λ ws. u ∷ ws) k)
    | inr (h, a) ↦ inr (rw (e, contains) h, ((λ z. ground arith), a))
  ]
]

empty-nil : (t : Text) → empty t ≡ true → t ≡ []
empty-nil [] h = refl
empty-nil (c ∷ t) h = absurd cc

receive-Noticed :
    (us : List Text) (msg : Text) (c : Client) → Noticed us msg c (receive (is_subscriber us) msg c)
unfolding is_subscriber append_to_write_buffer
receive-Noticed us msg c = elim (Bool-cases (empty c.user_uuid)) [
  | inl e ↦ rw (e, is_subscriber) (logged_out (empty-nil c.user_uuid e))
  | inr e ↦ elim (contains-cases c.user_uuid us) [
    | inl (h, before, behind, k) ↦
        rw (e, h, is_subscriber) (reached before behind (λ z. ground arith) k)
    | inr (h, a) ↦ rw (e, h, is_subscriber) (not_subscribed a)
  ]
]

-- A notice that is not empty, of a team that is found under a uuid that is not empty, goes behind
-- what the write buffer of a client holds, if the client is logged in as a user that stands among
-- the subscribers of the team, and leaves every other client as it was.
pub notify_subscribers-Noticed :
    (team_uuid msg : Text) (fd : ℕ) (s : Server) (team : Team) (c : Client)
    → empty team_uuid ≡ false
    → empty msg ≡ false
    → find_team s.db team_uuid ≡ some team
    → find_client fd s.clients ≡ some c
    → (d : Client) × (find_client fd (notify_subscribers team_uuid msg s).clients ≡ some d)
      × Noticed team.subscriber_uuids msg c d
unfolding notify_subscribers
notify_subscribers-Noticed team_uuid msg fd s team c named full found there =
    let test = is_subscriber team.subscriber_uuids in
    (
      receive test msg c,
      rw (named, full, found)
          (find_client-append_where test msg fd s.clients
            ∙ ap (Option.map (receive test msg)) there),
      receive-Noticed team.subscriber_uuids msg c,
    )

-- A message to a user reaches exactly the connections that are logged in as that user.
find_client-send_to_user :
    (user_uuid msg : Text) (fd : ℕ) (s : Server)
    → find_client fd (send_to_user user_uuid msg s).clients
      ≡ Option.map (receive (λ c. text_eq c.user_uuid user_uuid) msg) (find_client fd s.clients)
unfolding send_to_user
find_client-send_to_user user_uuid msg fd s =
    find_client-append_where (λ c. text_eq c.user_uuid user_uuid) msg fd s.clients

-- A broadcast appends the text to the write buffer of every connection.
pub find_client-broadcast :
    (msg : Text) (fd : ℕ) (s : Server)
    → find_client fd (broadcast msg s).clients
      ≡ Option.map (append_to_write_buffer msg) (find_client fd s.clients)
unfolding broadcast
find_client-broadcast msg fd s = find_client-append_where (λ _. true) msg fd s.clients
