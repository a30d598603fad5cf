-- ===== src/Session/Logging.antt =====
-- `/login`: the name and the user behind a connection.
use mathlib.Core.Option
use myteams.Prelude.{
  ℕ, List, [], ◌∷◌, ◌++◌, ◌||◌, ◌≡◌, refl, ap, ◌∙◌, Option, none, some, Text, arith, find_first,
  modify_first, Bool, true, false, Option-cases, inl, inr, ltb, length, get_or, empty,
}
use myteams.Models.{User, increment_connection}
use myteams.Database.{find_user_by_name, update_user_by_name, user_named, add_user}
use myteams.State.{
  user_logged_in, Env, Client, Clients, Server, find_client, update_client, on_client,
  send_to_client, server_event, set_user_uuid, broadcast, append_where, append_to_write_buffer,
}
use myteams.Commands.Login.{
  login, create_new_user, log_user_in, registered, max_name_length, ok_user, logged_in_event,
}

find_first-modify_same :
    (name : Text) (f : User → User) (us : List User)
    → ((u : User) → (f u).name ≡ u.name)
    → find_first (user_named name) (modify_first (user_named name) f us)
      ≡ Option.map f (find_first (user_named name) us)
unfolding find_first modify_first user_named
find_first-modify_same name f [] keeps = refl
find_first-modify_same name f (u ∷ us) keeps =
    ground (arith, keeps u, find_first-modify_same name f us keeps)

find_first-new :
    (name : Text) (us : List User) (u : User)
    → u.name ≡ name
    → find_first (user_named name) us ≡ none
    → find_first (user_named name) (us ++ u ∷ []) ≡ some u
unfolding find_first user_named
find_first-new name [] u e h = ground arith
find_first-new name (w ∷ us) u e h = ground (arith, find_first-new name us u)

-- The user of the client at a descriptor.
unfoldable pub user_of : ℕ → Clients → Option Text
user_of fd cs = elim (find_client fd cs) [ none ↦ none | some c ↦ some c.user_uuid ]

user_of-update_client :
    (fd : ℕ) (f : Client → Client) (cs : Clients)
    → ((c : Client) → (f c).user_uuid ≡ c.user_uuid)
    → user_of fd (update_client fd f cs) ≡ user_of fd cs
unfolding user_of find_client update_client
user_of-update_client fd f [] keeps = refl
user_of-update_client fd f ((k, c) ∷ cs) keeps =
    ground (arith, keeps c, user_of-update_client fd f cs keeps)

user_of-append_where :
    (fd : ℕ) (test : Client → Bool) (msg : Text) (cs : Clients)
    → user_of fd (append_where test msg cs) ≡ user_of fd cs
unfolding user_of find_client append_where append_to_write_buffer
user_of-append_where fd test msg [] = refl
user_of-append_where fd test msg ((k, c) ∷ cs) = ground (arith, user_of-append_where fd test msg cs)

user_of-set :
    (fd : ℕ) (uuid : Text) (cs : Clients) (c : Client)
    → find_client fd cs ≡ some c
    → user_of fd (update_client fd (λ d. record d { user_uuid = uuid }) cs) ≡ some uuid
unfolding user_of find_client update_client
user_of-set fd uuid [] c h = ground arith
user_of-set fd uuid ((k, d) ∷ cs) c h = ground (arith, user_of-set fd uuid cs c)

-- The client that both ways of logging in leave.
user_of-logged :
    (fd : ℕ) (uuid ok event : Text) (cs : Clients) (c : Client)
    → find_client fd cs ≡ some c
    → user_of fd (
        append_where
          (λ _. true)
          event
          (update_client fd
            (append_to_write_buffer ok)
            (update_client fd (λ d. record d { user_uuid = uuid }) cs)))
      ≡ some uuid
unfolding append_to_write_buffer
user_of-logged fd uuid ok event cs c h =
    user_of-append_where fd (λ _. true) event _
    ∙ user_of-update_client fd (append_to_write_buffer ok) _ (λ d. refl)
    ∙ user_of-set fd uuid cs c h

log_user_in-found :
    (fd : ℕ) (name : Text) (s : Server) (u : User)
    → find_first (user_named name) s.db.users ≡ some u
    → log_user_in fd name s
      ≡ broadcast (logged_in_event u) (
          server_event (user_logged_in u.uuid) (
            send_to_client (ok_user u) fd (
              set_user_uuid u.uuid fd
                (record s { db = update_user_by_name name increment_connection s.db }))))
unfolding find_user_by_name log_user_in
log_user_in-found fd name s u e = rw (e, log_user_in) refl

-- `/login` with a name of 1 to 32 bytes, on a connection of the table with no user, makes the connection that
-- of the user of this name: a new user with one connection if there was none, or else the one
-- there was, with one connection more.
pub login-user_of :
    (env : Env) (fd : ℕ) (c d : Client) (s : Server)
    → ltb (length c.args) 2 ≡ false
    → empty c.user_uuid ≡ true
    → (empty (get_or c.args 1 []) || ltb max_name_length (length (get_or c.args 1 []))) ≡ false
    → find_client fd s.clients ≡ some d
    → (u : User) × (find_user_by_name (login env fd c s).db (get_or c.args 1 []) ≡ some u)
      × (user_of fd (login env fd c s).clients ≡ some u.uuid)
      × (u ≡ elim (find_user_by_name s.db (get_or c.args 1 [])) [
        | none ↦ registered env (get_or c.args 1 [])
        | some old ↦ increment_connection old
      ])
unfolding login create_new_user log_user_in send_to_client set_user_uuid on_client server_event
    broadcast find_user_by_name add_user update_user_by_name increment_connection
login-user_of env fd c d s args nobody valid here =
    elim (Option-cases (find_first (user_named (get_or c.args 1 [])) s.db.users)) [
      | inl e ↦
          rw (args, nobody, valid, e, login, create_new_user, find_user_by_name)
            (
              registered env (get_or c.args 1 []),
              find_first-new (get_or c.args 1 []) s.db.users _ refl e,
              user_of-logged fd env.uuid _ _ s.clients d here,
              refl,
            )
      | inr (u, e) ↦
          let logged = log_user_in-found fd (get_or c.args 1 []) s u e in
          rw (args, nobody, valid, e, login, logged)
            (
              increment_connection u,
              find_first-modify_same (get_or c.args 1 []) increment_connection s.db.users
                    (λ w. refl)
                  ∙ ap (Option.map increment_connection) e,
              user_of-logged fd u.uuid (ok_user u) (logged_in_event u) s.clients d here,
              refl,
            )
    ]
