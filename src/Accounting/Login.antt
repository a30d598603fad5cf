-- ===== src/Accounting/Login.antt =====
-- `login` and `logout` move the count of a user and the client table together.
use myteams.Prelude.{
  ℕ, ap, [], ◌≡◌, ◌≢◌, refl, none, some, Text, find_first, arith, inl, inr, Option-cases,
}
use myteams.Models.{User, increment_connection}
use myteams.Database.{
  find_user, find_user_by_name, user_is, user_named, add_user, update_user_by_name,
}
use myteams.State.{Env, Client, Server, find_client, on_client, set_user_uuid}
use myteams.Commands.Login.{registered, create_new_user, log_user_in, login}
use myteams.Frame.Writes.{sends-P, logs-P, broadcast-P}
use myteams.Accounting.Counts.{logged_as, logged_as-nil, logged_as_if, count_sessions-update_client}
use myteams.Accounting.Users.{
  increment-uuid, increment-count, connections-found, connections, DistinctUuids-append,
  DistinctUuids-modify_first, find_first-append, find_none-modify_first, connections-append,
  connections-modify_first, find_by_name, modify_by_name,
}
use myteams.Accounting.Invariant.{IsAccounted, accounted_frame}

module _ (fd : ℕ) (c : Client) (s : Server) (here : find_client fd s.clients ≡ some c) where
  -- A new user starts with the one connection that the client gets.
  register-IsAccounted :
      (u : User)
      → u.uuid ≢ []
      → u.connected_count ≡ 1
      → find_first (user_is u.uuid) s.db.users ≡ none
      → c.user_uuid ≡ []
      → IsAccounted s
      → IsAccounted (set_user_uuid u.uuid fd (record s { db = add_user u s.db }))
  unfolding set_user_uuid on_client add_user connections
  register-IsAccounted u ne one fresh out inv = record {
    distinct = DistinctUuids-append s.db.users u inv.distinct fresh;
    named = ground (arith, inv.named, find_first-append [] s.db.users u);
    balanced = λ user some_one. ground (
      arith,
      inv.balanced user some_one,
      connections-append s.db.users u user fresh,
      count_sessions-update_client user fd (λ d. record d { user_uuid = u.uuid }) s.clients c here,
      ap (logged_as user) out,
      logged_as-nil user some_one,
      logged_as_if user u.uuid,
    );
  }

  -- A user that exists gets one connection more, and the client is logged in as that user.
  enter-IsAccounted :
      (name : Text) (u : User)
      → find_first (user_named name) s.db.users ≡ some u
      → c.user_uuid ≡ []
      → IsAccounted s
      → IsAccounted (
          set_user_uuid u.uuid fd
            (record s { db = update_user_by_name name increment_connection s.db }))
  unfolding set_user_uuid on_client update_user_by_name
  enter-IsAccounted name u found out inv =
      let by_uuid = find_by_name name s.db.users u inv.distinct found in
      let same = modify_by_name name increment_connection s.db.users u inv.distinct found in
      let keeps = increment-uuid in
      record {
        distinct = rw same (DistinctUuids-modify_first u.uuid _ s.db.users keeps inv.distinct);
        named = rw same (find_none-modify_first u.uuid [] _ s.db.users keeps inv.named);
        balanced = λ user some_one. rw same (
            ground (
              arith,
              inv.balanced user some_one,
              inv.balanced u.uuid,
              connections-modify_first u.uuid user increment_connection s.db.users u keeps by_uuid,
              connections-found u.uuid s.db.users u by_uuid,
              increment-count u,
              count_sessions-update_client user fd (λ d. record d { user_uuid = u.uuid }) s.clients
                  c here,
              ap (logged_as user) out,
              logged_as-nil user some_one,
              logged_as_if user u.uuid,
            ));
      }

  create_new_user-IsAccounted :
      (env : Env) (name : Text)
      → env.uuid ≢ []
      → find_user s.db env.uuid ≡ none
      → c.user_uuid ≡ []
      → IsAccounted s
      → IsAccounted (create_new_user env fd name s)
  create_new_user-IsAccounted env name ne fresh out inv =
      let entered =
        register-IsAccounted (registered env name) ne (unfold increment_connection in refl)
          (unfold find_user in fresh) out inv in
      unfold create_new_user in
      broadcast-P accounted_frame _ _ (
        logs-P accounted_frame _ _
          (logs-P accounted_frame _ _ (sends-P accounted_frame _ fd _ entered)))

  log_user_in-IsAccounted :
      (name : Text) → c.user_uuid ≡ [] → IsAccounted s → IsAccounted (log_user_in fd name s)
  unfolding log_user_in
  log_user_in-IsAccounted name out inv = elim (Option-cases (find_user_by_name s.db name)) [
    | inl e ↦ rw (e, log_user_in) (sends-P accounted_frame _ fd s inv)
    | inr (u, e) ↦
        let entered = enter-IsAccounted name u (unfold find_user_by_name in e) out inv in
        rw (e, log_user_in)
          (broadcast-P accounted_frame _ _
            (logs-P accounted_frame _ _ (sends-P accounted_frame _ fd _ entered)))
  ]

  -- With a fresh uuid from the generator, `login` keeps the accounts on every branch.
  pub login-IsAccounted :
      (env : Env)
      → env.uuid ≢ []
      → find_user s.db env.uuid ≡ none
      → IsAccounted s
      → IsAccounted (login env fd c s)
  login-IsAccounted env ne fresh inv =
      let refuse = λ (msg : Text). sends-P accounted_frame msg fd s inv in
      unfold login in
      grind (arith, refuse, create_new_user-IsAccounted env, log_user_in-IsAccounted)
