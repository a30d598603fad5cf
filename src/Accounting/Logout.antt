-- ===== src/Accounting/Logout.antt =====
-- `logout` and the end of a connection: first the database gives the connection up, then the
-- client table.
use myteams.Prelude.{
  ℕ, ap, ◌<◌, [], ◌≡◌, ◌≢◌, refl, none, some, Option, Text, text, arith, ◌∙◌, inl, inr, true,
  Option-cases, find_first,
}
use myteams.Models.{User, decrement_connection}
use myteams.Database.{find_user, user_is, update_user}
use myteams.State.{
  Client, Server, find_client, on_client, set_user_uuid, send_to_client, broadcast, server_event,
}
use myteams.Commands.Login.{release_user, announce_logout, logout, logged_out_event}
use myteams.Loop.{erase_client, disconnect_client, announce_after}
use myteams.Poller.{Poller}
use myteams.Frame.Writes.{sends-P, logs-P, broadcast-P}
use myteams.Accounting.Counts.{
  logged_as, logged_as-nil, logged_as_if, count_sessions, count_sessions-update_client,
  count_sessions-pos, count_sessions-erase_client, user_at, user_at-append_where,
  user_at-find_client,
}
use myteams.Accounting.Users.{
  decrement-uuid, decrement-count, connections-missing, connections-found, connections-modify_first,
  DistinctUuids-modify_first, find_none-modify_first,
}
use myteams.Accounting.Invariant.{Accounts, IsAccounted, accounted_frame}

-- The database gives up one connection of a user that somebody is logged in as.
lower-Accounts :
    (user : Text) (u : User) (s : Server)
    → user ≢ []
    → 0 < count_sessions user s.clients
    → find_first (user_is user) s.db.users ≡ some u
    → IsAccounted s
    → Accounts user (record s { db = update_user user decrement_connection s.db })
unfolding update_user
lower-Accounts user u s ne counted found inv = record {
  distinct = DistinctUuids-modify_first user _ s.db.users decrement-uuid inv.distinct;
  named = find_none-modify_first user [] _ s.db.users decrement-uuid inv.named;
  balanced = λ v some_one. ground (
    arith,
    inv.balanced v some_one,
    inv.balanced user ne,
    connections-modify_first user v decrement_connection s.db.users u decrement-uuid found,
    connections-found user s.db.users u found,
    decrement-count u,
    logged_as-nil v some_one,
    logged_as-nil user ne,
    logged_as_if v user,
  );
}

release_user-Accounts :
    (user : Text) (s : Server)
    → user ≢ []
    → 0 < count_sessions user s.clients
    → IsAccounted s
    → Accounts user (release_user user s).0
unfolding release_user find_user
release_user-Accounts user s ne counted inv =
    elim (Option-cases (find_first (user_is user) s.db.users)) [
      | inl e ↦ absurd (
          omega (
            arith,
            inv.balanced user ne,
            logged_as-nil user ne,
            connections-missing user s.db.users e,
          ))
      | inr (u, e) ↦ ground (arith, lower-Accounts user u s ne counted e inv)
    ]

-- What leaves the client table takes the pending connection with it.
module _ (user : Text) (fd : ℕ) (s : Server) (there : user_at fd s.clients ≡ some user) where
  leave-IsAccounted : Accounts user s → IsAccounted (set_user_uuid [] fd s)
  unfolding set_user_uuid on_client
  leave-IsAccounted inv =
      let (c, found, is) = user_at-find_client fd s.clients user there in
      record {
        distinct = inv.distinct;
        named = inv.named;
        balanced = λ v some_one. ground (
          arith,
          inv.balanced v some_one,
          count_sessions-update_client v fd (λ d. record d { user_uuid = [] }) s.clients c found,
          ap (logged_as v) is,
        );
      }

  erase-IsAccounted :
      Accounts user s → IsAccounted (record s { clients = erase_client fd s.clients })
  erase-IsAccounted inv =
      let (c, found, is) = user_at-find_client fd s.clients user there in
      record {
        distinct = inv.distinct;
        named = inv.named;
        balanced = λ v some_one. ground (
          arith,
          inv.balanced v some_one,
          count_sessions-erase_client v fd s.clients c found,
          ap (logged_as v) is,
          logged_as-nil v some_one,
        );
      }

announce_logout-Accounts :
    {pending : Text} (user : Text) (r : Server × Option User)
    → Accounts pending r.0
    → Accounts pending (announce_logout user r)
unfolding announce_logout
announce_logout-Accounts user (s, none) a = a
announce_logout-Accounts user (s, some u) a =
    logs-P accounted_frame _ _ (broadcast-P accounted_frame _ s a)

user_at-announce_logout :
    (fd : ℕ) (user : Text) (r : Server × Option User)
    → user_at fd (announce_logout user r).clients ≡ user_at fd r.0.clients
unfolding announce_logout server_event broadcast
user_at-announce_logout fd user (s, none) = refl
user_at-announce_logout fd user (s, some u) =
    user_at-append_where fd (λ _. true) (logged_out_event u) s.clients

user_at-release_user :
    (fd : ℕ) (user : Text) (s : Server)
    → user_at fd (release_user user s).0.clients ≡ user_at fd s.clients
unfolding release_user
user_at-release_user fd user s = ground arith

user_at_here :
    (fd : ℕ) (s : Server) (c : Client)
    → find_client fd s.clients ≡ some c
    → user_at fd s.clients ≡ some c.user_uuid
unfolding user_at
user_at_here fd s c h = ground arith

-- The two branches of `logout`, for any property of the server that it leaves.
logout_cases :
    (P : Server → Type 0) (fd : ℕ) (c : Client) (s : Server)
    → P (send_to_client (text "401 UNAUTHORIZED\r\n") fd s)
    → (c.user_uuid ≢ []
        → P (
            send_to_client
              (text "200 OK\r\n")
              fd
              (set_user_uuid [] fd (announce_logout c.user_uuid (release_user c.user_uuid s)))))
    → P (logout fd c s)
unfolding logout
logout_cases P fd c s refused done = ground arith

announce_after-IsAccounted :
    (fd : ℕ) (r : Server × Option User)
    → IsAccounted (record r.0 { clients = erase_client fd r.0.clients })
    → IsAccounted (announce_after fd r)
announce_after-IsAccounted fd (s, none) a = a
announce_after-IsAccounted fd (s, some u) a =
    announce_logout-Accounts u.uuid (record s { clients = erase_client fd s.clients }, some u) a

module _ (fd : ℕ) (c : Client) (s : Server) (here : find_client fd s.clients ≡ some c) where
  -- `logout` behind its test
  log_out-IsAccounted :
      c.user_uuid ≢ []
      → IsAccounted s
      → IsAccounted (set_user_uuid [] fd (announce_logout c.user_uuid (release_user c.user_uuid s)))
  log_out-IsAccounted ne inv =
      leave-IsAccounted c.user_uuid fd _
        (user_at-announce_logout fd c.user_uuid (release_user c.user_uuid s)
          ∙ user_at-release_user fd c.user_uuid s
          ∙ user_at_here fd s c here)
        (announce_logout-Accounts c.user_uuid _
          (release_user-Accounts c.user_uuid s ne (count_sessions-pos fd s.clients c here) inv))

  -- `logout` keeps the accounts on both branches.
  pub logout-IsAccounted : IsAccounted s → IsAccounted (logout fd c s)
  logout-IsAccounted inv =
      logout_cases IsAccounted fd c s (sends-P accounted_frame _ fd s inv)
        λ ne. sends-P accounted_frame _ fd _ (log_out-IsAccounted ne inv)

  erase_after-IsAccounted :
      c.user_uuid ≢ []
      → IsAccounted s
      → IsAccounted (announce_after fd (release_user c.user_uuid s))
  erase_after-IsAccounted ne inv = announce_after-IsAccounted fd (release_user c.user_uuid s) (
      erase-IsAccounted c.user_uuid fd _
        (user_at-release_user fd c.user_uuid s ∙ user_at_here fd s c here)
        (release_user-Accounts c.user_uuid s ne (count_sessions-pos fd s.clients c here) inv))

  erase_idle-IsAccounted :
      c.user_uuid ≡ []
      → IsAccounted s
      → IsAccounted (record s { clients = erase_client fd s.clients })
  erase_idle-IsAccounted out inv = record {
    distinct = inv.distinct;
    named = inv.named;
    balanced = λ v some_one. ground (
      arith,
      inv.balanced v some_one,
      count_sessions-erase_client v fd s.clients c here,
      ap (logged_as v) out,
      logged_as-nil v some_one,
    );
  }

  -- The end of a connection keeps the accounts, logged in or not.
  pub disconnect_client-IsAccounted :
      (poller : Poller) → IsAccounted s → IsAccounted (disconnect_client fd s poller).0
  unfolding disconnect_client
  disconnect_client-IsAccounted poller inv =
      grind (arith, here, erase_after-IsAccounted, erase_idle-IsAccounted)
