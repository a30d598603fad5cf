-- ===== src/Accounting/Invariant.antt =====
-- The invariant, and the writes that it does not notice.
use myteams.Prelude.{◌+◌, ap, ℕ, List, [], ◌≡◌, ◌≢◌, refl, ◌∙◌, sym, none, Text, find_first}
use myteams.Models.{User, add_message}
use myteams.Database.{
  Database, user_is, update_user, update_team, update_channel, update_thread, add_team,
}
use myteams.State.{
  Context, Client, Server, LogEvent, on_client, send_to_client, server_event, set_context, set_args,
}
use myteams.Frame.Writes.{
  Frame, Change, founds_team, opens_channel, starts_thread, replies, subscribes, unsubscribes,
  delivers,
}
use myteams.Accounting.Counts.{
  logged_as, count_sessions, count_sessions-append_where, count_sessions-update_client_same,
}
use myteams.Accounting.Users.{
  DistinctUuids, connections, DistinctUuids-modify_first, find_none-modify_first,
  connections-modify_first_same,
}

-- User uuids are distinct and not empty, and the connections of each user in the database are as
-- many as the clients that are logged in as that user. `pending` is the user of a connection that
-- the database has given up and the client table still shows, or empty.
pub record Accounts (pending : Text) (s : Server) : Type 0 where
  pub distinct : DistinctUuids s.db.users
  pub named : find_first (user_is []) s.db.users ≡ none
  pub balanced :
      (user : Text)
      → user ≢ []
      → connections s.db.users user + logged_as user pending ≡ count_sessions user s.clients

abbrev pub IsAccounted : Server → Type 0
IsAccounted s = Accounts [] s

module _ {pending : Text} where
  -- The invariant sees the users and the counts only.
  pub Accounts-frame :
      (s s' : Server)
      → s'.db.users ≡ s.db.users
      → ((user : Text) → count_sessions user s'.clients ≡ count_sessions user s.clients)
      → Accounts pending s
      → Accounts pending s'
  Accounts-frame s s' same counts inv = record {
    distinct = rw same inv.distinct;
    named = rw same inv.named;
    balanced = λ user ne. rw same (inv.balanced user ne ∙ sym (counts user));
  }

  pub on_client-Accounts :
      (fd : ℕ) (f : Client → Client) (s : Server)
      → ((c : Client) → (f c).user_uuid ≡ c.user_uuid)
      → Accounts pending s
      → Accounts pending (on_client fd f s)
  unfolding on_client
  on_client-Accounts fd f s keeps =
      Accounts-frame s _ refl λ user. count_sessions-update_client_same user fd f s.clients keeps

  send_to_client-Accounts :
      (msg : Text) (fd : ℕ) (s : Server)
      → Accounts pending s
      → Accounts pending (send_to_client msg fd s)
  unfolding send_to_client
  send_to_client-Accounts msg fd s = on_client-Accounts fd _ s (λ c. refl)

  set_context-Accounts :
      (ctx : Context) (fd : ℕ) (s : Server)
      → Accounts pending s
      → Accounts pending (set_context ctx fd s)
  unfolding set_context
  set_context-Accounts ctx fd s = on_client-Accounts fd _ s (λ c. refl)

  pub set_args-Accounts :
      (args : List Text) (fd : ℕ) (s : Server)
      → Accounts pending s
      → Accounts pending (set_args args fd s)
  unfolding set_args
  set_args-Accounts args fd s = on_client-Accounts fd _ s (λ c. refl)

  server_event-Accounts :
      (e : LogEvent) (s : Server) → Accounts pending s → Accounts pending (server_event e s)
  unfolding server_event
  server_event-Accounts e s = Accounts-frame s _ refl (λ user. refl)

  -- A message changes neither the uuid nor the count of the user that holds it.
  deliver-Accounts :
      (uuid : Text) (f : User → User) (s : Server)
      → ((u : User) → (f u).uuid ≡ u.uuid)
      → ((u : User) → (f u).connected_count ≡ u.connected_count)
      → Accounts pending s
      → Accounts pending (record s { db = update_user uuid f s.db })
  unfolding update_user
  deliver-Accounts uuid f s keeps same inv = record {
    distinct = DistinctUuids-modify_first uuid f s.db.users keeps inv.distinct;
    named = find_none-modify_first uuid [] f s.db.users keeps inv.named;
    balanced = λ user ne.
        ap (λ n. n + logged_as user pending)
          (connections-modify_first_same uuid user f s.db.users keeps same)
        ∙ inv.balanced user ne;
  }

  Change-Accounts :
      (s : Server) (db : Database)
      → Change s.db db
      → Accounts pending s
      → Accounts pending (record s { db = db })
  unfolding update_team update_channel update_thread add_team add_message
  Change-Accounts s db (delivers uuid key m) =
      deliver-Accounts uuid (add_message key m) s (λ u. refl) (λ u. refl)
  Change-Accounts s db (founds_team t h few none_yet) = Accounts-frame s _ refl (λ user. refl)
  Change-Accounts s db (opens_channel uuid t c h k fresh) = Accounts-frame s _ refl (λ user. refl)
  Change-Accounts s db (starts_thread t c ch th h k) = Accounts-frame s _ refl (λ user. refl)
  Change-Accounts s db (replies c t r) = Accounts-frame s _ refl (λ user. refl)
  Change-Accounts s db (subscribes uuid user) = Accounts-frame s _ refl (λ user. refl)
  Change-Accounts s db (unsubscribes uuid user) = Accounts-frame s _ refl (λ user. refl)

  pub accounted_frame : Frame (Accounts pending)
  accounted_frame = record {
    sends = send_to_client-Accounts;
    sets_context = set_context-Accounts;
    logs = server_event-Accounts;
    appends = λ test msg s.
        Accounts-frame s _ refl λ user. count_sessions-append_where user test msg s.clients;
    changes = Change-Accounts;
  }
