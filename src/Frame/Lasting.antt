-- ===== src/Frame/Lasting.antt =====
-- What every command keeps of the database, the event loop keeps.
use myteams.Prelude.{
  ℕ, ◌+◌, List, [], ◌∷◌, ◌++◌, Option, none, some, Text, empty, Option-cases, Bool-cases, inl, inr,
  ◌==◌,
}
use myteams.Models.{User}
use myteams.Database.{Database}
use myteams.State.{Env, Client, Server, find_client, set_args, on_client, broadcast, server_event}
use myteams.Poller.{Poller, PollEvent, has_event, pollin, pollhup, pollerr}
use myteams.Protocol.Arguments.{parse_args}
use myteams.Commands.Login.{release_user, announce_logout}
use myteams.Commands.Handling.{Command, find_command, execute, run_command, handle_command}
use myteams.Loop.{
  handle_line, strip_return, parse_lines, parse_commands, ReadResult, would_block, end_of_file,
  bytes, handle_read, handle_write, update_poll_flags, disconnect_client, disconnect_user,
  announce_after, accept_client, Answers, process_client_event, process_event, then_write, try_read,
  is_closed,
}
use myteams.Frame.Answered.{
  then_write-Ensures, try_disconnect-Ensures, try_read-Ensures, try_accept-Ensures,
}
use myteams.Accounting.Supply.{Ensures, Ensures-eq}
use myteams.Accounting.Loop.{Step, event, flags, Reach, here, next}

-- A property of the database that no command ends, nor the loss of a connection.
pub record Lasting (Q : Database → Type 0) : Type 0 where
  pub commands :
      (cmd : Command) (env : Env) (fd : ℕ) (c : Client) (s : Server)
      → Q s.db
      → Q (execute cmd env fd c s).db
  pub releases : (user : Text) (s : Server) → Q s.db → Q (release_user user s).0.db

module _ (Q : Database → Type 0) (q : Lasting Q) where
  abbrev Holds : Server → Type 0
  Holds s = Q s.db

  run_command-Holds :
      (env : Env) (args : List Text) (fd : ℕ) (s : Server)
      → Holds s
      → Holds (run_command env args fd s)
  unfolding run_command set_args on_client
  run_command-Holds env [] fd s h = h
  run_command-Holds env (name ∷ args) fd s h = elim (Option-cases (find_client fd s.clients)) [
    | inl e ↦ rw (e, run_command) h
    | inr (c, e) ↦ elim (Option-cases (find_command name)) [
      | inl f ↦ rw (e, f, run_command) h
      | inr (cmd, f) ↦
          rw (e, f, run_command) (q.commands cmd env fd _ (set_args (name ∷ args) fd s) h)
    ]
  ]

  handle_line-Holds :
      (env : Env) (line : Text) (fd : ℕ) (s : Server)
      → Holds s
      → Ensures Holds (handle_line env line fd s)
  handle_line-Holds env line fd s h = elim (Bool-cases (empty (strip_return line))) [
    | inl e ↦ unfold handle_line in rw (e, handle_line) h
    | inr e ↦ elim (Option-cases (parse_args (strip_return line))) [
      | inl f ↦ unfold handle_line handle_command in rw (e, f, handle_line, handle_command) tt
      | inr (args, f) ↦
          unfold handle_line handle_command in
          rw (e, f, handle_line, handle_command) (run_command-Holds env args fd s h)
    ]
  ]

  parse_lines-Holds :
      (buffer : Text) (envs : ℕ → Env) (n : ℕ) (acc : Text) (fd : ℕ) (s : Server)
      → Holds s
      → Ensures (λ r. Holds r.0) (parse_lines envs n acc buffer fd s)
  unfolding parse_lines
  parse_lines-Holds [] envs n acc fd s h = h
  parse_lines-Holds (c ∷ buffer) envs n acc fd s h = elim (Bool-cases (c == b'\n')) [
    | inr e ↦ rw (e, parse_lines) (parse_lines-Holds buffer envs n (acc ++ c ∷ []) fd s h)
    | inl e ↦ elim (Option-cases (handle_line (envs n) acc fd s)) [
      | inl f ↦ rw (e, f, parse_lines) tt
      | inr (s', f) ↦
          rw (e, f, parse_lines)
            (parse_lines-Holds buffer envs (n + 1) [] fd s'
              (Ensures-eq Holds _ f (handle_line-Holds (envs n) acc fd s h)))
    ]
  ]

  parse_commands-Holds :
      (envs : ℕ → Env) (fd : ℕ) (s : Server) → Holds s → Ensures Holds (parse_commands envs fd s)
  parse_commands-Holds envs fd s h = elim (Option-cases (find_client fd s.clients)) [
    | inl e ↦ unfold parse_commands in rw (e, parse_commands) h
    | inr (c, e) ↦ elim (Option-cases (parse_lines envs 0 [] c.read_buffer fd s)) [
      | inl f ↦ unfold parse_commands in rw (e, f, parse_commands) tt
      | inr ((s', rest), f) ↦
          unfold parse_commands on_client in
          rw (e, f, parse_commands)
            (Ensures-eq (λ r. Holds r.0) _ f (parse_lines-Holds c.read_buffer envs 0 [] fd s h))
    ]
  ]

  handle_read-Holds :
      (envs : ℕ → Env) (r : ReadResult) (fd : ℕ) (s : Server)
      → Holds s
      → Ensures Holds (handle_read envs r fd s)
  unfolding handle_read on_client
  handle_read-Holds envs would_block fd s h = h
  handle_read-Holds envs end_of_file fd s h = h
  handle_read-Holds envs (bytes chunk) fd s h = parse_commands-Holds envs fd _ h

  announce_after-Holds :
      (fd : ℕ) (r : Server × Option User) → Holds r.0 → Holds (announce_after fd r)
  unfolding announce_logout broadcast server_event
  announce_after-Holds fd (s, none) h = h
  announce_after-Holds fd (s, some user) h = h

  disconnect_user-Holds : (fd : ℕ) (s : Server) → Holds s → Holds (disconnect_user fd s).0
  unfolding disconnect_user
  disconnect_user-Holds fd s h = elim (Option-cases (find_client fd s.clients)) [
    | inl e ↦ rw (e, disconnect_user) h
    | inr (c, e) ↦ elim (Bool-cases (empty c.user_uuid)) [
      | inl f ↦ rw (e, f, disconnect_user) h
      | inr f ↦ rw (e, f, disconnect_user) (q.releases c.user_uuid s h)
    ]
  ]

  disconnect-Holds :
      (fd : ℕ) (s : Server) (p : Poller) → Holds s → Holds (disconnect_client fd s p).0
  unfolding disconnect_client
  disconnect-Holds fd s p h =
      announce_after-Holds fd (disconnect_user fd s) (disconnect_user-Holds fd s h)

  then_write-Holds :
      (a : Answers) (ev : PollEvent) (s : Server) (p : Poller)
      → Holds s
      → Ensures (λ r. Holds r.0) (then_write a ev s p)
  unfolding handle_write on_client
  then_write-Holds a ev s p h = then_write-Ensures Holds a ev s p (λ n k. k) h

  process_client_event-Holds :
      (a : Answers) (ev : PollEvent) (s : Server) (p : Poller)
      → Holds s
      → Ensures (λ r. Holds r.0) (process_client_event a ev s p)
  unfolding process_client_event
  process_client_event-Holds a ev s p h =
      elim (Bool-cases (has_event ev.revents (pollhup + pollerr))) [
        | inl e ↦ rw e (try_disconnect-Ensures Holds a ev.fd s p (disconnect-Holds ev.fd s p h))
        | inr e ↦ elim (Bool-cases (has_event ev.revents pollin)) [
          | inr f ↦ rw (e, f) (then_write-Holds a ev s p h)
          | inl f ↦ elim (Option-cases (try_read a ev.fd s)) [
            | inl g ↦ rw (e, f, g, process_client_event) tt
            | inr (s', g) ↦
                let h' =
                  Ensures-eq Holds _ g (
                    try_read-Ensures Holds a ev.fd s (λ r. handle_read-Holds a.envs r ev.fd s h)) in
                elim (Bool-cases (is_closed ev.fd s')) [
                  | inl k ↦
                      rw (e, f, g, k, process_client_event)
                        (try_disconnect-Ensures Holds a ev.fd s' p (disconnect-Holds ev.fd s' p h'))
                  | inr k ↦ rw (e, f, g, k, process_client_event) (then_write-Holds a ev s' p h')
                ]
          ]
        ]
      ]

  process_event-Holds :
      (server_fd : ℕ) (a : Answers) (ev : PollEvent) (s : Server) (p : Poller)
      → Holds s
      → Ensures (λ r. Holds r.0) (process_event server_fd a ev s p)
  process_event-Holds server_fd a ev s p h = elim (Bool-cases (ev.fd == server_fd)) [
    | inl e ↦ elim (Bool-cases (has_event ev.revents pollin)) [
      | inl f ↦
          unfold process_event accept_client in rw (e, f) (try_accept-Ensures Holds a s p (λ fd. h))
      | inr f ↦ unfold process_event in rw (e, f) h
    ]
    | inr e ↦ elim (Option-cases (find_client ev.fd s.clients)) [
      | inl f ↦ unfold process_event in rw (e, f, process_event) h
      | inr (c, f) ↦
          unfold process_event in rw (e, f, process_event) (process_client_event-Holds a ev s p h)
    ]
  ]

  Step-Holds :
      {server_fd : ℕ} {s : Server} {p : Poller} {t : Server} {p' : Poller}
      → Step server_fd s p t p'
      → Holds s
      → Holds t
  Step-Holds (event {s} {p = p} a ev _ e) h =
      Ensures-eq (λ r. Holds r.0) _ e (process_event-Holds _ a ev s p h)
  Step-Holds (flags s p) h = unfold update_poll_flags in h

  -- After any events the database has the property, if it had it at the start.
  pub Reach-Holds :
      {server_fd : ℕ} {s : Server} {p : Poller} {t : Server} {p' : Poller}
      → Q s.db
      → Reach server_fd s p t p'
      → Q t.db
  Reach-Holds h here = h
  Reach-Holds h (next r st) = Step-Holds st (Reach-Holds h r)
