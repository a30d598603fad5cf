-- ===== src/Accounting/Loop.antt =====
-- The event loop keeps the invariant: reads, writes, new and lost connections.
use myteams.Prelude.{
  subst, ℕ, ◌+◌, ◌≡◌, ◌≢◌, [], ◌∷◌, ◌++◌, refl, none, some, arith, Text, inl, inr, Option-cases,
  Bool-cases, ◌==◌, sym, ◌∙◌,
}
use myteams.State.{Env, Clients, Server, find_client, on_client, new_client}
use myteams.Poller.{
  update_watched_events, Poller, PollEvent, has_event, pollin, pollout, pollhup, pollerr,
}
use myteams.Loop.{
  handle_line, parse_lines, parse_commands, ReadResult, would_block, end_of_file, bytes,
  handle_read, handle_write, update_flags, update_poll_flags, disconnect_client, disconnect_user,
  announce_after, accept_client, Answers, process_client_event, process_event, set_read_buffer,
  append_to_read_buffer, then_write, is_closed, try_read,
}
use myteams.Accounting.Counts.{
  logged_as-nil, count_sessions, erase_client-missing, count_sessions-emplace_client,
}
use myteams.Accounting.Users.{connections}
use myteams.Accounting.Invariant.{Accounts-frame, IsAccounted, on_client-Accounts}
use myteams.Accounting.Logout.{disconnect_client-IsAccounted}
use myteams.Frame.Answered.{
  then_write-Ensures, try_disconnect-Ensures, try_read-Ensures, try_accept-Ensures,
}
use myteams.Accounting.Supply.{Supplies, Kept, Ensures, Ensures-eq, handle_line-Kept}

parse_lines-IsAccounted :
    (buffer : Text) (envs : ℕ → Env) (n : ℕ) (acc : Text) (fd : ℕ) (s : Server)
    → Kept envs n s
    → Ensures (λ r. IsAccounted r.0) (parse_lines envs n acc buffer fd s)
unfolding parse_lines
parse_lines-IsAccounted [] envs n acc fd s k = k.0
parse_lines-IsAccounted (c ∷ buffer) envs n acc fd s k = elim (Bool-cases (c == b'\n')) [
  | inr e ↦ rw (e, parse_lines) (parse_lines-IsAccounted buffer envs n (acc ++ c ∷ []) fd s k)
  | inl e ↦ elim (Option-cases (handle_line (envs n) acc fd s)) [
    | inl f ↦ rw (e, f, parse_lines) tt
    | inr (s', f) ↦
        rw (e, f, parse_lines)
          (parse_lines-IsAccounted buffer envs (n + 1) [] fd s'
            (Ensures-eq (Kept envs (n + 1)) _ f (handle_line-Kept envs n acc fd s k)))
  ]
]

parse_commands-IsAccounted :
    (envs : ℕ → Env) (fd : ℕ) (s : Server)
    → Kept envs 0 s
    → Ensures IsAccounted (parse_commands envs fd s)
parse_commands-IsAccounted envs fd s k = elim (Option-cases (find_client fd s.clients)) [
  | inl e ↦ unfold parse_commands in rw (e, parse_commands) k.0
  | inr (c, e) ↦ elim (Option-cases (parse_lines envs 0 [] c.read_buffer fd s)) [
    | inl f ↦ unfold parse_commands in rw (e, f, parse_commands) tt
    | inr ((s', rest), f) ↦
        unfold parse_commands in
        rw (e, f, parse_commands)
          (on_client-Accounts fd (set_read_buffer rest) s' (λ d. refl)
            (Ensures-eq (λ r. IsAccounted r.0) _ f
              (parse_lines-IsAccounted c.read_buffer envs 0 [] fd s k)))
  ]
]

-- Only the client's own buffers move here.
handle_read-IsAccounted :
    (envs : ℕ → Env) (r : ReadResult) (fd : ℕ) (s : Server)
    → Kept envs 0 s
    → Ensures IsAccounted (handle_read envs r fd s)
unfolding handle_read
handle_read-IsAccounted envs would_block fd s k = k.0
handle_read-IsAccounted envs end_of_file fd s k = on_client-Accounts fd _ s (λ c. refl) k.0
handle_read-IsAccounted envs (bytes chunk) fd s k = parse_commands-IsAccounted envs fd _ (
  on_client-Accounts fd (append_to_read_buffer chunk) s (λ c. refl) k.0,
  unfold on_client in record { named = k.1.named; unused = k.1.unused; distinct = k.1.distinct },
)

handle_write-IsAccounted :
    (written fd : ℕ) (s : Server) → IsAccounted s → IsAccounted (handle_write written fd s)
unfolding handle_write
handle_write-IsAccounted written fd s = on_client-Accounts fd _ s (λ c. ground arith)

accept_client-IsAccounted :
    (fd : ℕ) (s : Server) (poller : Poller)
    → IsAccounted s
    → IsAccounted (accept_client fd s poller).0
unfolding accept_client
accept_client-IsAccounted fd s poller inv = record {
  distinct = inv.distinct;
  named = inv.named;
  balanced = λ user ne.
      inv.balanced user ne
      ∙ sym (
          count_sessions-emplace_client user fd (record new_client { fd = some fd }) s.clients ne
            refl);
}

disconnect_user-missing :
    (fd : ℕ) (s : Server) → find_client fd s.clients ≡ none → disconnect_user fd s ≡ (s, none)
unfolding disconnect_user
disconnect_user-missing fd s h = ground arith

disconnect-IsAccounted :
    (fd : ℕ) (s : Server) (poller : Poller)
    → IsAccounted s
    → IsAccounted (disconnect_client fd s poller).0
unfolding disconnect_client
disconnect-IsAccounted fd s poller inv = elim (Option-cases (find_client fd s.clients)) [
  | inl e ↦
      subst (λ r. IsAccounted (announce_after fd r)) (sym (disconnect_user-missing fd s e))
        (rw (erase_client-missing fd s.clients e) inv)
  | inr (c, e) ↦ disconnect_client-IsAccounted fd c s e poller inv
]

then_write-IsAccounted :
    (a : Answers) (ev : PollEvent) (s : Server) (poller : Poller)
    → IsAccounted s
    → Ensures (λ r. IsAccounted r.0) (then_write a ev s poller)
then_write-IsAccounted a ev s poller =
    then_write-Ensures IsAccounted a ev s poller (λ n. handle_write-IsAccounted n ev.fd s)

process_client_event-IsAccounted :
    (a : Answers) (ev : PollEvent) (s : Server) (poller : Poller)
    → Kept a.envs 0 s
    → Ensures (λ r. IsAccounted r.0) (process_client_event a ev s poller)
unfolding process_client_event
process_client_event-IsAccounted a ev s poller k =
    elim (Bool-cases (has_event ev.revents (pollhup + pollerr))) [
      | inl e ↦ rw e (
          try_disconnect-Ensures IsAccounted a ev.fd s poller
            (disconnect-IsAccounted ev.fd s poller k.0))
      | inr e ↦ elim (Bool-cases (has_event ev.revents pollin)) [
        | inr f ↦ rw (e, f) (then_write-IsAccounted a ev s poller k.0)
        | inl f ↦ elim (Option-cases (try_read a ev.fd s)) [
          | inl g ↦ rw (e, f, g, process_client_event) tt
          | inr (s', g) ↦
              let inv' = Ensures-eq IsAccounted _ g (
                try_read-Ensures IsAccounted a ev.fd s
                  (λ r. handle_read-IsAccounted a.envs r ev.fd s k)) in
              elim (Bool-cases (is_closed ev.fd s')) [
                | inl h ↦
                    rw (e, f, g, h, process_client_event)
                      (try_disconnect-Ensures IsAccounted a ev.fd s' poller
                        (disconnect-IsAccounted ev.fd s' poller inv'))
                | inr h ↦
                    rw (e, f, g, h, process_client_event)
                      (then_write-IsAccounted a ev s' poller inv')
              ]
        ]
      ]
    ]

process_event-Ensures :
    (server_fd : ℕ) (a : Answers) (ev : PollEvent) (s : Server) (poller : Poller)
    → Kept a.envs 0 s
    → Ensures (λ r. IsAccounted r.0) (process_event server_fd a ev s poller)
process_event-Ensures server_fd a ev s poller k = elim (Bool-cases (ev.fd == server_fd)) [
  | inl e ↦ elim (Bool-cases (has_event ev.revents pollin)) [
    | inl f ↦
        unfold process_event in
        rw (e, f)
          (try_accept-Ensures IsAccounted a s poller
            (λ fd. accept_client-IsAccounted fd s poller k.0))
    | inr f ↦ unfold process_event in rw (e, f) k.0
  ]
  | inr e ↦ elim (Option-cases (find_client ev.fd s.clients)) [
    | inl f ↦ unfold process_event in rw (e, f, process_event) k.0
    | inr (c, f) ↦
        unfold process_event in
        rw (e, f, process_event) (process_client_event-IsAccounted a ev s poller k)
  ]
]

-- One event, or the update of the poll flags in front of the next wait.
pub data Step (server_fd : ℕ) : Server → Poller → Server → Poller → Type 0 where
  event :
      {s t : Server} {p q : Poller} (a : Answers) (ev : PollEvent)
      → Supplies a.envs 0 s
      → process_event server_fd a ev s p ≡ some (t, q)
      → Step server_fd s p t q
  flags :
      (s : Server) (p : Poller)
      → Step server_fd s p (update_poll_flags s p).0 (update_poll_flags s p).1

-- Any number of rounds of the loop of `run`, with whatever events.
pub data Reach (server_fd : ℕ) (s : Server) (p : Poller) : Server → Poller → Type 0 where
  here : Reach server_fd s p s p
  next :
      {t u : Server} {q r : Poller}
      → Reach server_fd s p t q
      → Step server_fd t q u r
      → Reach server_fd s p u r

count_sessions-update_flags :
    (user : Text) (cs : Clients) (p : Poller)
    → count_sessions user (update_flags cs p).0 ≡ count_sessions user cs
unfolding count_sessions update_flags
count_sessions-update_flags user [] p = refl
count_sessions-update_flags user ((fd, c) ∷ cs) p = ground (
  arith,
  count_sessions-update_flags user cs p,
  count_sessions-update_flags user cs (update_watched_events fd (pollin + pollout) p),
  count_sessions-update_flags user cs (update_watched_events fd pollin p),
)

pub Step-IsAccounted :
    {server_fd : ℕ} {s : Server} {p : Poller} {t : Server} {q : Poller}
    → Step server_fd s p t q
    → IsAccounted s
    → IsAccounted t
Step-IsAccounted (event {s} {p = p} a ev h e) inv =
    Ensures-eq (λ r. IsAccounted r.0) _ e (process_event-Ensures _ a ev s p (inv, h))
Step-IsAccounted (flags s p) inv =
    unfold update_poll_flags in
    Accounts-frame s _ refl (λ user. count_sessions-update_flags user s.clients p) inv

pub Reach-IsAccounted :
    {server_fd : ℕ} {s : Server} {p : Poller} {t : Server} {q : Poller}
    → IsAccounted s
    → Reach server_fd s p t q
    → IsAccounted t
Reach-IsAccounted inv here = inv
Reach-IsAccounted inv (next r st) = Step-IsAccounted st (Reach-IsAccounted inv r)

-- After any events, the connections that the database counts for a user with a uuid that is not
-- empty are the clients that are logged in as that user. This takes that it was so at the start,
-- with distinct uuids that are not empty, and that the generator keeps its promise during each
-- event.
pub Reach-balanced :
    (server_fd : ℕ) (s t : Server) (p q : Poller) (user : Text)
    → IsAccounted s
    → Reach server_fd s p t q
    → user ≢ []
    → connections t.db.users user ≡ count_sessions user t.clients
Reach-balanced server_fd s t p q user inv r ne =
    let end = Reach-IsAccounted inv r in omega (arith, end.balanced user ne, logged_as-nil user ne)
