-- ===== src/Session/Total.antt =====
-- Which events have a result: those without a line on which `parseArgs` is undefined.
use mathlib.Core.Option
use myteams.Prelude.{
  ℕ, ◌+◌, List, [], ◌∷◌, ◌++◌, ◌≡◌, ◌≢◌, refl, true, false, none, some, Option, Text, All, empty,
  ◌==◌, arith, inl, inr, Option-cases, Bool-cases,
}
use myteams.State.{Env, Client, Server, find_client, on_client, update_client}
use myteams.Poller.{pollout, Poller, PollEvent, has_event, pollin, pollhup, pollerr}
use myteams.Protocol.Words.{words, starts_quoted, ends_quoted, tail, pop_back}
use myteams.Protocol.Arguments.{collect_args, parse_args}
use myteams.Protocol.Agreement.{is_lone_quote, not_lone}
use myteams.Commands.Handling.{handle_command}
use myteams.Loop.{
  handle_line, strip_return, parse_lines, parse_commands, ReadResult, would_block, end_of_file,
  bytes, handle_read, Answers, process_client_event, process_event, try_read, try_write, then_write,
  try_disconnect, try_accept, append_to_read_buffer, is_closed,
}

-- No word of the line is one quote and nothing else.
abbrev pub IsDefined : Text → Type 0
IsDefined line = All (λ w. is_lone_quote w ≡ false) (words (strip_return line))

-- Every line that the bytes complete, behind the unfinished line `acc`, is such a line.
unfoldable pub HasDefinedLines : Text → Text → Type 0
HasDefinedLines acc [] = Unit
HasDefinedLines acc (c ∷ buffer) = elim (c == b'\n') [
  | true ↦ IsDefined acc × HasDefinedLines [] buffer
  | false ↦ HasDefinedLines (acc ++ c ∷ []) buffer
]

map-Defined : (w : Text) (o : Option (List Text)) → o ≢ none → Option.map (◌∷◌ w) o ≢ none
map-Defined w none h e = absurd (h refl)
map-Defined w (some us) h e = cc

collect_args_ends :
    (open_quote : Option Text) (ws : List Text)
    → All (λ w. is_lone_quote w ≡ false) ws
    → collect_args open_quote ws ≢ none
unfolding collect_args
collect_args_ends none [] h = λ e. cc
collect_args_ends (some q) [] h = λ e. cc
collect_args_ends none (w ∷ ws) (h, hs) = elim (Bool-cases (starts_quoted w)) [
  | inl q ↦ elim (Bool-cases (ends_quoted (tail w))) [
    | inl e ↦
        rw (q, not_lone w h q, e, collect_args)
          (map-Defined (pop_back (tail w)) _ (collect_args_ends none ws hs))
    | inr e ↦ rw (q, not_lone w h q, e, collect_args) (collect_args_ends (some (tail w)) ws hs)
  ]
  | inr q ↦ rw (q, collect_args) (map-Defined w _ (collect_args_ends none ws hs))
]
collect_args_ends (some q) (w ∷ ws) (h, hs) = elim (Bool-cases (ends_quoted w)) [
  | inl e ↦
      rw (e, collect_args) (map-Defined (pop_back (q ++ (32 ∷ w))) _ (collect_args_ends none ws hs))
  | inr e ↦ rw (e, collect_args) (collect_args_ends (some (q ++ (32 ∷ w))) ws hs)
]

handle_line_ends :
    (env : Env) (line : Text) (fd : ℕ) (s : Server)
    → IsDefined line
    → handle_line env line fd s ≢ none
handle_line_ends env line fd s h = elim (Bool-cases (empty (strip_return line))) [
  | inl e ↦ unfold handle_line in rw (e, handle_line) λ z. cc
  | inr e ↦ elim (Option-cases (parse_args (strip_return line))) [
    | inl f ↦ absurd (unfold parse_args in collect_args_ends none (words (strip_return line)) h f)
    | inr (args, f) ↦
        unfold handle_line handle_command in rw (e, f, handle_line, handle_command) λ z. cc
  ]
]

parse_lines_ends :
    (buffer : Text) (envs : ℕ → Env) (n : ℕ) (acc : Text) (fd : ℕ) (s : Server)
    → HasDefinedLines acc buffer
    → parse_lines envs n acc buffer fd s ≢ none
unfolding parse_lines HasDefinedLines
parse_lines_ends [] envs n acc fd s h = λ z. cc
parse_lines_ends (c ∷ buffer) envs n acc fd s h = elim (Bool-cases (c == b'\n')) [
  | inr e ↦
      rw (e, parse_lines)
        (parse_lines_ends buffer envs n (acc ++ c ∷ []) fd s (rw (e, HasDefinedLines) at h))
  | inl e ↦
      let (now, later) = rw (e, HasDefinedLines) at h in
      elim (Option-cases (handle_line (envs n) acc fd s)) [
        | inl f ↦ absurd (handle_line_ends (envs n) acc fd s now f)
        | inr (s', f) ↦ rw (e, f, parse_lines) (parse_lines_ends buffer envs (n + 1) [] fd s' later)
      ]
]

parse_commands_ends :
    (envs : ℕ → Env) (fd : ℕ) (s : Server)
    → ((c : Client) → find_client fd s.clients ≡ some c → HasDefinedLines [] c.read_buffer)
    → parse_commands envs fd s ≢ none
parse_commands_ends envs fd s h = elim (Option-cases (find_client fd s.clients)) [
  | inl e ↦ unfold parse_commands in rw (e, parse_commands) λ z. cc
  | inr (c, e) ↦ elim (Option-cases (parse_lines envs 0 [] c.read_buffer fd s)) [
    | inl f ↦ absurd (parse_lines_ends c.read_buffer envs 0 [] fd s (h c e) f)
    | inr ((s', rest), f) ↦ unfold parse_commands in rw (e, f, parse_commands) λ z. cc
  ]
]

-- The bytes that an event brings.
abbrev pub received_bytes : ReadResult → Text
received_bytes would_block = []
received_bytes end_of_file = []
received_bytes (bytes chunk) = chunk

-- What stands in the client's buffer and what the event brings complete no other lines.
abbrev pub Reads : ℕ → ReadResult → Server → Type 0
Reads fd r s =
    (c : Client)
    → find_client fd s.clients ≡ some c
    → HasDefinedLines [] (c.read_buffer ++ received_bytes r)

find_client-appended :
    (fd : ℕ) (chunk : Text) (cs : List (ℕ × Client)) (c : Client)
    → find_client fd (update_client fd (append_to_read_buffer chunk) cs) ≡ some c
    → (d : Client) × (find_client fd cs ≡ some d) × (c.read_buffer ≡ d.read_buffer ++ chunk)
unfolding find_client update_client
find_client-appended fd chunk [] c e = absurd (ground arith)
find_client-appended fd chunk ((k, d) ∷ cs) c e = elim (Bool-cases (k == fd)) [
  | inl f ↦ (d, ground arith, ground arith)
  | inr f ↦
      let (d', g, h) = find_client-appended fd chunk cs c (ground arith) in (d', ground arith, h)
]

handle_read_ends :
    (envs : ℕ → Env) (r : ReadResult) (fd : ℕ) (s : Server)
    → Reads fd r s
    → handle_read envs r fd s ≢ none
unfolding handle_read on_client
handle_read_ends envs would_block fd s h = λ z. cc
handle_read_ends envs end_of_file fd s h = λ z. cc
handle_read_ends envs (bytes chunk) fd s h =
    parse_commands_ends envs fd _
      λ c e. let (d, f, g) = find_client-appended fd chunk s.clients c e in rw g (h d f)

-- No system call throws.
pub record Succeeds (a : Answers) : Type 0 where
  pub accepts : a.accepted ≢ none
  pub reads : a.received ≢ none
  pub writes : a.written ≢ none
  pub closes : a.closes ≡ true

-- Whatever the event reads completes no other lines.
abbrev pub Completes : Answers → ℕ → Server → Type 0
Completes a fd s = (r : ReadResult) → a.received ≡ some r → Reads fd r s

try_read_ends :
    (a : Answers) (fd : ℕ) (s : Server) → Succeeds a → Completes a fd s → try_read a fd s ≢ none
try_read_ends a fd s ok h = elim (Option-cases a.received) [
  | inl e ↦ absurd (ok.reads e)
  | inr (r, e) ↦ unfold try_read in rw e (handle_read_ends a.envs r fd s (h r e))
]

try_disconnect_ends :
    (a : Answers) (fd : ℕ) (s : Server) (p : Poller) → Succeeds a → try_disconnect a fd s p ≢ none
unfolding try_disconnect
try_disconnect_ends a fd s p ok = rw ok.closes λ z. cc

then_write_ends :
    (a : Answers) (ev : PollEvent) (s : Server) (p : Poller)
    → Succeeds a
    → then_write a ev s p ≢ none
then_write_ends a ev s p ok = elim (Option-cases a.written) [
  | inl e ↦ absurd (ok.writes e)
  | inr (n, e) ↦ elim (Bool-cases (has_event ev.revents pollout)) [
    | inl f ↦ unfold then_write try_write in rw (e, f) λ z. cc
    | inr f ↦ unfold then_write in rw f λ z. cc
  ]
]

try_accept_ends : (a : Answers) (s : Server) (p : Poller) → Succeeds a → try_accept a s p ≢ none
try_accept_ends a s p ok = elim (Option-cases a.accepted) [
  | inl e ↦ absurd (ok.accepts e)
  | inr (fd, e) ↦ unfold try_accept in rw e λ z. cc
]

process_client_event_ends :
    (a : Answers) (ev : PollEvent) (s : Server) (p : Poller)
    → Succeeds a
    → Completes a ev.fd s
    → process_client_event a ev s p ≢ none
unfolding process_client_event
process_client_event_ends a ev s p ok h =
    elim (Bool-cases (has_event ev.revents (pollhup + pollerr))) [
      | inl e ↦ rw e (try_disconnect_ends a ev.fd s p ok)
      | inr e ↦ elim (Bool-cases (has_event ev.revents pollin)) [
        | inr f ↦ rw (e, f) (then_write_ends a ev s p ok)
        | inl f ↦ elim (Option-cases (try_read a ev.fd s)) [
          | inl g ↦ absurd (try_read_ends a ev.fd s ok h g)
          | inr (s', g) ↦ elim (Bool-cases (is_closed ev.fd s')) [
            | inl k ↦ rw (e, f, g, k, process_client_event) (try_disconnect_ends a ev.fd s' p ok)
            | inr k ↦ rw (e, f, g, k, process_client_event) (then_write_ends a ev s' p ok)
          ]
        ]
      ]
    ]

process_event_not_none :
    (server_fd : ℕ) (a : Answers) (ev : PollEvent) (s : Server) (p : Poller)
    → Succeeds a
    → Completes a ev.fd s
    → process_event server_fd a ev s p ≢ none
process_event_not_none server_fd a ev s p ok h = elim (Bool-cases (ev.fd == server_fd)) [
  | inl e ↦ elim (Bool-cases (has_event ev.revents pollin)) [
    | inl f ↦ unfold process_event in rw (e, f) (try_accept_ends a s p ok)
    | inr f ↦ unfold process_event in rw (e, f) λ z. cc
  ]
  | inr e ↦ elim (Option-cases (find_client ev.fd s.clients)) [
    | inl f ↦ unfold process_event in rw (e, f, process_event) λ z. cc
    | inr (c, f) ↦
        unfold process_event in rw (e, f, process_event) (process_client_event_ends a ev s p ok h)
  ]
]

-- The server handles an event to its end, if no system call throws (accept, read, write or close)
-- and the bytes that the event brings complete, behind those that wait in the buffer of its client,
-- no line with a word that is one quote and nothing else.
pub process_event_ends :
    (server_fd : ℕ) (a : Answers) (ev : PollEvent) (s : Server) (p : Poller)
    → Succeeds a
    → Completes a ev.fd s
    → (t : Server) × (q : Poller) × (process_event server_fd a ev s p ≡ some (t, q))
process_event_ends server_fd a ev s p ok h =
    elim (Option-cases (process_event server_fd a ev s p)) [
      | inl e ↦ absurd (process_event_not_none server_fd a ev s p ok h e)
      | inr ((t, q), e) ↦ (t, q, e)
    ]
