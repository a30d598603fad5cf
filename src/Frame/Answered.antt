-- ===== src/Frame/Answered.antt =====
-- A property of the server behind a system call that may throw: nothing follows one that does.
use mathlib.Core.Option
use myteams.Prelude.{ℕ, Option, none, some, inl, inr, Bool-cases, Option-cases}
use myteams.State.{Server}
use myteams.Poller.{Poller, PollEvent, has_event, pollout}
use myteams.Loop.{
  ReadResult, Answers, handle_read, handle_write, accept_client, disconnect_client, waits_to_write,
  try_write, then_write, try_disconnect, try_read, try_accept,
}
use myteams.Accounting.Supply.{Ensures}

module _ (P : Server → Type 0) where
  try_write-Ensures :
      (written : Option ℕ) (fd : ℕ) (s : Server)
      → ((n : ℕ) → P s → P (handle_write n fd s))
      → P s
      → Ensures P (try_write written fd s)
  unfolding try_write
  try_write-Ensures (some n) fd s f p = f n p
  try_write-Ensures none fd s f p = elim (Bool-cases (waits_to_write fd s)) [
    | inl e ↦ rw e tt
    | inr e ↦ rw e p
  ]

  map-Ensures :
      (o : Option Server) (q : Poller)
      → Ensures P o
      → Ensures (λ (r : Server × Poller). P r.0) (Option.map (λ s. (s, q)) o)
  map-Ensures none q h = tt
  map-Ensures (some s) q h = h

  pub then_write-Ensures :
      (a : Answers) (ev : PollEvent) (s : Server) (q : Poller)
      → ((n : ℕ) → P s → P (handle_write n ev.fd s))
      → P s
      → Ensures (λ r. P r.0) (then_write a ev s q)
  unfolding then_write
  then_write-Ensures a ev s q f p = elim (Bool-cases (has_event ev.revents pollout)) [
    | inl e ↦ rw e (map-Ensures _ q (try_write-Ensures a.written ev.fd s f p))
    | inr e ↦ rw e p
  ]

  pub try_disconnect-Ensures :
      (a : Answers) (fd : ℕ) (s : Server) (q : Poller)
      → P (disconnect_client fd s q).0
      → Ensures (λ r. P r.0) (try_disconnect a fd s q)
  unfolding try_disconnect
  try_disconnect-Ensures a fd s q p = elim (Bool-cases a.closes) [
    | inl e ↦ rw e p
    | inr e ↦ rw e tt
  ]

  pub try_read-Ensures :
      (a : Answers) (fd : ℕ) (s : Server)
      → ((r : ReadResult) → Ensures P (handle_read a.envs r fd s))
      → Ensures P (try_read a fd s)
  try_read-Ensures a fd s f = elim (Option-cases a.received) [
    | inl e ↦ unfold try_read in rw e tt
    | inr (r, e) ↦ unfold try_read in rw e (f r)
  ]

  pub try_accept-Ensures :
      (a : Answers) (s : Server) (q : Poller)
      → ((fd : ℕ) → P (accept_client fd s q).0)
      → Ensures (λ r. P r.0) (try_accept a s q)
  try_accept-Ensures a s q f = elim (Option-cases a.accepted) [
    | inl e ↦ unfold try_accept in rw e tt
    | inr (fd, e) ↦ unfold try_accept in rw e (f fd)
  ]
