-- ===== src/Session/Polling.antt =====
-- `_updatePollFlags`: who is watched for POLLOUT.
use mathlib.Core.Option
use myteams.Prelude.{
  ℕ, ◌+◌, [], ◌∷◌, ◌≡◌, ◌≢◌, refl, sym, subst, ◌∙◌, Bool, true, false, not, Option, none, some,
  empty, ◌==◌, All, find_first, modify_first, if◌then◌else◌, arith, Bool-cases, inl, inr,
}
use myteams.State.{Client, Clients, Server}
use myteams.Poller.{Poller, watches, update_watched_events, pollin, pollout}
use myteams.Loop.{update_flags, update_poll_flags}

-- The events that the poller watches a descriptor for.
unfoldable pub watched : ℕ → Poller → Option ℕ
watched fd p = elim (find_first (watches fd) p) [ none ↦ none | some entry ↦ some entry.events ]

-- POLLIN, and POLLOUT as well where it is wanted.
unfoldable pub flags_of : Bool → ℕ
flags_of out = if out then pollin + pollout else pollin

-- No descriptor is in the table twice.
abbrev pub HasDistinctKeys : Clients → Type 0
HasDistinctKeys [] = Unit
HasDistinctKeys ((fd, c) ∷ cs) = All (λ e. e.0 ≢ fd) cs × HasDistinctKeys cs

-- The poller watches each client as the client's flag says.
abbrev pub IsWatched : Poller → Clients → Type 0
IsWatched p cs = All (λ e. watched e.0 p ≡ some (flags_of e.1.poll_out_enabled)) cs

watched-update :
    (fd other events : ℕ) (p : Poller)
    → watched other (update_watched_events fd events p)
      ≡ (if fd == other then Option.map (λ _. events) (watched other p) else watched other p)
unfolding watched update_watched_events find_first modify_first watches
watched-update fd other events [] = ground arith
watched-update fd other events (entry ∷ p) = ground (arith, watched-update fd other events p)

watched-update_flags :
    (fd : ℕ) (cs : Clients) (p : Poller)
    → All (λ e. e.0 ≢ fd) cs
    → watched fd (update_flags cs p).1 ≡ watched fd p
unfolding update_flags
watched-update_flags fd [] p h = refl
watched-update_flags fd ((k, c) ∷ cs) p (h, hs) =
    let on = update_watched_events k (pollin + pollout) p in
    let off = update_watched_events k pollin p in
    ground (
      arith,
      h,
      watched-update_flags fd cs p hs,
      watched-update_flags fd cs on hs,
      watched-update_flags fd cs off hs,
      watched-update k fd (pollin + pollout) p,
      watched-update k fd pollin p,
    )

IsWatched-update :
    (fd events : ℕ) (p : Poller) (cs : Clients)
    → All (λ e. e.0 ≢ fd) cs
    → IsWatched p cs
    → IsWatched (update_watched_events fd events p) cs
IsWatched-update fd events p [] h w = tt
IsWatched-update fd events p ((k, c) ∷ cs) (h, hs) (w, ws) =
    (ground (arith, h, w, watched-update fd k events p), IsWatched-update fd events p cs hs ws)

-- The flag of a client tells whether it has output.
abbrev pub IsUpdated : Clients → Type 0
IsUpdated cs = All (λ e. e.1.poll_out_enabled ≡ not (empty e.1.write_buffer)) cs

-- The step for one client: its entry in the poller and its flag.
unfoldable pub step_flags : ℕ → Client → Poller → Client × Poller
step_flags fd c p =
    if empty c.write_buffer
    then (if c.poll_out_enabled
        then (record c { poll_out_enabled = false }, update_watched_events fd pollin p)
        else (c, p))
    else if c.poll_out_enabled
    then (c, p)
    else (record c { poll_out_enabled = true }, update_watched_events fd (pollin + pollout) p)

update_flags-step :
    (fd : ℕ) (c : Client) (cs : Clients) (p : Poller)
    → update_flags ((fd, c) ∷ cs) p
      ≡ (let h = step_flags fd c p in let r = update_flags cs h.1 in ((fd, h.0) ∷ r.0, r.1))
unfolding update_flags step_flags
update_flags-step fd c cs p = elim (Bool-cases (empty c.write_buffer)) [
  | inl e ↦ elim (Bool-cases c.poll_out_enabled) [
    | inl f ↦ rw (e, f, update_flags, step_flags) refl
    | inr f ↦ rw (e, f, update_flags, step_flags) refl
  ]
  | inr e ↦ elim (Bool-cases c.poll_out_enabled) [
    | inl f ↦ rw (e, f, update_flags, step_flags) refl
    | inr f ↦ rw (e, f, update_flags, step_flags) refl
  ]
]

step_flags-watched :
    (fd : ℕ) (c : Client) (p : Poller)
    → watched fd p ≡ some (flags_of c.poll_out_enabled)
    → watched fd (step_flags fd c p).1 ≡ some (flags_of (step_flags fd c p).0.poll_out_enabled)
unfolding step_flags flags_of
step_flags-watched fd c p h =
    ground (arith, watched-update fd fd (pollin + pollout) p, watched-update fd fd pollin p)

step_flags-updated :
    (fd : ℕ) (c : Client) (p : Poller)
    → (step_flags fd c p).0.poll_out_enabled ≡ not (empty (step_flags fd c p).0.write_buffer)
unfolding step_flags
step_flags-updated fd c p = ground arith

step_flags-IsWatched :
    (fd : ℕ) (c : Client) (p : Poller) (cs : Clients)
    → All (λ e. e.0 ≢ fd) cs
    → IsWatched p cs
    → IsWatched (step_flags fd c p).1 cs
unfolding step_flags
step_flags-IsWatched fd c p cs h w =
    grind (
      arith,
      w,
      IsWatched-update fd (pollin + pollout) p cs h w,
      IsWatched-update fd pollin p cs h w,
    )

abbrev IsFlagged : Clients × Poller → Type 0
IsFlagged r = IsWatched r.1 r.0 × IsUpdated r.0

update_flags-IsFlagged :
    (cs : Clients) (p : Poller)
    → HasDistinctKeys cs
    → IsWatched p cs
    → IsFlagged (update_flags cs p)
unfolding update_flags
update_flags-IsFlagged [] p d w = (tt, tt)
update_flags-IsFlagged ((fd, c) ∷ cs) p (d, ds) (w, ws) =
    let h = step_flags fd c p in
    let rest = update_flags-IsFlagged cs h.1 ds (step_flags-IsWatched fd c p cs d ws) in
    subst IsFlagged (sym (update_flags-step fd c cs p)) (
      (watched-update_flags fd cs h.1 d ∙ step_flags-watched fd c p w, rest.0),
      (step_flags-updated fd c p, rest.1),
    )

-- Behind the update of the poll flags, a client has its flag set exactly when it has output to
-- write, and the poller watches it for POLLIN, and for POLLOUT exactly when the flag is set. This
-- takes that the poller watched the clients as their flags said, and that no descriptor is in the
-- table twice.
pub update_poll_flags-IsWatched :
    (s : Server) (p : Poller)
    → HasDistinctKeys s.clients
    → IsWatched p s.clients
    → IsWatched (update_poll_flags s p).1 (update_poll_flags s p).0.clients
      × IsUpdated (update_poll_flags s p).0.clients
unfolding update_poll_flags
update_poll_flags-IsWatched s p d w = update_flags-IsFlagged s.clients p d w
