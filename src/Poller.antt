-- ===== src/Poller.antt =====
-- server/net/Poller.cpp. What `::poll` reports is an argument: the `revents` of each descriptor.
use Prim.Native.Nat.{bit_and}
use myteams.Prelude.{ℕ, List, [], ◌∷◌, ◌++◌, Bool, not, ◌==◌, modify_first, if◌then◌else◌}

-- the bits of <poll.h>
abbrev pub pollin : ℕ
pollin = 1

abbrev pub pollout : ℕ
pollout = 4

abbrev pub pollerr : ℕ
pollerr = 8

abbrev pub pollhup : ℕ
pollhup = 16

-- `(revents & mask) != 0`
unfoldable pub has_event : ℕ → ℕ → Bool
has_event revents mask = not (bit_and revents mask == 0)

pub record PollFd : Type 0 where
  pub fd : ℕ
  pub events : ℕ
  pub revents : ℕ

pub record PollEvent : Type 0 where
  pub fd : ℕ
  pub revents : ℕ

abbrev pub Poller : Type 0
Poller = List PollFd

unfoldable pub watches : ℕ → PollFd → Bool
watches fd entry = entry.fd == fd

unfoldable pub add_file_descriptor : ℕ → ℕ → Poller → Poller
add_file_descriptor fd events fds = fds ++ (record { fd = fd; events = events; revents = 0 }) ∷ []

unfoldable pub update_watched_events : ℕ → ℕ → Poller → Poller
unfolding watches
update_watched_events fd events fds =
    modify_first (watches fd) (λ entry. record entry { events = events }) fds

unfoldable pub remove_file_descriptor : ℕ → Poller → Poller
remove_file_descriptor fd [] = []
remove_file_descriptor fd (entry ∷ fds) =
    let rest = remove_file_descriptor fd fds in if entry.fd == fd then fds else entry ∷ rest

-- the entries that are ready, in the order of the table
unfoldable pub ready_events : Poller → List PollEvent
ready_events [] = []
ready_events (entry ∷ fds) =
    let rest = ready_events fds in
    if entry.revents == 0 then rest else (record { fd = entry.fd; revents = entry.revents }) ∷ rest
