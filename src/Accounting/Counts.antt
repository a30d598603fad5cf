-- ===== src/Accounting/Counts.antt =====
-- How many clients are logged in as a user, under each change of the client table.
use myteams.Prelude.{
  ap, ℕ, ◌+◌, ◌<◌, [], ◌∷◌, ◌++◌, Bool, ◌≡◌, ◌≢◌, refl, some, Option, none, Option-cases, inl, inr,
  Text, text_eq, arith, if◌then◌else◌,
}
use myteams.State.{Client, Clients, find_client, update_client, append_where}
use myteams.Loop.{erase_client, emplace_client}

-- 1 for a client that is logged in as `user`, 0 for any other
unfoldable pub logged_as : Text → Text → ℕ
logged_as user uuid = if text_eq uuid user then 1 else 0

pub logged_as-nil : (user : Text) → user ≢ [] → logged_as user [] ≡ 0
unfolding logged_as
logged_as-nil user ne = ground arith

pub logged_as_if : (user uuid : Text) → logged_as user uuid ≡ (if text_eq uuid user then 1 else 0)
unfolding logged_as
logged_as_if user uuid = refl

pub logged_as_self : (user : Text) → logged_as user user ≡ 1
unfolding logged_as
logged_as_self user = ground arith

unfoldable pub count_sessions : Text → Clients → ℕ
count_sessions user [] = 0
count_sessions user ((k, c) ∷ cs) = logged_as user c.user_uuid + count_sessions user cs

module _ (user : Text) where
  pub count_sessions-append_where :
      (test : Client → Bool) (msg : Text) (cs : Clients)
      → count_sessions user (append_where test msg cs) ≡ count_sessions user cs
  unfolding count_sessions append_where
  count_sessions-append_where test msg [] = refl
  count_sessions-append_where test msg ((k, c) ∷ cs) =
      ground (arith, count_sessions-append_where test msg cs)

  -- A change at one key moves the count by the change of that client.
  pub count_sessions-update_client :
      (fd : ℕ) (f : Client → Client) (cs : Clients) (c : Client)
      → find_client fd cs ≡ some c
      → count_sessions user (update_client fd f cs) + logged_as user c.user_uuid
        ≡ count_sessions user cs + logged_as user (f c).user_uuid
  unfolding count_sessions update_client find_client
  count_sessions-update_client fd f [] c h = ground arith
  count_sessions-update_client fd f ((k, d) ∷ cs) c h =
      ground (arith, count_sessions-update_client fd f cs c)

  pub count_sessions-update_client_same :
      (fd : ℕ) (f : Client → Client) (cs : Clients)
      → ((c : Client) → (f c).user_uuid ≡ c.user_uuid)
      → count_sessions user (update_client fd f cs) ≡ count_sessions user cs
  unfolding count_sessions update_client
  count_sessions-update_client_same fd f [] same = refl
  count_sessions-update_client_same fd f ((k, c) ∷ cs) same =
      ground (arith, ap (logged_as user) (same c), count_sessions-update_client_same fd f cs same)

  pub count_sessions-erase_client :
      (fd : ℕ) (cs : Clients) (c : Client)
      → find_client fd cs ≡ some c
      → count_sessions user (erase_client fd cs) + logged_as user c.user_uuid
        ≡ count_sessions user cs
  unfolding count_sessions erase_client find_client
  count_sessions-erase_client fd [] c h = ground arith
  count_sessions-erase_client fd ((k, d) ∷ cs) c h =
      ground (arith, count_sessions-erase_client fd cs c)

  count_sessions-append :
      (cs : Clients) (k : ℕ) (c : Client)
      → count_sessions user (cs ++ (k, c) ∷ [])
        ≡ count_sessions user cs + logged_as user c.user_uuid
  unfolding count_sessions
  count_sessions-append [] k c = omega arith
  count_sessions-append ((j, d) ∷ cs) k c = omega (arith, count_sessions-append cs k c)

  pub count_sessions-emplace_client :
      (fd : ℕ) (c : Client) (cs : Clients)
      → user ≢ []
      → c.user_uuid ≡ []
      → count_sessions user (emplace_client fd c cs) ≡ count_sessions user cs
  unfolding emplace_client
  count_sessions-emplace_client fd c cs ne e =
      ground (arith, count_sessions-append cs fd c, ap (logged_as user) e, logged_as-nil user ne)

-- Whoever is logged in somewhere is counted.
pub count_sessions-pos :
    (fd : ℕ) (cs : Clients) (c : Client)
    → find_client fd cs ≡ some c
    → 0 < count_sessions c.user_uuid cs
unfolding count_sessions find_client
count_sessions-pos fd [] c h = ground arith
count_sessions-pos fd ((k, d) ∷ cs) c h =
    ground (arith, logged_as_self c.user_uuid, count_sessions-pos fd cs c)

-- What a client is logged in as, where it is connected.
unfoldable pub user_at : ℕ → Clients → Option Text
user_at fd cs = elim (find_client fd cs) [ none ↦ none | some c ↦ some c.user_uuid ]

pub user_at-append_where :
    (fd : ℕ) (test : Client → Bool) (msg : Text) (cs : Clients)
    → user_at fd (append_where test msg cs) ≡ user_at fd cs
unfolding user_at find_client append_where
user_at-append_where fd test msg [] = refl
user_at-append_where fd test msg ((k, c) ∷ cs) = ground (arith, user_at-append_where fd test msg cs)

pub user_at-update_client :
    (fd k : ℕ) (f : Client → Client) (cs : Clients)
    → ((c : Client) → (f c).user_uuid ≡ c.user_uuid)
    → user_at fd (update_client k f cs) ≡ user_at fd cs
unfolding user_at find_client update_client
user_at-update_client fd k f [] keeps = refl
user_at-update_client fd k f ((j, c) ∷ cs) keeps =
    ground (arith, keeps c, user_at-update_client fd k f cs keeps)

pub user_at-find_client :
    (fd : ℕ) (cs : Clients) (user : Text)
    → user_at fd cs ≡ some user
    → (c : Client) × (find_client fd cs ≡ some c) × (c.user_uuid ≡ user)
unfolding user_at
user_at-find_client fd cs user h = elim (Option-cases (find_client fd cs)) [
  | inl e ↦ ground arith
  | inr (c, e) ↦ (c, e, ground arith)
]

pub erase_client-missing :
    (fd : ℕ) (cs : Clients) → find_client fd cs ≡ none → erase_client fd cs ≡ cs
unfolding find_client erase_client
erase_client-missing fd [] h = refl
erase_client-missing fd ((k, c) ∷ cs) h = ground (arith, erase_client-missing fd cs)
