-- ===== src/Accounting/Users.antt =====
-- The users of the database: their uuids are distinct, so a look-up by name and one by uuid agree.
use myteams.Prelude.{
  refl, ℕ, ◌+◌, ◌<◌, ℕ, List, [], ◌∷◌, ◌++◌, Bool, ◌≡◌, ◌≢◌, none, some, All, find_first,
  modify_first, subst, sym, Bool-cases, Option-cases, inl, inr, Text, text_eq, arith, if◌then◌else◌,
}
use mathlib.Core.Option
use mathlib.Core.Option.{none-ne-some}
use myteams.Models.{User, increment_connection, decrement_connection}
use myteams.Database.{user_is, user_named}

abbrev pub DistinctUuids : List User → Type 0
DistinctUuids [] = Unit
DistinctUuids (u ∷ us) = All (λ v. v.uuid ≢ u.uuid) us × DistinctUuids us

-- The connections that the database counts for a uuid: 0 for one that is nobody's.
unfoldable pub connections : List User → Text → ℕ
connections users uuid = elim (find_first (user_is uuid) users) [
  | none ↦ 0
  | some u ↦ u.connected_count
]

pub find_first-modify_first :
    (uuid v : Text) (f : User → User) (us : List User)
    → ((u : User) → (f u).uuid ≡ u.uuid)
    → find_first (user_is v) (modify_first (user_is uuid) f us) ≡ (
        if text_eq uuid v
        then Option.map f (find_first (user_is v) us)
        else find_first (user_is v) us)
unfolding find_first modify_first user_is
find_first-modify_first uuid v f [] keeps = ground arith
find_first-modify_first uuid v f (u ∷ us) keeps =
    ground (arith, keeps u, find_first-modify_first uuid v f us keeps)

pub find_first-append :
    (v : Text) (us : List User) (u : User)
    → find_first (user_is v) (us ++ u ∷ []) ≡ elim (find_first (user_is v) us) [
      | none ↦ if text_eq u.uuid v then some u else none
      | some w ↦ some w
    ]
unfolding find_first user_is
find_first-append v [] u = ground arith
find_first-append v (w ∷ us) u = ground (arith, find_first-append v us u)

-- What differs from every uuid differs from that of the user found.
found-ne :
    (k : Text) (p : User → Bool) (us : List User) (u : User)
    → All (λ w. w.uuid ≢ k) us
    → find_first p us ≡ some u
    → u.uuid ≢ k
unfolding find_first
found-ne k p [] u a h = elim (none-ne-some _ h) [ ]
found-ne k p (x ∷ us) u a h = ground (arith, found-ne k p us u)

pub find_by_name :
    (name : Text) (us : List User) (u : User)
    → DistinctUuids us
    → find_first (user_named name) us ≡ some u
    → find_first (user_is u.uuid) us ≡ some u
unfolding find_first user_is user_named
find_by_name name [] u d h = ground arith
find_by_name name (x ∷ us) u d h =
    ground (arith, find_by_name name us u, found-ne x.uuid (user_named name) us u d.0)

pub modify_by_name :
    (name : Text) (f : User → User) (us : List User) (u : User)
    → DistinctUuids us
    → find_first (user_named name) us ≡ some u
    → modify_first (user_named name) f us ≡ modify_first (user_is u.uuid) f us
unfolding find_first modify_first user_is user_named
modify_by_name name f [] u d h = ground arith
modify_by_name name f (x ∷ us) u d h =
    ground (arith, modify_by_name name f us u, found-ne x.uuid (user_named name) us u d.0)

All-modify_first :
    (k v : Text) (f : User → User) (us : List User)
    → ((u : User) → (f u).uuid ≡ u.uuid)
    → All (λ u. u.uuid ≢ k) us
    → All (λ u. u.uuid ≢ k) (modify_first (user_is v) f us)
unfolding modify_first
All-modify_first k v f [] keeps a = tt
All-modify_first k v f (u ∷ us) keeps a = ground (arith, keeps u, All-modify_first k v f us keeps)

pub DistinctUuids-modify_first :
    (v : Text) (f : User → User) (us : List User)
    → ((u : User) → (f u).uuid ≡ u.uuid)
    → DistinctUuids us
    → DistinctUuids (modify_first (user_is v) f us)
unfolding modify_first
DistinctUuids-modify_first v f [] keeps d = tt
DistinctUuids-modify_first v f (u ∷ us) keeps d = elim (Bool-cases (user_is v u)) [
  | inl e ↦ rw (e, modify_first) (subst (λ k. All (λ w. w.uuid ≢ k) us) (sym (keeps u)) d.0, d.1)
  | inr e ↦
      rw (e, modify_first)
        (All-modify_first u.uuid v f us keeps d.0, DistinctUuids-modify_first v f us keeps d.1)
]

All-append :
    (k : Text) (us : List User) (u : User)
    → All (λ w. w.uuid ≢ k) us
    → u.uuid ≢ k
    → All (λ w. w.uuid ≢ k) (us ++ u ∷ [])
All-append k [] u a h = (h, tt)
All-append k (w ∷ us) u a h = (a.0, All-append k us u a.1 h)

pub DistinctUuids-append :
    (us : List User) (u : User)
    → DistinctUuids us
    → find_first (user_is u.uuid) us ≡ none
    → DistinctUuids (us ++ u ∷ [])
unfolding find_first user_is
DistinctUuids-append [] u d h = (tt, tt)
DistinctUuids-append (w ∷ us) u d h =
    ground (arith, DistinctUuids-append us u, All-append w.uuid us u d.0)

-- A change of one user moves the count of that user alone.
pub connections-modify_first :
    (uuid v : Text) (f : User → User) (us : List User) (u : User)
    → ((u : User) → (f u).uuid ≡ u.uuid)
    → find_first (user_is uuid) us ≡ some u
    → connections (modify_first (user_is uuid) f us) v
      ≡ (if text_eq uuid v then (f u).connected_count else connections us v)
unfolding connections
connections-modify_first uuid v f us u keeps h =
    ground (arith, find_first-modify_first uuid v f us keeps)

pub connections-modify_first_same :
    (uuid v : Text) (f : User → User) (us : List User)
    → ((u : User) → (f u).uuid ≡ u.uuid)
    → ((u : User) → (f u).connected_count ≡ u.connected_count)
    → connections (modify_first (user_is uuid) f us) v ≡ connections us v
unfolding connections
connections-modify_first_same uuid v f us keeps same =
    elim (Option-cases (find_first (user_is v) us)) [
      | inl e ↦ ground (arith, find_first-modify_first uuid v f us keeps)
      | inr (u, e) ↦ ground (arith, find_first-modify_first uuid v f us keeps, same u)
    ]

-- A user with a new uuid brings its count.
pub connections-append :
    (us : List User) (u : User) (v : Text)
    → find_first (user_is u.uuid) us ≡ none
    → connections (us ++ u ∷ []) v
      ≡ (if text_eq u.uuid v then u.connected_count else connections us v)
unfolding connections
connections-append us u v h = ground (arith, find_first-append v us u)

pub find_none-modify_first :
    (uuid v : Text) (f : User → User) (us : List User)
    → ((u : User) → (f u).uuid ≡ u.uuid)
    → find_first (user_is v) us ≡ none
    → find_first (user_is v) (modify_first (user_is uuid) f us) ≡ none
find_none-modify_first uuid v f us keeps h =
    ground (arith, find_first-modify_first uuid v f us keeps)

-- A user that is found by its uuid has it.
pub uuid-find_first :
    (v : Text) (us : List User) (u : User) → find_first (user_is v) us ≡ some u → u.uuid ≡ v
unfolding find_first user_is
uuid-find_first v [] u h = ground arith
uuid-find_first v (x ∷ us) u h = ground (arith, uuid-find_first v us u)

pub connections-found :
    (v : Text) (us : List User) (u : User)
    → find_first (user_is v) us ≡ some u
    → connections us v ≡ u.connected_count
unfolding connections
connections-found v us u h = ground arith

pub connections-missing :
    (v : Text) (us : List User) → find_first (user_is v) us ≡ none → connections us v ≡ 0
unfolding connections
connections-missing v us h = ground arith

pub increment-uuid : (u : User) → (increment_connection u).uuid ≡ u.uuid
unfolding increment_connection
increment-uuid u = refl

pub increment-count : (u : User) → (increment_connection u).connected_count ≡ u.connected_count + 1
unfolding increment_connection
increment-count u = refl

pub decrement-uuid : (u : User) → (decrement_connection u).uuid ≡ u.uuid
unfolding decrement_connection
decrement-uuid u = ground arith

pub decrement-count :
    (u : User)
    → 0 < u.connected_count
    → (decrement_connection u).connected_count + 1 ≡ u.connected_count
unfolding decrement_connection
decrement-count u h = ground arith
