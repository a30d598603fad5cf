-- ===== src/Teams/Distinct.antt =====
-- Lists with distinct keys, under the loops that search and change them.
use myteams.Prelude.{
  List, [], ◌∷◌, ◌++◌, ◌≡◌, ◌≢◌, sym, Bool, false, some, Text, All, find_first, modify_first, arith,
  Bool-cases, inl, inr,
}
use myteams.Models.{Team, Channel, Thread, contains, remove_all}
use myteams.Commands.Create.{has_team_named, has_channel_named, has_thread_titled}

module _ {A : Type 0} where
  pub All-map : {P Q : A → Type 0} → ((x : A) → P x → Q x) → (xs : List A) → All P xs → All Q xs
  All-map f [] h = tt
  All-map f (x ∷ xs) (h, hs) = (f x h, All-map f xs hs)

  pub All-append : (P : A → Type 0) (xs : List A) (y : A) → All P xs → P y → All P (xs ++ y ∷ [])
  All-append P [] y h p = (p, tt)
  All-append P (x ∷ xs) y (h, hs) p = (h, All-append P xs y hs p)

  pub All-find_first :
      (P : A → Type 0) (p : A → Bool) (xs : List A) (x : A)
      → find_first p xs ≡ some x
      → All P xs
      → P x
  unfolding find_first
  All-find_first P p [] x h a = cc
  All-find_first P p (y ∷ ys) x h (py, pys) = grind (arith, All-find_first P p ys x)

  pub All-modify_first :
      (P : A → Type 0) (p : A → Bool) (f : A → A) (xs : List A)
      → ((x : A) → P x → P (f x))
      → All P xs
      → All P (modify_first p f xs)
  unfolding modify_first
  All-modify_first P p f [] keeps a = tt
  All-modify_first P p f (y ∷ ys) keeps (py, pys) = elim (Bool-cases (p y)) [
    | inl e ↦ rw (e, modify_first, All) (keeps y py, pys)
    | inr e ↦ rw (e, modify_first, All) (py, All-modify_first P p f ys keeps pys)
  ]

  -- Only the element that the search finds is changed.
  pub All-modify_found :
      (P : A → Type 0) (p : A → Bool) (f : A → A) (xs : List A) (x : A)
      → find_first p xs ≡ some x
      → P (f x)
      → All P xs
      → All P (modify_first p f xs)
  unfolding modify_first find_first
  All-modify_found P p f [] x h q a = tt
  All-modify_found P p f (y ∷ ys) x h q (py, pys) = grind (arith, All-modify_found P p f ys x)

  -- No two elements have one key.
  abbrev pub DistinctBy : (A → Text) → List A → Type 0
  DistinctBy key [] = Unit
  DistinctBy key (x ∷ xs) = All (λ y. key y ≢ key x) xs × DistinctBy key xs

  pub DistinctBy-append :
      (key : A → Text) (xs : List A) (y : A)
      → DistinctBy key xs
      → All (λ x. key x ≢ key y) xs
      → DistinctBy key (xs ++ y ∷ [])
  DistinctBy-append key [] y d new = (tt, tt)
  DistinctBy-append key (x ∷ xs) y (d, ds) (n, ns) =
      (All-append _ xs y d (λ e. n (sym e)), DistinctBy-append key xs y ds ns)

  pub DistinctBy-modify_first :
      (key : A → Text) (p : A → Bool) (f : A → A) (xs : List A)
      → ((x : A) → key (f x) ≡ key x)
      → DistinctBy key xs
      → DistinctBy key (modify_first p f xs)
  unfolding modify_first
  DistinctBy-modify_first key p f [] keeps d = tt
  DistinctBy-modify_first key p f (x ∷ xs) keeps (d, ds) = elim (Bool-cases (p x)) [
    | inl e ↦ rw (e, modify_first, DistinctBy) (rw (keeps x) (d, ds))
    | inr e ↦
        rw (e, modify_first)
          (
            All-modify_first _ p f xs (λ y h. rw (keeps y) h) d,
            DistinctBy-modify_first key p f xs keeps ds,
          )
  ]

pub has_team_named-All :
    (name : Text) (ts : List Team) → has_team_named name ts ≡ false → All (λ t. t.name ≢ name) ts
unfolding has_team_named
has_team_named-All name [] h = tt
has_team_named-All name (t ∷ ts) h = ground (arith, has_team_named-All name ts)

pub has_channel_named-All :
    (name : Text) (cs : List Channel)
    → has_channel_named name cs ≡ false
    → All (λ c. c.name ≢ name) cs
unfolding has_channel_named
has_channel_named-All name [] h = tt
has_channel_named-All name (c ∷ cs) h = ground (arith, has_channel_named-All name cs)

pub has_thread_titled-All :
    (title : Text) (ts : List Thread)
    → has_thread_titled title ts ≡ false
    → All (λ t. t.title ≢ title) ts
unfolding has_thread_titled
has_thread_titled-All title [] h = tt
has_thread_titled-All title (t ∷ ts) h = ground (arith, has_thread_titled-All title ts)

pub contains-All : (v : Text) (xs : List Text) → contains v xs ≡ false → All (λ x. x ≢ v) xs
unfolding contains
contains-All v [] h = tt
contains-All v (x ∷ xs) h = ground (arith, contains-All v xs)

remove_all-All :
    (P : Text → Type 0) (v : Text) (xs : List Text) → All P xs → All P (remove_all v xs)
unfolding remove_all
remove_all-All P v [] h = tt
remove_all-All P v (x ∷ xs) (h, hs) = ground (arith, h, remove_all-All P v xs hs)

pub remove_all-DistinctBy :
    (v : Text) (xs : List Text) → DistinctBy (λ x. x) xs → DistinctBy (λ x. x) (remove_all v xs)
unfolding remove_all
remove_all-DistinctBy v [] h = tt
remove_all-DistinctBy v (x ∷ xs) (h, hs) =
    ground (arith, remove_all-All _ v xs h, remove_all-DistinctBy v xs hs)
