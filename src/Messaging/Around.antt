-- ===== src/Messaging/Around.antt =====
-- The teams of the database around one that a search finds.
use myteams.Prelude.{
  List, [], ◌∷◌, ◌++◌, Bool, ◌≡◌, ap, some, arith, find_first, modify_first, Bool-cases, inl, inr,
}

module _ {A : Type 0} where
  -- A list around the element that a search finds, and with it changed.
  pub record Around (p : A → Bool) (f : A → A) (xs : List A) (x : A) : Type 0 where
    pub before : List A
    pub behind : List A
    pub split : xs ≡ before ++ x ∷ behind
    pub changed : modify_first p f xs ≡ before ++ f x ∷ behind

  pub find_first-Around :
      (p : A → Bool) (f : A → A) (xs : List A) (x : A) → find_first p xs ≡ some x → Around p f xs x
  unfolding find_first modify_first
  find_first-Around p f [] x h = absurd (ground arith)
  find_first-Around p f (y ∷ ys) x h = elim (Bool-cases (p y)) [
    | inl e ↦
        let same : y ≡ x = ground arith in
        record {
          before = [];
          behind = ys;
          split = ap (λ z. z ∷ ys) same;
          changed = rw (e, modify_first) (ap (λ z. f z ∷ ys) same);
        }
    | inr e ↦
        let rest = find_first-Around p f ys x (ground arith) in
        record {
          before = y ∷ rest.before;
          behind = rest.behind;
          split = ap (λ zs. y ∷ zs) rest.split;
          changed = rw (e, modify_first) (ap (λ zs. y ∷ zs) rest.changed);
        }
  ]
