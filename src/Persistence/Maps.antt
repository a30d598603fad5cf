-- ===== src/Persistence/Maps.antt =====
-- `std::map<std::string, V>` as its entries in the order of their keys.
use mathlib.Core.List.{append_assoc, append-nil}
use myteams.Prelude.{
  List, [], ◌∷◌, ◌++◌, ◌≡◌, refl, ◌∙◌, true, Text, text_eq, text_lt, arith, if◌then◌else◌,
}
use myteams.Messaging.Order.{text_lt_irrefl, text_lt_trans}
use myteams.Messaging.Conversations.{Behind, IsOrdered}

module _ {ℓ} {V : Type ℓ} where
  -- `map[key] = v`
  unfoldable pub assign : Text → V → List (Text × V) → List (Text × V)
  assign key v [] = (key, v) ∷ []
  assign key v ((k, w) ∷ m) =
      let later = assign key v m in
      if text_eq k key
      then (k, v) ∷ m
      else if text_lt key k
      then (key, v) ∷ (k, w) ∷ m
      else (k, w) ∷ later

  unfoldable pub assign_all : List (Text × V) → List (Text × V) → List (Text × V)
  assign_all m [] = m
  assign_all m ((key, v) ∷ es) = assign_all (assign key v m) es

  -- Every key of the map comes before this one.
  abbrev Before : Text → List (Text × V) → Type 0
  Before key [] = Unit
  Before key ((k, v) ∷ m) = (text_lt k key ≡ true) × Before key m

  abbrev Precedes : List (Text × V) → List (Text × V) → Type 0
  Precedes m [] = Unit
  Precedes m ((key, v) ∷ es) = Before key m × Precedes m es

  assign-last :
      (key : Text) (v : V) (m : List (Text × V))
      → Before key m
      → assign key v m ≡ m ++ (key, v) ∷ []
  unfolding assign
  assign-last key v [] b = refl
  assign-last key v ((k, w) ∷ m) (l, b) =
      ground (arith, assign-last key v m, text_lt_irrefl key, text_lt_trans key k key)

  Before-append :
      (key k : Text) (v : V) (m : List (Text × V))
      → Before key m
      → text_lt k key ≡ true
      → Before key (m ++ (k, v) ∷ [])
  Before-append key k v [] b l = (l, tt)
  Before-append key k v ((j, w) ∷ m) (h, b) l = (h, Before-append key k v m b l)

  Precedes-append :
      (k : Text) (v : V) (m es : List (Text × V))
      → Precedes m es
      → Behind k es
      → Precedes (m ++ (k, v) ∷ []) es
  Precedes-append k v m [] p b = tt
  Precedes-append k v m ((key, w) ∷ es) (h, p) (l, b) =
      (Before-append key k v m h l, Precedes-append k v m es p b)

  assign_all-append :
      (m es : List (Text × V)) → Precedes m es → IsOrdered es → assign_all m es ≡ m ++ es
  unfolding assign_all
  assign_all-append m [] p o = rw append-nil
  assign_all-append m ((key, v) ∷ es) (h, p) (b, o) = rw (assign-last key v m h) (
      assign_all-append (m ++ (key, v) ∷ []) es (Precedes-append key v m es p b) o
      ∙ append_assoc m ((key, v) ∷ []) es)

  Precedes-nil : (es : List (Text × V)) → Precedes [] es
  Precedes-nil [] = tt
  Precedes-nil (e ∷ es) = (tt, Precedes-nil es)

  -- Entries in the order of their keys make the map that lists them.
  pub assign_all-IsOrdered : (es : List (Text × V)) → IsOrdered es → assign_all [] es ≡ es
  assign_all-IsOrdered es o = assign_all-append [] es (Precedes-nil es) o
