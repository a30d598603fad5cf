-- ===== src/Persistence/Json.antt =====
-- server/saveManager/JsonParser.hpp: JSON values and their accessors.
use myteams.Prelude.{List, [], ◌∷◌, Bool, Text, text_eq, text_lt, if◌then◌else◌}

-- The parser fills the member that `type` names, and the others keep their defaults: `nVal` is 0.0.
-- `N` is the type of the numbers.
mutual
  pub data JsonVal (N : Type 0) : Type 0 where
    null : JsonVal N
    bool : Bool → JsonVal N
    num : N → JsonVal N
    str : Text → JsonVal N
    arr : Items N → JsonVal N
    obj : Fields N → JsonVal N

  -- `std::vector<JsonVal>`
  pub data Items (N : Type 0) : Type 0 where
    nil : Items N
    item : JsonVal N → Items N → Items N

  -- `std::map<std::string, JsonVal>`: entries in the order of their keys
  pub data Fields (N : Type 0) : Type 0 where
    end : Fields N
    field : Text → JsonVal N → Fields N → Fields N

module _ {N : Type 0} where
  -- `objVal.find(key)`, and a shared null value for a missing key
  unfoldable pub find_field : Text → Fields N → JsonVal N
  find_field key end = null
  find_field key (field k v fs) =
      let later = find_field key fs in if text_eq k key then v else later

  -- `operator[]`; what is no object has no keys
  unfoldable pub member : JsonVal N → Text → JsonVal N
  unfolding find_field
  member (obj fs) key = find_field key fs
  member _ key = null

  -- `map[key] = v`
  unfoldable pub insert_field : Text → JsonVal N → Fields N → Fields N
  insert_field key v end = field key v end
  insert_field key v (field k w fs) =
      let later = insert_field key v fs in
      if text_eq k key
      then field k v fs
      else if text_lt key k
      then field key v (field k w fs)
      else field k w later

  -- `str()`
  unfoldable pub str_of : JsonVal N → Text
  str_of (str s) = s
  str_of _ = []

  -- `num()`, with `nVal` as it is initialised
  unfoldable pub num_of : N → JsonVal N → N
  num_of zero_number (num n) = n
  num_of zero_number _ = zero_number

  unfoldable pub items_of : Items N → List (JsonVal N)
  items_of nil = []
  items_of (item v vs) = v ∷ items_of vs

  -- `array()`
  unfoldable pub array_of : JsonVal N → List (JsonVal N)
  unfolding items_of
  array_of (arr vs) = items_of vs
  array_of _ = []

  unfoldable pub entries_of : Fields N → List (Text × JsonVal N)
  entries_of end = []
  entries_of (field k v fs) = (k, v) ∷ entries_of fs

  -- `object()`
  unfoldable pub object_of : JsonVal N → List (Text × JsonVal N)
  unfolding entries_of
  object_of (obj fs) = entries_of fs
  object_of _ = []
