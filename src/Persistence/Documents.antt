-- ===== src/Persistence/Documents.antt =====
-- JSON documents: how one is written, and what the parser makes of it.
use myteams.Prelude.{ℕ, [], ◌∷◌, ◌++◌, Bool, true, false, Text, text}
use myteams.Protocol.{to_string}
use myteams.Persistence.Json.{
  JsonVal, Items, Fields, null, bool, num, str, arr, obj, nil, item, end, field, insert_field,
}
use myteams.Persistence.Numbers.{read_as, Doubles}
use myteams.Persistence.Printer.{escape_json}

-- A document is a value with natural numbers and with its fields in the order of writing.
abbrev pub Doc : Type 0
Doc = JsonVal ℕ

-- A comma stands before each part but the first.
abbrev pub comma : Bool → Text → Text
comma true s = s
comma false s = b',' ∷ s

unfoldable mutual
  pub emit : Doc → Text
  emit null = text "null"
  emit (bool true) = text "true"
  emit (bool false) = text "false"
  emit (num n) = to_string n
  emit (str s) = escape_json s
  emit (arr vs) = b'[' ∷ (emit_items true vs ++ b']' ∷ [])
  emit (obj fs) = b'{' ∷ (emit_fields true fs ++ b'}' ∷ [])

  pub emit_items : Bool → Items ℕ → Text
  emit_items first nil = []
  emit_items first (item v vs) = comma first (emit v ++ emit_items false vs)

  pub emit_fields : Bool → Fields ℕ → Text
  emit_fields first end = []
  emit_fields first (field k v fs) =
      comma first (escape_json k ++ b':' ∷ (emit v ++ emit_fields false fs))

-- The value that a document stands for: numbers are rounded, and the fields of an object are put
-- into a map in turn.
module _ (d : Doubles) where
  open d use {Double}

  unfoldable mutual
    pub value_of : Doc → JsonVal Double
    value_of null = null
    value_of (bool b) = bool b
    value_of (num n) = num (read_as d n)
    value_of (str s) = str s
    value_of (arr vs) = arr (values_of vs)
    value_of (obj fs) = obj (map_of end fs)

    pub values_of : Items ℕ → Items Double
    values_of nil = nil
    values_of (item v vs) = item (value_of v) (values_of vs)

    pub map_of : Fields Double → Fields ℕ → Fields Double
    map_of read end = read
    map_of read (field k v fs) = map_of (insert_field k (value_of v) read) fs
