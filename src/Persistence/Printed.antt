-- ===== src/Persistence/Printed.antt =====
-- What JsonSerializer.cpp and `save` write are documents.
use mathlib.Core.List.{append_assoc, append-nil}
use myteams.Prelude.{ℕ, List, [], ◌∷◌, ◌++◌, ◌≡◌, refl, ap, ◌∙◌, true, false, Text, text}
use myteams.Models.{Message, Reply, Thread, Channel, Team, User}
use myteams.Database.{Database}
use myteams.Persistence.Json.{Items, Fields, bool, num, str, arr, obj, nil, item, end, field}
use myteams.Persistence.Printer.{
  escape_bytes, escape_json, write_items, json_array, write_entries, json_map_of_arrays,
  message_to_json, reply_to_json, thread_to_json, channel_to_json, team_to_json, user_to_json,
}
use myteams.Persistence.Saving.{save}
use myteams.Persistence.Documents.{Doc, emit, emit_items, emit_fields}
use myteams.Persistence.Strings.{emit-Opens}

unfoldable pub items_doc {ℓ} : {A : Type ℓ} → (A → Doc) → List A → Items ℕ
items_doc doc [] = nil
items_doc doc (x ∷ xs) = item (doc x) (items_doc doc xs)

unfoldable pub array_doc {ℓ} : {A : Type ℓ} → (A → Doc) → List A → Doc
unfolding items_doc
array_doc doc xs = arr (items_doc doc xs)

unfoldable pub entries_doc {ℓ} : {A : Type ℓ} → (A → Doc) → List (Text × List A) → Fields ℕ
entries_doc doc [] = end
entries_doc doc ((key, values) ∷ entries) =
    field key (array_doc doc values) (entries_doc doc entries)

unfoldable pub message_doc : Message → Doc
message_doc m = obj (
    field (text "sender") (str m.sender_uuid) (
      field (text "receiver") (str m.receiver_uuid)
        (field (text "timestamp") (num m.timestamp) (field (text "body") (str m.body) end))))

unfoldable pub reply_doc : Reply → Doc
reply_doc r = obj (
    field (text "uuid") (str r.uuid) (
      field (text "user_uuid") (str r.user_uuid)
        (field (text "timestamp") (num r.timestamp) (field (text "body") (str r.body) end))))

unfoldable pub thread_doc : Thread → Doc
thread_doc t = obj (
    field (text "uuid") (str t.uuid) (
      field (text "user_uuid") (str t.user_uuid) (
        field (text "timestamp") (num t.timestamp) (
          field (text "title") (str t.title) (
            field (text "body") (str t.body)
              (field (text "replies") (array_doc reply_doc t.replies) end))))))

unfoldable pub channel_doc : Channel → Doc
channel_doc c = obj (
    field (text "uuid") (str c.uuid) (
      field (text "name") (str c.name) (
        field (text "description") (str c.description)
          (field (text "threads") (array_doc thread_doc c.threads) end))))

unfoldable pub team_doc : Team → Doc
team_doc t = obj (
    field (text "uuid") (str t.uuid) (
      field (text "name") (str t.name) (
        field (text "description") (str t.description) (
          field (text "subscribers") (array_doc str t.subscriber_uuids)
            (field (text "channels") (array_doc channel_doc t.channels) end)))))

unfoldable pub user_doc : User → Doc
user_doc u = obj (
    field (text "uuid") (str u.uuid) (
      field (text "name") (str u.name) (
        field (text "connected") (bool false) (
          field (text "teams") (array_doc str u.teams)
            (field (text "messages") (obj (entries_doc message_doc u.messages)) end)))))

unfoldable pub database_doc : Database → Doc
database_doc db = obj (
    field (text "users") (array_doc user_doc db.users)
      (field (text "teams") (array_doc team_doc db.teams) end))

-- Loops that write a comma before each part but the first.
module _ {ℓ} {A : Type ℓ} (write : A → Text) (doc : A → Doc)
    (h : (x : A) → write x ≡ emit (doc x)) where
  write_items_more :
      (c : ℕ) (out : Text) (xs : List A)
      → write_items (c ∷ out) xs write ≡ c ∷ (out ++ emit_items false (items_doc doc xs))
  unfolding write_items emit items_doc
  write_items_more c out [] = rw append-nil
  write_items_more c out (x ∷ xs) =
      rw (h x) (write_items_more c ((out ++ b',' ∷ []) ++ emit (doc x)) xs ∙ simp append_assoc)

  pub write_items-emit :
      (xs : List A) → write_items [] xs write ≡ emit_items true (items_doc doc xs)
  unfolding write_items emit items_doc
  write_items-emit [] = refl
  write_items-emit (x ∷ xs) =
      let o = emit-Opens (doc x) in rw (h x, o.split) (write_items_more o.first o.later xs)

  pub json_array-emit : (xs : List A) → json_array xs write ≡ emit (array_doc doc xs)
  unfolding json_array emit array_doc
  json_array-emit xs = rw (write_items-emit xs)

  write_entries_more :
      (c : ℕ) (out : Text) (es : List (Text × List A))
      → write_entries (c ∷ out) es write ≡ c ∷ (out ++ emit_fields false (entries_doc doc es))
  unfolding write_entries emit entries_doc array_doc
  write_entries_more c out [] = rw append-nil
  write_entries_more c out ((key, values) ∷ es) = rw (json_array-emit values) (
      write_entries_more c
        ((out ++ b',' ∷ []) ++ (escape_json key ++ b':' ∷ emit (array_doc doc values))) es
      ∙ simp append_assoc)

  pub json_map-emit :
      (es : List (Text × List A)) → json_map_of_arrays es write ≡ emit (obj (entries_doc doc es))
  unfolding json_map_of_arrays emit entries_doc write_entries escape_json
  json_map-emit [] = refl
  json_map-emit ((key, values) ∷ es) = rw (json_array-emit values) (
      ap (λ out. b'{' ∷ (out ++ b'}' ∷ []))
        (write_entries_more b'"'
          ((escape_bytes key ++ b'"' ∷ []) ++ b':' ∷ emit (array_doc doc values)) es)
      ∙ simp append_assoc)

pub message_to_json-emit : (m : Message) → message_to_json m ≡ emit (message_doc m)
unfolding message_to_json emit message_doc escape_json text
message_to_json-emit m = simp append_assoc

escape_json-emit : (s : Text) → escape_json s ≡ emit (str s)
unfolding emit
escape_json-emit s = refl

reply_to_json-emit : (r : Reply) → reply_to_json r ≡ emit (reply_doc r)
unfolding reply_to_json emit reply_doc escape_json text
reply_to_json-emit r = simp append_assoc

thread_to_json-emit : (t : Thread) → thread_to_json t ≡ emit (thread_doc t)
unfolding thread_to_json emit thread_doc escape_json text
thread_to_json-emit t =
    rw (json_array-emit reply_to_json reply_doc reply_to_json-emit t.replies) (simp append_assoc)

channel_to_json-emit : (c : Channel) → channel_to_json c ≡ emit (channel_doc c)
unfolding channel_to_json emit channel_doc escape_json text
channel_to_json-emit c =
    rw (json_array-emit thread_to_json thread_doc thread_to_json-emit c.threads) (simp append_assoc)

team_to_json-emit : (t : Team) → team_to_json t ≡ emit (team_doc t)
unfolding team_to_json emit team_doc escape_json text
team_to_json-emit t =
    rw
      (
        json_array-emit escape_json str (λ s. escape_json-emit s) t.subscriber_uuids,
        json_array-emit channel_to_json channel_doc channel_to_json-emit t.channels,
      )
      (simp append_assoc)

user_to_json-emit : (u : User) → user_to_json u ≡ emit (user_doc u)
unfolding user_to_json emit user_doc escape_json text
user_to_json-emit u =
    rw
      (
        json_array-emit escape_json str (λ s. escape_json-emit s) u.teams,
        json_map-emit message_to_json message_doc message_to_json-emit u.messages,
      )
      (simp append_assoc)

pub save-emit : (db : Database) → save db ≡ emit (database_doc db)
unfolding save emit database_doc escape_json text array_doc
save-emit db =
    rw
      (
        write_items-emit user_to_json user_doc user_to_json-emit db.users,
        write_items-emit team_to_json team_doc team_to_json-emit db.teams,
      )
      (simp append_assoc)
