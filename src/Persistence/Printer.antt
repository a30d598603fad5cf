-- ===== src/Persistence/Printer.antt =====
-- server/saveManager/JsonSerializer.cpp, the functions that write.
use myteams.Prelude.{List, [], ◌∷◌, ◌++◌, Text, text, ◌==◌, if◌then◌else◌}
use myteams.Protocol.{to_string}
use myteams.Models.{Message, Reply, Thread, Channel, Team, User}

-- the loop of `escapeJson`
unfoldable pub escape_bytes : Text → Text
escape_bytes [] = []
escape_bytes (c ∷ s) =
    let rest = escape_bytes s in
    if c == b'"' then b'\\' ∷ b'"' ∷ rest else if c == b'\\' then b'\\' ∷ b'\\' ∷ rest else c ∷ rest

unfoldable pub escape_json : Text → Text
unfolding escape_bytes
escape_json s = b'"' ∷ (escape_bytes s ++ b'"' ∷ [])

-- `if (!out.empty()) out += ',';`
unfoldable pub separated : Text → Text
separated [] = []
separated (c ∷ out) = (c ∷ out) ++ b',' ∷ []

module _ {ℓ} {A : Type ℓ} where
  -- the loop of `jsonArray` behind what is written to `out`
  unfoldable pub write_items : Text → List A → (A → Text) → Text
  unfolding separated
  write_items out [] mapper = out
  write_items out (x ∷ xs) mapper = write_items (separated out ++ mapper x) xs mapper

  unfoldable pub json_array : List A → (A → Text) → Text
  unfolding write_items
  json_array range mapper = b'[' ∷ (write_items [] range mapper ++ b']' ∷ [])

  -- the loop of `jsonMapOfArrays`
  unfoldable pub write_entries : Text → List (Text × List A) → (A → Text) → Text
  unfolding separated json_array escape_json
  write_entries out [] mapper = out
  write_entries out ((key, values) ∷ entries) mapper =
      write_entries (separated out ++ (escape_json key ++ b':' ∷ json_array values mapper)) entries
        mapper

  unfoldable pub json_map_of_arrays : List (Text × List A) → (A → Text) → Text
  unfolding write_entries
  json_map_of_arrays entries mapper = b'{' ∷ (write_entries [] entries mapper ++ b'}' ∷ [])

unfoldable pub message_to_json : Message → Text
message_to_json m =
    b'{'
    ∷ (text "\"sender\":"
        ++ (escape_json m.sender_uuid
            ++ b','
              ∷ (text "\"receiver\":"
                  ++ (escape_json m.receiver_uuid
                      ++ b','
                        ∷ (text "\"timestamp\":"
                            ++ (to_string m.timestamp
                                ++ b','
                                  ∷ (text "\"body\":" ++ (escape_json m.body ++ b'}' ∷ []))))))))

unfoldable pub reply_to_json : Reply → Text
reply_to_json r =
    b'{'
    ∷ (text "\"uuid\":"
        ++ (escape_json r.uuid
            ++ b','
              ∷ (text "\"user_uuid\":"
                  ++ (escape_json r.user_uuid
                      ++ b','
                        ∷ (text "\"timestamp\":"
                            ++ (to_string r.timestamp
                                ++ b','
                                  ∷ (text "\"body\":" ++ (escape_json r.body ++ b'}' ∷ []))))))))

unfoldable pub thread_to_json : Thread → Text
thread_to_json t =
    b'{'
    ∷ (text "\"uuid\":"
        ++ (escape_json t.uuid
            ++ b','
              ∷ (text "\"user_uuid\":"
                  ++ (escape_json t.user_uuid
                      ++ b','
                        ∷ (text "\"timestamp\":"
                            ++ (to_string t.timestamp
                                ++ b','
                                  ∷ (text "\"title\":"
                                      ++ (escape_json t.title
                                          ++ b','
                                            ∷ (text "\"body\":"
                                                ++ (escape_json t.body
                                                    ++ b','
                                                      ∷ (text "\"replies\":"
                                                          ++ (json_array t.replies reply_to_json
                                                            ++ b'}' ∷ []))))))))))))

unfoldable pub channel_to_json : Channel → Text
channel_to_json c =
    b'{'
    ∷ (text "\"uuid\":"
        ++ (escape_json c.uuid
            ++ b','
              ∷ (text "\"name\":"
                  ++ (escape_json c.name
                      ++ b','
                        ∷ (text "\"description\":"
                            ++ (escape_json c.description
                                ++ b','
                                  ∷ (text "\"threads\":"
                                      ++ (json_array c.threads thread_to_json ++ b'}' ∷ []))))))))

unfoldable pub team_to_json : Team → Text
team_to_json t =
    b'{'
    ∷ (text "\"uuid\":"
        ++ (escape_json t.uuid
            ++ b','
              ∷ (text "\"name\":"
                  ++ (escape_json t.name
                      ++ b','
                        ∷ (text "\"description\":"
                            ++ (escape_json t.description
                                ++ b','
                                  ∷ (text "\"subscribers\":"
                                      ++ (json_array t.subscriber_uuids escape_json
                                          ++ b','
                                            ∷ (text "\"channels\":"
                                                ++ (json_array t.channels channel_to_json
                                                    ++ b'}' ∷ []))))))))))

unfoldable pub user_to_json : User → Text
user_to_json u =
    b'{'
    ∷ (text "\"uuid\":"
        ++ (escape_json u.uuid
            ++ b','
              ∷ (text "\"name\":"
                  ++ (escape_json u.name
                      ++ b','
                        ∷ (text "\"connected\":false,"
                            ++ (text "\"teams\":"
                                ++ (json_array u.teams escape_json
                                    ++ b','
                                      ∷ (text "\"messages\":"
                                          ++ (json_map_of_arrays u.messages message_to_json
                                              ++ b'}' ∷ [])))))))))
