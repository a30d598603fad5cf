-- ===== src/Persistence/Decoded.antt =====
-- What the decoder makes of the documents that were written.
use native.Mathlib.Decide.{ℕ_discrete}
use myteams.Prelude.{
  ℕ, List, [], ◌∷◌, map, ◌≡◌, ◌≤◌, refl, ap, ◌∙◌, Text, text, text_lt, text_discrete, arith, All,
}
use myteams.Models.{Message, Reply, Thread, Channel, Team, User, Conversations}
use myteams.Messaging.Conversations.{Behind, IsOrdered}
use myteams.Persistence.Maps.{assign, assign_all, assign_all-IsOrdered}
use myteams.Persistence.Json.{
  JsonVal, Fields, str, obj, end, field, str_of, items_of, array_of, object_of, insert_field,
  entries_of,
}
use myteams.Persistence.Numbers.{Doubles, to_time-read_as, exact_limit}
use myteams.Persistence.Documents.{Doc, value_of, map_of}
use myteams.Persistence.Printed.{
  items_doc, array_doc, entries_doc, message_doc, reply_doc, thread_doc, channel_doc, team_doc,
  user_doc,
}
use myteams.Persistence.Decoder.{
  message_from_json, reply_from_json, thread_from_json, channel_from_json, team_from_json,
  read_conversations, user_from_json,
}

-- Every time in it is a `double`.
abbrev pub Dated : ℕ → Type 0
Dated time = time ≤ exact_limit

abbrev pub ThreadIsDated : Thread → Type 0
ThreadIsDated t = Dated t.timestamp × All (λ (r : Reply). Dated r.timestamp) t.replies

abbrev pub ChannelIsDated : Channel → Type 0
ChannelIsDated c = All ThreadIsDated c.threads

abbrev pub TeamIsDated : Team → Type 0
TeamIsDated t = All ChannelIsDated t.channels

abbrev pub ConversationIsDated : Text × List Message → Type 0
ConversationIsDated (key, ms) = All (λ (m : Message). Dated m.timestamp) ms

-- Its map of conversations has its keys in order, as any `std::map` has.
abbrev pub UserIsDated : User → Type 0
UserIsDated u = IsOrdered u.messages × All ConversationIsDated u.messages

module _ (d : Doubles) where
  open d use {zero_double, to_time}

  -- `f` reads the elements back one by one.
  pub map-array_doc {ℓ κ} :
      {A : Type ℓ} (P : A → Type κ) (f : JsonVal d.Double → A) (doc : A → Doc)
      → ((x : A) → P x → f (value_of d (doc x)) ≡ x)
      → (xs : List A) → All P xs
      → map f (array_of (value_of d (array_doc doc xs))) ≡ xs
  unfolding array_of value_of array_doc items_doc items_of
  map-array_doc P f doc h [] a = refl
  map-array_doc P f doc h (x ∷ xs) (p, a) = rw (h x p) (ap (◌∷◌ x) (map-array_doc P f doc h xs a))

  All-Unit : (xs : List Text) → All (λ s. Unit {0}) xs
  All-Unit [] = tt
  All-Unit (x ∷ xs) = (tt, All-Unit xs)

  map-strings : (xs : List Text) → map str_of (array_of (value_of d (array_doc str xs))) ≡ xs
  unfolding value_of str_of
  map-strings xs = map-array_doc (λ s. Unit {0}) str_of str (λ x p. refl) xs (All-Unit xs)

  reply_from_json-reply_doc :
      (r : Reply) → Dated r.timestamp → reply_from_json d (value_of d (reply_doc r)) ≡ r
  unfolding reply_from_json reply_doc value_of text text_lt text_discrete ℕ_discrete insert_field
  reply_from_json-reply_doc r h = rw (to_time-read_as d r.timestamp h)

  message_from_json-message_doc :
      (m : Message) → Dated m.timestamp → message_from_json d (value_of d (message_doc m)) ≡ m
  unfolding message_from_json message_doc value_of text text_lt text_discrete ℕ_discrete
      insert_field
  message_from_json-message_doc m h = rw (to_time-read_as d m.timestamp h)

  thread_from_json-thread_doc :
      (t : Thread) → ThreadIsDated t → thread_from_json d (value_of d (thread_doc t)) ≡ t
  unfolding thread_from_json thread_doc value_of text text_lt text_discrete ℕ_discrete insert_field
  thread_from_json-thread_doc t (h, hs) = rw (
    to_time-read_as d t.timestamp h,
    map-array_doc (λ (r : Reply). Dated r.timestamp) (reply_from_json d) reply_doc
        reply_from_json-reply_doc t.replies hs,
  )

  channel_from_json-channel_doc :
      (c : Channel) → ChannelIsDated c → channel_from_json d (value_of d (channel_doc c)) ≡ c
  unfolding channel_from_json channel_doc value_of text text_lt text_discrete ℕ_discrete
      insert_field
  channel_from_json-channel_doc c h = rw (
      map-array_doc ThreadIsDated (thread_from_json d) thread_doc thread_from_json-thread_doc
        c.threads h)

  pub team_from_json-team_doc :
      (t : Team) → TeamIsDated t → team_from_json d (value_of d (team_doc t)) ≡ t
  unfolding team_from_json team_doc value_of text text_lt text_discrete ℕ_discrete insert_field
  team_from_json-team_doc t h = rw (
    map-strings t.subscriber_uuids,
    map-array_doc ChannelIsDated (channel_from_json d) channel_doc channel_from_json-channel_doc
        t.channels h,
  )

  entries_of-insert_field :
      (key : Text) (v : JsonVal d.Double) (fs : Fields d.Double)
      → entries_of (insert_field key v fs) ≡ assign key v (entries_of fs)
  unfolding entries_of insert_field assign
  entries_of-insert_field key v end = refl
  entries_of-insert_field key v (field k w fs) = ground (arith, entries_of-insert_field key v fs)

  -- the conversations as the parser finds them
  parsed : Conversations → List (Text × JsonVal d.Double)
  parsed [] = []
  parsed ((key, ms) ∷ cs) = (key, value_of d (array_doc message_doc ms)) ∷ parsed cs

  entries_of-map_of :
      (read : Fields d.Double) (cs : Conversations)
      → entries_of (map_of d read (entries_doc message_doc cs))
        ≡ assign_all (entries_of read) (parsed cs)
  unfolding value_of entries_doc assign_all parsed
  entries_of-map_of read [] = refl
  entries_of-map_of read ((key, ms) ∷ cs) =
      entries_of-map_of (insert_field key (value_of d (array_doc message_doc ms)) read) cs
      ∙ ap (λ m. assign_all m (parsed cs))
          (entries_of-insert_field key (value_of d (array_doc message_doc ms)) read)

  parsed-Behind : (key : Text) (cs : Conversations) → Behind key cs → Behind key (parsed cs)
  unfolding parsed
  parsed-Behind key [] b = tt
  parsed-Behind key ((k, ms) ∷ cs) (l, b) = (l, parsed-Behind key cs b)

  parsed-IsOrdered : (cs : Conversations) → IsOrdered cs → IsOrdered (parsed cs)
  unfolding parsed
  parsed-IsOrdered [] o = tt
  parsed-IsOrdered ((k, ms) ∷ cs) (b, o) = (parsed-Behind k cs b, parsed-IsOrdered cs o)

  read_conversations-parsed :
      (read cs : Conversations)
      → All ConversationIsDated cs
      → read_conversations d read (parsed cs) ≡ assign_all read cs
  unfolding read_conversations assign_all parsed
  read_conversations-parsed read [] a = refl
  read_conversations-parsed read ((key, ms) ∷ cs) (h, a) =
      ap (λ found. read_conversations d (assign key found read) (parsed cs))
        (map-array_doc (λ (m : Message). Dated m.timestamp) (message_from_json d) message_doc
          message_from_json-message_doc ms h)
      ∙ read_conversations-parsed (assign key ms read) cs a

  read_conversations-entries_doc :
      (cs : Conversations)
      → IsOrdered cs
      → All ConversationIsDated cs
      → read_conversations d [] (object_of (value_of d (obj (entries_doc message_doc cs)))) ≡ cs
  unfolding object_of value_of entries_of
  read_conversations-entries_doc cs o a =
      ap (read_conversations d [])
        (entries_of-map_of end cs ∙ assign_all-IsOrdered (parsed cs) (parsed-IsOrdered cs o))
      ∙ read_conversations-parsed [] cs a
      ∙ assign_all-IsOrdered cs o

  pub user_from_json-user_doc :
      (u : User)
      → UserIsDated u
      → user_from_json d (value_of d (user_doc u)) ≡ record u { connected_count = 0 }
  unfolding user_from_json user_doc value_of text text_lt text_discrete ℕ_discrete insert_field
  user_from_json-user_doc u (o, h) =
      rw (map-strings u.teams, read_conversations-entries_doc u.messages o h)
