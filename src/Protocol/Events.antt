-- ===== src/Protocol/Events.antt =====
-- What the client reads of the events that the server writes.
use mathlib.Core.List.{append_assoc}
use myteams.Prelude.{[], ◌∷◌, ◌++◌, ◌≡◌, refl, ◌∙◌, ap, true, false, some, Text, text}
use myteams.Models.{User, Thread}
use myteams.Protocol.{to_string}
use myteams.Protocol.TokenParser.{parse}
use myteams.Protocol.Quoting.{is_clean, is_plain, line_end}
use myteams.Protocol.Words.{is_space}
use myteams.Protocol.Lines.{
  word, field, is_sound, all_plain, render, render_more, show, parse-render,
}
use myteams.Protocol.Numbers.{to_string-is_sound}
use myteams.Commands.Login.{logged_in_event, logged_out_event}
use myteams.Commands.Create.Emit.{described, thread_fields}

-- `"\r\n"`
abbrev crlf : Text
crlf = 13 ∷ 10 ∷ []

-- The client reads the event of a login back as the uuid and the name, where both are clean.
pub parse-logged_in_event :
    (u : User)
    → is_clean false u.uuid ≡ true
    → is_clean false u.name ≡ true
    → parse (logged_in_event u) ≡ some (text "EVENT" ∷ text "USER_LOGGED_IN" ∷ u.uuid ∷ u.name ∷ [])
unfolding logged_in_event text render render_more show is_sound all_plain is_plain is_space
parse-logged_in_event u hu hn =
    ap parse (simp append_assoc)
    ∙ parse-render crlf
        (word (text "EVENT") ∷ word (text "USER_LOGGED_IN") ∷ field u.uuid ∷ field u.name ∷ [])
        line_end (refl, (refl, (hu, (hn, tt))))

-- The client reads the event of a logout back as the uuid and the name, where both are clean.
pub parse-logged_out_event :
    (u : User)
    → is_clean false u.uuid ≡ true
    → is_clean false u.name ≡ true
    → parse (logged_out_event u)
      ≡ some (text "EVENT" ∷ text "USER_LOGGED_OUT" ∷ u.uuid ∷ u.name ∷ [])
unfolding logged_out_event text render render_more show is_sound all_plain is_plain is_space
parse-logged_out_event u hu hn =
    ap parse (simp append_assoc)
    ∙ parse-render crlf
        (word (text "EVENT") ∷ word (text "USER_LOGGED_OUT") ∷ field u.uuid ∷ field u.name ∷ [])
        line_end (refl, (refl, (hu, (hn, tt))))

-- The client reads the event of a new team back as its uuid, name and description, where these are
-- clean.
parse-team_created :
    (uuid name description : Text)
    → is_clean false uuid ≡ true
    → is_clean false name ≡ true
    → is_clean false description ≡ true
    → parse (text "EVENT TEAM_CREATED " ++ described uuid name description)
      ≡ some (text "EVENT" ∷ text "TEAM_CREATED" ∷ uuid ∷ name ∷ description ∷ [])
unfolding described text render render_more show is_sound all_plain is_plain is_space
parse-team_created uuid name description hu hn hd =
    ap parse (simp append_assoc)
    ∙ parse-render crlf
        (word (text "EVENT")
          ∷ word (text "TEAM_CREATED")
          ∷ field uuid
          ∷ field name
          ∷ field description
          ∷ [])
        line_end (refl, (refl, (hu, (hn, (hd, tt)))))

-- The client reads the event of a new thread back as its uuid, its user, its time in decimal, its
-- title and its body, where the texts are clean.
pub parse-thread_created :
    (t : Thread)
    → is_clean false t.uuid ≡ true
    → is_clean false t.user_uuid ≡ true
    → is_clean false t.title ≡ true
    → is_clean false t.body ≡ true
    → parse (text "EVENT THREAD_CREATED " ++ thread_fields t)
      ≡ some (
          text "EVENT"
          ∷ text "THREAD_CREATED"
          ∷ t.uuid
          ∷ t.user_uuid
          ∷ to_string t.timestamp
          ∷ t.title
          ∷ t.body
          ∷ [])
unfolding thread_fields text render render_more show is_sound all_plain is_plain is_space
parse-thread_created t hu hw ht hb =
    ap parse (simp append_assoc)
    ∙ parse-render crlf
        (word (text "EVENT")
          ∷ word (text "THREAD_CREATED")
          ∷ field t.uuid
          ∷ field t.user_uuid
          ∷ word (to_string t.timestamp)
          ∷ field t.title
          ∷ field t.body
          ∷ [])
        line_end (refl, (refl, (hu, (hw, (to_string-is_sound t.timestamp, (ht, (hb, tt)))))))
