-- ===== src/Client/Notified.antt =====
-- The answers and events of a login, a logout and a new thread, from the server's text to the client.
use native.Mathlib.Decide.{ℕ_discrete}
use mathlib.Core.List.{append_assoc, append-nil}
use myteams.Prelude.{
  ◌<◌, List, [], ◌∷◌, ◌++◌, map, ◌≡◌, refl, ap, sym, ◌∙◌, subst, Bool, true, false, Text, text,
  text_discrete, length, arith, if◌then◌else◌,
}
use myteams.Models.{User, Thread}
use myteams.Protocol.{to_string, quote_protocol_field}
use myteams.Protocol.Words.{is_space}
use myteams.Protocol.Quoting.{is_plain, is_clean, escape_clean}
use myteams.Protocol.Lines.{
  Part, word, field, content, is_sound, all_plain, show, render, render_more,
}
use myteams.Commands.Login.{ok_user, logged_in_event}
use myteams.Commands.Create.Emit.{thread_fields}
use myteams.Client.Integers.{pos, long_limit}
use myteams.Client.Decimals.{stoll-to_string}
use myteams.Client.Calls.{Router, call, event_logged_in, event_thread_created}
use myteams.Client.Router.{route_tokens}
use myteams.Client.Frames.{kept, stopped, route_frames}
use myteams.Client.Delivered.{go_on, route_frames-render}
use myteams.Client.Listed.{Readable}

abbrev pub logged_in : User → Router → Router
logged_in u r = record r { user = record { uuid = u.uuid; name = u.name; logged_in = true } }

abbrev pub ok_parts : User → List Part
ok_parts u = word (text "200") ∷ word (text "OK") ∷ field u.uuid ∷ field u.name ∷ []

abbrev pub logged_in_parts : User → List Part
logged_in_parts u =
    word (text "EVENT") ∷ word (text "USER_LOGGED_IN") ∷ field u.uuid ∷ field u.name ∷ []

ok_user_written :
    (u : User)
    → is_clean false u.uuid ≡ true
    → is_clean false u.name ≡ true
    → ok_user u ≡ render (13 ∷ 10 ∷ []) (ok_parts u)
unfolding ok_user render render_more show text quote_protocol_field
ok_user_written u h k =
    rw (escape_clean false u.uuid h, escape_clean false u.name k) (simp append_assoc)

logged_in_event_written : (u : User) → logged_in_event u ≡ render (13 ∷ 10 ∷ []) (logged_in_parts u)
unfolding logged_in_event render render_more show text
logged_in_event_written u = simp append_assoc

ok_read : (u : User) (r : Router) → route_tokens (map content (ok_parts u)) r ≡ logged_in u r
unfolding route_tokens text text_discrete ℕ_discrete
ok_read u r = refl

event_read :
    (u : User) (r : Router)
    → route_tokens (map content (logged_in_parts u)) r ≡ call (event_logged_in u.uuid u.name) r
unfolding route_tokens text text_discrete ℕ_discrete
event_read u r = refl

if_false {ℓ} : {A : Type ℓ} (b : Bool) (x y : A) → b ≡ false → (if b then x else y) ≡ y
if_false b x y h = rw h

-- One line, where the router goes on.
line_read :
    (p : Part) (ps : List Part) (rest : Text) (r r' : Router)
    → Readable (p ∷ ps)
    → route_tokens (map content (p ∷ ps)) r ≡ r'
    → r'.should_disconnect ≡ false
    → route_frames [] (render (13 ∷ 10 ∷ []) (p ∷ ps) ++ rest) r ≡ route_frames [] rest r'
line_read p ps rest r r' (h, k) e q =
    route_frames-render p ps rest r h k
    ∙ ap (λ x. go_on x rest) e
    ∙ if_false r'.should_disconnect (stopped r') (route_frames [] rest r') q

-- The answer to a login of a new user and the event of it, read in one go, leave the client logged
-- in with the uuid and the name of the user, and with one call of `client_event_logged_in` more and
-- nothing else changed. The client was not about to disconnect; uuid and name hold no quote,
-- backslash or separator but single spaces, and each line fits a frame.
pub login_read :
    (u : User) (r : Router)
    → r.should_disconnect ≡ false
    → Readable (ok_parts u)
    → Readable (logged_in_parts u)
    → route_frames [] (ok_user u ++ logged_in_event u) r
      ≡ kept (call (event_logged_in u.uuid u.name) (logged_in u r)) []
unfolding route_frames is_sound
login_read u r q h k =
    ap (λ s. route_frames [] s r)
      (ap (λ t. t ++ logged_in_event u) (ok_user_written u h.0.1.1.0 h.0.1.1.1.0)
        ∙ ap (λ t. render (13 ∷ 10 ∷ []) (ok_parts u) ++ t)
            (logged_in_event_written u ∙ sym (append-nil _)))
    ∙ line_read (word (text "200")) (word (text "OK") ∷ field u.uuid ∷ field u.name ∷ []) _ r
        (logged_in u r) h (ok_read u r) q
    ∙ line_read (word (text "EVENT"))
        (word (text "USER_LOGGED_IN") ∷ field u.uuid ∷ field u.name ∷ []) [] (logged_in u r) _ k
        (event_read u (logged_in u r)) q

abbrev pub thread_parts : Text → Text → Thread → List Part
thread_parts a b t =
    word a
    ∷ word b
    ∷ field t.uuid
    ∷ field t.user_uuid
    ∷ word (to_string t.timestamp)
    ∷ field t.title
    ∷ field t.body
    ∷ []

thread_written :
    (t : Thread)
    → text "EVENT THREAD_CREATED " ++ thread_fields t
      ≡ render (13 ∷ 10 ∷ []) (thread_parts (text "EVENT") (text "THREAD_CREATED") t)
unfolding thread_fields render render_more show text
thread_written t = simp append_assoc

thread_event_read :
    (t : Thread) (r : Router)
    → t.timestamp < long_limit
    → route_tokens (map content (thread_parts (text "EVENT") (text "THREAD_CREATED") t)) r
      ≡ call (event_thread_created t.uuid t.user_uuid (pos t.timestamp) t.title t.body) r
unfolding route_tokens text text_discrete ℕ_discrete
thread_event_read t r h = rw (stoll-to_string t.timestamp h)

abbrev pub logged_out : Router → Router
logged_out r = record r {
  user = record { uuid = []; name = []; logged_in = false };
  should_disconnect = true;
}

abbrev logout_parts : List Part
logout_parts = word (text "200") ∷ word (text "OK") ∷ []

logout_tokens :
    (r : Router)
    → route_tokens (map content logout_parts) (record r { pending_command = text "/logout" })
      ≡ logged_out (record r { pending_command = text "/logout" })
unfolding route_tokens text text_discrete ℕ_discrete
logout_tokens r = refl

logout_line : text "200 OK\r\n" ≡ render (13 ∷ 10 ∷ []) logout_parts
unfolding text render render_more show
logout_line = refl

logout_fits : length (render [] logout_parts) < 65536
unfolding text render render_more show
logout_fits = omega arith

quiet_logout :
    (rest : Text) (r : Router)
    → route_frames [] (text "200 OK\r\n" ++ rest) (record r { pending_command = text "/logout" })
      ≡ stopped (logged_out (record r { pending_command = text "/logout" }))
unfolding is_sound all_plain is_plain is_space text
quiet_logout rest r =
    let leaving = record r { pending_command = text "/logout" } in
    ap (λ s. route_frames [] (s ++ rest) leaving) logout_line
    ∙ route_frames-render (word (text "200")) (word (text "OK") ∷ []) rest leaving
        (refl, (refl, tt)) logout_fits
    ∙ ap (λ x. go_on x rest) (logout_tokens r)

-- Where the last command is /logout, the answer "200 OK" makes the client forget its user and end,
-- whatever the server sends behind it.
pub logout_read :
    (rest : Text) (r : Router)
    → r.pending_command ≡ text "/logout"
    → route_frames [] (text "200 OK\r\n" ++ rest) r ≡ stopped (logged_out r)
logout_read rest r h =
    subst (λ q. route_frames [] (text "200 OK\r\n" ++ rest) q ≡ stopped (logged_out q))
      (ap (λ p. record r { pending_command = p }) (sym h)) (quiet_logout rest r)

-- The event of a new thread makes one call of `client_event_thread_created` with the uuid, user,
-- time, title and body of the thread, and nothing else. The client was not about to disconnect, the
-- time is below 2 ^ 63, the texts are clean, and the line fits a frame.
pub thread_read :
    (t : Thread) (rest : Text) (r : Router)
    → r.should_disconnect ≡ false
    → t.timestamp < long_limit
    → Readable (thread_parts (text "EVENT") (text "THREAD_CREATED") t)
    → route_frames [] ((text "EVENT THREAD_CREATED " ++ thread_fields t) ++ rest) r
      ≡ route_frames [] rest
          (call (event_thread_created t.uuid t.user_uuid (pos t.timestamp) t.title t.body) r)
thread_read t rest r q h k =
    ap (λ s. route_frames [] (s ++ rest) r) (thread_written t)
    ∙ line_read (word (text "EVENT")) _ rest r _ k (thread_event_read t r h) q
