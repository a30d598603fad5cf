-- ===== src/Client/Delivered.antt =====
-- A line of words and quoted fields that reaches the client is routed as the list of what they hold.
use mathlib.Core.List.{append_assoc}
use myteams.Prelude.{
  ◌<◌, List, [], ◌∷◌, ◌++◌, map, ◌≡◌, refl, ap, sym, ◌∙◌, Bool, true, false, Text, All, length, ltb,
  ◌==◌, if◌then◌else◌, arith, length-append,
}
use myteams.Loop.{strip_return}
use myteams.Protocol.{quote_protocol_field}
use myteams.Protocol.Words.{is_space}
use myteams.Protocol.Quoting.{is_plain, is_clean, escape_clean, stop}
use myteams.Protocol.Lines.{
  Part, word, field, content, is_sound, all_plain, show, render, render_more, parse-render,
}
use myteams.Client.Calls.{Router}
use myteams.Client.Router.{route_frame, route_tokens}
use myteams.Client.Frames.{Routed, stopped, max_server_frame_size, route_frames}
use myteams.Client.Framing.{no_newline, route_frames-no_newline, route_frames-newline}

-- the next frame, unless the router wants to disconnect
abbrev pub go_on : Router → Text → Routed
go_on r s = if r.should_disconnect then stopped r else route_frames [] s r

strip_return-return : (s : Text) → strip_return (s ++ 13 ∷ []) ≡ s
unfolding strip_return
strip_return-return [] = refl
strip_return-return (c ∷ []) = refl
strip_return-return (c ∷ d ∷ s) = ap (◌∷◌ c) (strip_return-return (d ∷ s))

no_newline-append :
    (s t : Text) → no_newline s ≡ true → no_newline t ≡ true → no_newline (s ++ t) ≡ true
unfolding no_newline
no_newline-append [] t h k = k
no_newline-append (c ∷ s) t h k = ground (arith, no_newline-append s t)

plain_no_newline : (s : Text) → all_plain s ≡ true → no_newline s ≡ true
unfolding all_plain no_newline is_plain is_space
plain_no_newline [] h = refl
plain_no_newline (c ∷ s) h = ground (arith, plain_no_newline s)

clean_no_newline : (spaced : Bool) (s : Text) → is_clean spaced s ≡ true → no_newline s ≡ true
unfolding is_clean no_newline is_plain is_space
clean_no_newline spaced [] h = refl
clean_no_newline spaced (c ∷ s) h = ground (arith, clean_no_newline (c == 32) s)

show-no_newline : (p : Part) → is_sound p ≡ true → no_newline (show p) ≡ true
unfolding show is_sound quote_protocol_field no_newline
show-no_newline (word s) h = plain_no_newline s (ground arith)
show-no_newline (field s) h =
    rw (escape_clean false s h) (no_newline-append s (b'"' ∷ []) (clean_no_newline false s h) refl)

more_no_newline :
    (ps : List Part) → All (λ p. is_sound p ≡ true) ps → no_newline (render_more [] ps) ≡ true
unfolding render_more no_newline
more_no_newline [] h = refl
more_no_newline (p ∷ ps) (h, hs) =
    no_newline-append (show p) (render_more [] ps) (show-no_newline p h) (more_no_newline ps hs)

render_more-ending :
    (ending : Text) (ps : List Part) → render_more ending ps ≡ render_more [] ps ++ ending
unfolding render_more
render_more-ending ending [] = refl
render_more-ending ending (p ∷ ps) =
    ap (λ t. 32 ∷ (show p ++ t)) (render_more-ending ending ps)
    ∙ ap (◌∷◌ 32) (sym (append_assoc (show p) (render_more [] ps) ending))

-- `"\r\n"`
abbrev pub crlf : Text
crlf = 13 ∷ 10 ∷ []

regroup : (line rest : Text) → (line ++ crlf) ++ rest ≡ (line ++ 13 ∷ []) ++ 10 ∷ rest
regroup line rest = simp append_assoc

fits :
    (line : Text)
    → length line < max_server_frame_size
    → ltb max_server_frame_size (length (line ++ 13 ∷ [])) ≡ false
fits line k = ground (arith, length-append line (13 ∷ []))

route_frames-line :
    (line rest : Text) (r : Router)
    → no_newline line ≡ true
    → length line < max_server_frame_size
    → route_frames [] ((line ++ crlf) ++ rest) r ≡ go_on (route_frame line r) rest
unfolding no_newline
route_frames-line line rest r h k =
    let framed = line ++ 13 ∷ [] in
    ap (λ s. route_frames [] s r) (regroup line rest)
    ∙ route_frames-no_newline [] framed (10 ∷ rest) r (no_newline-append line (13 ∷ []) h refl)
    ∙ route_frames-newline framed rest r
    ∙ rw (fits line k, strip_return-return line)

route_frame-render :
    (ps : List Part) (r : Router)
    → All (λ p. is_sound p ≡ true) ps
    → route_frame (render [] ps) r ≡ route_tokens (map content ps) r
unfolding route_frame
route_frame-render ps r h = rw (parse-render [] ps stop h, route_frame)

-- A line
pub route_frames-render :
    (p : Part) (ps : List Part) (rest : Text) (r : Router)
    → All (λ p. is_sound p ≡ true) (p ∷ ps)
    → length (render [] (p ∷ ps)) < max_server_frame_size
    → route_frames [] (render crlf (p ∷ ps) ++ rest) r
      ≡ go_on (route_tokens (map content (p ∷ ps)) r) rest
unfolding render
route_frames-render p ps rest r (h, hs) k =
    ap (λ s. route_frames [] (s ++ rest) r)
      (ap (λ t. show p ++ t) (render_more-ending crlf ps)
        ∙ sym (append_assoc (show p) (render_more [] ps) crlf))
    ∙ route_frames-line (show p ++ render_more [] ps) rest r
        (no_newline-append (show p) (render_more [] ps) (show-no_newline p h)
          (more_no_newline ps hs))
        k
    ∙ ap (λ r'. go_on r' rest) (route_frame-render (p ∷ ps) r (h, hs))
