-- ===== src/Client/Listed.antt =====
-- The list answers of the server, from the database to the calls of the client.
use native.Mathlib.Decide.{ℕ_discrete}
use mathlib.Core.List.{append_assoc, append-nil}
use myteams.Prelude.{
  ℕ, ◌<◌, List, [], ◌∷◌, ◌++◌, map, ◌≡◌, refl, ap, sym, subst, ◌∙◌, true, false, Text, text,
  text_discrete, All, length, arith, length-append,
}
use myteams.State.{Server, send_to_client, send_each}
use myteams.Answering.Sending.{send-send}
use myteams.Commands.Listing.{send_list}
use myteams.Protocol.Words.{is_space}
use myteams.Protocol.Quoting.{is_plain}
use myteams.Protocol.Lines.{Part, word, content, is_sound, all_plain, show, render, render_more}
use myteams.Client.Calls.{Call, Router, call}
use myteams.Client.Router.{route_tokens}
use myteams.Client.Frames.{kept, max_server_frame_size, route_frames}
use myteams.Client.Delivered.{crlf, go_on, route_frames-render}

-- the lines of a list, and the whole answer
unfoldable pub lines_of {ℓ} : {A : Type ℓ} → (A → Text) → List A → Text
lines_of line [] = []
lines_of line (x ∷ xs) = line x ++ lines_of line xs

unfoldable pub list_answer {ℓ} : {A : Type ℓ} → Text → (A → Text) → List A → Text
list_answer kind line xs =
    (text "210-BEGIN " ++ kind ++ text "\r\n")
    ++ (lines_of line xs ++ (text "210-END " ++ kind ++ text "\r\n"))

-- A line that the client can read: its fields are clean, and it fits a frame.
abbrev pub Readable : List Part → Type 0
Readable ps = All (λ p. is_sound p ≡ true) ps × (length (render [] ps) < max_server_frame_size)

module _ {ℓ} {A : Type ℓ} where
  send_each-lines_of :
      (line : A → Text) (xs : List A) (sent : Text) (fd : ℕ) (s : Server)
      → send_each line xs fd (send_to_client sent fd s)
        ≡ send_to_client (sent ++ lines_of line xs) fd s
  unfolding send_each lines_of
  send_each-lines_of line [] sent fd s = rw append-nil
  send_each-lines_of line (x ∷ xs) sent fd s =
      ap (send_each line xs fd) (send-send sent (line x) fd s)
      ∙ send_each-lines_of line xs (sent ++ line x) fd s
      ∙ ap (λ t. send_to_client t fd s) (append_assoc sent (line x) (lines_of line xs))

  -- A list answer is one text that is sent.
  pub send_list-list_answer :
      (kind : Text) (line : A → Text) (xs : List A) (fd : ℕ) (s : Server)
      → send_list kind line xs fd s ≡ send_to_client (list_answer kind line xs) fd s
  unfolding send_list list_answer
  send_list-list_answer kind line xs fd s =
      ap (send_to_client (text "210-END " ++ kind ++ text "\r\n") fd)
        (send_each-lines_of line xs (text "210-BEGIN " ++ kind ++ text "\r\n") fd s)
      ∙ send-send _ _ fd s
      ∙ ap (λ t. send_to_client t fd s)
          (append_assoc (text "210-BEGIN " ++ kind ++ text "\r\n") (lines_of line xs) _)

-- From `s` to `s'` the server sends an answer to the client at `fd`, and a router that reads it from
-- its first byte to its last ends with these calls more and with no list open.
abbrev pub Shows : ℕ → Server → Server → Router → List Call → Type 0
Shows fd s s' r calls =
    (answer : Text) × (s' ≡ send_to_client answer fd s)
    × (route_frames [] answer r
        ≡ kept (record r { list_context = []; calls = r.calls ++ calls }) [])

-- How one item is written and read: its line holds `parts`, and the client makes `made` of it.
pub record Item {ℓ} (A : Type ℓ) (Valid : A → Type 0) : Type ℓ where
  pub kind : Text
  pub line : A → Text
  pub parts : A → List Part
  pub made : A → Call
  pub written : (x : A) → line x ≡ render crlf (word (text "210") ∷ parts x)
  pub read :
      (x : A) (r : Router)
      → Valid x
      → route_tokens (text "210" ∷ map content (parts x)) (record r { list_context = kind })
        ≡ call (made x) (record r { list_context = kind })
  pub readable : (x : A) → Valid x → Readable (word (text "210") ∷ parts x)
  pub kind_is_sound : is_sound (word kind) ≡ true
  pub kind_fits : length kind < 100

module _ {ℓ} {A : Type ℓ} (Valid : A → Type 0) (i : Item A Valid) where
  listing : Router → List Call → Router
  listing r calls = record r { should_disconnect = false; list_context = i.kind; calls = calls }

  items_read :
      (xs : List A) (rest : Text) (r : Router) (calls : List Call)
      → All Valid xs
      → route_frames [] (lines_of i.line xs ++ rest) (listing r calls)
        ≡ route_frames [] rest (listing r (calls ++ map i.made xs))
  unfolding lines_of listing
  items_read [] rest r calls a = rw append-nil
  items_read (x ∷ xs) rest r calls (v, a) =
      let (h, k) = i.readable x v in
      ap (λ s. route_frames [] s (listing r calls))
        (append_assoc (i.line x) (lines_of i.line xs) rest
          ∙ ap (λ t. t ++ (lines_of i.line xs ++ rest)) (i.written x))
      ∙ route_frames-render (word (text "210")) (i.parts x) (lines_of i.line xs ++ rest)
          (listing r calls) h k
      ∙ ap (λ s. go_on s (lines_of i.line xs ++ rest)) (i.read x (listing r calls) v)
      ∙ items_read xs rest r (calls ++ i.made x ∷ []) a
      ∙ ap (λ cs. route_frames [] rest (listing r cs))
          (append_assoc calls (i.made x ∷ []) (map i.made xs))

  begin_line :
      (text "210-BEGIN " ++ i.kind ++ text "\r\n")
      ≡ render crlf (word (text "210-BEGIN") ∷ word i.kind ∷ [])
  unfolding text render render_more show
  begin_line = simp append_assoc

  end_line :
      (text "210-END " ++ i.kind ++ text "\r\n")
      ≡ render crlf (word (text "210-END") ∷ word i.kind ∷ [])
  unfolding text render render_more show
  end_line = simp append_assoc

  framed_kind :
      (head : Text)
      → length head < 100
      → length (render [] (word head ∷ word i.kind ∷ [])) < max_server_frame_size
  unfolding render render_more show
  framed_kind head h =
      omega (arith, length-append head (32 ∷ (i.kind ++ [])), length-append i.kind [], i.kind_fits)

  begin_read :
      (r : Router)
      → route_tokens (text "210-BEGIN" ∷ i.kind ∷ []) r ≡ record r { list_context = i.kind }
  unfolding route_tokens text text_discrete ℕ_discrete
  begin_read r = refl

  end_read :
      (r : Router) → route_tokens (text "210-END" ∷ i.kind ∷ []) r ≡ record r { list_context = [] }
  unfolding route_tokens text text_discrete ℕ_discrete
  end_read r = refl

  quiet_read :
      (xs : List A) (r : Router)
      → All Valid xs
      → route_frames [] (list_answer i.kind i.line xs) (record r { should_disconnect = false })
        ≡ kept
            (record r {
              should_disconnect = false;
              list_context = [];
              calls = r.calls ++ map i.made xs;
            })
            []
  unfolding list_answer is_sound all_plain is_plain is_space text listing route_frames
  quiet_read xs r a =
      let quiet = record r { should_disconnect = false } in
      let ending = text "210-END " ++ i.kind ++ text "\r\n" in
      ap (λ t. route_frames [] (t ++ (lines_of i.line xs ++ ending)) quiet) begin_line
      ∙ route_frames-render (word (text "210-BEGIN")) (word i.kind ∷ [])
          (lines_of i.line xs ++ ending) quiet (refl, (i.kind_is_sound, tt))
          (framed_kind (text "210-BEGIN") (omega arith))
      ∙ ap (λ q. go_on q (lines_of i.line xs ++ ending)) (begin_read quiet)
      ∙ items_read xs ending r r.calls a
      ∙ ap (λ t. route_frames [] t (listing r (r.calls ++ map i.made xs)))
          (end_line ∙ sym (append-nil _))
      ∙ route_frames-render (word (text "210-END")) (word i.kind ∷ []) []
          (listing r (r.calls ++ map i.made xs)) (refl, (i.kind_is_sound, tt))
          (framed_kind (text "210-END") (omega arith))
      ∙ ap (λ q. go_on q []) (end_read (listing r (r.calls ++ map i.made xs)))

  list_answer_read :
      (xs : List A) (r : Router)
      → r.should_disconnect ≡ false
      → All Valid xs
      → route_frames [] (list_answer i.kind i.line xs) r
        ≡ kept (record r { list_context = []; calls = r.calls ++ map i.made xs }) []
  unfolding list_answer
  list_answer_read xs r h a =
      subst
        (λ q.
          route_frames [] (list_answer i.kind i.line xs) q
          ≡ kept (record q { list_context = []; calls = q.calls ++ map i.made xs }) [])
        (ap (λ b. record r { should_disconnect = b }) (sym h)) (quiet_read xs r a)

  -- A list answer is one text, of which the client makes one call for each item.
  pub send_list-Shows :
      (xs : List A) (fd : ℕ) (s : Server) (r : Router)
      → r.should_disconnect ≡ false
      → All Valid xs
      → Shows fd s (send_list i.kind i.line xs fd s) r (map i.made xs)
  send_list-Shows xs fd s r h a = (
    list_answer i.kind i.line xs,
    send_list-list_answer i.kind i.line xs fd s,
    list_answer_read xs r h a,
  )
