-- ===== src/Client/Framing.antt =====
-- The frames do not depend on how the bytes of the server arrive.
use mathlib.Core.List.{append_assoc, append-nil}
use myteams.Prelude.{
  ℕ, ◌≤◌, [], ◌∷◌, ◌++◌, ◌≡◌, refl, ap, sym, ◌∙◌, Bool, true, false, not, ◌&&◌, Text, length, ltb,
  ◌==◌, if◌then◌else◌, arith, Bool-cases, inl, inr, length-append,
}
use myteams.Loop.{strip_return, bytes}
use myteams.Client.Calls.{Router}
use myteams.Client.Router.{route_frame}
use myteams.Client.Frames.{
  Routed, kept, stopped, exceeded, max_server_frame_size, bounded, route_frames,
  handle_server_readable,
}

unfoldable pub no_newline : Text → Bool
no_newline [] = true
no_newline (c ∷ s) = not (c == 10) && no_newline s

-- what comes behind bytes that were kept
abbrev pub behind : Routed → (Router → Text → Routed) → Routed
behind (kept r rest) f = f r rest
behind (stopped r) f = stopped r
behind (exceeded r) f = exceeded r

-- One byte: the end of a frame, or a longer frame.
pub route_frames-newline :
    (line s : Text) (r : Router)
    → route_frames line (10 ∷ s) r ≡ (
        if ltb max_server_frame_size (length line)
        then exceeded r
        else if (route_frame (strip_return line) r).should_disconnect
        then stopped (route_frame (strip_return line) r)
        else route_frames [] s (route_frame (strip_return line) r))
unfolding route_frames
route_frames-newline line s r = refl

route_frames-byte :
    (line : Text) (c : ℕ) (s : Text) (r : Router)
    → (c == 10) ≡ false
    → route_frames line (c ∷ s) r ≡ route_frames (line ++ c ∷ []) s r
unfolding route_frames
route_frames-byte line c s r h = rw (h, route_frames) refl

newline_eq : (c : ℕ) → (c == 10) ≡ true → c ≡ 10
newline_eq c h = ground arith

behind-if :
    (test : Bool) (r : Router) (x y : Routed) (f : Router → Text → Routed)
    → x ≡ behind y f
    → (if test then stopped r else x) ≡ behind (if test then stopped r else y) f
behind-if true r x y f h = refl
behind-if false r x y f h = h

route_frames-append :
    (line a b : Text) (r : Router)
    → route_frames line (a ++ b) r
      ≡ behind (route_frames line a r) λ r' rest. route_frames rest b r'
unfolding route_frames
route_frames-append line [] b r = refl
route_frames-append line (c ∷ a) b r =
    let r' = route_frame (strip_return line) r in
    elim (Bool-cases (c == 10)) [
      | inl e ↦ elim (Bool-cases (ltb max_server_frame_size (length line))) [
        | inl long ↦ rw (e, long, route_frames) refl
        | inr short ↦
            rw (e, short, route_frames)
              (behind-if r'.should_disconnect r' _ _ (λ r' rest. route_frames rest b r')
                (route_frames-append [] a b r'))
      ]
      | inr e ↦ rw (e, route_frames) (route_frames-append (line ++ c ∷ []) a b r)
    ]

pub route_frames-no_newline :
    (line t s : Text) (r : Router)
    → no_newline t ≡ true
    → route_frames line (t ++ s) r ≡ route_frames (line ++ t) s r
unfolding no_newline
route_frames-no_newline line [] s r h = rw (append-nil line)
route_frames-no_newline line (c ∷ t) s r h =
    route_frames-byte line c (t ++ s) r (ground arith)
    ∙ route_frames-no_newline (line ++ c ∷ []) t s r (ground arith)
    ∙ ap (λ l. route_frames l s r) (append_assoc line (c ∷ []) t)

route_frames_long :
    (line s : Text) (r : Router)
    → ltb max_server_frame_size (length line) ≡ true
    → bounded (route_frames line s r) ≡ exceeded r
unfolding route_frames
route_frames_long line [] r h = rw h
route_frames_long line (c ∷ s) r h = elim (Bool-cases (c == 10)) [
  | inl e ↦ rw (e, h, route_frames) refl
  | inr e ↦
      rw (e, route_frames)
        (route_frames_long (line ++ c ∷ []) s r (ground (arith, length-append line (c ∷ []))))
]

-- What is kept is an unfinished frame.
abbrev KeptLine : Routed → Type 0
KeptLine (kept r rest) = no_newline rest ≡ true
KeptLine _ = Unit

no_newline-append :
    (line : Text) (c : ℕ)
    → no_newline line ≡ true
    → (c == 10) ≡ false
    → no_newline (line ++ c ∷ []) ≡ true
unfolding no_newline
no_newline-append [] c h k = ground arith
no_newline-append (x ∷ line) c h k = ground (arith, no_newline-append line c)

KeptLine-if :
    (test : Bool) (r : Router) (x : Routed) → KeptLine x → KeptLine (if test then stopped r else x)
KeptLine-if true r x k = tt
KeptLine-if false r x k = k

route_frames-KeptLine :
    (line s : Text) (r : Router) → no_newline line ≡ true → KeptLine (route_frames line s r)
unfolding route_frames no_newline
route_frames-KeptLine line [] r h = h
route_frames-KeptLine line (c ∷ s) r h =
    let r' = route_frame (strip_return line) r in
    elim (Bool-cases (c == 10)) [
      | inl e ↦ elim (Bool-cases (ltb max_server_frame_size (length line))) [
        | inl long ↦ rw (e, long, route_frames) tt
        | inr short ↦
            rw (e, short, route_frames)
              (KeptLine-if r'.should_disconnect r' _ (route_frames-KeptLine [] s r' refl))
      ]
      | inr e ↦
          rw (e, route_frames)
            (route_frames-KeptLine (line ++ c ∷ []) s r (no_newline-append line c h e))
    ]

resumed :
    (x : Routed) (b : Text)
    → KeptLine x
    → bounded (behind x λ r rest. route_frames rest b r)
      ≡ behind (bounded x) λ r rest. bounded (route_frames [] (rest ++ b) r)
resumed (stopped r) b k = refl
resumed (exceeded r) b k = refl
resumed (kept r rest) b k = elim (Bool-cases (ltb max_server_frame_size (length rest))) [
  | inl long ↦ rw (long, bounded) (route_frames_long rest b r long)
  | inr short ↦ rw (short, bounded) (ap bounded (sym (route_frames-no_newline [] rest b r k)))
]

within :
    (x : Routed) (r : Router) (rest : Text)
    → KeptLine x
    → bounded x ≡ kept r rest
    → (no_newline rest ≡ true) × (length rest ≤ max_server_frame_size)
within (stopped r') r rest k h = cc
within (exceeded r') r rest k h = cc
within (kept r' rest') r rest k h = ground arith

-- Bytes of the server have the effect on the client that they have in two pieces, wherever they
-- are cut: the same calls, the same buffer, and the same end of the client, be it a logout or a
-- frame that is too long.
pub handle_server_readable-append :
    (a b buffer : Text) (r : Router)
    → handle_server_readable (bytes (a ++ b)) buffer r
      ≡ behind
          (handle_server_readable (bytes a) buffer r)
          λ r' rest. handle_server_readable (bytes b) rest r'
unfolding handle_server_readable no_newline
handle_server_readable-append a b buffer r =
    ap (λ s. bounded (route_frames [] s r)) (sym (append_assoc buffer a b))
    ∙ ap bounded (route_frames-append [] (buffer ++ a) b r)
    ∙ resumed (route_frames [] (buffer ++ a) r) b (route_frames-KeptLine [] (buffer ++ a) r refl)

-- Between two reads the buffer of the client holds one unfinished frame of at most 65536 bytes.
pub handle_server_readable_bounds :
    (chunk buffer : Text) (r r' : Router) (rest : Text)
    → handle_server_readable (bytes chunk) buffer r ≡ kept r' rest
    → (no_newline rest ≡ true) × (length rest ≤ max_server_frame_size)
unfolding handle_server_readable no_newline
handle_server_readable_bounds chunk buffer r r' rest h =
    within (route_frames [] (buffer ++ chunk) r) r' rest
      (route_frames-KeptLine [] (buffer ++ chunk) r refl) h
