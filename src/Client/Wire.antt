-- ===== src/Client/Wire.antt =====
-- What the client puts on the wire, against what was typed.
use mathlib.Core.List.{append_assoc, append-nil}
use myteams.Prelude.{List, [], ◌∷◌, ◌++◌, ◌≡◌, ◌≢◌, ◌⊎◌, refl, ap, sym, ◌∙◌, Text, inl, inr}
use myteams.Client.Stream.{stream, IsWithin}
use myteams.Client.Application.{
  App, Outcome, running, ended, failed, ClientEvent, handle_event, run_event_loop,
}
use myteams.Client.Growing.{app_of, frame_of, Grows, handle_event-Grows}

unfoldable pub frames_of : List ClientEvent → Text
frames_of [] = []
frames_of (e ∷ es) = frame_of e ++ frames_of es

-- The events that were handled before the client ended, all of them where it has not.
pub record Handled (es : List ClientEvent) (a : App) : Type 0 where
  pub before : List ClientEvent
  pub behind : List ClientEvent
  pub split : es ≡ before ++ behind
  pub all : (b : App) → run_event_loop es a ≡ running b → behind ≡ []
  pub sent_so_far :
      stream (app_of (run_event_loop es a)).client ≡ stream a.client ++ frames_of before

-- The run behind one event.
run_event_loop-step :
    (e : ClientEvent) (es : List ClientEvent) (a : App) (o : Outcome)
    → handle_event e a ≡ o
    → run_event_loop (e ∷ es) a
      ≡ elim o [ running b ↦ run_event_loop es b | ended b ↦ ended b | failed b ↦ failed b ]
unfolding run_event_loop
run_event_loop-step e es a o h = rw (h, run_event_loop) refl

not_running : (o : Outcome) {a b : App} → (o ≡ ended a) ⊎ (o ≡ failed a) → o ≢ running b
not_running o (inl e) r = cc
not_running o (inr e) r = cc

module _ (e : ClientEvent) (es : List ClientEvent) (a : App) where
  stopped_there :
      (o : Outcome) (b : App)
      → run_event_loop (e ∷ es) a ≡ o
      → app_of o ≡ b
      → (o ≡ ended b) ⊎ (o ≡ failed b)
      → Grows a b (frame_of e)
      → Handled (e ∷ es) a
  unfolding frames_of
  stopped_there o b h same stop g = record {
    before = e ∷ [];
    behind = es;
    split = refl;
    all = λ c r. absurd (not_running o stop (sym h ∙ r));
    sent_so_far =
        ap (λ x. stream (app_of x).client) h
        ∙ ap (λ x. stream x.client) same
        ∙ g.grown
        ∙ ap (λ w. stream a.client ++ w) (sym (append-nil (frame_of e)));
  }

  went_on :
      (b : App)
      → run_event_loop (e ∷ es) a ≡ run_event_loop es b
      → Grows a b (frame_of e)
      → Handled es b
      → Handled (e ∷ es) a
  unfolding frames_of
  went_on b h g rest = record {
    before = e ∷ rest.before;
    behind = rest.behind;
    split = ap (◌∷◌ e) rest.split;
    all = λ c r. rest.all c (sym h ∙ r);
    sent_so_far =
        ap (λ x. stream (app_of x).client) h
        ∙ rest.sent_so_far
        ∙ ap (λ w. w ++ frames_of rest.before) g.grown
        ∙ append_assoc (stream a.client) (frame_of e) (frames_of rest.before);
  }

  after_event :
      (o : Outcome)
      → handle_event e a ≡ o
      → Grows a (app_of o) (frame_of e)
      → ((b : App) → IsWithin b.client → Handled es b)
      → Handled (e ∷ es) a
  after_event (running b) h g rest =
      went_on b (run_event_loop-step e es a (running b) h) g (rest b g.within)
  after_event (ended b) h g rest =
      stopped_there (ended b) b (run_event_loop-step e es a (ended b) h) refl (inl refl) g
  after_event (failed b) h g rest =
      stopped_there (failed b) b (run_event_loop-step e es a (failed b) h) refl (inr refl) g

pub run_event_loop-Handled : (es : List ClientEvent) (a : App) → IsWithin a.client → Handled es a
unfolding run_event_loop frames_of
run_event_loop-Handled [] a h = record {
  before = [];
  behind = [];
  split = refl;
  all = λ b r. refl;
  sent_so_far = sym (append-nil (stream a.client));
}
run_event_loop-Handled (e ∷ es) a h =
    after_event e es a (handle_event e a) refl (handle_event-Grows e a h)
      (run_event_loop-Handled es)
