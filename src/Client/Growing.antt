-- ===== src/Client/Growing.antt =====
-- What each event adds to the bytes that the client sends.
use mathlib.Core.List.{append-nil}
use myteams.Prelude.{
  ℕ, List, [], ◌++◌, ◌≡◌, refl, ap, sym, ◌∙◌, true, false, not, ◌&&◌, Option, none, some, Text,
  text, ◌==◌, Bool-cases, inl, inr, if◌then◌else◌,
}
use myteams.Loop.{strip_return, ReadResult}
use myteams.Poller.{pollin, pollout, has_event, remove_file_descriptor}
use myteams.Client.CommandLine.{Dispatch, dispatch_command_line, sent, ignored, help, printed}
use myteams.Client.Network.{send_all, flush_pending_writes}
use myteams.Client.Stream.{
  stream, IsWithin, flush-stream, flush-IsWithin, send_all-stream, send_all-IsWithin,
}
use myteams.Client.Frames.{kept, stopped, exceeded, Routed}
use myteams.Client.Application.{
  App, Outcome, running, ended, failed, has_error, is_server, update_server_watched_events,
  apply_dispatch, handle_stdin_event, handle_server_event, ClientEvent, handle_event, after_reading,
  write_out,
}

abbrev pub app_of : Outcome → App
app_of (running a) = a
app_of (ended a) = a
app_of (failed a) = a

-- the bytes of a command that is sent
abbrev wire : Dispatch → Text
wire (sent command frame) = frame ++ text "\r\n"
wire _ = []

-- The bytes that an event calls for: those of the command line that was typed.
unfoldable pub frame_of : ClientEvent → Text
frame_of e =
    if e.event.fd == 0 && not (has_error e.event.revents) && has_event e.event.revents pollin
    then elim e.line [ none ↦ [] | some typed ↦ wire (dispatch_command_line (strip_return typed)) ]
    else []

-- From `a` to `b` the stream grows by `added`.
pub record Grows (a b : App) (added : Text) : Type 0 where
  pub grown : stream b.client ≡ stream a.client ++ added
  pub within : IsWithin b.client

apply_dispatch-Grows :
    (p : Dispatch) (writes : List ℕ) (a : App)
    → IsWithin a.client
    → Grows a (apply_dispatch p writes a) (wire p)
unfolding apply_dispatch
apply_dispatch-Grows ignored writes a h = record { grown = sym (append-nil _); within = h }
apply_dispatch-Grows help writes a h = record { grown = sym (append-nil _); within = h }
apply_dispatch-Grows (printed t) writes a h = record { grown = sym (append-nil _); within = h }
apply_dispatch-Grows (sent command frame) writes a h = record {
  grown =
      (flush-stream writes (send_all (frame ++ text "\r\n") a.client)).0
      ∙ send_all-stream (frame ++ text "\r\n") a.client h;
  within = flush-IsWithin writes _ (send_all-IsWithin (frame ++ text "\r\n") a.client h);
}

stays : (a b : App) → b.client ≡ a.client → IsWithin a.client → Grows a b []
stays a b e h = record { grown = ap stream e ∙ sym (append-nil (stream a.client)); within = rw e h }

flushed-Grows :
    (writes : List ℕ) (a b : App)
    → b.client ≡ (flush_pending_writes writes a.client).0
    → IsWithin a.client
    → Grows a b []
flushed-Grows writes a b e h = record {
  grown = ap stream e ∙ (flush-stream writes a.client).0 ∙ sym (append-nil (stream a.client));
  within = rw e (flush-IsWithin writes a.client h);
}

ended-Grows : (a : App) → IsWithin a.client → Grows a a []
ended-Grows a h = stays a a refl h

typed-Grows :
    (line : Option Text) (writes : List ℕ) (a : App)
    → IsWithin a.client
    → Grows a
        (app_of (elim line [
          | none ↦ running (record a { poller = remove_file_descriptor 0 a.poller })
          | some typed ↦
              running (apply_dispatch (dispatch_command_line (strip_return typed)) writes a)
        ]))
        (elim line [ none ↦ [] | some typed ↦ wire (dispatch_command_line (strip_return typed)) ])
typed-Grows none writes a h = stays a _ refl h
typed-Grows (some typed) writes a h =
    apply_dispatch-Grows (dispatch_command_line (strip_return typed)) writes a h

handle_stdin_event-Grows :
    (e : ClientEvent) (a : App)
    → IsWithin a.client
    → (e.event.fd == 0) ≡ true
    → Grows a (app_of (handle_stdin_event e.event.revents e.line e.writes a)) (frame_of e)
unfolding handle_stdin_event frame_of
handle_stdin_event-Grows e a h k = elim (Bool-cases (has_error e.event.revents)) [
  | inl bad ↦ rw (bad, k) (ended-Grows a h)
  | inr good ↦ elim (Bool-cases (has_event e.event.revents pollin)) [
    | inl readable ↦ rw (good, readable, k) (typed-Grows e.line e.writes a h)
    | inr silent ↦ rw (good, silent, k) (ended-Grows a h)
  ]
]

after_reading-client : (a : App) (r : Routed) → (app_of (after_reading a r)).client ≡ a.client
unfolding update_server_watched_events
after_reading-client a (kept r buffer) = refl
after_reading-client a (stopped r) = refl
after_reading-client a (exceeded r) = refl

handle_server_event-Grows :
    (revents : ℕ) (received : ReadResult) (writes : List ℕ) (a : App)
    → IsWithin a.client
    → Grows a (app_of (handle_server_event revents received writes a)) []
unfolding handle_server_event update_server_watched_events
handle_server_event-Grows revents received writes a h = elim (Bool-cases (has_error revents)) [
  | inl bad ↦ rw bad (ended-Grows a h)
  | inr good ↦ elim (Bool-cases (has_event revents pollout)) [
    | inl writable ↦ elim (Bool-cases (has_event revents pollin)) [
      | inl readable ↦
          rw (good, writable, readable)
            (flushed-Grows writes a _ (after_reading-client (write_out writes a) _) h)
      | inr silent ↦ rw (good, writable, silent) (flushed-Grows writes a _ refl h)
    ]
    | inr blocked ↦ elim (Bool-cases (has_event revents pollin)) [
      | inl readable ↦ rw (good, blocked, readable) (stays a _ (after_reading-client a _) h)
      | inr silent ↦ rw (good, blocked, silent) (stays a _ refl h)
    ]
  ]
]

-- Nothing is typed where the descriptor is not that of the input.
other_frame : (e : ClientEvent) → (e.event.fd == 0) ≡ false → frame_of e ≡ []
unfolding frame_of
other_frame e k = rw k

pub handle_event-Grows :
    (e : ClientEvent) (a : App)
    → IsWithin a.client
    → Grows a (app_of (handle_event e a)) (frame_of e)
unfolding handle_event
handle_event-Grows e a h = elim (Bool-cases (e.event.fd == 0)) [
  | inl k ↦ rw (k, handle_event) (handle_stdin_event-Grows e a h k)
  | inr k ↦ elim (Bool-cases (is_server a.client.socket_fd e.event.fd)) [
    | inl there ↦
        rw (k, there, other_frame e k, handle_event)
          (handle_server_event-Grows e.event.revents e.received e.writes a h)
    | inr other ↦ rw (k, other, other_frame e k, handle_event) (ended-Grows a h)
  ]
]
