-- ===== src/Client/Running.antt =====
-- `run` of client/ClientApplication.cpp, from the connect to the end.
use mathlib.Core.List.{append_assoc}
use myteams.Prelude.{
  List, [], ◌∷◌, ◌++◌, ◌≡◌, refl, ap, sym, ◌∙◌, some, Text, All, Option-cases, inl, inr, arith,
}
use myteams.Loop.{drop}
use myteams.Poller.{add_file_descriptor, pollin}
use myteams.Client.Network.{TcpClient, new_tcp_client, unsent, disconnect}
use myteams.Client.Connecting.{Attempt, Sockets, addresses, connected_to}
use myteams.Client.Connected.{Settles, first_connected, connect_to-ends}
use myteams.Client.Application.{
  App, Outcome, running, ended, failed, ClientEvent, run_event_loop, finished, run,
}
use myteams.Client.Stream.{stream}
use myteams.Client.Growing.{app_of, frame_of}
use myteams.Client.Wire.{frames_of, Handled, run_event_loop-Handled}

frames_of-append : (bs cs : List ClientEvent) → frames_of (bs ++ cs) ≡ frames_of bs ++ frames_of cs
unfolding frames_of
frames_of-append [] cs = refl
frames_of-append (b ∷ bs) cs =
    ap (λ w. frame_of b ++ w) (frames_of-append bs cs)
    ∙ sym (append_assoc (frame_of b) (frames_of bs) (frames_of cs))

disconnect-written : (c : TcpClient) → (disconnect c).written ≡ c.written
unfolding disconnect
disconnect-written c = ground arith

finished-written : (o : Outcome) → (app_of (finished o)).client.written ≡ (app_of o).client.written
finished-written (running a) = refl
finished-written (ended a) = disconnect-written a.client
finished-written (failed a) = refl

-- What the client has written is a beginning of what was typed.
abbrev pub HasSent : List ClientEvent → Outcome → Type 0
HasSent es o = (lost : Text) × ((app_of o).client.written ++ lost ≡ frames_of es)

loop-HasSent :
    (es : List ClientEvent) (a : App)
    → Handled es a
    → stream a.client ≡ []
    → HasSent es (finished (run_event_loop es a))
unfolding stream
loop-HasSent es a h e =
    let c = (app_of (run_event_loop es a)).client in
    (
      unsent c ++ frames_of h.behind,
      ap (λ w. w ++ (unsent c ++ frames_of h.behind)) (finished-written (run_event_loop es a))
          ∙ sym (append_assoc c.written (unsent c) (frames_of h.behind))
          ∙ ap (λ w. w ++ frames_of h.behind) (h.sent_so_far ∙ ap (λ w. w ++ frames_of h.before) e)
          ∙ sym (frames_of-append h.before h.behind)
          ∙ ap frames_of (sym h.split),
    )

-- A client that starts runs to a result, over any events, where no call of its connect is
-- interrupted for ever and the clock of `poll` passes its deadline. What it has written to the
-- server by then is, byte for byte, a beginning of the commands that were typed and sent, each with
-- "\r\n", in the order of typing.
pub run-HasSent :
    (tries : List Attempt) (es : List ClientEvent) (a : App)
    → All Settles tries
    → (s : Sockets) × (o : Outcome) × (run
          (addresses tries)
          es
          (record a { client = new_tcp_client })
        ≡ some (s, o))
      × HasSent es o
run-HasSent tries es a h =
    let (s, r, o) = connect_to-ends tries new_tcp_client h in
    elim (Option-cases (first_connected tries)) [
      | inl e ↦ (
        s,
        failed (record a { client = new_tcp_client }),
        unfold run connected_to disconnect in rw (r, e, run) refl,
        (frames_of es, refl),
      )
      | inr (fd, e) ↦
          let b : App = record a {
            client = record new_tcp_client { socket_fd = some fd };
            poller = add_file_descriptor fd pollin (add_file_descriptor 0 pollin a.poller);
          } in
          (
            s,
            finished (run_event_loop es b),
            unfold run connected_to disconnect in rw (r, e, run) refl,
            loop-HasSent es b (run_event_loop-Handled es b (omega arith))
                (unfold stream unsent drop in refl),
          )
    ]
