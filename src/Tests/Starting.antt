-- ===== src/Tests/Starting.antt =====
-- Programs that start, and a client that connects.
use myteams.Prelude.{
  [], ◌∷◌, ◌++◌, ◌≡◌, refl, true, none, some, List, text, ◌==◌, ltb, ◌||◌, if◌then◌else◌,
  text_discrete,
}
use myteams.Protocol.{to_string}
use myteams.Protocol.Words.{is_space}
use myteams.Programs.{parse_port, max_port, server_main, refused}
use myteams.Programs.Ports.{parse_port-to_string}
use myteams.Client.System.{socket, returned, failed, eintr, einprogress}
use myteams.Client.Network.{new_tcp_client, disconnect}
use myteams.Client.Connecting.{
  connect_attempt, Attempt, Sockets, addresses, connected_to, connect_to,
}
use myteams.Client.Application.{Outcome, run}
use myteams.Client.Running.{HasSent, run-HasSent}
use myteams.Tests.Receiving.{app, typed, writable}
use myteams.Client.Connected.{first_connected, connect_to-ends, left_open, has_answer, passes}

parse_port-to_string_example :
    parse_port (to_string 4242) ≡ (if 4242 == 0 || ltb max_port 4242 then none else some 4242)
parse_port-to_string_example = parse_port-to_string 4242

-- A number behind a minus is a port, if it is 2 ^ 64 less the port.
minus_port : parse_port (text "-18446744073709551535") ≡ some 81
unfolding text is_space parse_port
minus_port = refl

port_out_of_range : server_main (λ port. true) (text "65536" ∷ []) ≡ refused
unfolding text is_space text_discrete server_main
port_out_of_range = refl

-- A call that is interrupted once and then refused, and one that is in progress.
abbrev tried : List Attempt
tried =
    record {
      opened = returned 7;
      connects = failed eintr ∷ failed 111 ∷ [];
      pending = record {
        start = 0;
        waits = (record { now = 5000000000; answer = λ t. returned 0 }) ∷ [];
        connect_error = returned 0;
      };
      closed = returned 0;
    }
    ∷ record {
      opened = returned 8;
      connects = failed einprogress ∷ [];
      pending = record {
        start = 10;
        waits =
            (record { now = 20; answer = λ t. failed eintr })
            ∷ (record { now = 30; answer = λ t. returned 1 })
            ∷ (record { now = 5000000010; answer = λ t. returned 0 })
            ∷ [];
        connect_error = returned 0;
      };
      closed = returned 0;
    }
    ∷ []

second_connected : first_connected tried ≡ some 8
unfolding first_connected socket connect_attempt
second_connected = refl

connect_to-ends_example :
    (s : Sockets) × (connect_to (addresses tried) new_tcp_client
      ≡ some (s, connected_to (disconnect new_tcp_client) (first_connected tried)))
    × (s.opened ≡ s.closed ++ left_open (first_connected tried))
unfolding has_answer passes
connect_to-ends_example = connect_to-ends tried new_tcp_client ((refl, refl), ((refl, refl), tt))

run-HasSent_example :
    (s : Sockets) × (o : Outcome) × (run
        (addresses tried)
        (typed ∷ writable ∷ [])
        (record app { client = new_tcp_client })
      ≡ some (s, o))
    × HasSent (typed ∷ writable ∷ []) o
unfolding has_answer passes
run-HasSent_example =
    run-HasSent tried (typed ∷ writable ∷ []) app ((refl, refl), ((refl, refl), tt))
