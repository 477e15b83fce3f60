-- ===== src/Sockets/Tests.antt =====
-- Runs of the sockets and the server, and the theorems at concrete inputs.
use gouda_http_server.Common.{◌≡◌, refl, true, false, none, some, List, [], ◌∷◌}
use gouda_http_server.Pool.{create, enqueue, stop}
use gouda_http_server.Sockets.{
  Socket, server_type, Address, made, no_address, make_server_socket, make_client_socket,
  client_loop, destroy, move, move_assign, accept_socket,
}
use gouda_http_server.Sockets as Sockets
use gouda_http_server.Sockets.Closed.{make_server_socket-twice}
use gouda_http_server.Sockets.Server.{Poll, idle, ready, polled, signalled, returns, throws, run}
use gouda_http_server.Sockets.Server.Run.{server, run-accepts}

abbrev taken : Address
taken = record {
  fd = some 5;
  is_reused = true;
  is_bound = false;
  is_listening = true;
  is_connected = false;
}

abbrev good : Address
good = record {
  fd = some 5;
  is_reused = true;
  is_bound = true;
  is_listening = true;
  is_connected = false;
}

abbrev listener : Socket
listener = record { fd = some 5; type = server_type }

-- The second address gets the descriptor of the first one, which was closed.
make_server_socket-twice_example :
    make_server_socket (some (taken ∷ good ∷ [])) ≡ (made listener, 5 ∷ 5 ∷ [])
make_server_socket-twice_example =
    make_server_socket-twice (taken ∷ []) good [] 5 ((refl, refl), tt) refl refl refl

-- The client has it the other way round.
client_closes : make_client_socket (some (taken ∷ [])) ≡ (no_address, 5 ∷ 5 ∷ [])
unfolding make_client_socket client_loop destroy
client_closes = refl

abbrev target : Socket
target = record { fd = some 3; type = server_type }

-- The socket that is moved to closes its own descriptor, and the other one is left empty.
moves :
    move_assign target listener [] ≡ (listener, record { fd = none; type = server_type }, 3 ∷ [])
unfolding move_assign
moves = refl

accepts : accept_socket listener (some 9) ≡ Sockets.create (some 9) Sockets.client_type
unfolding accept_socket
accepts = refl

abbrev polls : List Poll
polls = idle ∷ ready (some 7) ∷ []

run-accepts_example :
    (run
        (polled idle ∷ polled (ready (some 7)) ∷ signalled ∷ [])
        (server false listener (create 4) [])
      ≡ returns (record {
        is_running = false;
        sock = none;
        thread_pool = stop (enqueue 7 (create 4));
        closes = 5 ∷ [];
      }))
    × (run
          (polled idle ∷ polled (ready (some 7)) ∷ polled (ready none) ∷ [])
          (server false listener (create 4) [])
        ≡ throws (server true listener (enqueue 7 (create 4)) []))
unfolding destroy
run-accepts_example = run-accepts polls [] false listener (create 4) [] (tt, (tt, tt))
