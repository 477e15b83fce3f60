-- ===== src/Sockets/Server.antt =====
-- `Server` of include/http_server.hpp and src/http_server.cpp. A task of the thread pool is the
-- descriptor of the client that it handles.
pub mod Run
use gouda_http_server.Common.{ℕ, Bool, true, false, Option, none, some, List, [], ◌∷◌, ◌++◌}
use gouda_http_server.Pool.{ThreadPool, create, enqueue, stop}
use gouda_http_server.Sockets as Sockets
use gouda_http_server.Sockets.{
  Socket, client_type, destroy, Address, made, getaddrinfo_failed, reuse_failed, no_address,
  make_server_socket,
}

-- `closes` are the calls of `::close` so far, which the program does not keep.
pub record Server : Type 0 where
  pub is_running : Bool
  pub sock : Option Socket
  pub thread_pool : ThreadPool
  pub closes : List ℕ

-- What `poll` gives, and what `accept` gives behind it; `idle` is a timeout, or no `POLLIN`.
pub data Poll : Type 0 where
  poll_failed idle : Poll
  ready : Option ℕ → Poll

-- A turn of the loop, or a signal.
pub data Event : Type 0 where
  polled : Poll → Event
  signalled : Event

-- The constructor; `none` is its exception.
unfoldable pub start : ℕ → Option (List Address) → Option Server
start thread_pool_size addresses =
    let (result, closes) = make_server_socket addresses in
    elim result [
      | made sock ↦ some (record {
        is_running = false;
        sock = some sock;
        thread_pool = create thread_pool_size;
        closes = closes;
      })
      | getaddrinfo_failed ↦ none
      | reuse_failed ↦ none
      | no_address ↦ none
    ]

-- `none` is the exception of the constructor of `client_sock`, which goes before the test.
unfoldable pub accept_and_handle : Poll → Server → Option Server
accept_and_handle poll_failed s = some s
accept_and_handle idle s = some s
accept_and_handle (ready client) s = elim s.sock [
  | none ↦ some s
  | some sock ↦ elim (Sockets.create client client_type) [
    | none ↦ none
    | some client_sock ↦ elim client_sock.fd [
      | none ↦ some s
      | some fd ↦ some (record s { thread_pool = enqueue fd s.thread_pool })
    ]
  ]
]

-- `signal_handler`, and a turn of the loop.
unfoldable pub turn : Event → Server → Option Server
turn signalled s = some (record s { is_running = false })
turn (polled p) s = accept_and_handle p s

-- How `run` ends: the loop waits for the next event, it returns, or an exception leaves it.
pub data Ending : Type 0 where
  waits returns throws : Server → Ending

-- Behind the loop.
unfoldable pub shut_down : Server → Server
shut_down s = record s {
  sock = none;
  thread_pool = stop s.thread_pool;
  closes = elim s.sock [ none ↦ s.closes | some sock ↦ destroy sock s.closes ];
}

unfoldable pub run_loop : List Event → Server → Ending
run_loop [] s = elim s.is_running [ true ↦ waits s | false ↦ returns (shut_down s) ]
run_loop (e ∷ events) s = elim s.is_running [
  | false ↦ returns (shut_down s)
  | true ↦ elim (turn e s) [ none ↦ throws s | some s' ↦ run_loop events s' ]
]

unfoldable pub run : List Event → Server → Ending
run events s = run_loop events (record s { is_running = true })
