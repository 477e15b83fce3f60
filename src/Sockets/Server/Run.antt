-- ===== src/Sockets/Server/Run.antt =====
-- Runs of the server.
use gouda_http_server.Common.{
  ℕ, ◌≡◌, refl, ◌∙◌, Bool, true, false, none, some, List, [], ◌∷◌, ◌++◌, map, All,
}
use gouda_http_server.Pool.{ThreadPool, enqueue, stop}
use gouda_http_server.Sockets as Sockets
use gouda_http_server.Sockets.{Socket, destroy}
use gouda_http_server.Sockets.Server.{
  Server, Poll, poll_failed, idle, ready, Event, polled, signalled, accept_and_handle, turn,
  returns, throws, shut_down, run_loop, run,
}

-- `accept` does not fail.
abbrev pub IsGood : Poll → Type 0
IsGood (ready none) = ⊥
IsGood _ = Unit

-- The tasks of the connections, in their order.
abbrev pub enqueue_all : List Poll → ThreadPool → ThreadPool
enqueue_all [] pool = pool
enqueue_all (ready (some fd) ∷ polls) pool = enqueue_all polls (enqueue fd pool)
enqueue_all (p ∷ polls) pool = enqueue_all polls pool

abbrev pub server : Bool → Socket → ThreadPool → List ℕ → Server
server is_running sock pool closes = record {
  is_running = is_running;
  sock = some sock;
  thread_pool = pool;
  closes = closes;
}

run_loop-polls :
    (polls : List Poll) (events : List Event) (sock : Socket) (pool : ThreadPool) (closes : List ℕ)
    → All IsGood polls
    → run_loop (map polled polls ++ events) (server true sock pool closes)
      ≡ run_loop events (server true sock (enqueue_all polls pool) closes)
unfolding run_loop turn accept_and_handle Sockets.create
run_loop-polls [] events sock pool closes a = refl
run_loop-polls (poll_failed ∷ polls) events sock pool closes a =
    run_loop-polls polls events sock pool closes a.1
run_loop-polls (idle ∷ polls) events sock pool closes a =
    run_loop-polls polls events sock pool closes a.1
run_loop-polls (ready (some fd) ∷ polls) events sock pool closes a =
    run_loop-polls polls events sock (enqueue fd pool) closes a.1
run_loop-polls (ready none ∷ polls) events sock pool closes a = absurd a.0

-- Let a server with a socket run, and let no `accept` fail so far. Then each connection is a task of
-- the pool, in its order. A signal behind that makes `run` return, with its socket closed and the
-- pool stopped; a failed `accept` makes `run` end by an exception, with the pool not stopped.
pub run-accepts :
    (polls : List Poll) (events : List Event) (is_running : Bool) (sock : Socket)
    (pool : ThreadPool) (closes : List ℕ)
    → All IsGood polls
    → (run (map polled polls ++ signalled ∷ events) (server is_running sock pool closes)
        ≡ returns (record {
          is_running = false;
          sock = none;
          thread_pool = stop (enqueue_all polls pool);
          closes = destroy sock closes;
        }))
      × (run (map polled polls ++ polled (ready none) ∷ events) (server is_running sock pool closes)
          ≡ throws (server true sock (enqueue_all polls pool) closes))
unfolding run run_loop turn accept_and_handle Sockets.create shut_down
run-accepts polls events is_running sock pool closes a = (
  run_loop-polls polls (signalled ∷ events) sock pool closes a ∙ returns_at events _,
  run_loop-polls polls (polled (ready none) ∷ events) sock pool closes a,
)
  where
    returns_at :
        (events : List Event) (pool : ThreadPool)
        → run_loop events (record (server true sock pool closes) { is_running = false })
          ≡ returns (record {
            is_running = false;
            sock = none;
            thread_pool = stop pool;
            closes = destroy sock closes;
          })
    returns_at [] pool = refl
    returns_at (e ∷ events) pool = refl
