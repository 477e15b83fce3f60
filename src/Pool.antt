-- ===== src/Pool.antt =====
-- `ThreadPool` of include/thread_pool.hpp and src/thread_pool.cpp: its operations, and the steps of
-- its workers in every interleaving. A section under `m_mutex` is one step, and a call of
-- `notify_one` or `notify_all` behind it is a step of its own. A task is a number. A task that
-- throws a `std::exception` ends like any other; other exceptions end the program.
mod Tests
pub mod Counted
pub mod Live
pub mod Progress
pub mod Stranded
use gouda_http_server.Common.{
  ℕ, zero, suc, ◌+◌, ◌-◌, ◌%◌, ◌^◌, ◌≡◌, Bool, true, false, List, [], ◌∷◌, ◌++◌,
}

-- A worker is blocked in the wait for `m_condition`, is awake at the head of its loop or to test the
-- condition, runs a task, or has left.
pub data Worker : Type 0 where
  waiting : Worker
  awake : Worker
  running : ℕ → Worker
  exited : Worker

-- The members; `stop_requested` is the stop token of the workers, which the destructors of
-- `m_workers` set. `notify_ones` and `notify_alls` are the calls on `m_condition` that `enqueue` and
-- `stop` are still to make, behind their sections. `submitted` and `started` are the tasks so far,
-- which the program does not keep.
pub record ThreadPool : Type 0 where
  pub workers : List Worker
  pub tasks : List ℕ
  pub pending_tasks : ℕ
  pub is_stopped : Bool
  pub stop_requested : Bool
  pub notify_ones : ℕ
  pub notify_alls : ℕ
  pub submitted : List ℕ
  pub started : List ℕ

abbrev pub awake_workers : ℕ → List Worker
awake_workers zero = []
awake_workers (suc n) = awake ∷ awake_workers n

-- The constructor. The destructor is `stop`, unless the pool is stopped, and then the stop request
-- of each `std::jthread`.
unfoldable pub create : ℕ → ThreadPool
create num_threads = record {
  workers = awake_workers num_threads;
  tasks = [];
  pending_tasks = 0;
  is_stopped = false;
  stop_requested = false;
  notify_ones = 0;
  notify_alls = 0;
  submitted = [];
  started = [];
}

unfoldable pub enqueue : ℕ → ThreadPool → ThreadPool
enqueue task p = record p {
  tasks = p.tasks ++ task ∷ [];
  pending_tasks = (p.pending_tasks + 1) % 2 ^ 64;
  notify_ones = p.notify_ones + 1;
  submitted = p.submitted ++ task ∷ [];
}

unfoldable pub stop : ThreadPool → ThreadPool
stop p = record p { is_stopped = true; notify_alls = p.notify_alls + 1 }

-- The worker between `xs` and `ys` wakes up.
unfoldable pub wake : List Worker → List Worker → ThreadPool → ThreadPool
wake xs ys p = record p { workers = xs ++ awake ∷ ys }

-- All that wait wake up.
abbrev pub all_awake : List Worker → List Worker
all_awake [] = []
all_awake (waiting ∷ ws) = awake ∷ all_awake ws
all_awake (awake ∷ ws) = awake ∷ all_awake ws
all_awake (running t ∷ ws) = running t ∷ all_awake ws
all_awake (exited ∷ ws) = exited ∷ all_awake ws

unfoldable pub wake_all : ThreadPool → ThreadPool
wake_all p = record p { workers = all_awake p.workers }

-- The condition does not hold: the worker between `xs` and `ys` blocks.
unfoldable pub sleep : List Worker → List Worker → ThreadPool → ThreadPool
sleep xs ys p = record p { workers = xs ++ waiting ∷ ys }

-- `front` and `pop`: the worker between `xs` and `ys` has the task.
unfoldable pub take_task : List Worker → List Worker → ℕ → List ℕ → ThreadPool → ThreadPool
take_task xs ys task rest p = record p {
  workers = xs ++ running task ∷ ys;
  tasks = rest;
  started = p.started ++ task ∷ [];
}

-- `--m_pending_tasks` behind the task.
unfoldable pub finish_task : List Worker → List Worker → ThreadPool → ThreadPool
finish_task xs ys p = record p {
  workers = xs ++ awake ∷ ys;
  pending_tasks = (p.pending_tasks + (2 ^ 64 - 1)) % 2 ^ 64;
}

unfoldable pub leave : List Worker → List Worker → ThreadPool → ThreadPool
leave xs ys p = record p { workers = xs ++ exited ∷ ys }

-- How many of the workers, when `f` gives 1 or 0.
abbrev pub count : (Worker → ℕ) → List Worker → ℕ
count f [] = 0
count f (w ∷ ws) = f w + count f ws

abbrev pub is_waiting : Worker → ℕ
is_waiting waiting = 1
is_waiting _ = 0

-- The steps of the workers, and the calls of `notify_one` and `notify_all` that are still to be
-- made: one wakes some worker that waits, if there is any, and the other all of them.
pub data Work : ThreadPool → ThreadPool → Type 0 where
  notifies_one :
      (xs ys : List Worker) (n : ℕ) (p : ThreadPool)
      → p.workers ≡ xs ++ waiting ∷ ys
      → p.notify_ones ≡ suc n
      → Work p (wake xs ys (record p { notify_ones = n }))
  notifies_none :
      (n : ℕ) (p : ThreadPool)
      → count is_waiting p.workers ≡ 0
      → p.notify_ones ≡ suc n
      → Work p (record p { notify_ones = n })
  notifies_all :
      (n : ℕ) (p : ThreadPool)
      → p.notify_alls ≡ suc n
      → Work p (wake_all (record p { notify_alls = n }))
  sleeps :
      (xs ys : List Worker) (p : ThreadPool)
      → p.workers ≡ xs ++ awake ∷ ys
      → p.is_stopped ≡ false
      → p.tasks ≡ []
      → p.stop_requested ≡ false
      → Work p (sleep xs ys p)
  takes :
      (xs ys : List Worker) (task : ℕ) (rest : List ℕ) (p : ThreadPool)
      → p.workers ≡ xs ++ awake ∷ ys
      → p.tasks ≡ task ∷ rest
      → p.stop_requested ≡ false
      → Work p (take_task xs ys task rest p)
  finishes :
      (xs ys : List Worker) (task : ℕ) (p : ThreadPool)
      → p.workers ≡ xs ++ running task ∷ ys
      → Work p (finish_task xs ys p)
  drains :
      (xs ys : List Worker) (p : ThreadPool)
      → p.workers ≡ xs ++ awake ∷ ys
      → p.is_stopped ≡ true
      → p.tasks ≡ []
      → Work p (leave xs ys p)
  leaves :
      (xs ys : List Worker) (p : ThreadPool)
      → p.workers ≡ xs ++ awake ∷ ys
      → p.stop_requested ≡ true
      → Work p (leave xs ys p)

-- Besides these steps, calls of `enqueue` and `stop`, the stop request, which wakes all workers, and
-- a worker that wakes up without a call.
pub data Step : ThreadPool → ThreadPool → Type 0 where
  enqueues : (task : ℕ) (p : ThreadPool) → Step p (enqueue task p)
  stops : (p : ThreadPool) → Step p (stop p)
  requests_stop : (p : ThreadPool) → Step p (wake_all (record p { stop_requested = true }))
  wakes :
      (xs ys : List Worker) (p : ThreadPool)
      → p.workers ≡ xs ++ waiting ∷ ys
      → Step p (wake xs ys p)
  works : {p q : ThreadPool} → Work p q → Step p q

pub data Reach (p : ThreadPool) : ThreadPool → Type 0 where
  here : Reach p p
  next : {q r : ThreadPool} → Reach p q → Step q r → Reach p r
