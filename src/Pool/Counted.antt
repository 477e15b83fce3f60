-- ===== src/Pool/Counted.antt =====
-- What holds of a pool at every point of every interleaving.
use gouda_http_server.Common.{
  ℕ, zero, suc, ◌+◌, ◌%◌, ◌^◌, ◌<◌, ◌≡◌, refl, sym, ap, ◌∙◌, List, [], ◌∷◌, ◌++◌, length,
  length-append, append_assoc, append-nil, arith,
}
use gouda_http_server.Pool.{
  Worker, waiting, awake, running, exited, ThreadPool, awake_workers, all_awake, count, create,
  enqueue, stop, wake, wake_all, sleep, take_task, finish_task, leave, Work, notifies_one,
  notifies_none, notifies_all, sleeps, takes, finishes, drains, leaves, Step, enqueues, stops,
  requests_stop, wakes, works, Reach, here, next,
}

abbrev pub is_running : Worker → ℕ
is_running (running t) = 1
is_running _ = 0

-- The number of workers that run a task.
abbrev pub busy : List Worker → ℕ
busy ws = count is_running ws

-- The count with one worker for another.
pub count-swap :
    (f : Worker → ℕ) (v w : Worker) (xs ys : List Worker)
    → count f (xs ++ v ∷ ys) + f w ≡ count f (xs ++ w ∷ ys) + f v
count-swap f v w [] ys = omega arith
count-swap f v w (x ∷ xs) ys = omega (arith, count-swap f v w xs ys)

pub busy-all_awake : (ws : List Worker) → busy (all_awake ws) ≡ busy ws
busy-all_awake [] = refl
busy-all_awake (waiting ∷ ws) = omega (arith, busy-all_awake ws)
busy-all_awake (awake ∷ ws) = omega (arith, busy-all_awake ws)
busy-all_awake (running t ∷ ws) = omega (arith, busy-all_awake ws)
busy-all_awake (exited ∷ ws) = omega (arith, busy-all_awake ws)

busy-awake_workers : (n : ℕ) → busy (awake_workers n) ≡ 0
busy-awake_workers zero = refl
busy-awake_workers (suc n) = omega (arith, busy-awake_workers n)

-- The counter is the number of queued and running tasks, modulo 2 ^ 64, and the tasks start in the
-- order in which they were submitted.
pub record IsCounted (p : ThreadPool) : Type 0 where
  pub pending : p.pending_tasks ≡ (length (p.tasks) + busy (p.workers)) % 2 ^ 64
  pub order : p.submitted ≡ p.started ++ p.tasks

-- A step that leaves the number of running tasks, the queue, the counter and the lists as they are.
unchanged :
    (p q : ThreadPool)
    → busy q.workers ≡ busy p.workers
    → q.tasks ≡ p.tasks
    → q.pending_tasks ≡ p.pending_tasks
    → q.submitted ≡ p.submitted
    → q.started ≡ p.started
    → IsCounted p
    → IsCounted q
unchanged p q b t c u s i = record {
  pending = omega (arith, c, i.pending, ap length t, b);
  order = rw (u, s, t) i.order;
}

-- One worker for another that runs no task either.
idle_swap :
    (v w : Worker) (xs ys ws : List Worker)
    → is_running v ≡ is_running w
    → ws ≡ xs ++ v ∷ ys
    → busy (xs ++ w ∷ ys) ≡ busy ws
idle_swap v w xs ys ws e same = omega (arith, e, ap busy same, count-swap is_running v w xs ys)

pub Work-IsCounted : {p q : ThreadPool} → Work p q → IsCounted p → IsCounted q
unfolding wake wake_all sleep take_task finish_task leave
Work-IsCounted (notifies_one xs ys n p w e) i =
    unchanged p _ (idle_swap waiting awake xs ys (p.workers) refl w) refl refl refl refl i
Work-IsCounted (notifies_none n p w e) i = unchanged p _ refl refl refl refl refl i
Work-IsCounted (notifies_all n p e) i =
    unchanged p _ (busy-all_awake (p.workers)) refl refl refl refl i
Work-IsCounted (sleeps xs ys p w s t r) i =
    unchanged p _ (idle_swap awake waiting xs ys (p.workers) refl w) refl refl refl refl i
Work-IsCounted (takes xs ys task rest p w t s) i = record {
  pending =
      omega (
        arith,
        i.pending,
        ap length t,
        ap busy w,
        count-swap is_running awake (running task) xs ys,
      );
  order = rw t at i.order ∙ sym (append_assoc (p.started) (task ∷ []) rest);
}
Work-IsCounted (finishes xs ys task p w) i = record {
  pending = omega (arith, i.pending, ap busy w, count-swap is_running awake (running task) xs ys);
  order = i.order;
}
Work-IsCounted (drains xs ys p w s t) i =
    unchanged p _ (idle_swap awake exited xs ys (p.workers) refl w) refl refl refl refl i
Work-IsCounted (leaves xs ys p w s) i =
    unchanged p _ (idle_swap awake exited xs ys (p.workers) refl w) refl refl refl refl i

pub Step-IsCounted : {p q : ThreadPool} → Step p q → IsCounted p → IsCounted q
unfolding enqueue stop wake wake_all
Step-IsCounted (enqueues task p) i = record {
  pending = omega (arith, i.pending, length-append (p.tasks) (task ∷ []));
  order = ap (λ s. s ++ task ∷ []) i.order ∙ append_assoc (p.started) (p.tasks) (task ∷ []);
}
Step-IsCounted (stops p) i = unchanged p _ refl refl refl refl refl i
Step-IsCounted (requests_stop p) i =
    unchanged p _ (busy-all_awake (p.workers)) refl refl refl refl i
Step-IsCounted (wakes xs ys p w) i =
    unchanged p _ (idle_swap waiting awake xs ys (p.workers) refl w) refl refl refl refl i
Step-IsCounted (works w) i = Work-IsCounted w i

-- Whatever its callers and its workers do and in whatever order, a pool that was created counts the
-- queued and the running tasks, modulo 2 ^ 64, and starts its tasks in the order of `enqueue`.
pub Reach-IsCounted : (n : ℕ) {p : ThreadPool} → Reach (create n) p → IsCounted p
unfolding create
Reach-IsCounted n here = record { pending = omega (arith, busy-awake_workers n); order = refl }
Reach-IsCounted n (next r s) = Step-IsCounted s (Reach-IsCounted n r)

-- When `wait_for_all` finds the counter at zero and fewer than 2 ^ 64 tasks are queued or running,
-- then no task is queued or running, and all that were submitted have been started, in their order.
pub wait_for_all-IsDone :
    (n : ℕ) {p : ThreadPool}
    → Reach (create n) p
    → p.pending_tasks ≡ 0
    → length (p.tasks) + busy (p.workers) < 2 ^ 64
    → (p.tasks ≡ []) × (busy (p.workers) ≡ 0) × (p.started ≡ p.submitted)
wait_for_all-IsDone n {p} r z small =
    let i = Reach-IsCounted n r in
    let e = none_left (p.tasks) (omega (arith, i.pending)) in
    (e, omega (arith, i.pending), sym (rw (e, append-nil (p.started)) at i.order))
  where
    none_left : (ts : List ℕ) → length ts ≡ 0 → ts ≡ []
    none_left [] h = refl
    none_left (t ∷ ts) h = absurd (omega arith)
