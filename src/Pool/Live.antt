-- ===== src/Pool/Live.antt =====
-- That no wake-up is lost in a pool that is not told to stop, and that its steps come to an end.
use gouda_http_server.Common.{
  ℕ, zero, suc, ◌+◌, ◌*◌, ◌<◌, ◌≡◌, ◌⊎◌, refl, sym, ap, ◌∙◌, false, List, [], ◌∷◌, length, arith,
  inl, inr,
}
use gouda_http_server.Pool.{
  Worker, waiting, awake, running, exited, ThreadPool, awake_workers, count, is_waiting, create,
  enqueue, stop, wake, wake_all, sleep, take_task, finish_task, leave, Work, notifies_one,
  notifies_none, notifies_all, sleeps, takes, finishes, drains, leaves, Step, enqueues, stops,
  requests_stop, wakes, works, Reach, here, next,
}
use gouda_http_server.Pool.Counted.{busy, count-swap}

abbrev pub is_awake : Worker → ℕ
is_awake awake = 1
is_awake _ = 0

-- A worker that comes to the test of the condition without a call on it.
abbrev pub is_active : Worker → ℕ
is_active awake = 1
is_active (running t) = 1
is_active _ = 0

abbrev pub is_present : Worker → ℕ
is_present exited = 0
is_present _ = 1

-- The steps that a worker is still to make without a task or a call.
abbrev pub steps_of : Worker → ℕ
steps_of awake = 1
steps_of (running t) = 2
steps_of _ = 0

-- A bound on the steps that are still to be made: three for a task, two for a call of `notify_one`.
abbrev pub effort : ThreadPool → ℕ
effort p = 3 * length p.tasks + 2 * p.notify_ones + count steps_of p.workers

-- A pool of `n` workers that has not been told to stop: all workers are there, and where a task is
-- queued, a call of `notify_one` is still to be made or some worker is awake or runs a task.
pub record IsLive (n : ℕ) (p : ThreadPool) : Type 0 where
  pub going : p.is_stopped ≡ false
  pub unrequested : p.stop_requested ≡ false
  pub no_calls : p.notify_alls ≡ 0
  pub staffed : count is_present p.workers ≡ n
  pub woken : (p.tasks ≡ []) ⊎ (0 < p.notify_ones + count is_active p.workers)

count-present : (ws : List Worker) → count is_waiting ws + count is_active ws ≡ count is_present ws
count-present [] = refl
count-present (waiting ∷ ws) = omega (arith, count-present ws)
count-present (awake ∷ ws) = omega (arith, count-present ws)
count-present (running t ∷ ws) = omega (arith, count-present ws)
count-present (exited ∷ ws) = omega (arith, count-present ws)

pub count-active : (ws : List Worker) → count is_active ws ≡ count is_awake ws + busy ws
count-active [] = refl
count-active (waiting ∷ ws) = omega (arith, count-active ws)
count-active (awake ∷ ws) = omega (arith, count-active ws)
count-active (running t ∷ ws) = omega (arith, count-active ws)
count-active (exited ∷ ws) = omega (arith, count-active ws)

present-awake_workers : (n : ℕ) → count is_present (awake_workers n) ≡ n
present-awake_workers zero = refl
present-awake_workers (suc n) = omega (arith, present-awake_workers n)

-- A step of a live pool leaves it live and takes from the effort.
pub Work-IsLive :
    (n : ℕ) {p q : ThreadPool} → 0 < n → Work p q → IsLive n p → IsLive n q × (effort q < effort p)
unfolding wake wake_all sleep take_task finish_task leave
Work-IsLive n some_worker (notifies_one xs ys m p w e) i = (
  record {
    going = i.going;
    unrequested = i.unrequested;
    no_calls = i.no_calls;
    staffed =
        omega
          (arith, i.staffed, ap (count is_present) w, count-swap is_present waiting awake xs ys);
    woken = inr (omega (arith, count-swap is_active waiting awake xs ys));
  },
  omega (arith, e, ap (count steps_of) w, count-swap steps_of waiting awake xs ys),
)
Work-IsLive n some_worker (notifies_none m p w e) i = (
  record {
    going = i.going;
    unrequested = i.unrequested;
    no_calls = i.no_calls;
    staffed = i.staffed;
    woken = inr (omega (arith, some_worker, w, i.staffed, count-present p.workers));
  },
  omega (arith, e),
)
Work-IsLive n some_worker (notifies_all m p e) i = absurd (omega (arith, e, i.no_calls))
Work-IsLive n some_worker (sleeps xs ys p w s t r) i = (
  record {
    going = i.going;
    unrequested = i.unrequested;
    no_calls = i.no_calls;
    staffed =
        omega
          (arith, i.staffed, ap (count is_present) w, count-swap is_present awake waiting xs ys);
    woken = inl t;
  },
  omega (arith, ap (count steps_of) w, count-swap steps_of awake waiting xs ys),
)
Work-IsLive n some_worker (takes xs ys task rest p w t s) i = (
  record {
    going = i.going;
    unrequested = i.unrequested;
    no_calls = i.no_calls;
    staffed = omega (
      arith,
      i.staffed,
      ap (count is_present) w,
      count-swap is_present awake (running task) xs ys,
    );
    woken = inr (omega (arith, count-swap is_active waiting (running task) xs ys));
  },
  omega (arith, ap length t, ap (count steps_of) w, count-swap steps_of awake (running task) xs ys),
)
Work-IsLive n some_worker (finishes xs ys task p w) i = (
  record {
    going = i.going;
    unrequested = i.unrequested;
    no_calls = i.no_calls;
    staffed = omega (
      arith,
      i.staffed,
      ap (count is_present) w,
      count-swap is_present (running task) awake xs ys,
    );
    woken = inr (omega (arith, count-swap is_active waiting awake xs ys));
  },
  omega (arith, ap (count steps_of) w, count-swap steps_of (running task) awake xs ys),
)
Work-IsLive n some_worker (drains xs ys p w s t) i = absurd (cc (s, i.going))
Work-IsLive n some_worker (leaves xs ys p w s) i = absurd (cc (s, i.unrequested))

pub Work-flags :
    {p q : ThreadPool}
    → Work p q
    → (q.is_stopped ≡ p.is_stopped)
      × (q.stop_requested ≡ p.stop_requested)
      × (q.submitted ≡ p.submitted)
unfolding wake wake_all sleep take_task finish_task leave
Work-flags (notifies_one xs ys m p w e) = (refl, refl, refl)
Work-flags (notifies_none m p w e) = (refl, refl, refl)
Work-flags (notifies_all m p e) = (refl, refl, refl)
Work-flags (sleeps xs ys p w s t r) = (refl, refl, refl)
Work-flags (takes xs ys task rest p w t s) = (refl, refl, refl)
Work-flags (finishes xs ys task p w) = (refl, refl, refl)
Work-flags (drains xs ys p w s t) = (refl, refl, refl)
Work-flags (leaves xs ys p w s) = (refl, refl, refl)

-- So is every step of a pool that is not told to stop in it.
Step-IsLive :
    (n : ℕ) {p q : ThreadPool}
    → 0 < n
    → Step p q
    → q.is_stopped ≡ false
    → q.stop_requested ≡ false
    → (p.is_stopped ≡ false) × (p.stop_requested ≡ false) × (IsLive n p → IsLive n q)
unfolding enqueue stop wake wake_all
Step-IsLive n some_worker (enqueues task p) s r = (
  s,
  r,
  λ i. record {
    going = i.going;
    unrequested = i.unrequested;
    no_calls = i.no_calls;
    staffed = i.staffed;
    woken = inr (omega arith);
  },
)
Step-IsLive n some_worker (stops p) s r = absurd (cc s)
Step-IsLive n some_worker (requests_stop p) s r = absurd (cc r)
Step-IsLive n some_worker (wakes xs ys p w) s r = (
  s,
  r,
  λ i. record {
    going = i.going;
    unrequested = i.unrequested;
    no_calls = i.no_calls;
    staffed =
        omega
          (arith, i.staffed, ap (count is_present) w, count-swap is_present waiting awake xs ys);
    woken = inr (omega (arith, count-swap is_active waiting awake xs ys));
  },
)
Step-IsLive n some_worker (works w) s r =
    let (a, b, c) = Work-flags w in (sym a ∙ s, sym b ∙ r, λ i. (Work-IsLive n some_worker w i).0)

pub Reach-IsLive :
    (n : ℕ) {p : ThreadPool}
    → 0 < n
    → Reach (create n) p
    → p.is_stopped ≡ false
    → p.stop_requested ≡ false
    → IsLive n p
unfolding create
Reach-IsLive n some_worker here s r = record {
  going = refl;
  unrequested = refl;
  no_calls = refl;
  staffed = present-awake_workers n;
  woken = inl refl;
}
Reach-IsLive n some_worker (next before step) s r =
    let (a, b, live) = Step-IsLive n some_worker step s r in
    live (Reach-IsLive n some_worker before a b)
