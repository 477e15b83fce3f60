-- ===== src/Pool/Progress.antt =====
-- That the queue is worked off, whatever the order of the steps.
use gouda_http_server.Common.{
  ℕ, zero, suc, ◌+◌, ◌≤◌, ◌<◌, ◌≡◌, ◌⊎◌, refl, sym, ap, ◌∙◌, false, List, [], ◌∷◌, ◌++◌, length,
  append-nil, arith, inl, inr,
}
use gouda_http_server.Pool.{
  Worker, waiting, awake, running, exited, ThreadPool, count, is_waiting, create, Work,
  notifies_one, notifies_none, takes, finishes, Reach,
}
use gouda_http_server.Pool.Counted.{is_running, busy, IsCounted, Reach-IsCounted, Work-IsCounted}
use gouda_http_server.Pool.Live.{
  is_awake, effort, IsLive, count-active, Work-IsLive, Work-flags, Reach-IsLive,
}

-- A worker of a kind, where there is one.
abbrev Found : (Worker → ℕ) → List Worker → Type 0
Found f ws =
    (w : Worker) × (xs : List Worker) × (ys : List Worker) × (0 < f w) × (ws ≡ xs ++ w ∷ ys)

find_worker : (f : Worker → ℕ) (ws : List Worker) → (count f ws ≡ 0) ⊎ Found f ws
find_worker f [] = inl refl
find_worker f (w ∷ ws) = elim (zero_or (f w)) [
  | inr h ↦ inr (w, [], ws, h, refl)
  | inl e ↦ elim (find_worker f ws) [
    | inl rest ↦ inl (omega (arith, e, rest))
    | inr (v, xs, ys, h, at) ↦ inr (v, w ∷ xs, ys, h, ap (◌∷◌ w) at)
  ]
]
  where
    zero_or : (n : ℕ) → (n ≡ 0) ⊎ (0 < n)
    zero_or zero = inl refl
    zero_or (suc n) = inr (omega arith)

is_waiting-eq : (w : Worker) → 0 < is_waiting w → w ≡ waiting
is_waiting-eq waiting h = refl
is_waiting-eq awake h = absurd (omega (arith, h))
is_waiting-eq (running t) h = absurd (omega (arith, h))
is_waiting-eq exited h = absurd (omega (arith, h))

is_awake-eq : (w : Worker) → 0 < is_awake w → w ≡ awake
is_awake-eq awake h = refl
is_awake-eq waiting h = absurd (omega (arith, h))
is_awake-eq (running t) h = absurd (omega (arith, h))
is_awake-eq exited h = absurd (omega (arith, h))

is_running-eq : (w : Worker) → 0 < is_running w → (t : ℕ) × (w ≡ running t)
is_running-eq (running t) h = (t, refl)
is_running-eq waiting h = absurd (omega (arith, h))
is_running-eq awake h = absurd (omega (arith, h))
is_running-eq exited h = absurd (omega (arith, h))

-- There is a step, unless no task is queued or running.
abbrev pub CanWork : ThreadPool → Type 0
CanWork p = (q : ThreadPool) × Work p q

-- A call of `notify_one` that is still to be made can be made.
can_notify : (m : ℕ) (p : ThreadPool) → p.notify_ones ≡ suc m → CanWork p
can_notify m p e = elim (find_worker is_waiting p.workers) [
  | inl none ↦ (_, notifies_none m p none e)
  | inr (w, xs, ys, h, at) ↦
      (_, notifies_one xs ys m p (at ∙ ap (λ v. xs ++ v ∷ ys) (is_waiting-eq w h)) e)
]

can_work :
    (n : ℕ) (p : ThreadPool) → IsLive n p → ((p.tasks ≡ []) × (busy p.workers ≡ 0)) ⊎ CanWork p
can_work n p i = elim (find_worker is_running p.workers) [
  | inr (w, xs, ys, h, at) ↦
      let (t, e) = is_running-eq w h in inr (_, finishes xs ys t p (at ∙ ap (λ v. xs ++ v ∷ ys) e))
  | inl idle ↦ elim (task_cases p.tasks) [
    | inl empty ↦ inl (empty, idle)
    | inr (task, rest, more) ↦ elim (find_worker is_awake p.workers) [
      | inr (w, xs, ys, h, at) ↦ inr (
        _,
        takes xs ys task rest p (at ∙ ap (λ v. xs ++ v ∷ ys) (is_awake-eq w h)) more i.unrequested,
      )
      | inl asleep ↦ elim (number_cases p.notify_ones) [
        | inr (m, e) ↦ inr (can_notify m p e)
        | inl e ↦ elim i.woken [
          | inl empty ↦ absurd (omega (arith, ap length more, ap length empty))
          | inr h ↦ absurd (omega (arith, h, e, asleep, idle, count-active p.workers))
        ]
      ]
    ]
  ]
]
  where
    task_cases : (ts : List ℕ) → (ts ≡ []) ⊎ ((t : ℕ) × (rest : List ℕ) × (ts ≡ t ∷ rest))
    task_cases [] = inl refl
    task_cases (t ∷ rest) = inr (t, rest, refl)

    number_cases : (m : ℕ) → (m ≡ 0) ⊎ ((k : ℕ) × (m ≡ suc k))
    number_cases zero = inl refl
    number_cases (suc k) = inr (k, refl)

-- Steps of the workers and pending calls, one after the other, and how many.
pub data Run (p : ThreadPool) : ℕ → ThreadPool → Type 0 where
  start : Run p 0 p
  after : {k : ℕ} {q r : ThreadPool} → Run p k q → Work q r → Run p (suc k) r

-- No task is queued or running, the counter is zero, and what had been submitted to `p` has been
-- started, in its order.
abbrev pub IsFinished : ThreadPool → ThreadPool → Type 0
IsFinished p q =
    (q.tasks ≡ [])
    × (busy q.workers ≡ 0)
    × (q.pending_tasks ≡ 0)
    × (q.submitted ≡ p.submitted)
    × (q.started ≡ p.submitted)

-- What holds all along a run.
Run-IsLive :
    (n : ℕ) {p : ThreadPool} {k : ℕ} {q : ThreadPool}
    → 0 < n
    → IsLive n p
    → IsCounted p
    → Run p k q
    → IsLive n q × IsCounted q × (q.submitted ≡ p.submitted) × (k + effort q ≤ effort p)
Run-IsLive n some_worker i c start = (i, c, refl, omega arith)
Run-IsLive n some_worker i c (after run w) =
    let (live, counted, same, bound) = Run-IsLive n some_worker i c run in
    let (live', less) = Work-IsLive n some_worker w live in
    (live', Work-IsCounted w counted, (Work-flags w).2 ∙ same, omega (arith, bound, less))

-- Let a pool of at least one worker come to any state, by any interleaving, in which neither `stop`
-- nor a stop request has been called. From there let its workers, and the callers of `enqueue` that
-- are still to call `notify_one`, make any steps, with no further call. There are at most `effort p`
-- of them, and whenever the tasks are not finished, there is a next one. So in every order of the
-- steps all tasks that were submitted are started, in their order, and come to their end, and the
-- counter that `wait_for_all` waits for becomes zero.
pub wait_for_all-IsFinished :
    (n : ℕ) {p : ThreadPool} {k : ℕ} {q : ThreadPool}
    → 0 < n
    → Reach (create n) p
    → p.is_stopped ≡ false
    → p.stop_requested ≡ false
    → Run p k q
    → (k + effort q ≤ effort p) × (IsFinished p q ⊎ CanWork q)
wait_for_all-IsFinished n {p} {k} {q} some_worker reach s r run =
    let (live, counted, same, bound) =
      Run-IsLive n some_worker (Reach-IsLive n some_worker reach s r) (Reach-IsCounted n reach)
        run in
    (
      bound,
      elim (can_work n q live) [
        | inr more ↦ inr more
        | inl (t, b) ↦ inl (
          t,
          b,
          omega (arith, counted.pending, ap length t, b),
          same,
          sym (rw (t, append-nil q.started) at counted.order) ∙ same,
        )
      ],
    )
