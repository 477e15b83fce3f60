-- ===== src/Pool/Stranded.antt =====
-- What becomes of a task that is submitted when no worker is left.
use gouda_http_server.Common.{
  ℕ, ◌<◌, ◌^◌, ◌≡◌, ◌≢◌, refl, ap, ◌∙◌, List, [], ◌∷◌, ◌++◌, length, length-append, append_assoc,
  arith,
}
use gouda_http_server.Pool.{
  Worker, waiting, awake, running, exited, ThreadPool, all_awake, count, create, enqueue, stop,
  wake_all, Work, notifies_one, notifies_none, notifies_all, sleeps, takes, finishes, drains,
  leaves, Step, enqueues, stops, requests_stop, wakes, works, Reach, here, next,
}
use gouda_http_server.Pool.Counted.{busy, count-swap, Reach-IsCounted}
use gouda_http_server.Pool.Live.{is_present}

present-all_awake : (ws : List Worker) → count is_present (all_awake ws) ≡ count is_present ws
present-all_awake [] = refl
present-all_awake (waiting ∷ ws) = omega (arith, present-all_awake ws)
present-all_awake (awake ∷ ws) = omega (arith, present-all_awake ws)
present-all_awake (running t ∷ ws) = omega (arith, present-all_awake ws)
present-all_awake (exited ∷ ws) = omega (arith, present-all_awake ws)

busy-present : (ws : List Worker) → count is_present ws ≡ 0 → busy ws ≡ 0
busy-present [] h = refl
busy-present (exited ∷ ws) h = omega (arith, busy-present ws (omega (arith, h)))
busy-present (waiting ∷ ws) h = absurd (omega (arith, h))
busy-present (awake ∷ ws) h = absurd (omega (arith, h))
busy-present (running t ∷ ws) h = absurd (omega (arith, h))

-- All workers have left, nothing has been started since `p`, and the task is in the queue.
record IsStranded (task : ℕ) (p q : ThreadPool) : Type 0 where
  gone : count is_present q.workers ≡ 0
  unstarted : q.started ≡ p.started
  queued : (more : List ℕ) × (q.tasks ≡ p.tasks ++ task ∷ more)

-- A worker that has not left is none of them.
nobody :
    {task : ℕ} {p q : ThreadPool} (w : Worker) (xs ys : List Worker)
    → IsStranded task p q
    → 0 < is_present w
    → q.workers ≢ xs ++ w ∷ ys
nobody w xs ys i h e =
    absurd (omega (arith, h, i.gone, ap (count is_present) e, count-swap is_present w exited xs ys))

Work-IsStranded :
    (task : ℕ) (p : ThreadPool) {q r : ThreadPool}
    → Work q r
    → IsStranded task p q
    → IsStranded task p r
unfolding wake_all
Work-IsStranded task p (notifies_one xs ys n q w e) i =
    absurd (nobody waiting xs ys i (omega arith) w)
Work-IsStranded task p (notifies_none n q w e) i = record {
  gone = i.gone;
  unstarted = i.unstarted;
  queued = i.queued;
}
Work-IsStranded task p (notifies_all n q e) i = record {
  gone = present-all_awake q.workers ∙ i.gone;
  unstarted = i.unstarted;
  queued = i.queued;
}
Work-IsStranded task p (sleeps xs ys q w s t r) i = absurd (nobody awake xs ys i (omega arith) w)
Work-IsStranded task p (takes xs ys t rest q w e s) i =
    absurd (nobody awake xs ys i (omega arith) w)
Work-IsStranded task p (finishes xs ys t q w) i =
    absurd (nobody (running t) xs ys i (omega arith) w)
Work-IsStranded task p (drains xs ys q w s t) i = absurd (nobody awake xs ys i (omega arith) w)
Work-IsStranded task p (leaves xs ys q w s) i = absurd (nobody awake xs ys i (omega arith) w)

Step-IsStranded :
    (task : ℕ) (p : ThreadPool) {q r : ThreadPool}
    → Step q r
    → IsStranded task p q
    → IsStranded task p r
unfolding enqueue stop wake_all
Step-IsStranded task p (enqueues t q) i = record {
  gone = i.gone;
  unstarted = i.unstarted;
  queued =
      let (more, e) = i.queued in
      (more ++ t ∷ [], ap (λ s. s ++ t ∷ []) e ∙ append_assoc p.tasks (task ∷ more) (t ∷ []));
}
Step-IsStranded task p (stops q) i = record {
  gone = i.gone;
  unstarted = i.unstarted;
  queued = i.queued;
}
Step-IsStranded task p (requests_stop q) i = record {
  gone = present-all_awake q.workers ∙ i.gone;
  unstarted = i.unstarted;
  queued = i.queued;
}
Step-IsStranded task p (wakes xs ys q w) i = absurd (nobody waiting xs ys i (omega arith) w)
Step-IsStranded task p (works w) i = Work-IsStranded task p w i

Reach-IsStranded :
    (task : ℕ) (p : ThreadPool) {q : ThreadPool}
    → count is_present p.workers ≡ 0
    → Reach (enqueue task p) q
    → IsStranded task p q
unfolding enqueue
Reach-IsStranded task p h here = record { gone = h; unstarted = refl; queued = ([], refl) }
Reach-IsStranded task p h (next r s) = Step-IsStranded task p s (Reach-IsStranded task p h r)

Reach-trans : {p q r : ThreadPool} → Reach p q → Reach q r → Reach p r
Reach-trans r here = r
Reach-trans r (next s t) = next (Reach-trans r s) t

-- Let all workers of a pool have left, as they do after `stop`, and let a task be submitted then.
-- Whatever steps and calls follow, the task stays in the queue behind those that were there, no task
-- is started any more, and as long as fewer than 2 ^ 64 tasks are queued the counter is not zero, so
-- that `wait_for_all` waits.
pub enqueue-strands :
    (n task : ℕ) {p q : ThreadPool}
    → Reach (create n) p
    → count is_present p.workers ≡ 0
    → Reach (enqueue task p) q
    → length q.tasks < 2 ^ 64
    → ((more : List ℕ) × (q.tasks ≡ p.tasks ++ task ∷ more))
      × (q.started ≡ p.started)
      × (q.pending_tasks ≢ 0)
enqueue-strands n task {p} {q} before h r small =
    let i = Reach-IsStranded task p h r in
    let c = Reach-IsCounted n (Reach-trans (next before (enqueues task p)) r) in
    let (more, e) = i.queued in
    (
      (more, e),
      i.unstarted,
      λ z. absurd (
          omega (
            arith,
            z,
            small,
            c.pending,
            busy-present q.workers i.gone,
            ap length e,
            length-append p.tasks (task ∷ more),
          )),
    )
