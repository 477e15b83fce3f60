-- ===== src/Pool/Tests.antt =====
-- A run of one worker, and the theorems at it.
use gouda_http_server.Common.{◌+◌, ◌≤◌, ◌≡◌, ◌≢◌, ◌⊎◌, ℕ, refl, List, [], ◌∷◌, ◌++◌, length, arith}
use gouda_http_server.Pool.{
  ThreadPool, create, enqueue, stop, wake, sleep, leave, take_task, finish_task, notifies_one,
  sleeps, takes, finishes, drains, enqueues, stops, works, Reach, here, next,
}
use gouda_http_server.Pool.Counted.{busy, IsCounted, Reach-IsCounted, wait_for_all-IsDone}
use gouda_http_server.Pool.Live.{effort}
use gouda_http_server.Pool.Progress.{
  CanWork, Run, start, after, IsFinished, wait_for_all-IsFinished,
}
use gouda_http_server.Pool.Stranded.{enqueue-strands}

-- The worker blocks, and task 7 is submitted.
abbrev asleep : ThreadPool
asleep = sleep [] [] (create 1)

abbrev with_task : ThreadPool
with_task = enqueue 7 asleep

submits : Reach (create 1) with_task
unfolding create sleep
submits = next (next here (works (sleeps [] [] (create 1) refl refl refl refl))) (enqueues 7 asleep)

-- It is notified, takes the task and finishes it.
abbrev notified : ThreadPool
notified = wake [] [] (record with_task { notify_ones = 0 })

abbrev at_work : ThreadPool
at_work = take_task [] [] 7 [] notified

abbrev done : ThreadPool
done = finish_task [] [] at_work

worked : Run with_task 3 done
unfolding create sleep enqueue wake take_task
worked =
    after
      (after (after start (notifies_one [] [] 0 with_task refl refl))
        (takes [] [] 7 [] notified refl refl refl))
      (finishes [] [] 7 at_work refl)

runs : Reach (create 1) done
unfolding create sleep enqueue wake take_task
runs =
    next
      (next (next submits (works (notifies_one [] [] 0 with_task refl refl)))
        (works (takes [] [] 7 [] notified refl refl refl)))
      (works (finishes [] [] 7 at_work refl))

none_pending : done.pending_tasks ≡ 0
unfolding create sleep enqueue wake take_task finish_task
none_pending = refl

Reach-IsCounted_example : IsCounted done
Reach-IsCounted_example = Reach-IsCounted 1 runs

few : length (done.tasks) + busy (done.workers) ≡ 0
unfolding create sleep enqueue wake take_task finish_task
few = refl

wait_for_all-IsDone_example :
    (done.tasks ≡ []) × (busy (done.workers) ≡ 0) × (done.started ≡ done.submitted)
wait_for_all-IsDone_example = wait_for_all-IsDone 1 runs none_pending (omega (arith, few))

wait_for_all-IsFinished_example :
    (3 + effort done ≤ effort with_task) × (IsFinished with_task done ⊎ CanWork done)
unfolding create sleep enqueue
wait_for_all-IsFinished_example = wait_for_all-IsFinished 1 (omega arith) submits refl refl worked

-- The one worker leaves, and then a task is submitted.
abbrev stopped : ThreadPool
stopped = stop (create 1)

abbrev empty_pool : ThreadPool
empty_pool = leave [] [] stopped

left : Reach (create 1) empty_pool
unfolding create stop
left = next (next here (stops (create 1))) (works (drains [] [] stopped refl refl refl))

enqueue-strands_example :
    ((more : List ℕ) × ((enqueue 7 empty_pool).tasks ≡ empty_pool.tasks ++ 7 ∷ more))
    × ((enqueue 7 empty_pool).started ≡ empty_pool.started)
    × ((enqueue 7 empty_pool).pending_tasks ≢ 0)
unfolding create stop leave enqueue
enqueue-strands_example = enqueue-strands 1 7 left refl here (omega arith)
