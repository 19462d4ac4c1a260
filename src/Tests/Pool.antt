-- ===== src/Tests/Pool.antt =====
-- The thread pool at small sizes.
use tftpserver.Prelude.{
  ◌++◌, arith, ℕ, ◌+◌, ◌*◌, ◌≤◌, ◌≡◌, ◌≢◌, ◌⊎◌, inr, refl, true, false, [], ◌∷◌, none, length,
}
use tftpserver.ThreadPool.{
  begin, finish, end, notify_nobody, join, clear, Pool, ended, loop_ends, loop_goes_on, lock,
  wakes_true, wakes_false, going_to_sleep, holding, pop, before_notify, not_called, joining,
  shut_down, Step, work, admit, push, stop, notify_all, initial_shared, initial_pool, Reach, start,
  later,
}
use tftpserver.ThreadPool.Counting.{total}
use tftpserver.ThreadPool.Invariant.{IsConsistent}
use tftpserver.ThreadPool.Invariant.Preserved.{Reach-IsConsistent}
use tftpserver.ThreadPool.Attended.{is_awake, tasks_attended}
use tftpserver.ThreadPool.Ending.{Run, here, next, Run-bounded}
use tftpserver.ThreadPool.LostWakeup.{IsStuck, shutdown_hangs}
use tftpserver.ThreadPool.Progress.{shutdown_progress}
use tftpserver.ThreadPool.Once.{AsOften}
use tftpserver.ThreadPool.Outcome.{shut_down_tasks, shutdown_ends}

abbrev small_pool : Pool
small_pool = initial_pool 1

-- The worker has taken the mutex and found the queue empty.
abbrev worker_waits : Reach false 1 (record small_pool {
  shared = record initial_shared { locked = true };
  workers = going_to_sleep ∷ [];
})
worker_waits =
    later (later (later start (work [] [] refl (loop_goes_on refl))) (work [] [] refl (lock refl)))
      (work [] [] refl (wakes_false refl refl))

-- A task has been accepted, and the worker has it in hand.
abbrev busy : Pool
busy = record {
  shared = record initial_shared {
    admitted = none;
    signals = 1;
    accepted = 7 ∷ [];
    taken = 7 ∷ [];
  };
  workers = holding 7 ∷ [];
  phase = not_called;
}

busy-Reach : Reach false 1 busy
busy-Reach =
    later
      (later
        (later
          (later (later (later start (admit 7 refl refl)) (push refl))
            (work [] [] refl (loop_goes_on refl)))
          (work [] [] refl (lock refl)))
        (work [] [] refl (wakes_true (inr (λ e. cc)))))
      (work [] [] refl (pop refl))

Reach-IsConsistent_example : IsConsistent 1 busy.shared busy.workers busy.phase
Reach-IsConsistent_example = Reach-IsConsistent busy-Reach

tasks_attended_example :
    (total is_awake busy.workers ≡ 1)
    ⊎ (length busy.shared.tasks ≤ busy.shared.signals + total is_awake busy.workers)
tasks_attended_example = tasks_attended busy-Reach refl

-- The pool in which `Shutdown` has set `stopping_` and the worker has the mutex.
abbrev stopping_pool : Pool
stopping_pool = record {
  shared = record initial_shared { locked = true; stopping = true };
  workers = going_to_sleep ∷ [];
  phase = before_notify;
}

Run-bounded_example : 1 ≤ 9 * 1 + 0 + 6
Run-bounded_example =
    Run-bounded {may_wake = false} {p = stopping_pool} (next here (notify_all refl)) refl

shutdown_progress_example :
    (stopping_pool.phase ≡ shut_down)
    ⊎ (((q : Pool) × Step false stopping_pool q) ⊎ IsStuck stopping_pool)
shutdown_progress_example = shutdown_progress (later worker_waits (stop refl)) refl

shutdown_hangs_example :
    (p : Pool) × Reach false 5 p
    × (p.shared.stopping ≡ true)
    × (p.phase ≡ joining)
    × (¬ ((k : ℕ) × (q : Pool) × Run false p k q × (q.phase ≢ joining)))
shutdown_hangs_example = shutdown_hangs 4

-- The first task has been called and the second one cleared.
abbrev finished_pool : Pool
finished_pool = record {
  shared = record initial_shared {
    stopping = true;
    accepted = 7 ∷ 8 ∷ [];
    taken = 7 ∷ [];
    finished = 7 ∷ [];
    cleared = 8 ∷ [];
  };
  workers = ended ∷ [];
  phase = shut_down;
}

finished_pool-Reach : Reach false 1 finished_pool
finished_pool-Reach =
    later
      (later
        (later
          (later
            (later
              (later
                (later
                  (later
                    (later
                      (later
                        (later (later busy-Reach (work [] [] refl begin)) (work [] [] refl finish))
                        (work [] [] refl end))
                      (admit 8 refl refl))
                    (push refl))
                  (notify_nobody (omega arith) refl))
                (notify_nobody (omega arith) refl))
              (stop refl))
            (notify_all refl))
          (work [] [] refl (loop_ends refl)))
        (join refl (refl, tt)))
      (clear refl refl)

shut_down_tasks_example :
    (finished_pool.shared.accepted ≡ finished_pool.shared.taken ++ finished_pool.shared.cleared)
    × (length finished_pool.shared.finished ≡ length finished_pool.shared.taken)
    × AsOften finished_pool.shared.finished finished_pool.shared.taken
shut_down_tasks_example = shut_down_tasks finished_pool-Reach refl

shutdown_ends_example :
    (m : ℕ) × (o : Pool) × Run false stopping_pool m o × ((o.phase ≡ shut_down) ⊎ IsStuck o)
shutdown_ends_example = shutdown_ends (later worker_waits (stop refl)) refl
