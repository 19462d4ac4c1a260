-- ===== src/ThreadPool/Once.antt =====
-- src/internal/tftp_thread_pool.cpp: how often each task is called.
use tftpserver.Prelude.{
  ℕ, Bool, ◌+◌, ◌≡◌, refl, ap, List, [], ◌∷◌, ◌++◌, ◌==◌, if◌then◌else◌, arith,
}
use tftpserver.ThreadPool.{
  Task, Worker, asleep, locking, holding, running, Shared, Pool, Move, loop_ends, loop_goes_on,
  lock, wakes_true, wakes_false, sleep, break_out, pop, no_task, begin, finish, end, AllEnded, Step,
  work, admit, push, notify_one, notify_nobody, wake_up, stop, notify_all, join, clear, Reach,
  start, later,
}
use tftpserver.ThreadPool.Counting.{total, total-change, total-wake, total-replicate}

abbrev pub is_task : Task → Task → ℕ
is_task t u = if u == t then 1 else 0

-- How often a task stands in a list.
abbrev pub times : Task → List Task → ℕ
times t [] = 0
times t (u ∷ us) = is_task t u + times t us

-- Two lists have each task as often.
abbrev pub AsOften : List Task → List Task → Type 0
AsOften us vs = (t : Task) → times t us ≡ times t vs

-- 1 for a worker that has this task in hand, or is in its call.
abbrev works_on : Task → Worker → ℕ
works_on t (holding u) = is_task t u
works_on t (running u) = is_task t u
works_on t _ = 0

times-snoc :
    (t : Task) (us : List Task) (u : Task) → times t (us ++ u ∷ []) ≡ times t us + is_task t u
times-snoc t [] u = omega arith
times-snoc t (v ∷ us) u = omega (arith, times-snoc t us u)

-- What a task is taken and in hand behind a move, and was before it.
Move-times :
    {s s' : Shared} {w w' : Worker} (t : Task)
    → Move s w s' w'
    → times t s'.taken + (works_on t w + times t s.finished)
      ≡ times t s.taken + (works_on t w' + times t s'.finished)
Move-times t (loop_ends e) = refl
Move-times t (loop_goes_on e) = refl
Move-times t (lock e) = refl
Move-times t (wakes_true e) = refl
Move-times t (wakes_false e e') = refl
Move-times t sleep = refl
Move-times t (break_out e e') = refl
Move-times {s = s} t (pop {t = u} e) = omega (arith, times-snoc t s.taken u)
Move-times t (no_task e e') = refl
Move-times t begin = refl
Move-times {s = s} t (finish {t = u}) = omega (arith, times-snoc t s.finished u)
Move-times t end = refl

abbrev Balanced : Task → Pool → Type 0
Balanced t p = times t p.shared.taken ≡ total (works_on t) p.workers + times t p.shared.finished

Step-times :
    {may_wake : Bool} {p q : Pool} (t : Task) → Step may_wake p q → Balanced t p → Balanced t q
Step-times t (work before {w} {w'} after e mv) b = omega (
  arith,
  b,
  ap (total (works_on t)) e,
  total-change (works_on t) before after w w',
  Move-times t mv,
)
Step-times t (admit u free going) b = b
Step-times t (push e) b = b
Step-times t (notify_one before after due e) b =
    omega
      (arith, b, ap (total (works_on t)) e, total-change (works_on t) before after asleep locking)
Step-times t (notify_nobody due e) b = b
Step-times t (wake_up before after may e) b =
    omega
      (arith, b, ap (total (works_on t)) e, total-change (works_on t) before after asleep locking)
Step-times t (stop going) b = b
Step-times {p = p} t (notify_all e) b = omega (arith, b, total-wake (works_on t) refl p.workers)
Step-times t (join e all) b = b
Step-times t (clear e free) b = b

-- In every reachable state, each task was taken as often as its call has ended and workers have it in
-- hand.
pub Reach-times :
    {may_wake : Bool} {n : ℕ} {p : Pool} (t : Task)
    → Reach may_wake n p
    → times t p.shared.taken ≡ total (works_on t) p.workers + times t p.shared.finished
Reach-times {n = n} t start = omega (arith, total-replicate (works_on t) n refl)
Reach-times t (later r st) = Step-times t st (Reach-times t r)

idle : (t : Task) (ws : List Worker) → AllEnded ws → total (works_on t) ws ≡ 0
idle t [] a = refl
idle t (w ∷ ws) a = omega (arith, idle t ws a.1, ap (works_on t) a.0)

-- When no worker is left, each task that was taken was called as often.
pub ended-AsOften :
    {may_wake : Bool} {n : ℕ} {p : Pool}
    → Reach may_wake n p
    → AllEnded p.workers
    → AsOften p.shared.finished p.shared.taken
ended-AsOften {p = p} r all t = omega (arith, Reach-times t r, idle t p.workers all)
