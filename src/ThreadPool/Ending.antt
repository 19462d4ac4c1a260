-- ===== src/ThreadPool/Ending.antt =====
-- The length of what follows a call of `Shutdown`.
use tftpserver.Prelude.{
  ℕ, suc, ◌+◌, ◌*◌, ◌≤◌, ◌<◌, ◌≡◌, refl, ap, Bool, true, List, [], ◌∷◌, Option, none, some, map,
  length, arith,
}
use tftpserver.ThreadPool.{
  Task, Worker, at_test, locking, checking, going_to_sleep, asleep, picking, holding, running,
  returning, ended, Shared, Phase, not_called, before_notify, joining, clearing, shut_down, Pool,
  Move, loop_ends, loop_goes_on, lock, wakes_true, wakes_false, sleep, break_out, pop, no_task,
  begin, finish, end, wake, Step, work, admit, push, notify_one, notify_nobody, wake_up, stop,
  notify_all, join, clear,
}
use tftpserver.ThreadPool.Counting.{total, total-change}
use tftpserver.ThreadPool.Invariant.{submitters}

-- The steps that are left to a worker once the pool is stopping, at most.
abbrev pub steps_left : Worker → ℕ
steps_left ended = 0
steps_left at_test = 1
steps_left returning = 2
steps_left (running _) = 3
steps_left (holding _) = 4
steps_left picking = 5
steps_left checking = 6
steps_left locking = 7
steps_left asleep = 8
steps_left going_to_sleep = 9

abbrev pub phases_left : Phase → ℕ
phases_left not_called = 4
phases_left before_notify = 3
phases_left joining = 2
phases_left clearing = 1
phases_left shut_down = 0

abbrev pub measure : Pool → ℕ
measure p =
    total steps_left p.workers
    + p.shared.signals
    + 2 * submitters p.shared.admitted
    + phases_left p.phase

Move-steps_left :
    {s s' : Shared} {w w' : Worker}
    → s.stopping ≡ true
    → Move s w s' w'
    → (steps_left w' < steps_left w)
      × (s'.signals ≡ s.signals)
      × (s'.admitted ≡ s.admitted)
      × (s'.stopping ≡ true)
Move-steps_left g (loop_ends e) = ground arith
Move-steps_left g (loop_goes_on e) = cc
Move-steps_left g (lock e) = ground arith
Move-steps_left g (wakes_true e) = (omega arith, refl, refl, g)
Move-steps_left g (wakes_false e e') = cc
Move-steps_left g sleep = ground arith
Move-steps_left g (break_out e e') = ground arith
Move-steps_left g (pop e) = ground arith
Move-steps_left g (no_task e e') = cc
Move-steps_left g begin = ground arith
Move-steps_left g finish = ground arith
Move-steps_left g end = ground arith

total-wake-le : (ws : List Worker) → total steps_left (map wake ws) ≤ total steps_left ws
total-wake-le [] = omega arith
total-wake-le (w ∷ ws) = omega (arith, total-wake-le ws, awoken w)
  where
    awoken : (w : Worker) → steps_left (wake w) ≤ steps_left w
    awoken asleep = omega arith
    awoken at_test = omega arith
    awoken locking = omega arith
    awoken checking = omega arith
    awoken going_to_sleep = omega arith
    awoken picking = omega arith
    awoken (holding t) = omega arith
    awoken (running t) = omega arith
    awoken returning = omega arith
    awoken ended = omega arith

pub Step-measure :
    {may_wake : Bool} {p q : Pool}
    → Step may_wake p q
    → p.shared.stopping ≡ true
    → (measure q < measure p) × (q.shared.stopping ≡ true)
Step-measure {p = p} (work before {w} {w'} after e mv) g =
    let m = Move-steps_left g mv in
    (
      omega (
        arith,
        m.0,
        m.1,
        ap submitters m.2,
        ap (total steps_left) e,
        total-change steps_left before after w w',
      ),
      m.3,
    )
Step-measure (admit t e e') g = cc
Step-measure (push e) g = (omega (arith, ap submitters e), g)
Step-measure (notify_one before after d e) g =
    (omega (arith, ap (total steps_left) e, total-change steps_left before after asleep locking), g)
Step-measure (notify_nobody d e) g = (omega arith, g)
Step-measure (wake_up before after m e) g =
    (omega (arith, ap (total steps_left) e, total-change steps_left before after asleep locking), g)
Step-measure (stop e) g = cc
Step-measure {p = p} (notify_all e) g =
    (omega (arith, ap phases_left e, total-wake-le p.workers), g)
Step-measure (join e all) g = (omega (arith, ap phases_left e), g)
Step-measure (clear e free) g = (omega (arith, ap phases_left e), g)

-- A sequence of steps, of this length.
pub data Run (may_wake : Bool) (p : Pool) : ℕ → Pool → Type 0 where
  here : Run may_wake p 0 p
  next : {k : ℕ} {q r : Pool} → Run may_wake p k q → Step may_wake q r → Run may_wake p (suc k) r

Run-measure :
    {may_wake : Bool} {p q : Pool} {k : ℕ}
    → Run may_wake p k q
    → p.shared.stopping ≡ true
    → (k + measure q ≤ measure p) × (q.shared.stopping ≡ true)
Run-measure here g = (omega arith, g)
Run-measure (next r st) g =
    let (l, g') = Run-measure r g in let (l', g'') = Step-measure st g' in (omega arith, g'')

total-steps_left-le : (ws : List Worker) → total steps_left ws ≤ 9 * length ws
total-steps_left-le [] = omega arith
total-steps_left-le (w ∷ ws) = omega (arith, total-steps_left-le ws, small w)
  where
    small : (w : Worker) → steps_left w ≤ 9
    small asleep = omega arith
    small at_test = omega arith
    small locking = omega arith
    small checking = omega arith
    small going_to_sleep = omega arith
    small picking = omega arith
    small (holding t) = omega arith
    small (running t) = omega arith
    small returning = omega arith
    small ended = omega arith

-- Once `stopping_` is set, every run of the pool comes to an end: it has at most nine steps for each
-- worker, one for each notification that is due, two for a caller of `Submit` in its block and four
-- for `Shutdown`.
pub Run-bounded :
    {may_wake : Bool} {p q : Pool} {k : ℕ}
    → Run may_wake p k q
    → p.shared.stopping ≡ true
    → k ≤ 9 * length p.workers + p.shared.signals + 6
Run-bounded {p = p} r g = omega (
  arith,
  (Run-measure r g).0,
  total-steps_left-le p.workers,
  submitters-le p.shared.admitted,
  phases-le p.phase,
)
  where
    submitters-le : (o : Option Task) → submitters o ≤ 1
    submitters-le none = omega arith
    submitters-le (some t) = omega arith

    phases-le : (phase : Phase) → phases_left phase ≤ 4
    phases-le not_called = omega arith
    phases-le before_notify = omega arith
    phases-le joining = omega arith
    phases-le clearing = omega arith
    phases-le shut_down = omega arith
