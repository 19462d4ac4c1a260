-- ===== src/ThreadPool/Attended.antt =====
-- The queued tasks, and the workers and notifications that are there for them.
use tftpserver.Prelude.{
  ℕ, ◌+◌, ◌≤◌, ◌≡◌, ◌⊎◌, inl, inr, refl, ap, ◌∙◌, Bool, true, false, List, [], ◌∷◌, ◌++◌, map,
  length, arith, length-snoc,
}
use tftpserver.ThreadPool.{
  Worker, at_test, locking, checking, going_to_sleep, asleep, picking, holding, running, returning,
  ended, Shared, Pool, Move, loop_ends, loop_goes_on, lock, wakes_true, wakes_false, sleep,
  break_out, pop, no_task, begin, finish, end, wake, Step, work, admit, push, notify_one,
  notify_nobody, wake_up, stop, notify_all, join, clear, initial_shared, replicate, Reach, start,
  later,
}
use tftpserver.ThreadPool.Counting.{
  total, total-append, total-change, total-replicate, has_lock, sees_empty,
}
use tftpserver.ThreadPool.Invariant.{submitters, IsConsistent}
use tftpserver.ThreadPool.Invariant.Preserved.{holders-le, Reach-IsConsistent}

abbrev pub is_asleep : Worker → ℕ
is_asleep asleep = 1
is_asleep _ = 0

abbrev pub is_ended : Worker → ℕ
is_ended ended = 1
is_ended _ = 0

-- In the loop, and not in the wait.
abbrev pub is_awake : Worker → ℕ
is_awake asleep = 0
is_awake ended = 0
is_awake _ = 1

partition_one : (w : Worker) → is_asleep w + is_ended w + is_awake w ≡ 1
partition_one asleep = refl
partition_one ended = refl
partition_one at_test = refl
partition_one locking = refl
partition_one checking = refl
partition_one going_to_sleep = refl
partition_one picking = refl
partition_one (holding t) = refl
partition_one (running t) = refl
partition_one returning = refl

partition :
    (ws : List Worker) → total is_asleep ws + total is_ended ws + total is_awake ws ≡ length ws
partition [] = refl
partition (w ∷ ws) = omega (arith, partition ws, partition_one w)

sees_empty-le-has_lock : (w : Worker) → sees_empty w ≤ has_lock w
sees_empty-le-has_lock going_to_sleep = omega arith
sees_empty-le-has_lock w = ground arith

total-sees_empty-le : (ws : List Worker) → total sees_empty ws ≤ total has_lock ws
total-sees_empty-le [] = omega arith
total-sees_empty-le (w ∷ ws) = omega (arith, total-sees_empty-le ws, sees_empty-le-has_lock w)

-- While the pool runs no worker has ended; a worker goes to sleep only at an empty queue; and if one
-- sleeps, each queued task has a worker that is awake or a notification that is due.
record IsAttended (s : Shared) (ws : List Worker) : Type 0 where
  none_ended : total is_ended ws ≡ 0
  empty_seen : (total sees_empty ws ≡ 0) ⊎ (length s.tasks ≡ 0)
  attended : (total is_asleep ws ≡ 0) ⊎ (length s.tasks ≤ s.signals + total is_awake ws)

module _ (before after : List Worker) where
  -- The sums after a move.
  record Sums (w w' : Worker) : Type 0 where
    ends :
        total is_ended (before ++ w' ∷ after) + is_ended w
        ≡ total is_ended (before ++ w ∷ after) + is_ended w'
    sees :
        total sees_empty (before ++ w' ∷ after) + sees_empty w
        ≡ total sees_empty (before ++ w ∷ after) + sees_empty w'
    sleeps :
        total is_asleep (before ++ w' ∷ after) + is_asleep w
        ≡ total is_asleep (before ++ w ∷ after) + is_asleep w'
    wakes :
        total is_awake (before ++ w' ∷ after) + is_awake w
        ≡ total is_awake (before ++ w ∷ after) + is_awake w'
    saw : sees_empty w ≤ total sees_empty (before ++ w ∷ after)

  sums : (w w' : Worker) → Sums w w'
  sums w w' = record {
    ends = total-change is_ended before after w w';
    sees = total-change sees_empty before after w w';
    sleeps = total-change is_asleep before after w w';
    wakes = total-change is_awake before after w w';
    saw = omega (arith, total-append sees_empty before (w ∷ after));
  }

  Move-IsAttended :
      {s s' : Shared} {w w' : Worker}
      → s.stopping ≡ false
      → Sums w w'
      → IsAttended s (before ++ w ∷ after)
      → Move s w s' w'
      → IsAttended s' (before ++ w' ∷ after)
  Move-IsAttended g m a (loop_ends e) = cc
  Move-IsAttended g m a (loop_goes_on e) = ground arith
  Move-IsAttended g m a (lock e) = ground arith
  Move-IsAttended g m a (wakes_true e) = ground arith
  Move-IsAttended g m a (wakes_false e e') = ground (arith, ap length e')
  Move-IsAttended g m a sleep = ground arith
  Move-IsAttended g m a (break_out e e') = cc
  Move-IsAttended g m a (pop e) = ground (arith, ap length e)
  Move-IsAttended g m a (no_task e e') = ground arith
  Move-IsAttended g m a begin = ground arith
  Move-IsAttended g m a finish = ground arith
  Move-IsAttended g m a end = ground arith

asleep-wake : (ws : List Worker) → total is_asleep (map wake ws) ≡ 0
asleep-wake [] = refl
asleep-wake (w ∷ ws) = omega (arith, asleep-wake ws, awoken w)
  where
    awoken : (w : Worker) → is_asleep (wake w) ≡ 0
    awoken asleep = refl
    awoken at_test = refl
    awoken locking = refl
    awoken checking = refl
    awoken going_to_sleep = refl
    awoken picking = refl
    awoken (holding t) = refl
    awoken (running t) = refl
    awoken returning = refl
    awoken ended = refl

-- `stopping_` is never reset.
stopping_back :
    {may_wake : Bool} {p q : Pool}
    → Step may_wake p q
    → q.shared.stopping ≡ false
    → p.shared.stopping ≡ false
stopping_back (work before after e mv) g = Move-stopping mv ∙ g
  where
    Move-stopping : {s s' : Shared} {w w' : Worker} → Move s w s' w' → s.stopping ≡ s'.stopping
    Move-stopping (loop_ends e) = refl
    Move-stopping (loop_goes_on e) = refl
    Move-stopping (lock e) = refl
    Move-stopping (wakes_true e) = refl
    Move-stopping (wakes_false e e') = refl
    Move-stopping sleep = refl
    Move-stopping (break_out e e') = refl
    Move-stopping (pop e) = refl
    Move-stopping (no_task e e') = refl
    Move-stopping begin = refl
    Move-stopping finish = refl
    Move-stopping end = refl
stopping_back (admit t e e') g = g
stopping_back (push e) g = g
stopping_back (notify_one before after d e) g = g
stopping_back (notify_nobody d e) g = g
stopping_back (wake_up before after m e) g = g
stopping_back (stop e) g = cc
stopping_back (notify_all e) g = g
stopping_back (join e all) g = g
stopping_back (clear e free) g = g

wake-IsAttended :
    (before after : List Worker) {s s' : Shared}
    → s.tasks ≡ s'.tasks
    → s.signals ≤ s'.signals + 1
    → IsAttended s (before ++ asleep ∷ after)
    → IsAttended s' (before ++ locking ∷ after)
wake-IsAttended before after same due a =
    let m = sums before after asleep locking in ground (arith, ap length same)

Step-IsAttended :
    {n : ℕ} {may_wake : Bool} {p q : Pool}
    → Step may_wake p q
    → IsConsistent n p.shared p.workers p.phase
    → p.shared.stopping ≡ false
    → q.shared.stopping ≡ false
    → IsAttended p.shared p.workers
    → IsAttended q.shared q.workers
Step-IsAttended (work before {w} {w'} after e mv) c g g' a =
    Move-IsAttended before after g (sums before after w w') (rw e at a) mv
Step-IsAttended (admit t e e') c g g' a = record {
  none_ended = a.none_ended;
  empty_seen = a.empty_seen;
  attended = a.attended;
}
Step-IsAttended {p} (push {t} e) c g g' a = record {
  none_ended = a.none_ended;
  empty_seen = inl none_sees;
  attended = ground (arith, length-snoc p.shared.tasks t, a.attended);
}
  where
    none_sees : total sees_empty p.workers ≡ 0
    none_sees = omega (
      arith,
      total-sees_empty-le p.workers,
      ap submitters e,
      c.one_holder,
      holders-le p.shared.locked,
    )
Step-IsAttended (notify_one before after d e) c g g' a =
    wake-IsAttended before after refl (omega arith) (rw e at a)
Step-IsAttended {p} (notify_nobody d e) c g g' a = record {
  none_ended = a.none_ended;
  empty_seen = a.empty_seen;
  attended = inl (omega (arith, asleep-wake p.workers, ap (total is_asleep) e));
}
Step-IsAttended (wake_up before after m e) c g g' a =
    wake-IsAttended before after refl (omega arith) (rw e at a)
Step-IsAttended (stop e) c g g' a = cc
Step-IsAttended {p} (notify_all e) c g g' a = absurd (not_stopped (rw e at c.in_phase).0)
  where
    not_stopped : p.shared.stopping ≡ true → ⊥
    not_stopped h = cc
Step-IsAttended {p} (join e all) c g g' a = record {
  none_ended = a.none_ended;
  empty_seen = a.empty_seen;
  attended = a.attended;
}
Step-IsAttended {p} (clear e free) c g g' a = record {
  none_ended = a.none_ended;
  empty_seen = inr refl;
  attended = ground arith;
}

initial-IsAttended : (n : ℕ) → IsAttended initial_shared (replicate n at_test)
initial-IsAttended n = record {
  none_ended = total-replicate is_ended n refl;
  empty_seen = inr refl;
  attended = inr (omega arith);
}

Reach-IsAttended :
    {may_wake : Bool} {n : ℕ} {p : Pool}
    → Reach may_wake n p
    → p.shared.stopping ≡ false
    → IsAttended p.shared p.workers
Reach-IsAttended {n = n} start g = initial-IsAttended n
Reach-IsAttended (later r st) g =
    let g' = stopping_back st g in
    Step-IsAttended st (Reach-IsConsistent r) g' g (Reach-IsAttended r g')

-- In every reachable state of a pool that is not stopping, every worker is awake, or each queued task
-- has a worker that is awake or a caller of `Submit` that has still to notify: no task waits for a
-- worker that nobody will wake.
pub tasks_attended :
    {may_wake : Bool} {n : ℕ} {p : Pool}
    → Reach may_wake n p
    → p.shared.stopping ≡ false
    → (total is_awake p.workers ≡ n)
      ⊎ (length p.shared.tasks ≤ p.shared.signals + total is_awake p.workers)
tasks_attended {p = p} r g =
    let a = Reach-IsAttended r g in
    let c = Reach-IsConsistent r in
    elim a.attended [
      | inl none_asleep ↦ inl (omega (arith, partition p.workers, a.none_ended, c.count))
      | inr enough ↦ inr enough
    ]
