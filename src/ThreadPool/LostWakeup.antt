-- ===== src/ThreadPool/LostWakeup.antt =====
-- The notification that `Shutdown` of src/internal/tftp_thread_pool.cpp gives without the mutex, and
-- workers that miss it.
use tftpserver.Prelude.{
  ◌≢◌, ℕ, suc, ◌≤◌, ◌≡◌, refl, ap, ◌∙◌, Bool, true, false, List, [], ◌∷◌, Option, none, some, map,
  arith,
}
use tftpserver.ThreadPool.{
  Task, Worker, at_test, asleep, Shared, Phase, before_notify, joining, clearing, Pool, Move,
  loop_ends, loop_goes_on, lock, wakes_true, wakes_false, sleep, break_out, pop, no_task, begin,
  finish, end, wake, AllEnded, Step, work, admit, push, notify_one, notify_nobody, wake_up, stop,
  notify_all, join, clear, initial_shared, replicate, Reach, start, later,
}
use tftpserver.ThreadPool.Counting.{total, total-change}
use tftpserver.ThreadPool.Attended.{is_asleep}
use tftpserver.ThreadPool.Ending.{Run, here, next}

-- `Shutdown` waits in `join`, a worker sleeps, and nobody is left to notify.
pub record IsStuck (p : Pool) : Type 0 where
  pub stops : p.shared.stopping ≡ true
  pub in_join : p.phase ≡ joining
  pub sleeper : 1 ≤ total is_asleep p.workers
  pub no_submitter : p.shared.admitted ≡ none
  pub no_signal : p.shared.signals ≡ 0

Move-IsStuck :
    {s s' : Shared} {w w' : Worker}
    → Move s w s' w'
    → (is_asleep w ≡ 0)
      × (s'.stopping ≡ s.stopping)
      × (s'.admitted ≡ s.admitted)
      × (s'.signals ≡ s.signals)
Move-IsStuck (loop_ends e) = (refl, refl, refl, refl)
Move-IsStuck (loop_goes_on e) = (refl, refl, refl, refl)
Move-IsStuck (lock e) = (refl, refl, refl, refl)
Move-IsStuck (wakes_true e) = (refl, refl, refl, refl)
Move-IsStuck (wakes_false e e') = (refl, refl, refl, refl)
Move-IsStuck sleep = (refl, refl, refl, refl)
Move-IsStuck (break_out e e') = (refl, refl, refl, refl)
Move-IsStuck (pop e) = (refl, refl, refl, refl)
Move-IsStuck (no_task e e') = (refl, refl, refl, refl)
Move-IsStuck begin = (refl, refl, refl, refl)
Move-IsStuck finish = (refl, refl, refl, refl)
Move-IsStuck end = (refl, refl, refl, refl)

AllEnded-asleep : (ws : List Worker) → AllEnded ws → total is_asleep ws ≡ 0
AllEnded-asleep [] a = refl
AllEnded-asleep (w ∷ ws) a = omega (arith, AllEnded-asleep ws a.1, ap is_asleep a.0)

pub true-false : {A : Type 0} {b : Bool} → b ≡ true → b ≡ false → A
true-false e e' = absurd (contradiction e e')
  where
    contradiction : {b : Bool} → b ≡ true → b ≡ false → ⊥
    contradiction e e' = cc

none-some : {A : Type 0} {t : Task} {o : Option Task} → o ≡ none → o ≡ some t → A
none-some e e' = absurd (contradiction e e')
  where
    contradiction : {t : Task} {o : Option Task} → o ≡ none → o ≡ some t → ⊥
    contradiction e e' = cc

joining-before_notify : {A : Type 0} {d : Phase} → d ≡ joining → d ≡ before_notify → A
joining-before_notify e e' = absurd (contradiction e e')
  where
    contradiction : {d : Phase} → d ≡ joining → d ≡ before_notify → ⊥
    contradiction e e' = cc

joining-clearing : {A : Type 0} {d : Phase} → d ≡ joining → d ≡ clearing → A
joining-clearing e e' = absurd (contradiction e e')
  where
    contradiction : {d : Phase} → d ≡ joining → d ≡ clearing → ⊥
    contradiction e e' = cc

Step-IsStuck : {p q : Pool} → Step false p q → IsStuck p → IsStuck q
Step-IsStuck {p} (work before {w} {w'} after e mv) i =
    let m = Move-IsStuck mv in
    record {
      stops = m.1 ∙ i.stops;
      in_join = i.in_join;
      sleeper =
          omega (
            arith,
            i.sleeper,
            m.0,
            ap (total is_asleep) e,
            total-change is_asleep before after w w',
          );
      no_submitter = m.2 ∙ i.no_submitter;
      no_signal = m.3 ∙ i.no_signal;
    }
Step-IsStuck (admit t e g) i = true-false i.stops g
Step-IsStuck (push e) i = none-some i.no_submitter e
Step-IsStuck (notify_one before after d e) i = absurd (omega (arith, i.no_signal))
Step-IsStuck (notify_nobody d e) i = absurd (omega (arith, i.no_signal))
Step-IsStuck (wake_up before after m e) i = cc
Step-IsStuck (stop e) i = true-false i.stops e
Step-IsStuck (notify_all e) i = joining-before_notify i.in_join e
Step-IsStuck {p} (join e all) i = absurd (omega (arith, i.sleeper, AllEnded-asleep p.workers all))
Step-IsStuck (clear e free) i = joining-clearing i.in_join e

pub Run-IsStuck : {p : Pool} {k : ℕ} {q : Pool} → Run false p k q → IsStuck p → IsStuck q
Run-IsStuck here i = i
Run-IsStuck (next r e) i = Step-IsStuck e (Run-IsStuck r i)

-- The pool in which one worker sleeps and `Shutdown` has notified too early.
abbrev pub stuck_pool : ℕ → Pool
stuck_pool n = record {
  shared = record initial_shared { stopping = true };
  workers = asleep ∷ map wake (replicate n at_test);
  phase = joining;
}

pub stuck_pool-IsStuck : (n : ℕ) → IsStuck (stuck_pool n)
stuck_pool-IsStuck n = record {
  stops = refl;
  in_join = refl;
  sleeper = omega arith;
  no_submitter = refl;
  no_signal = refl;
}

pub Reach-IsStuck : (n : ℕ) → (p : Pool) × Reach false (suc n) p × IsStuck p
Reach-IsStuck n =
    let rest = replicate n at_test in
    (
      stuck_pool n,
      later
          (later
            (later
              (later
                (later (later start (work [] rest refl (loop_goes_on refl)))
                  (work [] rest refl (lock refl)))
                (work [] rest refl (wakes_false refl refl)))
              (stop refl))
            (notify_all refl))
          (work [] (map wake rest) refl sleep),
      stuck_pool-IsStuck n,
    )

-- For every number of workers but 0, and with no wake-up but a notification, the pool that the
-- constructor makes reaches a state in which `stopping_` is set, `Shutdown` waits in its join, and from
-- which no run of any length comes to a state in which `Shutdown` waits no more.
pub shutdown_hangs :
    (n : ℕ)
    → (p : Pool) × Reach false (suc n) p
      × (p.shared.stopping ≡ true)
      × (p.phase ≡ joining)
      × (¬ ((k : ℕ) × (q : Pool) × Run false p k q × (q.phase ≢ joining)))
shutdown_hangs n =
    let (p, r, stuck) = Reach-IsStuck n in
    (p, r, stuck.stops, stuck.in_join, λ out. out.3 (Run-IsStuck out.2 stuck).in_join)
