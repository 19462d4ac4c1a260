-- ===== src/ThreadPool.antt =====
-- src/internal/tftp_thread_pool.cpp and .h: the workers, the queue, the condition variable and the
-- threads that call `Submit` and `Shutdown`, interleaved in any order.
pub mod Counting
pub mod Invariant
pub mod Inner
pub mod Attended
pub mod Ending
pub mod LostWakeup
pub mod Movers
pub mod Progress
pub mod Size
pub mod Once
pub mod Outcome
use tftpserver.Prelude.{
  ℕ, zero, suc, ◌+◌, ◌-◌, ◌<◌, ◌≡◌, ◌≢◌, ◌⊎◌, Bool, true, false, List, [], ◌∷◌, Option, none, some,
  ◌++◌, map, ltb, ◌==◌, if◌then◌else◌,
}

-- `num_threads` as the constructor clamps it; `hardware` is `std::thread::hardware_concurrency()`.
unfoldable pub thread_count : ℕ → ℕ → ℕ
thread_count hardware num_threads =
    let wanted =
      if num_threads == 0 then (if hardware == 0 then 4 else hardware) else num_threads in
    let below = if ltb wanted 64 then wanted else 64 in if ltb 1 below then below else 1

-- A task is named by the call of `Submit` that brought it.
abbrev pub Task : Type 0
Task = ℕ

-- Where a worker stands in `WorkerThread`.
pub data Worker : Type 0 where
  -- before the test of the loop
  at_test : Worker
  -- before it has the mutex, at the start of the block or woken in `wait`
  locking : Worker
  -- with the mutex, before the predicate of `wait`
  checking : Worker
  -- with the mutex, the predicate was false
  going_to_sleep : Worker
  -- in the wait of the condition variable, without the mutex
  asleep : Worker
  -- with the mutex, the predicate was true
  picking : Worker
  -- behind the block, with a task in hand
  holding : Task → Worker
  -- in the call of the task
  running : Task → Worker
  -- behind the call, before `fetch_sub`
  returning : Worker
  ended : Worker

-- The members, and what was done: the accepted tasks, the tasks that left the queue, those whose
-- call has ended, and those that `Shutdown` cleared, each in order. `admitted` is the task of the
-- caller of `Submit` that has the mutex and has passed its test of `stopping_`; `signals` counts the
-- callers that have queued a task and have not called `notify_one` yet.
pub record Shared : Type 0 where
  pub stopping : Bool
  pub locked : Bool
  pub tasks : List Task
  pub active_tasks : ℕ
  pub admitted : Option Task
  pub signals : ℕ
  pub accepted : List Task
  pub taken : List Task
  pub finished : List Task
  pub cleared : List Task

-- Where the first call of `Shutdown` stands; later calls return at once.
pub data Phase : Type 0 where
  not_called : Phase
  before_notify : Phase
  joining : Phase
  clearing : Phase
  shut_down : Phase

pub record Pool : Type 0 where
  pub shared : Shared
  pub workers : List Worker
  pub phase : Phase

-- One step of one worker.
pub data Move (s : Shared) : Worker → Shared → Worker → Type 0 where
  loop_ends : s.stopping ≡ true → Move s at_test s ended
  loop_goes_on : s.stopping ≡ false → Move s at_test s locking
  lock : s.locked ≡ false → Move s locking (record s { locked = true }) checking
  wakes_true : (s.stopping ≡ true) ⊎ (s.tasks ≢ []) → Move s checking s picking
  wakes_false : s.stopping ≡ false → s.tasks ≡ [] → Move s checking s going_to_sleep
  sleep : Move s going_to_sleep (record s { locked = false }) asleep
  break_out : s.stopping ≡ true → s.tasks ≡ [] → Move s picking (record s { locked = false }) ended
  pop :
      {t : Task} {rest : List Task}
      → s.tasks ≡ t ∷ rest
      → Move s picking
          (record s { locked = false; tasks = rest; taken = s.taken ++ t ∷ [] })
          (holding t)
  no_task : s.stopping ≡ false → s.tasks ≡ [] → Move s picking (record s { locked = false }) at_test
  begin :
      {t : Task} → Move s (holding t) (record s { active_tasks = s.active_tasks + 1 }) (running t)
  finish : {t : Task} → Move s (running t) (record s { finished = s.finished ++ t ∷ [] }) returning
  end : Move s returning (record s { active_tasks = s.active_tasks - 1 }) at_test

-- `notify_all`
abbrev pub wake : Worker → Worker
wake asleep = locking
wake w = w

abbrev pub AllEnded : List Worker → Type 0
AllEnded [] = Unit
AllEnded (w ∷ ws) = (w ≡ ended) × AllEnded ws

-- One step of the pool. The parameter says whether a wait may end without a notification, which the
-- language allows.
pub data Step (may_wake : Bool) (p : Pool) : Pool → Type 0 where
  work :
      (before : List Worker) {w w' : Worker} (after : List Worker) {s : Shared}
      → p.workers ≡ before ++ w ∷ after
      → Move p.shared w s w'
      → Step may_wake p (record p { shared = s; workers = before ++ w' ∷ after })
  -- The block of `Submit`: the test, and the rest. A call that finds `stopping_` throws.
  admit :
      (t : Task)
      → p.shared.locked ≡ false
      → p.shared.stopping ≡ false
      → Step may_wake p (record p { shared = record p.shared { locked = true; admitted = some t } })
  push :
      {t : Task}
      → p.shared.admitted ≡ some t
      → Step may_wake p (record p {
        shared = record p.shared {
          locked = false;
          admitted = none;
          tasks = p.shared.tasks ++ t ∷ [];
          accepted = p.shared.accepted ++ t ∷ [];
          signals = p.shared.signals + 1;
        };
      })
  notify_one :
      (before after : List Worker)
      → 0 < p.shared.signals
      → p.workers ≡ before ++ asleep ∷ after
      → Step may_wake p (record p {
        shared = record p.shared { signals = p.shared.signals - 1 };
        workers = before ++ locking ∷ after;
      })
  notify_nobody :
      0 < p.shared.signals
      → map wake p.workers ≡ p.workers
      → Step may_wake p (record p { shared = record p.shared { signals = p.shared.signals - 1 } })
  wake_up :
      (before after : List Worker)
      → may_wake ≡ true
      → p.workers ≡ before ++ asleep ∷ after
      → Step may_wake p (record p { workers = before ++ locking ∷ after })
  -- `Shutdown`
  stop :
      p.shared.stopping ≡ false
      → Step may_wake p
          (record p { shared = record p.shared { stopping = true }; phase = before_notify })
  notify_all :
      p.phase ≡ before_notify
      → Step may_wake p (record p { workers = map wake p.workers; phase = joining })
  join : p.phase ≡ joining → AllEnded p.workers → Step may_wake p (record p { phase = clearing })
  clear :
      p.phase ≡ clearing
      → p.shared.locked ≡ false
      → Step may_wake p (record p {
        shared = record p.shared { tasks = []; cleared = p.shared.tasks };
        phase = shut_down;
      })

-- A step that is no call of Submit or Shutdown.
abbrev pub IsInner : {may_wake : Bool} {p q : Pool} → Step may_wake p q → Type 0
IsInner (admit t free going) = ⊥
IsInner (stop going) = ⊥
IsInner _ = Unit

abbrev pub initial_shared : Shared
initial_shared = record {
  stopping = false;
  locked = false;
  tasks = [];
  active_tasks = 0;
  admitted = none;
  signals = 0;
  accepted = [];
  taken = [];
  finished = [];
  cleared = [];
}

abbrev pub replicate : ℕ → Worker → List Worker
replicate zero w = []
replicate (suc n) w = w ∷ replicate n w

-- The pool that the constructor makes.
abbrev pub initial_pool : ℕ → Pool
initial_pool n = record {
  shared = initial_shared;
  workers = replicate n at_test;
  phase = not_called;
}

pub data Reach (may_wake : Bool) (n : ℕ) : Pool → Type 0 where
  start : Reach may_wake n (initial_pool n)
  later : {p q : Pool} → Reach may_wake n p → Step may_wake p q → Reach may_wake n q
