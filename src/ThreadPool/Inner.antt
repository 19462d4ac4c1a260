-- ===== src/ThreadPool/Inner.antt =====
-- src/internal/tftp_thread_pool.cpp: what a step of the pool that is no call of Submit or Shutdown
-- leaves as it is.
use tftpserver.Prelude.{◌+◌, ◌≤◌, ◌≡◌, refl, ap, Bool, true, length, length-snoc, arith}
use tftpserver.ThreadPool.{
  Shared, Worker, Pool, Step, Move, loop_ends, loop_goes_on, lock, wakes_true, wakes_false, sleep,
  break_out, pop, no_task, begin, finish, end, work, admit, push, notify_one, notify_nobody,
  wake_up, stop, notify_all, join, clear, IsInner,
}
use tftpserver.ThreadPool.Invariant.{submitters}
use tftpserver.ThreadPool.LostWakeup.{true-false}

-- The flag stays; the caller of Submit and the notifications that are due get no more; and a task that
-- is accepted was admitted before.
pub record Kept (s s' : Shared) : Type 0 where
  pub stops : s'.stopping ≡ s.stopping
  pub quiet : submitters s'.admitted + s'.signals ≤ submitters s.admitted + s.signals
  pub count :
      length s'.accepted + submitters s'.admitted ≡ length s.accepted + submitters s.admitted

unchanged : {s : Shared} → Kept s s
unchanged = record { stops = refl; quiet = omega arith; count = refl }

Move-Kept : {s s' : Shared} {w w' : Worker} → Move s w s' w' → Kept s s'
Move-Kept (loop_ends e) = unchanged
Move-Kept (loop_goes_on e) = unchanged
Move-Kept (wakes_true e) = unchanged
Move-Kept (wakes_false e e') = unchanged
Move-Kept (lock e) = record { stops = refl; quiet = omega arith; count = refl }
Move-Kept sleep = record { stops = refl; quiet = omega arith; count = refl }
Move-Kept (break_out e e') = record { stops = refl; quiet = omega arith; count = refl }
Move-Kept (pop e) = record { stops = refl; quiet = omega arith; count = refl }
Move-Kept (no_task e e') = record { stops = refl; quiet = omega arith; count = refl }
Move-Kept begin = record { stops = refl; quiet = omega arith; count = refl }
Move-Kept finish = record { stops = refl; quiet = omega arith; count = refl }
Move-Kept end = record { stops = refl; quiet = omega arith; count = refl }

pub IsInner-Kept :
    {may_wake : Bool} {p q : Pool} (st : Step may_wake p q) → IsInner st → Kept p.shared q.shared
IsInner-Kept (work before after e m) inner = Move-Kept m
IsInner-Kept {p} (push {t} e) inner = record {
  stops = refl;
  quiet = omega (arith, ap submitters e);
  count = omega (arith, ap submitters e, length-snoc p.shared.accepted t);
}
IsInner-Kept (notify_one before after some e) inner = record {
  stops = refl;
  quiet = omega arith;
  count = refl;
}
IsInner-Kept (notify_nobody some e) inner = record {
  stops = refl;
  quiet = omega arith;
  count = refl;
}
IsInner-Kept (wake_up before after m e) inner = unchanged
IsInner-Kept (notify_all e) inner = unchanged
IsInner-Kept (join e all) inner = unchanged
IsInner-Kept (clear e free) inner = record { stops = refl; quiet = omega arith; count = refl }
IsInner-Kept (admit t free going) inner = elim inner [ ]
IsInner-Kept (stop going) inner = elim inner [ ]

-- Once the pool is stopping there are no other steps.
pub stopping-IsInner :
    {may_wake : Bool} {p q : Pool} (st : Step may_wake p q) → p.shared.stopping ≡ true → IsInner st
stopping-IsInner (work before after e m) g = tt
stopping-IsInner (admit t free going) g = true-false g going
stopping-IsInner (push e) g = tt
stopping-IsInner (notify_one before after some e) g = tt
stopping-IsInner (notify_nobody some e) g = tt
stopping-IsInner (wake_up before after m e) g = tt
stopping-IsInner (stop going) g = true-false g going
stopping-IsInner (notify_all e) g = tt
stopping-IsInner (join e all) g = tt
stopping-IsInner (clear e free) g = tt
