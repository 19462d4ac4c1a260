-- ===== src/Server/Shutdown/Unique.antt =====
-- src/internal/tftp_server_impl.cpp: no datagram is submitted twice.
use tftpserver.Prelude.{
  ℕ, ◌+◌, ◌≤◌, ◌≡◌, refl, ap, Bool, List, [], ◌∷◌, ◌++◌, Option, none, some, ltb, if◌then◌else◌,
  arith,
}
use tftpserver.ThreadPool.{
  Task, Pool, Move, loop_ends, loop_goes_on, lock, wakes_true, wakes_false, sleep, break_out, pop,
  no_task, begin, finish, end, work, admit, push, notify_one, notify_nobody, wake_up, stop,
  notify_all, join, clear, IsInner, Shared, Worker,
}
use tftpserver.ThreadPool
use tftpserver.ThreadPool.Once.{is_task, times}
use tftpserver.ThreadPool.Invariant.{submitters}
use tftpserver.Server.Shutdown.{
  Place, waiting, checking, submitting, in_submit, State, Step, pool_moves, call_recvfrom,
  call_closed, datagram, nothing_received, lock_to_submit, pool_available, drop, call_submit,
  submit_throws, submit_returns, stop_begins, lock_to_stop, call_shutdown, no_pool, reset_pool,
  close_socket, no_socket, forget_socket, join_thread, Reach, later,
}
use tftpserver.Server.Shutdown
use tftpserver.Server.Shutdown.Orderly.{IsOrderly}
use tftpserver.Server.Shutdown.Kept.{inside}
use tftpserver.Server.Shutdown.Moved.{quiet}
use tftpserver.Server.Shutdown.Always.{Reach-IsOrderly}

-- 1 when the caller of Submit in the block of the pool has this task.
abbrev admitted_is : Task → Option Task → ℕ
admitted_is t none = 0
admitted_is t (some u) = is_task t u

-- 1 when ServerLoop has this datagram in its hand.
abbrev carries : Task → Place → ℕ
carries t (waiting u) = is_task t u
carries t (checking u) = is_task t u
carries t (submitting u) = is_task t u
carries t _ = 0

-- How often the pool has this task from the loop.
abbrev given : Task → Shared → ℕ
given t s = times t s.accepted + admitted_is t s.admitted

pub times-append : (t : Task) (us vs : List Task) → times t (us ++ vs) ≡ times t us + times t vs
times-append t [] vs = omega arith
times-append t (u ∷ us) vs = omega (arith, times-append t us vs)

given-Move : {s s' : Shared} {w w' : Worker} (t : Task) → Move s w s' w' → given t s' ≡ given t s
given-Move t (loop_ends e) = refl
given-Move t (loop_goes_on e) = refl
given-Move t (lock e) = refl
given-Move t (wakes_true e) = refl
given-Move t (wakes_false e e') = refl
given-Move t sleep = refl
given-Move t (break_out e e') = refl
given-Move t (pop e) = refl
given-Move t (no_task e e') = refl
given-Move t begin = refl
given-Move t finish = refl
given-Move t end = refl

given-inner :
    {may_wake : Bool} {p q : Pool} (t : Task) (st : ThreadPool.Step may_wake p q)
    → IsInner st
    → given t q.shared ≡ given t p.shared
given-inner t (work before after e mv) inner = given-Move t mv
given-inner {p = p} t (push {t = u} e) inner =
    omega (arith, ap (admitted_is t) e, times-append t p.shared.accepted (u ∷ []))
given-inner t (notify_one before after due e) inner = refl
given-inner t (notify_nobody due e) inner = refl
given-inner t (wake_up before after may e) inner = refl
given-inner t (notify_all e) inner = refl
given-inner t (join e all) inner = refl
given-inner t (clear e free) inner = refl
given-inner t (admit u free going) inner = elim inner [ ]
given-inner t (stop going) inner = elim inner [ ]

-- A datagram that was received is with the pool or the loop at most once, and another one never.
abbrev AtMostOnce : Task → State → Type 0
AtMostOnce t s = given t s.pool.shared + carries t s.place ≤ (if ltb t s.received then 1 else 0)

none_admitted : (t : Task) (o : Option Task) → submitters o ≡ 0 → admitted_is t o ≡ 0
none_admitted t none e = refl
none_admitted t (some u) e = absurd (omega (arith, e))

Step-AtMostOnce :
    {may_wake network : Bool} {n : ℕ} {s s' : State} (t : Task)
    → Step may_wake network s s'
    → IsOrderly may_wake n s
    → AtMostOnce t s
    → AtMostOnce t s'
Step-AtMostOnce t (pool_moves st inner there) i b = omega (arith, b, given-inner t st inner)
Step-AtMostOnce t (Shutdown.loop_ends e off) i b = omega (arith, b)
Step-AtMostOnce t (Shutdown.loop_goes_on e on) i b = omega (arith, b)
Step-AtMostOnce t (call_recvfrom e v o) i b = omega (arith, b)
Step-AtMostOnce t (call_closed e c) i b = omega (arith, b)
Step-AtMostOnce t (datagram on e) i b = ground (arith, b, ap (carries t) e)
Step-AtMostOnce t (nothing_received on e) i b = omega (arith, b)
Step-AtMostOnce t (lock_to_submit e free) i b = omega (arith, b, ap (carries t) e)
Step-AtMostOnce t (pool_available e there going) i b = omega (arith, b, ap (carries t) e)
Step-AtMostOnce t (drop e why) i b = omega (arith, b)
Step-AtMostOnce {s = s} t (call_submit e free going) i b = omega (
  arith,
  b,
  ap (carries t) e,
  none_admitted t s.pool.shared.admitted (omega (arith, quiet s i (ap inside e))),
)
Step-AtMostOnce t (submit_throws e why) i b = omega (arith, b)
Step-AtMostOnce t (submit_returns e nobody none_due) i b = omega (arith, b)
Step-AtMostOnce t (stop_begins e on) i b = b
Step-AtMostOnce t (lock_to_stop e free) i b = b
Step-AtMostOnce t (call_shutdown e there going) i b = b
Step-AtMostOnce t (no_pool e there) i b = b
Step-AtMostOnce t (reset_pool e over) i b = b
Step-AtMostOnce t (close_socket e v) i b = b
Step-AtMostOnce t (no_socket e v) i b = b
Step-AtMostOnce t (forget_socket e) i b = b
Step-AtMostOnce t (join_thread e over) i b = b

Reach-AtMostOnce :
    {may_wake network : Bool} {n : ℕ} {s : State} (t : Task)
    → Reach may_wake network n s
    → AtMostOnce t s
Reach-AtMostOnce t Shutdown.begin = omega arith
Reach-AtMostOnce t (later r st) = Step-AtMostOnce t st (Reach-IsOrderly r) (Reach-AtMostOnce t r)

-- No datagram is accepted twice.
pub accepted_once :
    {may_wake network : Bool} {n : ℕ} {s : State} (t : Task)
    → Reach may_wake network n s
    → times t s.pool.shared.accepted ≤ 1
accepted_once t r = ground (arith, Reach-AtMostOnce t r)
