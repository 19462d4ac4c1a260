-- ===== src/Server/Shutdown/Ending.antt =====
-- src/internal/tftp_server_impl.cpp: how a call of Stop ends.
use tftpserver.Prelude.{
  ℕ, zero, suc, ◌+◌, ◌<◌, ◌≤◌, ◌≡◌, ◌⊎◌, inl, inr, refl, sym, ap, ◌∙◌, Bool, true, false, arith,
}
use tftpserver.ThreadPool.Ending.{measure, Step-measure}
use tftpserver.ThreadPool.LostWakeup.{true-false}
use tftpserver.Server.Shutdown.{
  Place, at_test, calling, in_recvfrom, waiting, checking, submitting, in_submit, ended, Stage,
  not_called, flag_cleared, has_mutex, in_shutdown, closing, closed, returned, State, Step,
  pool_moves, loop_ends, loop_goes_on, call_recvfrom, call_closed, datagram, nothing_received,
  lock_to_submit, pool_available, drop, call_submit, submit_throws, submit_returns, stop_begins,
  lock_to_stop, call_shutdown, no_pool, reset_pool, close_socket, no_socket, forget_socket,
  join_thread, started, Reach, begin, later,
}
use tftpserver.Server.Shutdown
use tftpserver.Server.Shutdown.Orderly.{running_at, stopping_at, IsOrderly}
use tftpserver.Server.Shutdown.Always.{Step-IsOrderly, Reach-IsOrderly}
use tftpserver.Server.Shutdown.Progress.{Hangs, PoolHangs, stop_step}

-- The steps that are left, at most, to ServerLoop and to Stop.
abbrev place_left : Place → ℕ
place_left ended = 0
place_left at_test = 1
place_left in_recvfrom = 2
place_left (in_submit t) = 2
place_left (submitting t) = 3
place_left (checking t) = 4
place_left (waiting t) = 5
place_left calling = 3

abbrev stage_left : Stage → ℕ
stage_left returned = 0
stage_left Shutdown.joining = 1
stage_left closed = 2
stage_left closing = 3
stage_left in_shutdown = 4
stage_left has_mutex = 5
stage_left flag_cleared = 6
stage_left not_called = 7

abbrev left : State → ℕ
left s = measure s.pool + place_left s.place + stage_left s.stage

off_at : (stage : Stage) → stopping_at stage ≡ true → running_at stage ≡ false
off_at not_called e = true-false e refl
off_at flag_cleared e = refl
off_at has_mutex e = refl
off_at in_shutdown e = refl
off_at closing e = refl
off_at closed e = refl
off_at Shutdown.joining e = refl
off_at returned e = refl

-- Once the pool is stopping, each step without the network leaves less to do.
Step-left :
    {may_wake : Bool} {n : ℕ} {s t : State}
    → Step may_wake false s t
    → IsOrderly may_wake n s
    → s.pool.shared.stopping ≡ true
    → (left t < left s) × (t.pool.shared.stopping ≡ true)
Step-left (pool_moves st inner there) i g =
    let (less, g') = Step-measure st g in (omega (arith, less), g')
Step-left (loop_ends e off) i g = (omega (arith, ap place_left e), g)
Step-left {s = s} (loop_goes_on e on) i g =
    true-false on (i.runs ∙ off_at s.stage (sym i.stops ∙ g))
Step-left (call_recvfrom e v o) i g = (omega (arith, ap place_left e), g)
Step-left (call_closed e c) i g = (omega (arith, ap place_left e), g)
Step-left (datagram on e) i g = cc
Step-left (nothing_received on e) i g = cc
Step-left (lock_to_submit e free) i g = (omega (arith, ap place_left e), g)
Step-left (pool_available e there going) i g = true-false g going
Step-left (drop e why) i g = (omega (arith, ap place_left e), g)
Step-left (call_submit e free going) i g = true-false g going
Step-left (submit_throws e why) i g = (omega (arith, ap place_left e), g)
Step-left (submit_returns e nobody none_due) i g = (omega (arith, ap place_left e), g)
Step-left (stop_begins e on) i g = (omega (arith, ap stage_left e), g)
Step-left (lock_to_stop e free) i g = (omega (arith, ap stage_left e), g)
Step-left (call_shutdown e there going) i g = true-false g going
Step-left (no_pool e there) i g = (omega (arith, ap stage_left e), g)
Step-left (reset_pool e over) i g = (omega (arith, ap stage_left e), g)
Step-left (close_socket e v) i g = (omega (arith, ap stage_left e), g)
Step-left (no_socket e v) i g = (omega (arith, ap stage_left e), g)
Step-left (forget_socket e) i g = (omega (arith, ap stage_left e), g)
Step-left (join_thread e over) i g = (omega (arith, ap stage_left e), g)

-- A sequence of steps, of this length.
pub data Run (may_wake network : Bool) (s : State) : ℕ → State → Type 0 where
  here : Run may_wake network s 0 s
  next :
      {k : ℕ} {t u : State}
      → Run may_wake network s k t
      → Step may_wake network t u
      → Run may_wake network s (suc k) u

-- A state in which Stop has returned; or in which Stop waits in its join for a ServerLoop that waits in
-- `recvfrom`, and when that returns 0 or less, three steps lead to the return of Stop; or in which
-- Shutdown waits for a worker that nobody is left to notify.
abbrev pub IsOver : State → Type 0
IsOver s =
    (s.stage ≡ returned)
    ⊎ ((Hangs s × (t : State) × Run false true s 3 t × (t.stage ≡ returned)) ⊎ PoolHangs s)

Hangs-returned :
    {n : ℕ} {s : State}
    → IsOrderly false n s
    → Hangs s
    → (t : State) × Run false true s 3 t × (t.stage ≡ returned)
Hangs-returned i (at_join, waits) =
    let woken = next here (nothing_received refl waits) in
    let ended = next woken (loop_ends refl (i.runs ∙ ap running_at at_join)) in
    (_, next ended (join_thread at_join refl), refl)

settled_or_next :
    {n : ℕ} (s : State)
    → IsOrderly false n s
    → s.pool.shared.stopping ≡ true
    → IsOver s ⊎ ((t : State) × Step false false s t)
settled_or_next s i g = elim (stop_step s i s.stage refl) [
  | inl early ↦ true-false g (i.stops ∙ ap stopping_at early)
  | inr (inl over) ↦ inl (inl over)
  | inr (inr (inr (inl hangs))) ↦
      let (t, run, back) = Hangs-returned i hangs in inl (inr (inl (hangs, t, run, back)))
  | inr (inr (inr (inr stuck))) ↦ inl (inr (inr stuck))
  | inr (inr (inl more)) ↦ inr more
]

goes_to_end :
    {n : ℕ} (fuel k : ℕ) {s t : State}
    → Run false false s k t
    → IsOrderly false n t
    → t.pool.shared.stopping ≡ true
    → left t ≤ fuel
    → (m : ℕ) × (u : State) × Run false false s m u × IsOver u
goes_to_end zero k {t = t} r i g small = elim (settled_or_next t i g) [
  | inl over ↦ (k, t, r, over)
  | inr (u, st) ↦ absurd (omega (arith, (Step-left st i g).0))
]
goes_to_end (suc fuel) k {t = t} r i g small = elim (settled_or_next t i g) [
  | inl over ↦ (k, t, r, over)
  | inr (u, st) ↦
      let (less, g') = Step-left st i g in
      goes_to_end fuel (suc k) (next r st) (Step-IsOrderly st i) g' (omega (arith, less, small))
]

-- From every reachable state in which `stopping_` is set, with no datagram to come and no wake-up in the
-- pool but a notification, Stop comes in finitely many steps to its return; or to its join with a
-- ServerLoop that waits in `recvfrom`, and three steps from there to its return when that fails; or
-- Shutdown waits for a worker that nobody is left to notify.
pub stop_ends :
    {n : ℕ} {s : State}
    → Reach false true n s
    → s.pool.shared.stopping ≡ true
    → (m : ℕ) × (u : State) × Run false false s m u × IsOver u
stop_ends {s = s} r g = goes_to_end (left s) 0 here (Reach-IsOrderly r) g (omega arith)
