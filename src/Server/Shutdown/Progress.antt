-- ===== src/Server/Shutdown/Progress.antt =====
-- src/internal/tftp_server_impl.cpp: the steps that are open once Stop has been called.
use tftpserver.Prelude.{
  ℕ, zero, suc, ◌<◌, ◌≡◌, ◌⊎◌, inl, inr, refl, ap, subst, ◌∙◌, true, false, List, [], ◌∷◌, ◌++◌,
  map, Option, none, some, arith, Bool-cases,
}
use tftpserver.ThreadPool.{
  Task, Worker, asleep, locking, going_to_sleep, picking, holding, running, returning, Pool,
  IsInner, push, notify_one, notify_nobody, wake,
}
use tftpserver.ThreadPool
use tftpserver.ThreadPool.Counting.{total}
use tftpserver.ThreadPool.Attended.{is_asleep}
use tftpserver.ThreadPool.Invariant.{holders}
use tftpserver.ThreadPool.Invariant.Preserved.{Reach-IsConsistent}
use tftpserver.ThreadPool.LostWakeup.{IsStuck}
use tftpserver.ThreadPool.Movers.{find, asleep_of}
use tftpserver.ThreadPool.Inner.{stopping-IsInner}
use tftpserver.ThreadPool.Progress.{free_or_step, shutdown_progress}
use tftpserver.Server.Shutdown.{
  Place, at_test, calling, in_recvfrom, waiting, checking, submitting, in_submit, ended, Stage,
  not_called, flag_cleared, has_mutex, in_shutdown, closing, closed, joining, returned, State, Step,
  pool_moves, loop_ends, call_closed, lock_to_submit, pool_available, drop, call_submit,
  submit_returns, lock_to_stop, call_shutdown, reset_pool, close_socket, forget_socket, join_thread,
  Reach,
}
use tftpserver.Server.Shutdown.Orderly.{
  running_at, pool_there_at, stopping_at, valid_at, stop_holds, loop_holds, AtPlace, due, IsOrderly,
}
use tftpserver.Server.Shutdown.Always.{Reach-IsOrderly}

-- Nobody sleeps, so `notify_all` wakes nobody.
none_woken : (ws : List Worker) → total is_asleep ws ≡ 0 → map wake ws ≡ ws
none_woken [] e = refl
none_woken (w ∷ ws) e = rw (stays w (omega (arith, e)), none_woken ws (omega (arith, e)))
  where
    stays : (w : Worker) → is_asleep w ≡ 0 → wake w ≡ w
    stays asleep e = absurd (omega (arith, e))
    stays ThreadPool.at_test e = refl
    stays locking e = refl
    stays ThreadPool.checking e = refl
    stays going_to_sleep e = refl
    stays picking e = refl
    stays (holding t) e = refl
    stays (running t) e = refl
    stays returning e = refl
    stays ThreadPool.ended e = refl

-- A notification that is due can be made.
notify_step :
    (p : Pool) → 0 < p.shared.signals → (q : Pool) × (st : ThreadPool.Step false p q) × IsInner st
notify_step p some_due = pick (total is_asleep p.workers) refl
  where
    pick :
        (k : ℕ)
        → total is_asleep p.workers ≡ k
        → (q : Pool) × (st : ThreadPool.Step false p q) × IsInner st
    pick zero e = (_, notify_nobody some_due (none_woken p.workers e), tt)
    pick (suc k) e =
        let (before, w, after, same, heavy) = find is_asleep p.workers (omega (arith, e)) in
        (
          _,
          notify_one before after some_due
              (same ∙ ap (λ v. before ++ v ∷ after) (asleep_of w heavy)),
          tt,
        )

-- Stop has reached its join, and ServerLoop waits in `recvfrom`.
abbrev pub Hangs : State → Type 0
Hangs s = (s.stage ≡ joining) × (s.place ≡ in_recvfrom)

-- Shutdown waits for a worker that nobody is left to notify.
abbrev pub PoolHangs : State → Type 0
PoolHangs s = (s.stage ≡ in_shutdown) × IsStuck s.pool

module _ {n : ℕ} (s : State) (i : IsOrderly false n s) where
  abbrev Next : Type 0
  Next = (t : State) × Step false false s t

  inner_step :
      s.pool_there ≡ true → (q : Pool) × (st : ThreadPool.Step false s.pool q) × IsInner st → Next
  inner_step there (q, st, inner) = (_, pool_moves st inner there)

  placed :
      {place : Place}
      → s.place ≡ place
      → AtPlace place s.running s.pool_there s.pool.shared.stopping (due s.pool)
  placed e =
      subst (λ place. AtPlace place s.running s.pool_there s.pool.shared.stopping (due s.pool)) e
        i.at_place

  checked : {t : Task} → s.place ≡ checking t → Next
  checked e = elim (Bool-cases s.pool_there) [
    | inr gone ↦ (_, drop e (inl gone))
    | inl there ↦ elim (Bool-cases s.pool.shared.stopping) [
      | inl stops ↦ (_, drop e (inr stops))
      | inr going ↦ (_, pool_available e there going)
    ]
  ]

  submitted : {t : Task} → s.place ≡ submitting t → Next
  submitted e =
      let (there, going, quiet) = placed e in
      elim (free_or_step s.pool (Reach-IsConsistent i.pool)) [
        | inl free ↦ (_, call_submit e free going)
        | inr more ↦ inner_step there more
      ]

  in_call : {t : Task} → s.place ≡ in_submit t → Next
  in_call {t} e = admitted s.pool.shared.admitted refl
    where
      signal : s.pool.shared.admitted ≡ none → (k : ℕ) → s.pool.shared.signals ≡ k → Next
      signal nobody zero e' = (_, submit_returns e nobody e')
      signal nobody (suc k) e' = inner_step (placed e).0 (notify_step s.pool (omega (arith, e')))

      admitted : (o : Option Task) → s.pool.shared.admitted ≡ o → Next
      admitted (some t) e' = inner_step (placed e).0 (_, push e', tt)
      admitted none e' = signal e' s.pool.shared.signals refl

  -- ServerLoop goes on while it has the mutex.
  holder_step : (place : Place) → s.place ≡ place → loop_holds place ≡ 1 → Next
  holder_step (checking t) e one = checked e
  holder_step (submitting t) e one = submitted e
  holder_step (in_submit t) e one = in_call e
  holder_step at_test e one = absurd (omega (arith, one))
  holder_step calling e one = absurd (omega (arith, one))
  holder_step in_recvfrom e one = absurd (omega (arith, one))
  holder_step (waiting t) e one = absurd (omega (arith, one))
  holder_step ended e one = absurd (omega (arith, one))

  -- The mutex is free, or the loop has it and goes on.
  free_or_loop : stop_holds s.stage ≡ 0 → (s.locked ≡ false) ⊎ Next
  free_or_loop none_held = elim (Bool-cases s.locked) [
    | inr free ↦ inl free
    | inl taken ↦
        inr (holder_step s.place refl (omega (arith, i.one_holder, none_held, ap holders taken)))
  ]

  joins : s.stage ≡ joining → (place : Place) → s.place ≡ place → Next ⊎ Hangs s
  joins e ended e' = inl (_, join_thread e e')
  joins e at_test e' = inl (_, loop_ends e' (i.runs ∙ ap running_at e))
  joins e calling e' = inl (_, call_closed e' (inl (i.valid ∙ ap valid_at e)))
  joins e in_recvfrom e' = inr (e, e')
  joins e (waiting t) e' = elim (free_or_loop (ap stop_holds e)) [
    | inl free ↦ inl (_, lock_to_submit e' free)
    | inr more ↦ inl more
  ]
  joins e (checking t) e' = inl (checked e')
  joins e (submitting t) e' = inl (submitted e')
  joins e (in_submit t) e' = inl (in_call e')

  shuts_down : s.stage ≡ in_shutdown → Next ⊎ PoolHangs s
  shuts_down e =
      let stops = i.stops ∙ ap stopping_at e in
      elim (shutdown_progress i.pool stops) [
        | inl over ↦ inl (_, reset_pool e over)
        | inr (inl (q, st)) ↦
            inl (inner_step (i.there ∙ ap pool_there_at e) (q, st, stopping-IsInner st stops))
        | inr (inr stuck) ↦ inr (e, stuck)
      ]

  pub stop_step :
      (stage : Stage)
      → s.stage ≡ stage
      → (s.stage ≡ not_called) ⊎ ((s.stage ≡ returned) ⊎ (Next ⊎ (Hangs s ⊎ PoolHangs s)))
  stop_step not_called e = inl e
  stop_step flag_cleared e = elim (free_or_loop (ap stop_holds e)) [
    | inl free ↦ inr (inr (inl (_, lock_to_stop e free)))
    | inr more ↦ inr (inr (inl more))
  ]
  stop_step has_mutex e =
      inr
        (inr (inl (_, call_shutdown e (i.there ∙ ap pool_there_at e) (i.stops ∙ ap stopping_at e))))
  stop_step in_shutdown e = elim (shuts_down e) [
    | inl more ↦ inr (inr (inl more))
    | inr stuck ↦ inr (inr (inr (inr stuck)))
  ]
  stop_step closing e = inr (inr (inl (_, close_socket e (i.valid ∙ ap valid_at e))))
  stop_step closed e = inr (inr (inl (_, forget_socket e)))
  stop_step joining e = elim (joins e s.place refl) [
    | inl more ↦ inr (inr (inl more))
    | inr hangs ↦ inr (inr (inr (inl hangs)))
  ]
  stop_step returned e = inr (inl e)

-- Whatever the order of the steps was until Stop was called, with no datagram to come and no wake-up in
-- the pool but a notification: Stop has returned, or a step can be made, or Stop waits in its join for
-- a ServerLoop that waits in `recvfrom`, or Shutdown waits for a worker that nobody is left to notify.
pub stop_progress :
    {n : ℕ} {s : State}
    → Reach false true n s
    → (s.stage ≡ not_called)
      ⊎ ((s.stage ≡ returned) ⊎ (((t : State) × Step false false s t) ⊎ (Hangs s ⊎ PoolHangs s)))
stop_progress {s = s} r = stop_step s (Reach-IsOrderly r) s.stage refl
