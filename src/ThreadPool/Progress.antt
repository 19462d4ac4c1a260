-- ===== src/ThreadPool/Progress.antt =====
-- The steps that are open to a pool in which `Shutdown` has begun.
use tftpserver.Prelude.{
  ℕ, zero, suc, ◌<◌, ◌≡◌, ◌⊎◌, inl, inr, refl, ap, ◌∙◌, true, false, List, ◌∷◌, ◌++◌, Option, none,
  some, arith, Bool-cases,
}
use tftpserver.ThreadPool.{
  Task, Worker, Shared, Phase, not_called, before_notify, joining, clearing, shut_down, Pool, lock,
  Step, work, push, notify_one, notify_all, join, clear, Reach, IsInner,
}
use tftpserver.ThreadPool.Counting.{total, has_lock}
use tftpserver.ThreadPool.Invariant.{submitters, holders, InPhase, IsConsistent}
use tftpserver.ThreadPool.Invariant.Preserved.{Reach-IsConsistent}
use tftpserver.ThreadPool.Attended.{is_asleep, is_awake}
use tftpserver.ThreadPool.LostWakeup.{IsStuck, true-false}
use tftpserver.ThreadPool.Movers.{find, worker_goes_on, holder_moves, all_ended, asleep_of}

-- The mutex is free, or its holder goes on.
pub free_or_step :
    {n : ℕ} (p : Pool)
    → IsConsistent n p.shared p.workers p.phase
    → (p.shared.locked ≡ false) ⊎ ((q : Pool) × (st : Step false p q) × IsInner st)
free_or_step p c = elim (Bool-cases p.shared.locked) [
  | inr free ↦ inl free
  | inl taken ↦ inr (held p.shared.admitted refl taken)
]
  where
    held :
        (o : Option Task)
        → p.shared.admitted ≡ o
        → p.shared.locked ≡ true
        → (q : Pool) × (st : Step false p q) × IsInner st
    held (some t) e taken = (_, push e, tt)
    held none e taken =
        let (before, w, after, same, heavy) =
          find has_lock p.workers
            (omega (arith, c.one_holder, ap submitters e, ap holders taken)) in
        let (s', w', move) = holder_moves p.shared w heavy in (_, work before after same move, tt)

-- A worker sleeps: someone is left to notify it, or the pool is stuck.
sleeping_step :
    (p : Pool)
    → p.shared.stopping ≡ true
    → p.phase ≡ joining
    → 0 < total is_asleep p.workers
    → ((q : Pool) × Step false p q) ⊎ IsStuck p
sleeping_step p g e some_asleep = submitter p.shared.admitted refl
  where
    signal :
        p.shared.admitted ≡ none
        → (m : ℕ) → p.shared.signals ≡ m
        → ((q : Pool) × Step false p q) ⊎ IsStuck p
    signal nobody zero e' = inr (record {
      stops = g;
      in_join = e;
      sleeper = omega (arith, some_asleep);
      no_submitter = nobody;
      no_signal = e';
    })
    signal nobody (suc m) e' =
        let (before, w, after, same, heavy) = find is_asleep p.workers some_asleep in
        inl (
          _,
          notify_one before after (omega (arith, e'))
              (same ∙ ap (λ v. before ++ v ∷ after) (asleep_of w heavy)),
        )

    submitter :
        (o : Option Task) → p.shared.admitted ≡ o → ((q : Pool) × Step false p q) ⊎ IsStuck p
    submitter (some t) e' = inl (_, push e')
    submitter none e' = signal e' p.shared.signals refl

-- A worker in the loop moves, or the holder of the mutex does.
awake_step :
    {n : ℕ} (p : Pool)
    → p.shared.stopping ≡ true
    → IsConsistent n p.shared p.workers p.phase
    → 0 < total is_awake p.workers
    → (q : Pool) × Step false p q
awake_step p g c some_awake =
    let (before, w, after, same, heavy) = find is_awake p.workers some_awake in
    elim (worker_goes_on p.shared g w heavy) [
      | inr (s', w', move) ↦ (_, work before after same move)
      | inl at_lock ↦ elim (free_or_step p c) [
        | inr more ↦ (more.0, more.1)
        | inl free ↦
            (_, work before after (same ∙ ap (λ v. before ++ v ∷ after) at_lock) (lock free))
      ]
    ]

joining_step :
    {n : ℕ} (p : Pool)
    → p.shared.stopping ≡ true
    → IsConsistent n p.shared p.workers p.phase
    → p.phase ≡ joining
    → ((q : Pool) × Step false p q) ⊎ IsStuck p
joining_step p g c e = awake (total is_awake p.workers) refl
  where
    sleepers :
        total is_awake p.workers ≡ 0
        → (k : ℕ) → total is_asleep p.workers ≡ k
        → ((q : Pool) × Step false p q) ⊎ IsStuck p
    sleepers quiet zero none_asleep = inl (_, join e (all_ended p.workers none_asleep quiet))
    sleepers quiet (suc k) some_asleep = sleeping_step p g e (omega (arith, some_asleep))

    awake : (k : ℕ) → total is_awake p.workers ≡ k → ((q : Pool) × Step false p q) ⊎ IsStuck p
    awake zero quiet = sleepers quiet (total is_asleep p.workers) refl
    awake (suc k) some_awake = inl (awake_step p g c (omega (arith, some_awake)))

not_called-stopping :
    (phase : Phase) (s : Shared) (ws : List Worker)
    → phase ≡ not_called
    → InPhase phase s ws
    → s.stopping ≡ false
not_called-stopping not_called s ws e i = i.0
not_called-stopping before_notify s ws e i = cc
not_called-stopping joining s ws e i = cc
not_called-stopping clearing s ws e i = cc
not_called-stopping shut_down s ws e i = cc

-- In every reachable state in which `stopping_` is set, with no wake-up but a notification: either
-- `Shutdown` has returned, or a step can be made, or `Shutdown` waits for a worker that sleeps and
-- that nobody is left to notify.
pub shutdown_progress :
    {n : ℕ} {p : Pool}
    → Reach false n p
    → p.shared.stopping ≡ true
    → (p.phase ≡ shut_down) ⊎ (((q : Pool) × Step false p q) ⊎ IsStuck p)
shutdown_progress {n} {p} r g = at_phase p.phase refl
  where
    consistent : IsConsistent n p.shared p.workers p.phase
    consistent = Reach-IsConsistent r

    at_phase :
        (phase : Phase)
        → p.phase ≡ phase
        → (p.phase ≡ shut_down) ⊎ (((q : Pool) × Step false p q) ⊎ IsStuck p)
    at_phase not_called e =
        true-false g (not_called-stopping p.phase p.shared p.workers e consistent.in_phase)
    at_phase before_notify e = inr (inl (_, notify_all e))
    at_phase joining e = inr (joining_step p g consistent e)
    at_phase clearing e = elim (free_or_step p consistent) [
      | inl free ↦ inr (inl (_, clear e free))
      | inr more ↦ inr (inl (more.0, more.1))
    ]
    at_phase shut_down e = inl e
