-- ===== src/ThreadPool/Outcome.antt =====
-- How a `Shutdown` ends, and what becomes of the accepted tasks.
use tftpserver.Prelude.{
  ℕ, zero, suc, ◌≤◌, ◌≡◌, ◌⊎◌, inl, inr, refl, ap, ◌∙◌, Bool, true, false, List, [], none, ◌∷◌,
  ◌++◌, length, arith,
}
use tftpserver.ThreadPool.{
  Worker, Shared, Phase, not_called, before_notify, joining, clearing, shut_down, Pool, AllEnded,
  Reach, later,
}
use tftpserver.ThreadPool.Counting.{total, has_task}
use tftpserver.ThreadPool.Invariant.{InPhase}
use tftpserver.ThreadPool.Invariant.Preserved.{Reach-IsConsistent}
use tftpserver.ThreadPool.Ending.{measure, Step-measure, Run, here, next}
use tftpserver.ThreadPool.LostWakeup.{IsStuck}
use tftpserver.ThreadPool.Once.{AsOften, ended-AsOften}
use tftpserver.ThreadPool.Progress.{shutdown_progress}

AllEnded-has_task : (ws : List Worker) → AllEnded ws → total has_task ws ≡ 0
AllEnded-has_task [] a = refl
AllEnded-has_task (w ∷ ws) a = omega (arith, AllEnded-has_task ws a.1, ap has_task a.0)

pub shut_down-conditions :
    (phase : Phase) (s : Shared) (ws : List Worker)
    → phase ≡ shut_down
    → InPhase phase s ws
    → AllEnded ws × (s.admitted ≡ none) × (s.tasks ≡ [])
shut_down-conditions shut_down s ws e i = (i.2, i.1, i.3)
shut_down-conditions not_called s ws e i = cc
shut_down-conditions before_notify s ws e i = cc
shut_down-conditions joining s ws e i = cc
shut_down-conditions clearing s ws e i = cc

-- When `Shutdown` has returned, whatever the order of the steps was: the accepted tasks are those that
-- the workers took from the queue, in order, and behind them those that were cleared; and as many calls
-- have ended as tasks were taken, of each task as many as it was taken.
pub shut_down_tasks :
    {may_wake : Bool} {n : ℕ} {p : Pool}
    → Reach may_wake n p
    → p.phase ≡ shut_down
    → (p.shared.accepted ≡ p.shared.taken ++ p.shared.cleared)
      × (length p.shared.finished ≡ length p.shared.taken)
      × AsOften p.shared.finished p.shared.taken
shut_down_tasks {p = p} r e =
    let c = Reach-IsConsistent r in
    let (all, nobody, empty) = shut_down-conditions p.phase p.shared p.workers e c.in_phase in
    (
      c.in_order ∙ ap (λ ts. p.shared.taken ++ (ts ++ p.shared.cleared)) empty,
      omega (arith, c.in_hand, AllEnded-has_task p.workers all),
      ended-AsOften r all,
    )

goes_to_end :
    {n : ℕ} (fuel k : ℕ) {p q : Pool}
    → Run false p k q
    → Reach false n q
    → q.shared.stopping ≡ true
    → measure q ≤ fuel
    → (m : ℕ) × (o : Pool) × Run false p m o × ((o.phase ≡ shut_down) ⊎ IsStuck o)
goes_to_end zero k r reach g small = elim (shutdown_progress reach g) [
  | inl over ↦ (k, _, r, inl over)
  | inr (inr stuck) ↦ (k, _, r, inr stuck)
  | inr (inl (o, st)) ↦ absurd (omega (arith, (Step-measure st g).0))
]
goes_to_end (suc fuel) k r reach g small = elim (shutdown_progress reach g) [
  | inl over ↦ (k, _, r, inl over)
  | inr (inr stuck) ↦ (k, _, r, inr stuck)
  | inr (inl (o, st)) ↦
      let (less, g') = Step-measure st g in
      goes_to_end fuel (suc k) (next r st) (later reach st) g' (omega arith)
]

-- From every reachable state in which `stopping_` is set, with no wake-up but a notification, the pool
-- comes in finitely many steps to a state in which `Shutdown` has returned or waits for ever.
pub shutdown_ends :
    {n : ℕ} {p : Pool}
    → Reach false n p
    → p.shared.stopping ≡ true
    → (m : ℕ) × (o : Pool) × Run false p m o × ((o.phase ≡ shut_down) ⊎ IsStuck o)
shutdown_ends {p = p} reach g = goes_to_end (measure p) 0 here reach g (omega arith)
