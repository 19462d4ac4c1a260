-- ===== src/ThreadPool/Counting.antt =====
-- Sums over the workers.
use tftpserver.Prelude.{ℕ, zero, suc, ◌+◌, ◌≤◌, ◌≡◌, refl, List, [], ◌∷◌, ◌++◌, map, arith}
use tftpserver.ThreadPool.{
  Worker, at_test, locking, checking, going_to_sleep, asleep, picking, holding, running, returning,
  ended, wake, replicate,
}

module _ (weight : Worker → ℕ) where
  abbrev pub total : List Worker → ℕ
  total [] = 0
  total (w ∷ ws) = weight w + total ws

  pub total-append : (ws vs : List Worker) → total (ws ++ vs) ≡ total ws + total vs
  total-append [] vs = omega arith
  total-append (w ∷ ws) vs = omega (arith, total-append ws vs)

  -- The sum after the change of one worker.
  pub total-change :
      (before after : List Worker) (w w' : Worker)
      → total (before ++ w' ∷ after) + weight w ≡ total (before ++ w ∷ after) + weight w'
  total-change before after w w' =
      omega (arith, total-append before (w ∷ after), total-append before (w' ∷ after))

  pub weight-le-total :
      (before after : List Worker) (w : Worker) → weight w ≤ total (before ++ w ∷ after)
  weight-le-total before after w = omega (arith, total-append before (w ∷ after))

  -- A weight that waking up leaves alone.
  pub total-wake :
      weight asleep ≡ weight locking → (ws : List Worker) → total (map wake ws) ≡ total ws
  total-wake same [] = refl
  total-wake same (w ∷ ws) = omega (arith, total-wake same ws, weight-wake w)
    where
      weight-wake : (v : Worker) → weight (wake v) ≡ weight v
      weight-wake asleep = omega (arith, same)
      weight-wake at_test = refl
      weight-wake locking = refl
      weight-wake checking = refl
      weight-wake going_to_sleep = refl
      weight-wake picking = refl
      weight-wake (holding t) = refl
      weight-wake (running t) = refl
      weight-wake returning = refl
      weight-wake ended = refl

  pub total-replicate : (n : ℕ) → weight at_test ≡ 0 → total (replicate n at_test) ≡ 0
  total-replicate zero none = refl
  total-replicate (suc n) none = omega (arith, total-replicate n none)

-- A worker has the mutex.
abbrev pub has_lock : Worker → ℕ
has_lock checking = 1
has_lock going_to_sleep = 1
has_lock picking = 1
has_lock _ = 0

-- A worker has been counted in `active_tasks`.
abbrev pub is_active : Worker → ℕ
is_active (running _) = 1
is_active returning = 1
is_active _ = 0

-- A worker has a task whose call has not ended.
abbrev pub has_task : Worker → ℕ
has_task (holding _) = 1
has_task (running _) = 1
has_task _ = 0

-- A worker has found the queue empty.
abbrev pub sees_empty : Worker → ℕ
sees_empty going_to_sleep = 1
sees_empty _ = 0
