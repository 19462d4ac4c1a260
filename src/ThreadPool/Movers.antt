-- ===== src/ThreadPool/Movers.antt =====
-- Workers that are found by a weight, and those that move once the pool is stopping.
use tftpserver.Prelude.{
  ℕ, zero, suc, ◌<◌, ◌≡◌, ◌⊎◌, inl, inr, refl, ap, Bool, true, false, List, [], ◌∷◌, ◌++◌, arith,
}
use tftpserver.ThreadPool.{
  Task, Worker, at_test, locking, checking, going_to_sleep, asleep, picking, holding, running,
  returning, ended, Shared, Move, loop_ends, wakes_true, wakes_false, no_task, sleep, break_out,
  pop, begin, finish, end, AllEnded,
}
use tftpserver.ThreadPool.Counting.{total, has_lock}
use tftpserver.ThreadPool.Attended.{is_asleep, is_awake}

-- A worker of this weight.
pub find :
    (weight : Worker → ℕ) (ws : List Worker)
    → 0 < total weight ws
    → (before : List Worker) × (w : Worker) × (after : List Worker) × (ws ≡ before ++ w ∷ after)
      × (0 < weight w)
find weight [] some_weight = absurd (omega (arith, some_weight))
find weight (w ∷ ws) some_weight = at_head (find weight ws) (weight w) refl
  where
    at_head :
        (0 < total weight ws
          → (before : List Worker) × (v : Worker) × (after : List Worker) × (ws
              ≡ before ++ v ∷ after)
            × (0 < weight v))
        → (k : ℕ) → weight w ≡ k
        → (before : List Worker) × (v : Worker) × (after : List Worker) × (w ∷ ws
            ≡ before ++ v ∷ after)
          × (0 < weight v)
    at_head rest (suc k) e = ([], w, ws, refl, omega (arith, e))
    at_head rest zero e =
        let (before, v, after, same, heavy) = rest (omega (arith, some_weight, e)) in
        (w ∷ before, v, after, ap (λ vs. w ∷ vs) same, heavy)

cons-nil : {t : Task} {ts us : List Task} → us ≡ t ∷ ts → us ≡ [] → ⊥
cons-nil e e' = cc

-- Once the pool is stopping, a worker in the loop moves, unless it waits for the mutex.
pub worker_goes_on :
    (s : Shared)
    → s.stopping ≡ true
    → (w : Worker) → 0 < is_awake w
    → (w ≡ locking) ⊎ ((s' : Shared) × (w' : Worker) × Move s w s' w')
worker_goes_on s g at_test awake = inr (s, ended, loop_ends g)
worker_goes_on s g locking awake = inl refl
worker_goes_on s g checking awake = inr (s, picking, wakes_true (inl g))
worker_goes_on s g going_to_sleep awake = inr (_, asleep, sleep)
worker_goes_on s g asleep awake = absurd (omega (arith, awake))
worker_goes_on s g picking awake = pick s.tasks refl
  where
    pick :
        (ts : List Task)
        → s.tasks ≡ ts
        → (picking ≡ locking) ⊎ ((s' : Shared) × (w' : Worker) × Move s picking s' w')
    pick [] e = inr (_, ended, break_out g e)
    pick (t ∷ ts) e = inr (_, holding t, pop e)
worker_goes_on s g (holding t) awake = inr (_, running t, begin)
worker_goes_on s g (running t) awake = inr (_, returning, finish)
worker_goes_on s g returning awake = inr (_, at_test, end)
worker_goes_on s g ended awake = absurd (omega (arith, awake))

-- The worker that has the mutex moves.
pub holder_moves :
    (s : Shared) (w : Worker) → 0 < has_lock w → (s' : Shared) × (w' : Worker) × Move s w s' w'
holder_moves s checking heavy = look s.stopping s.tasks refl refl
  where
    look :
        (g : Bool) (ts : List Task)
        → s.stopping ≡ g
        → s.tasks ≡ ts
        → (s' : Shared) × (w' : Worker) × Move s checking s' w'
    look true ts e e' = (s, picking, wakes_true (inl e))
    look false [] e e' = (s, going_to_sleep, wakes_false e e')
    look false (t ∷ ts) e e' = (s, picking, wakes_true (inr λ none_left. cons-nil e' none_left))
holder_moves s going_to_sleep heavy = (_, asleep, sleep)
holder_moves s picking heavy = pick s.stopping s.tasks refl refl
  where
    pick :
        (g : Bool) (ts : List Task)
        → s.stopping ≡ g
        → s.tasks ≡ ts
        → (s' : Shared) × (w' : Worker) × Move s picking s' w'
    pick g (t ∷ ts) e e' = (_, holding t, pop e')
    pick true [] e e' = (_, ended, break_out e e')
    pick false [] e e' = (_, at_test, no_task e e')
holder_moves s at_test heavy = absurd (omega (arith, heavy))
holder_moves s locking heavy = absurd (omega (arith, heavy))
holder_moves s asleep heavy = absurd (omega (arith, heavy))
holder_moves s (holding t) heavy = absurd (omega (arith, heavy))
holder_moves s (running t) heavy = absurd (omega (arith, heavy))
holder_moves s returning heavy = absurd (omega (arith, heavy))
holder_moves s ended heavy = absurd (omega (arith, heavy))

pub all_ended : (ws : List Worker) → total is_asleep ws ≡ 0 → total is_awake ws ≡ 0 → AllEnded ws
all_ended [] e e' = tt
all_ended (w ∷ ws) e e' = (
  one w (omega (arith, e)) (omega (arith, e')),
  all_ended ws (omega (arith, e)) (omega (arith, e')),
)
  where
    one : (w : Worker) → is_asleep w ≡ 0 → is_awake w ≡ 0 → w ≡ ended
    one at_test e e' = absurd (omega (arith, e'))
    one locking e e' = absurd (omega (arith, e'))
    one checking e e' = absurd (omega (arith, e'))
    one going_to_sleep e e' = absurd (omega (arith, e'))
    one asleep e e' = absurd (omega (arith, e))
    one picking e e' = absurd (omega (arith, e'))
    one (holding t) e e' = absurd (omega (arith, e'))
    one (running t) e e' = absurd (omega (arith, e'))
    one returning e e' = absurd (omega (arith, e'))
    one ended e e' = refl

pub asleep_of : (w : Worker) → 0 < is_asleep w → w ≡ asleep
asleep_of asleep h = refl
asleep_of at_test h = absurd (omega (arith, h))
asleep_of locking h = absurd (omega (arith, h))
asleep_of checking h = absurd (omega (arith, h))
asleep_of going_to_sleep h = absurd (omega (arith, h))
asleep_of picking h = absurd (omega (arith, h))
asleep_of (holding t) h = absurd (omega (arith, h))
asleep_of (running t) h = absurd (omega (arith, h))
asleep_of returning h = absurd (omega (arith, h))
asleep_of ended h = absurd (omega (arith, h))
