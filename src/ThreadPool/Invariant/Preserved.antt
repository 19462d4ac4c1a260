-- ===== src/ThreadPool/Invariant/Preserved.antt =====
-- The steps of src/internal/tftp_thread_pool.cpp and the invariant.
use tftpserver.Prelude.{
  ℕ, zero, suc, ◌+◌, ◌≤◌, ◌≡◌, refl, ap, ◌∙◌, Bool, true, false, List, [], ◌∷◌, ◌++◌, Option, none,
  some, map, length, arith, append-nil, append_assoc,
}
use tftpserver.ThreadPool.{
  Task, Worker, at_test, Shared, Phase, not_called, before_notify, joining, clearing, shut_down,
  Pool, wake, Step, work, admit, push, notify_one, notify_nobody, wake_up, stop, notify_all, join,
  clear, initial_shared, replicate, Reach, start, later,
}
use tftpserver.ThreadPool.Counting.{
  total, total-wake, total-replicate, has_lock, is_active, has_task,
}
use tftpserver.ThreadPool.Invariant.{submitters, holders, InPhase, IsConsistent}
use tftpserver.ThreadPool.Invariant.Moves.{Move-IsConsistent, wake-IsConsistent}

pub holders-le : (b : Bool) → holders b ≤ 1
holders-le true = omega arith
holders-le false = omega arith

unadmitted : (o : Option Task) → submitters o ≡ 0 → o ≡ none
unadmitted none e = refl
unadmitted (some t) e = absurd (omega arith)

length-wake : (ws : List Worker) → length (map wake ws) ≡ length ws
length-wake [] = refl
length-wake (w ∷ ws) = ap suc (length-wake ws)

-- The mutex is with a submitter: neither behind `clear` nor, without `stopping_`, behind `stop`.
InPhase-admit :
    (phase : Phase) (s : Shared) (ws : List Worker) (t : Task)
    → s.stopping ≡ false
    → InPhase phase s ws
    → InPhase phase (record s { locked = true; admitted = some t }) ws
InPhase-admit not_called s ws t going i = i
InPhase-admit before_notify s ws t going i = i
InPhase-admit joining s ws t going i = i
InPhase-admit clearing s ws t going i = i
InPhase-admit shut_down s ws t going i = cc

cleared-admitted :
    (phase : Phase) (s : Shared) (ws : List Worker) (t : Task)
    → s.admitted ≡ some t
    → InPhase phase s ws
    → s.cleared ≡ []
cleared-admitted not_called s ws t e i = i.1
cleared-admitted before_notify s ws t e i = i.1
cleared-admitted joining s ws t e i = i.1
cleared-admitted clearing s ws t e i = i.1
cleared-admitted shut_down s ws t e i = cc

InPhase-push :
    (phase : Phase) (s : Shared) (ws : List Worker) (t : Task)
    → s.admitted ≡ some t
    → InPhase phase s ws
    → InPhase phase
        (record s {
          locked = false;
          admitted = none;
          tasks = s.tasks ++ t ∷ [];
          accepted = s.accepted ++ t ∷ [];
          signals = s.signals + 1;
        })
        ws
InPhase-push not_called s ws t e i = i
InPhase-push before_notify s ws t e i = i
InPhase-push joining s ws t e i = i
InPhase-push clearing s ws t e i = i
InPhase-push shut_down s ws t e i = cc

InPhase-signals :
    (phase : Phase) (s : Shared) (ws : List Worker) (signals : ℕ)
    → InPhase phase s ws
    → InPhase phase (record s { signals = signals }) ws
InPhase-signals not_called s ws n i = i
InPhase-signals before_notify s ws n i = i
InPhase-signals joining s ws n i = i
InPhase-signals clearing s ws n i = i
InPhase-signals shut_down s ws n i = i

cleared-running :
    (phase : Phase) (s : Shared) (ws : List Worker)
    → s.stopping ≡ false
    → InPhase phase s ws
    → s.cleared ≡ []
cleared-running not_called s ws going i = i.1
cleared-running before_notify s ws going i = i.1
cleared-running joining s ws going i = i.1
cleared-running clearing s ws going i = i.1
cleared-running shut_down s ws going i = cc

pub Step-IsConsistent :
    {n : ℕ} {may_wake : Bool} {p q : Pool}
    → Step may_wake p q
    → IsConsistent n p.shared p.workers p.phase
    → IsConsistent n q.shared q.workers q.phase
Step-IsConsistent {p} (work before after e mv) c = Move-IsConsistent before after (rw e at c) mv
Step-IsConsistent {p} (admit t free going) c = record {
  count = c.count;
  one_holder = omega (arith, ap holders free, c.one_holder);
  active = c.active;
  in_order = c.in_order;
  in_hand = c.in_hand;
  in_phase = InPhase-admit p.phase p.shared p.workers t going c.in_phase;
}
Step-IsConsistent {p} (push {t} e) c = record {
  count = c.count;
  one_holder = released c.one_holder;
  active = c.active;
  in_order =
      queued p.shared (cleared-admitted p.phase p.shared p.workers t e c.in_phase) c.in_order;
  in_hand = c.in_hand;
  in_phase = InPhase-push p.phase p.shared p.workers t e c.in_phase;
}
  where
    released :
        total has_lock p.workers + submitters p.shared.admitted ≡ holders p.shared.locked
        → total has_lock p.workers + 0 ≡ 0
    released h = omega (arith, ap submitters e, holders-le p.shared.locked)

    queued :
        (s : Shared)
        → s.cleared ≡ []
        → s.accepted ≡ s.taken ++ (s.tasks ++ s.cleared)
        → s.accepted ++ t ∷ [] ≡ s.taken ++ ((s.tasks ++ t ∷ []) ++ s.cleared)
    queued s none_cleared h = rw (h, none_cleared) (simp (append-nil, append_assoc))
Step-IsConsistent {p} (notify_one before after due e) c =
    wake-IsConsistent before after refl (rw e at c)
Step-IsConsistent {p} (notify_nobody due e) c = record {
  count = c.count;
  one_holder = c.one_holder;
  active = c.active;
  in_order = c.in_order;
  in_hand = c.in_hand;
  in_phase = InPhase-signals p.phase p.shared p.workers _ c.in_phase;
}
Step-IsConsistent {p} (wake_up before after may e) c =
    wake-IsConsistent before after refl (rw e at c)
Step-IsConsistent {p} (stop going) c = record {
  count = c.count;
  one_holder = c.one_holder;
  active = c.active;
  in_order = c.in_order;
  in_hand = c.in_hand;
  in_phase = (refl, cleared-running p.phase p.shared p.workers going c.in_phase);
}
Step-IsConsistent {p} (notify_all e) c = record {
  count = length-wake p.workers ∙ c.count;
  one_holder = omega (arith, total-wake has_lock refl p.workers, c.one_holder);
  active = omega (arith, total-wake is_active refl p.workers, c.active);
  in_order = c.in_order;
  in_hand = omega (arith, total-wake has_task refl p.workers, c.in_hand);
  in_phase = let i = rw e at c.in_phase in i;
}
Step-IsConsistent {p} (join e all) c = record {
  count = c.count;
  one_holder = c.one_holder;
  active = c.active;
  in_order = c.in_order;
  in_hand = c.in_hand;
  in_phase = let i = rw e at c.in_phase in (i.0, i.1, all);
}
Step-IsConsistent {p} (clear e free) c = record {
  count = c.count;
  one_holder = c.one_holder;
  active = c.active;
  in_order =
      let i = rw e at c.in_phase in
      c.in_order
      ∙ ap (λ u. p.shared.taken ++ u)
          (ap (λ u. p.shared.tasks ++ u) i.1 ∙ append-nil p.shared.tasks);
  in_hand = c.in_hand;
  in_phase =
      let i = rw e at c.in_phase in
      (i.0, unadmitted p.shared.admitted (omega (arith, ap holders free, c.one_holder)), i.2, refl);
}

initial-IsConsistent : (n : ℕ) → IsConsistent n initial_shared (replicate n at_test) not_called
initial-IsConsistent n = record {
  count = length-replicate n;
  one_holder = omega (arith, total-replicate has_lock n refl);
  active = omega (arith, total-replicate is_active n refl);
  in_order = refl;
  in_hand = omega (arith, total-replicate has_task n refl);
  in_phase = (refl, refl);
}
  where
    length-replicate : (n : ℕ) → length (replicate n at_test) ≡ n
    length-replicate zero = refl
    length-replicate (suc n) = ap suc (length-replicate n)

-- In every state that a pool of `n` workers can reach, whatever the order of the steps and whatever
-- waits end by themselves: the mutex has one holder at most, among the workers and the callers of
-- `Submit`; `active_tasks_` is the number of workers in a call; the accepted tasks are those that
-- left the queue, those in it and those that `Shutdown` cleared, in the order of acceptance; as many
-- tasks left the queue as workers have in hand and calls have ended; and each phase of `Shutdown`
-- has its conditions.
pub Reach-IsConsistent :
    {may_wake : Bool} {n : ℕ} {p : Pool}
    → Reach may_wake n p
    → IsConsistent n p.shared p.workers p.phase
Reach-IsConsistent {n = n} start = initial-IsConsistent n
Reach-IsConsistent (later r st) = Step-IsConsistent st (Reach-IsConsistent r)
