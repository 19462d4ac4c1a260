-- ===== src/ThreadPool/Invariant/Moves.antt =====
-- What the steps of one worker do to the invariant.
use tftpserver.Prelude.{
  ℕ, ◌+◌, ◌≤◌, ◌≡◌, ◌≢◌, ap, ◌∙◌, List, [], ◌∷◌, ◌++◌, length, arith, length-append, length-snoc,
  append_snoc,
}
use tftpserver.ThreadPool.{
  Worker, locking, asleep, ended, Shared, Phase, not_called, before_notify, joining, clearing,
  shut_down, Move, loop_ends, loop_goes_on, lock, wakes_true, wakes_false, sleep, break_out, pop,
  no_task, begin, finish, end, AllEnded,
}
use tftpserver.ThreadPool.Counting.{total-change, weight-le-total, has_lock, is_active, has_task}
use tftpserver.ThreadPool.Invariant.{submitters, holders, InPhase, IsConsistent}

-- What a move changes, and what it leaves alone.
record Moved (s : Shared) (w : Worker) (s' : Shared) (w' : Worker) : Type 0 where
  lock_moves : has_lock w' + holders s.locked ≡ has_lock w + holders s'.locked
  active_moves : s'.active_tasks + is_active w ≡ s.active_tasks + is_active w'
  task_moves :
      length s'.taken + (has_task w + length s.finished)
      ≡ length s.taken + (has_task w' + length s'.finished)
  order_kept : s'.accepted ≡ s'.taken ++ (s'.tasks ++ s'.cleared)
  same_admitted : s'.admitted ≡ s.admitted
  same_stopping : s'.stopping ≡ s.stopping
  same_cleared : s'.cleared ≡ s.cleared
  not_ended : w ≢ ended

Move-Moved :
    {s s' : Shared} {w w' : Worker}
    → Move s w s' w'
    → is_active w ≤ s.active_tasks
    → has_lock w ≤ holders s.locked
    → s.accepted ≡ s.taken ++ (s.tasks ++ s.cleared)
    → Moved s w s' w'
Move-Moved (loop_ends e) a l o = ground arith
Move-Moved (loop_goes_on e) a l o = ground arith
Move-Moved (lock e) a l o = ground arith
Move-Moved (wakes_true e) a l o = ground arith
Move-Moved (wakes_false e e') a l o = ground arith
Move-Moved sleep a l o = ground arith
Move-Moved (break_out e e') a l o = ground arith
Move-Moved {s} (pop {t} {rest} e) a l o =
    ground (arith, length-snoc s.taken t, append_snoc s.taken t (rest ++ s.cleared))
Move-Moved (no_task e e') a l o = ground arith
Move-Moved begin a l o = ground arith
Move-Moved {s} (finish {t}) a l o = ground (arith, length-snoc s.finished t)
Move-Moved end a l o = ground arith

pub AllEnded-at :
    (before after : List Worker) (w : Worker) → AllEnded (before ++ w ∷ after) → w ≡ ended
AllEnded-at [] after w a = a.0
AllEnded-at (v ∷ before) after w a = AllEnded-at before after w a.1

pub length-change :
    (before after : List Worker) (w w' : Worker)
    → length (before ++ w' ∷ after) ≡ length (before ++ w ∷ after)
length-change before after w w' =
    omega (arith, length-append before (w ∷ after), length-append before (w' ∷ after))

-- A worker that has not ended excludes the phases behind `join`.
InPhase-move :
    (phase : Phase) (before after : List Worker) {s s' : Shared} {w w' : Worker}
    → Moved s w s' w'
    → InPhase phase s (before ++ w ∷ after)
    → InPhase phase s' (before ++ w' ∷ after)
InPhase-move not_called before after m i = (m.same_stopping ∙ i.0, m.same_cleared ∙ i.1)
InPhase-move before_notify before after m i = (m.same_stopping ∙ i.0, m.same_cleared ∙ i.1)
InPhase-move joining before after m i = (m.same_stopping ∙ i.0, m.same_cleared ∙ i.1)
InPhase-move clearing before after {w} m i = absurd (m.not_ended (AllEnded-at before after w i.2))
InPhase-move shut_down before after {w} m i = absurd (m.not_ended (AllEnded-at before after w i.2))

pub Move-IsConsistent :
    {n : ℕ} {s s' : Shared} (before after : List Worker) {w w' : Worker} {phase : Phase}
    → IsConsistent n s (before ++ w ∷ after) phase
    → Move s w s' w'
    → IsConsistent n s' (before ++ w' ∷ after) phase
Move-IsConsistent {s} {s'} before after {w} {w'} {phase} c mv =
    let locks = weight-le-total has_lock before after w in
    let actives = weight-le-total is_active before after w in
    let m = Move-Moved mv (omega (arith, c.active)) (omega (arith, c.one_holder)) c.in_order in
    let same = ap submitters m.same_admitted in
    record {
      count = omega (arith, length-change before after w w', c.count);
      one_holder =
          omega (arith, total-change has_lock before after w w', c.one_holder, m.lock_moves, same);
      active = omega (arith, total-change is_active before after w w', c.active, m.active_moves);
      in_order = m.order_kept;
      in_hand = omega (arith, total-change has_task before after w w', c.in_hand, m.task_moves);
      in_phase = InPhase-move phase before after m c.in_phase;
    }

-- A worker that waits is woken.
pub wake-IsConsistent :
    {n : ℕ} {s s' : Shared} (before after : List Worker) {phase : Phase}
    → s' ≡ record s { signals = s'.signals }
    → IsConsistent n s (before ++ asleep ∷ after) phase
    → IsConsistent n s' (before ++ locking ∷ after) phase
wake-IsConsistent {s} {s'} before after {phase} same c = rw same (record {
  count = omega (arith, length-change before after asleep locking, c.count);
  one_holder = omega (arith, total-change has_lock before after asleep locking, c.one_holder);
  active = omega (arith, total-change is_active before after asleep locking, c.active);
  in_order = c.in_order;
  in_hand = omega (arith, total-change has_task before after asleep locking, c.in_hand);
  in_phase = at_phase phase c.in_phase;
})
  where
    not_asleep : asleep ≢ ended
    not_asleep e = cc

    at_phase :
        (phase : Phase)
        → InPhase phase s (before ++ asleep ∷ after)
        → InPhase phase (record s { signals = s'.signals }) (before ++ locking ∷ after)
    at_phase not_called i = i
    at_phase before_notify i = i
    at_phase joining i = i
    at_phase clearing i = absurd (not_asleep (AllEnded-at before after asleep i.2))
    at_phase shut_down i = absurd (not_asleep (AllEnded-at before after asleep i.2))
