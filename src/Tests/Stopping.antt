-- ===== src/Tests/Stopping.antt =====
-- A run of the server with one worker, from Start to the end of Stop: a datagram is submitted, and the
-- worker ends before it takes it.
use tftpserver.Prelude.{ℕ, ◌≡◌, ◌⊎◌, refl, false, true, [], ◌∷◌, arith}
use tftpserver.ThreadPool.{
  work, push, notify_nobody, notify_all, join, clear, initial_pool, initial_shared, before_notify,
  shut_down,
}
use tftpserver.ThreadPool
use tftpserver.Server.Shutdown.{
  State, Reach, begin, later, pool_moves, loop_goes_on, call_recvfrom, datagram, lock_to_submit,
  pool_available, call_submit, submit_returns, stop_begins, lock_to_stop, call_shutdown, reset_pool,
  close_socket, forget_socket, loop_ends, join_thread, Step, started, ended, not_called, returned,
  in_shutdown,
}
use tftpserver.Server.Shutdown.Orderly.{IsOrderly}
use tftpserver.Server.Shutdown.Always.{Reach-IsOrderly}
use tftpserver.Server.Shutdown.Progress.{Hangs, PoolHangs, stop_progress}
use tftpserver.Server.Shutdown.Returned.{IsStopped, Reach-IsStopped}
use tftpserver.Server.Shutdown.Ending.{Run, IsOver, stop_ends}
use tftpserver.Server.Shutdown.Races.{stop_races}

abbrev in_queue : State
in_queue = record (started 1) {
  pool = record (initial_pool 1) {
    shared = record initial_shared { tasks = 0 ∷ []; accepted = 0 ∷ [] };
  };
  received = 1;
}

in_queue-Reach : Reach false true 1 in_queue
in_queue-Reach =
    let heard =
      later (later (later begin (loop_goes_on refl refl)) (call_recvfrom refl refl refl))
        (datagram refl refl) in
    let tested = later (later heard (lock_to_submit refl refl)) (pool_available refl refl refl) in
    let queued =
      later (later tested (call_submit refl refl refl)) (pool_moves (push refl) tt refl) in
    let notified = later queued (pool_moves (notify_nobody (omega arith) refl) tt refl) in
    later notified (submit_returns refl refl refl)

-- Stop has called Shutdown.
abbrev shutting : State
shutting = record in_queue {
  running = false;
  locked = true;
  stage = in_shutdown;
  pool = record in_queue.pool {
    shared = record in_queue.pool.shared { stopping = true };
    phase = before_notify;
  };
}

shutting-Reach : Reach false true 1 shutting
shutting-Reach =
    later (later (later in_queue-Reach (stop_begins refl refl)) (lock_to_stop refl refl))
      (call_shutdown refl refl refl)

abbrev stopped : State
stopped = record shutting {
  locked = false;
  pool_there = false;
  sockfd_valid = false;
  fd_open = false;
  place = ended;
  stage = returned;
  pool = record shutting.pool {
    shared = record shutting.pool.shared { tasks = []; cleared = 0 ∷ [] };
    workers = ThreadPool.ended ∷ [];
    phase = shut_down;
  };
}

stopped-Reach : Reach false true 1 stopped
stopped-Reach =
    let notified = later shutting-Reach (pool_moves (notify_all refl) tt refl) in
    let ended = later notified (pool_moves (work [] [] refl (ThreadPool.loop_ends refl)) tt refl) in
    let joined = later ended (pool_moves (join refl (refl, tt)) tt refl) in
    let reset =
      later (later joined (pool_moves (clear refl refl) tt refl)) (reset_pool refl refl) in
    let closed = later (later reset (close_socket refl refl)) (forget_socket refl) in
    later (later closed (loop_ends refl refl)) (join_thread refl refl)

Reach-IsOrderly_example : IsOrderly false 1 shutting
Reach-IsOrderly_example = Reach-IsOrderly shutting-Reach

Reach-IsStopped_example : IsStopped stopped
Reach-IsStopped_example = Reach-IsStopped stopped-Reach refl

stop_progress_example :
    (shutting.stage ≡ not_called)
    ⊎ ((shutting.stage ≡ returned)
        ⊎ (((t : State) × Step false false shutting t) ⊎ (Hangs shutting ⊎ PoolHangs shutting)))
stop_progress_example = stop_progress shutting-Reach

stop_races_example :
    ((s : State) × Reach false false 4 s × Hangs s × (¬ ((t : State) × Step false false s t)))
    × ((s : State) × Reach false false 4 s × (s.misused ≡ 1))
stop_races_example = stop_races 4

stop_ends_example : (m : ℕ) × (u : State) × Run false false shutting m u × IsOver u
stop_ends_example = stop_ends shutting-Reach refl
