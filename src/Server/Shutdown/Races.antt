-- ===== src/Server/Shutdown/Races.antt =====
-- src/internal/tftp_server_impl.cpp: two orders of the steps of Stop and of ServerLoop.
use tftpserver.Prelude.{
  ℕ, zero, suc, inl, ◌+◌, ◌≡◌, refl, sym, ap, ◌∙◌, true, false, List, [], ◌∷◌, ◌++◌, map,
  append_assoc, append-nil, subst,
}
use tftpserver.ThreadPool.{
  Worker, AllEnded, wake, replicate, work, loop_ends, notify_all, join, clear, initial_pool,
  joining, clearing,
}
use tftpserver.ThreadPool
use tftpserver.ThreadPool.LostWakeup.{true-false}
use tftpserver.Server.Shutdown.{
  State, Step, Reach, begin, later, Place, started, pool_moves, loop_goes_on, call_recvfrom,
  call_closed, datagram, nothing_received, lock_to_submit, pool_available, drop, call_submit,
  submit_throws, submit_returns, no_pool, no_socket, join_thread, stop_begins, lock_to_stop,
  call_shutdown, reset_pool, close_socket, forget_socket,
}
use tftpserver.Server.Shutdown
use tftpserver.Server.Shutdown.Orderly.{pool_there_at, IsOrderly}
use tftpserver.Server.Shutdown.Always.{Reach-IsOrderly}
use tftpserver.Server.Shutdown.Progress.{Hangs}

abbrev AtTest : List Worker → Type 0
AtTest [] = Unit
AtTest (w ∷ ws) = (w ≡ ThreadPool.at_test) × AtTest ws

replicate-AtTest : (n : ℕ) → AtTest (map wake (replicate n ThreadPool.at_test))
replicate-AtTest zero = tt
replicate-AtTest (suc n) = (refl, replicate-AtTest n)

AllEnded-snoc : (ws : List Worker) → AllEnded ws → AllEnded (ws ++ ThreadPool.ended ∷ [])
AllEnded-snoc [] a = (refl, tt)
AllEnded-snoc (w ∷ ws) a = (a.0, AllEnded-snoc ws a.1)

abbrev with_workers : State → List Worker → State
with_workers s ws = record s { pool = record s.pool { workers = ws } }

-- Workers before the test of their loop end one after the other, once the pool is stopping.
workers_end :
    {n : ℕ} (s : State) (before ws : List Worker)
    → Reach false false n (with_workers s (before ++ ws))
    → s.pool_there ≡ true
    → s.pool.shared.stopping ≡ true
    → AllEnded before
    → AtTest ws
    → (done : List Worker) × AllEnded done × Reach false false n (with_workers s done)
workers_end {n = n} s before [] r there stops all tests =
    (before, all, subst (λ ws. Reach false false n (with_workers s ws)) (append-nil before) r)
workers_end {n = n} s before (w ∷ ws) r there stops all (e, tests) =
    workers_end s (before ++ ThreadPool.ended ∷ []) ws
      (subst (λ done. Reach false false n (with_workers s done))
        (sym (append_assoc before (ThreadPool.ended ∷ []) ws))
        (later r
          (pool_moves (work before ws (ap (λ v. before ++ v ∷ ws) e) (loop_ends stops)) tt there)))
      there stops (AllEnded-snoc before all) tests

-- Stop runs from its first step to its join while ServerLoop stays at this place.
abbrev loop_at : ℕ → Place → State
loop_at n place = record (started n) { place = place }

abbrev in_pool_join : ℕ → Place → State
in_pool_join n place = record (started n) {
  place = place;
  running = false;
  locked = true;
  stage = Shutdown.in_shutdown;
  pool = record (initial_pool n) {
    shared = record ThreadPool.initial_shared { stopping = true };
    phase = joining;
  };
}

stop_to_join :
    (n : ℕ) (place : Place)
    → Reach false false n (loop_at n place)
    → (s : State) × Reach false false n s
      × (s.place ≡ place)
      × (s.stage ≡ Shutdown.joining)
      × (s.sockfd_valid ≡ false)
      × (s.pool_there ≡ false)
      × (s.misused ≡ 0)
stop_to_join n place r =
    let shutting =
      later (later (later r (stop_begins refl refl)) (lock_to_stop refl refl))
        (call_shutdown refl refl refl) in
    let notified = later shutting (pool_moves (notify_all refl) tt refl) in
    let (done, all, ended) =
      workers_end (in_pool_join n place) [] (map wake (replicate n ThreadPool.at_test)) notified
        refl refl tt (replicate-AtTest n) in
    let joined = later ended (pool_moves (join refl all) tt refl) in
    let over = later joined (pool_moves (clear refl refl) tt refl) in
    let closed =
      later (later (later over (reset_pool refl refl)) (close_socket refl refl))
        (forget_socket refl) in
    (_, closed, refl, refl, refl, refl, refl)

-- A loop that waits in `recvfrom` while Stop waits in its join leaves no step open.
no_step :
    {n : ℕ} {s t : State}
    → IsOrderly false n s
    → s.stage ≡ Shutdown.joining
    → s.place ≡ Shutdown.in_recvfrom
    → Step false false s t
    → ⊥
no_step i at_join waits (pool_moves st inner there) =
    true-false there (i.there ∙ ap pool_there_at at_join)
no_step i at_join waits (Shutdown.loop_ends e g) = cc
no_step i at_join waits (loop_goes_on e g) = cc
no_step i at_join waits (call_recvfrom e v o) = cc
no_step i at_join waits (call_closed e c) = cc
no_step i at_join waits (datagram on e) = cc
no_step i at_join waits (nothing_received on e) = cc
no_step i at_join waits (lock_to_submit e f) = cc
no_step i at_join waits (pool_available e h g) = cc
no_step i at_join waits (drop e c) = cc
no_step i at_join waits (call_submit e f g) = cc
no_step i at_join waits (submit_throws e g) = cc
no_step i at_join waits (submit_returns e h d) = cc
no_step i at_join waits (stop_begins e g) = cc
no_step i at_join waits (lock_to_stop e f) = cc
no_step i at_join waits (call_shutdown e h g) = cc
no_step i at_join waits (no_pool e h) = cc
no_step i at_join waits (reset_pool e o) = cc
no_step i at_join waits (close_socket e v) = cc
no_step i at_join waits (no_socket e v) = cc
no_step i at_join waits (forget_socket e) = cc
no_step i at_join waits (join_thread e d) = cc

-- For every number of workers: Stop and ServerLoop reach a state in which Stop waits for the loop, the
-- loop waits for a datagram, and without one no step is left; and another one in which the loop has
-- called `recvfrom` behind the `close` of the socket.
pub stop_races :
    (n : ℕ)
    → ((s : State) × Reach false false n s × Hangs s × (¬ ((t : State) × Step false false s t)))
      × ((s : State) × Reach false false n s × (s.misused ≡ 1))
stop_races n =
    let in_loop = later begin (loop_goes_on refl refl) in
    let (s, r, waits, at_join, gone, there, none_yet) =
      stop_to_join n Shutdown.in_recvfrom (later in_loop (call_recvfrom refl refl refl)) in
    let (s', r', calls, at_join', gone', there', none_yet') =
      stop_to_join n Shutdown.calling in_loop in
    (
      (s, r, (at_join, waits), λ more. no_step (Reach-IsOrderly r) at_join waits more.1),
      (_, later r' (call_closed calls (inl gone')), ap (λ m. m + 1) none_yet'),
    )
