-- ===== src/Server/Shutdown.antt =====
-- src/internal/tftp_server_impl.cpp: Stop, called by one thread while ServerLoop runs in its own and
-- the workers of the pool in theirs, interleaved in any order, from the state that Start leaves. The
-- pool makes its own steps; its members Submit and Shutdown are called here.
pub mod Orderly
pub mod Kept
pub mod Moved
pub mod Always
pub mod Progress
pub mod Unique
pub mod Returned
pub mod Races
pub mod Ending
use tftpserver.Prelude.{ℕ, ◌+◌, ◌≡◌, ◌⊎◌, Bool, true, false, none, some}
use tftpserver.ThreadPool.{Task, Pool, IsInner, before_notify, shut_down, initial_pool}
use tftpserver.ThreadPool

-- Where ServerLoop stands. A datagram is named by its number.
pub data Place : Type 0 where
  -- before the test of `running_`
  at_test : Place
  -- before the call of `recvfrom`
  calling : Place
  in_recvfrom : Place
  -- with a datagram, before it has the mutex
  waiting : Task → Place
  -- with the mutex, before the test of the pool
  checking : Task → Place
  -- the test has passed
  submitting : Task → Place
  -- in `Submit`, behind its own test
  in_submit : Task → Place
  ended : Place

-- Where Stop stands.
pub data Stage : Type 0 where
  not_called : Stage
  -- the flag is cleared, before it has the mutex
  flag_cleared : Stage
  -- with the mutex, before the test of the pool
  has_mutex : Stage
  -- in `Shutdown`
  in_shutdown : Stage
  -- behind the block, before the test of the socket
  closing : Stage
  -- behind `close`, before the member is set
  closed : Stage
  -- before or in the join of the thread
  joining : Stage
  returned : Stage

-- The members: `locked` is `thread_pool_mutex_`, `pool_there` whether `thread_pool_` is not null,
-- `sockfd_valid` whether `sockfd_` is at least 0. `fd_open` is whether the descriptor is open.
-- `received` counts the datagrams, `dropped` those that were not submitted, and `misused` the calls of
-- `recvfrom` on no open descriptor.
pub record State : Type 0 where
  pub running : Bool
  pub locked : Bool
  pub pool_there : Bool
  pub pool : Pool
  pub sockfd_valid : Bool
  pub fd_open : Bool
  pub place : Place
  pub stage : Stage
  pub received : ℕ
  pub dropped : ℕ
  pub misused : ℕ

-- One step. The first parameter says whether a wait in the pool may end without a notification, the
-- second whether `recvfrom` may return from its wait.
pub data Step (may_wake network : Bool) (s : State) : State → Type 0 where
  pool_moves :
      {q : Pool} (st : ThreadPool.Step may_wake s.pool q)
      → IsInner st
      → s.pool_there ≡ true
      → Step may_wake network s (record s { pool = q })
  -- ServerLoop
  loop_ends :
      s.place ≡ at_test → s.running ≡ false → Step may_wake network s (record s { place = ended })
  loop_goes_on :
      s.place ≡ at_test → s.running ≡ true → Step may_wake network s (record s { place = calling })
  call_recvfrom :
      s.place ≡ calling
      → s.sockfd_valid ≡ true
      → s.fd_open ≡ true
      → Step may_wake network s (record s { place = in_recvfrom })
  -- `recvfrom` fails at once.
  call_closed :
      s.place ≡ calling
      → (s.sockfd_valid ≡ false) ⊎ (s.fd_open ≡ false)
      → Step may_wake network s (record s { place = at_test; misused = s.misused + 1 })
  datagram :
      network ≡ true
      → s.place ≡ in_recvfrom
      → Step may_wake network s (record s { place = waiting s.received; received = s.received + 1 })
  -- `recvfrom` returns 0 or less.
  nothing_received :
      network ≡ true
      → s.place ≡ in_recvfrom
      → Step may_wake network s (record s { place = at_test })
  lock_to_submit :
      {t : Task}
      → s.place ≡ waiting t
      → s.locked ≡ false
      → Step may_wake network s (record s { place = checking t; locked = true })
  pool_available :
      {t : Task}
      → s.place ≡ checking t
      → s.pool_there ≡ true
      → s.pool.shared.stopping ≡ false
      → Step may_wake network s (record s { place = submitting t })
  drop :
      {t : Task}
      → s.place ≡ checking t
      → (s.pool_there ≡ false) ⊎ (s.pool.shared.stopping ≡ true)
      → Step may_wake network s
          (record s { place = at_test; locked = false; dropped = s.dropped + 1 })
  call_submit :
      {t : Task}
      → s.place ≡ submitting t
      → s.pool.shared.locked ≡ false
      → s.pool.shared.stopping ≡ false
      → Step may_wake network s (record s {
        place = in_submit t;
        pool = record s.pool { shared = record s.pool.shared { locked = true; admitted = some t } };
      })
  submit_throws :
      {t : Task}
      → s.place ≡ submitting t
      → s.pool.shared.stopping ≡ true
      → Step may_wake network s
          (record s { place = at_test; locked = false; dropped = s.dropped + 1 })
  -- `Submit` has queued its task and has notified.
  submit_returns :
      {t : Task}
      → s.place ≡ in_submit t
      → s.pool.shared.admitted ≡ none
      → s.pool.shared.signals ≡ 0
      → Step may_wake network s (record s { place = at_test; locked = false })
  -- Stop
  stop_begins :
      s.stage ≡ not_called
      → s.running ≡ true
      → Step may_wake network s (record s { running = false; stage = flag_cleared })
  lock_to_stop :
      s.stage ≡ flag_cleared
      → s.locked ≡ false
      → Step may_wake network s (record s { locked = true; stage = has_mutex })
  call_shutdown :
      s.stage ≡ has_mutex
      → s.pool_there ≡ true
      → s.pool.shared.stopping ≡ false
      → Step may_wake network s (record s {
        stage = in_shutdown;
        pool = record s.pool {
          shared = record s.pool.shared { stopping = true };
          phase = before_notify;
        };
      })
  no_pool :
      s.stage ≡ has_mutex
      → s.pool_there ≡ false
      → Step may_wake network s (record s { locked = false; stage = closing })
  -- `Shutdown` returns, and the pool is reset.
  reset_pool :
      s.stage ≡ in_shutdown
      → s.pool.phase ≡ shut_down
      → Step may_wake network s (record s { pool_there = false; locked = false; stage = closing })
  close_socket :
      s.stage ≡ closing
      → s.sockfd_valid ≡ true
      → Step may_wake network s (record s { fd_open = false; stage = closed })
  no_socket :
      s.stage ≡ closing
      → s.sockfd_valid ≡ false
      → Step may_wake network s (record s { stage = joining })
  forget_socket :
      s.stage ≡ closed
      → Step may_wake network s (record s { sockfd_valid = false; stage = joining })
  join_thread :
      s.stage ≡ joining → s.place ≡ ended → Step may_wake network s (record s { stage = returned })

-- What Start leaves, with this number of workers.
abbrev pub started : ℕ → State
started n = record {
  running = true;
  locked = false;
  pool_there = true;
  pool = initial_pool n;
  sockfd_valid = true;
  fd_open = true;
  place = at_test;
  stage = not_called;
  received = 0;
  dropped = 0;
  misused = 0;
}

pub data Reach (may_wake network : Bool) (n : ℕ) : State → Type 0 where
  begin : Reach may_wake network n (started n)
  later :
      {s t : State}
      → Reach may_wake network n s
      → Step may_wake network s t
      → Reach may_wake network n t
