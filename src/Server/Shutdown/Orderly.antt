-- ===== src/Server/Shutdown/Orderly.antt =====
-- src/internal/tftp_server_impl.cpp: what holds of Stop and ServerLoop in every reachable state.
use tftpserver.Prelude.{ℕ, ◌+◌, ◌≡◌, Bool, true, false, length}
use tftpserver.ThreadPool.{Task, Pool, Phase, shut_down}
use tftpserver.ThreadPool
use tftpserver.ThreadPool.Invariant.{submitters, holders}
use tftpserver.Server.Shutdown.{
  Place, waiting, checking, submitting, in_submit, ended, Stage, not_called, flag_cleared,
  has_mutex, in_shutdown, closing, closed, joining, returned, State,
}

-- What each stage of Stop says of the flag, of the pool, of the socket, and of the mutex.
abbrev pub running_at : Stage → Bool
running_at not_called = true
running_at _ = false

abbrev pub pool_there_at : Stage → Bool
pool_there_at not_called = true
pool_there_at flag_cleared = true
pool_there_at has_mutex = true
pool_there_at in_shutdown = true
pool_there_at _ = false

abbrev pub stopping_at : Stage → Bool
stopping_at not_called = false
stopping_at flag_cleared = false
stopping_at has_mutex = false
stopping_at _ = true

abbrev pub valid_at : Stage → Bool
valid_at joining = false
valid_at returned = false
valid_at _ = true

abbrev pub open_at : Stage → Bool
open_at closed = false
open_at joining = false
open_at returned = false
open_at _ = true

abbrev pub stop_holds : Stage → ℕ
stop_holds has_mutex = 1
stop_holds in_shutdown = 1
stop_holds _ = 0

abbrev pub loop_holds : Place → ℕ
loop_holds (checking t) = 1
loop_holds (submitting t) = 1
loop_holds (in_submit t) = 1
loop_holds _ = 0

-- The datagram that ServerLoop has in its hand and has not given to Submit.
abbrev pub carried : Place → ℕ
carried (waiting t) = 1
carried (checking t) = 1
carried (submitting t) = 1
carried _ = 0

-- What the place of ServerLoop says of the flag, of the pool, of its flag, and of what is due in it:
-- Submit is called on a pool that is there and is not stopping; outside of Submit nobody is in the
-- pool's block and no notification is due; and the loop has ended only when the flag is cleared.
abbrev pub AtPlace : Place → Bool → Bool → Bool → ℕ → Type 0
AtPlace (submitting t) running there stopping due = (there ≡ true) × (stopping ≡ false) × (due ≡ 0)
AtPlace (in_submit t) running there stopping due = (there ≡ true) × (stopping ≡ false)
AtPlace ended running there stopping due = (running ≡ false) × (due ≡ 0)
AtPlace _ running there stopping due = due ≡ 0

-- Stop resets the pool behind its shutdown, and returns behind the end of the loop.
abbrev pub AtStage : Stage → Phase → Place → Type 0
AtStage returned phase place = (phase ≡ shut_down) × (place ≡ ended)
AtStage joining phase place = phase ≡ shut_down
AtStage closed phase place = phase ≡ shut_down
AtStage closing phase place = phase ≡ shut_down
AtStage _ phase place = Unit

abbrev pub due : Pool → ℕ
due p = submitters p.shared.admitted + p.shared.signals

pub record IsOrderly (may_wake : Bool) (n : ℕ) (s : State) : Type 0 where
  pub pool : ThreadPool.Reach may_wake n s.pool
  pub one_holder : loop_holds s.place + stop_holds s.stage ≡ holders s.locked
  pub runs : s.running ≡ running_at s.stage
  pub there : s.pool_there ≡ pool_there_at s.stage
  pub stops : s.pool.shared.stopping ≡ stopping_at s.stage
  pub valid : s.sockfd_valid ≡ valid_at s.stage
  pub descriptor : s.fd_open ≡ open_at s.stage
  pub at_place : AtPlace s.place s.running s.pool_there s.pool.shared.stopping (due s.pool)
  pub at_stage : AtStage s.stage s.pool.phase s.place
  pub count :
      s.received
      ≡ length s.pool.shared.accepted
        + submitters s.pool.shared.admitted
        + s.dropped
        + carried s.place
