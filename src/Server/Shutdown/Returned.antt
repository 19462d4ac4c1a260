-- ===== src/Server/Shutdown/Returned.antt =====
-- src/internal/tftp_server_impl.cpp: the state in which Stop returns.
use tftpserver.Prelude.{
  ℕ, ◌+◌, ◌≤◌, ◌≡◌, refl, ap, subst, ◌∙◌, Bool, true, false, ◌++◌, length, arith,
}
use tftpserver.ThreadPool.{Task, AllEnded}
use tftpserver.ThreadPool.Invariant.{submitters, holders}
use tftpserver.ThreadPool.Invariant.Preserved.{Reach-IsConsistent}
use tftpserver.ThreadPool.Once.{times, AsOften}
use tftpserver.ThreadPool.Outcome.{shut_down-conditions, shut_down_tasks}
use tftpserver.Server.Shutdown.{State, ended, returned, Reach}
use tftpserver.Server.Shutdown.Orderly.{
  running_at, pool_there_at, valid_at, open_at, stop_holds, loop_holds, carried, AtStage,
}
use tftpserver.Server.Shutdown.Unique.{times-append, accepted_once}
use tftpserver.Server.Shutdown.Always.{Reach-IsOrderly}

-- The threads have ended, the members are reset and the descriptor is closed; each datagram was
-- accepted or dropped; the accepted ones are those that the workers took, in order, and those that were
-- cleared; and the call of each has ended as often as it was taken, which is once at most.
pub record IsStopped (s : State) : Type 0 where
  pub off : s.running ≡ false
  pub loop_ended : s.place ≡ ended
  pub workers_ended : AllEnded s.pool.workers
  pub no_pool : s.pool_there ≡ false
  pub no_socket : s.sockfd_valid ≡ false
  pub fd_closed : s.fd_open ≡ false
  pub free : s.locked ≡ false
  pub received : s.received ≡ length s.pool.shared.accepted + s.dropped
  pub accepted : s.pool.shared.accepted ≡ s.pool.shared.taken ++ s.pool.shared.cleared
  pub finished : AsOften s.pool.shared.finished s.pool.shared.taken
  pub once : (t : Task) → times t s.pool.shared.finished ≤ 1

not_held : (b : Bool) → holders b ≡ 0 → b ≡ false
not_held false e = refl
not_held true e = absurd (omega (arith, e))

-- When Stop has returned, whatever the order of the steps of Stop, of ServerLoop and of the workers
-- was: the loop and all workers have ended, the pool is gone, the descriptor is closed, the mutex is
-- free; as many datagrams were received as the pool accepted and as were dropped; the accepted ones are, in
-- order, those that the workers took and those that were cleared; and the call of each has ended as often
-- as it was taken, which is once at most.
pub Reach-IsStopped :
    {may_wake network : Bool} {n : ℕ} {s : State}
    → Reach may_wake network n s
    → s.stage ≡ returned
    → IsStopped s
Reach-IsStopped {s = s} r e =
    let i = Reach-IsOrderly r in
    let c = Reach-IsConsistent i.pool in
    let (over, at_end) = subst (λ stage. AtStage stage s.pool.phase s.place) e i.at_stage in
    let (all, nobody, empty) =
      shut_down-conditions s.pool.phase s.pool.shared s.pool.workers over c.in_phase in
    let (kept, same_number, done) = shut_down_tasks i.pool over in
    record {
      off = i.runs ∙ ap running_at e;
      loop_ended = at_end;
      workers_ended = all;
      no_pool = i.there ∙ ap pool_there_at e;
      no_socket = i.valid ∙ ap valid_at e;
      fd_closed = i.descriptor ∙ ap open_at e;
      free = not_held s.locked (omega (arith, i.one_holder, ap loop_holds at_end, ap stop_holds e));
      received = omega (arith, i.count, ap submitters nobody, ap carried at_end);
      accepted = kept;
      finished = done;
      once = λ t. omega (
        arith,
        done t,
        ap (times t) kept,
        times-append t s.pool.shared.taken s.pool.shared.cleared,
        accepted_once t r,
      );
    }
