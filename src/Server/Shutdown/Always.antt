-- ===== src/Server/Shutdown/Always.antt =====
-- src/internal/tftp_server_impl.cpp: Stop and ServerLoop keep the order in every run.
use tftpserver.Prelude.{ℕ, ◌+◌, refl, sym, ap, subst, ◌∙◌, Bool, true, false, arith}
use tftpserver.ThreadPool.{Task, Phase, Pool, shut_down, admit, stop}
use tftpserver.ThreadPool
use tftpserver.ThreadPool.Invariant.{submitters, holders}
use tftpserver.ThreadPool.Invariant.Preserved.{holders-le}
use tftpserver.ThreadPool.LostWakeup.{true-false}
use tftpserver.Server.Shutdown.{
  at_test, calling, in_recvfrom, waiting, checking, submitting, in_submit, ended, flag_cleared,
  has_mutex, closing, closed, joining, returned, State, Step, pool_moves, loop_ends, loop_goes_on,
  call_recvfrom, call_closed, datagram, nothing_received, lock_to_submit, pool_available, drop,
  call_submit, submit_throws, submit_returns, stop_begins, lock_to_stop, call_shutdown, no_pool,
  reset_pool, close_socket, no_socket, forget_socket, join_thread, Reach, begin, later,
}
use tftpserver.ThreadPool.Inner.{IsInner-Kept}
use tftpserver.Server.Shutdown.Orderly.{
  running_at, valid_at, open_at, stop_holds, loop_holds, carried, AtPlace, due, IsOrderly,
}
use tftpserver.Server.Shutdown.Kept.{
  live, inside, AtPlace-off, AtPlace-free, AtPlace-less, AtStage-there, started-IsOrderly,
}
use tftpserver.Server.Shutdown.Moved.{
  quiet, stage_kept, moved_loop, stepped_loop, dropped_loop, loop_free, at_known, moved_stop,
  flags_at,
}

pub Step-IsOrderly :
    {may_wake network : Bool} {n : ℕ} {s t : State}
    → Step may_wake network s t
    → IsOrderly may_wake n s
    → IsOrderly may_wake n t
Step-IsOrderly {s = s} (pool_moves {q} st inner there) i =
    let k = IsInner-Kept st inner in
    record {
      pool = ThreadPool.later i.pool st;
      one_holder = i.one_holder;
      runs = i.runs;
      there = i.there;
      stops = k.stops ∙ i.stops;
      valid = i.valid;
      descriptor = i.descriptor;
      at_place = rw k.stops (
          AtPlace-less s.running s.pool_there s.pool.shared.stopping (due s.pool) (due q) s.place
            k.quiet i.at_place);
      at_stage =
          AtStage-there s.stage s.pool.phase q.phase s.place (sym i.there ∙ there) i.at_stage;
      count = omega (arith, i.count, k.count);
    }
Step-IsOrderly {s = s} (loop_ends e off) i =
    stepped_loop s i ended s.misused (ap live e) (sym (ap loop_holds e)) (sym (ap carried e))
      (off, quiet s i (ap inside e))
Step-IsOrderly {s = s} (loop_goes_on e on) i =
    stepped_loop s i calling s.misused (ap live e) (sym (ap loop_holds e)) (sym (ap carried e))
      (quiet s i (ap inside e))
Step-IsOrderly {s = s} (call_recvfrom e v o) i =
    stepped_loop s i in_recvfrom s.misused (ap live e) (sym (ap loop_holds e)) (sym (ap carried e))
      (quiet s i (ap inside e))
Step-IsOrderly {s = s} (call_closed e c) i =
    stepped_loop s i at_test (s.misused + 1) (ap live e) (sym (ap loop_holds e))
      (sym (ap carried e)) (quiet s i (ap inside e))
Step-IsOrderly {s = s} (datagram on e) i =
    moved_loop s i (waiting s.received) s.locked (s.received + 1) s.dropped s.misused (ap live e)
      (omega (arith, i.one_holder, ap loop_holds e)) (quiet s i (ap inside e))
      (omega (arith, i.count, ap carried e))
Step-IsOrderly {s = s} (nothing_received on e) i =
    stepped_loop s i at_test s.misused (ap live e) (sym (ap loop_holds e)) (sym (ap carried e))
      (quiet s i (ap inside e))
Step-IsOrderly {s = s} (lock_to_submit {t} e free) i =
    moved_loop s i (checking t) true s.received s.dropped s.misused (ap live e)
      (omega (arith, i.one_holder, ap loop_holds e, ap holders free)) (quiet s i (ap inside e))
      (omega (arith, i.count, ap carried e))
Step-IsOrderly {s = s} (pool_available {t} e there going) i =
    stepped_loop s i (submitting t) s.misused (ap live e) (sym (ap loop_holds e))
      (sym (ap carried e)) (there, going, quiet s i (ap inside e))
Step-IsOrderly {s = s} (drop e why) i =
    dropped_loop s i (ap carried e) (ap loop_holds e) (ap live e) (ap inside e)
Step-IsOrderly {s = s} (submit_throws e why) i =
    dropped_loop s i (ap carried e) (ap loop_holds e) (ap live e) (ap inside e)
Step-IsOrderly {s = s} (call_submit {t} e free going) i = record {
  pool = ThreadPool.later i.pool (admit t free going);
  one_holder = omega (arith, i.one_holder, ap loop_holds e);
  runs = i.runs;
  there = i.there;
  stops = i.stops;
  valid = i.valid;
  descriptor = i.descriptor;
  at_place = (
    (subst (λ place. AtPlace place s.running s.pool_there s.pool.shared.stopping (due s.pool)) e
        i.at_place).0,
    going,
  );
  at_stage = stage_kept s i (in_submit t) (ap live e);
  count = omega (arith, i.count, ap carried e, quiet s i (ap inside e));
}
Step-IsOrderly {s = s} (submit_returns e nobody none_due) i =
    moved_loop s i at_test false s.received s.dropped s.misused (ap live e)
      (omega (arith, i.one_holder, ap loop_holds e, holders-le s.locked))
      (omega (arith, ap submitters nobody, none_due)) (omega (arith, i.count, ap carried e))
Step-IsOrderly {s = s} (stop_begins e on) i =
    let (_, there, stops, valid, opened) = flags_at s i e in
    moved_stop s i flag_cleared false s.locked s.pool_there s.sockfd_valid s.fd_open
      (omega (arith, i.one_holder, ap stop_holds e)) (refl, there, stops, valid, opened)
      (AtPlace-off s.running s.pool_there s.pool.shared.stopping (due s.pool) s.place i.at_place) tt
Step-IsOrderly {s = s} (lock_to_stop e free) i =
    moved_stop s i has_mutex s.running true s.pool_there s.sockfd_valid s.fd_open
      (omega (arith, i.one_holder, ap stop_holds e, ap holders free)) (flags_at s i e) i.at_place tt
Step-IsOrderly {s = s} (call_shutdown e there going) i = record {
  pool = ThreadPool.later i.pool (stop going);
  one_holder = omega (arith, i.one_holder, ap stop_holds e);
  runs = i.runs ∙ ap running_at e;
  there = there;
  stops = refl;
  valid = i.valid ∙ ap valid_at e;
  descriptor = i.descriptor ∙ ap open_at e;
  at_place =
      AtPlace-free s.running s.pool_there s.pool.shared.stopping (due s.pool) s.pool_there true
        s.place (loop_free s i (ap stop_holds e)) i.at_place;
  at_stage = tt;
  count = i.count;
}
Step-IsOrderly {s = s} (no_pool e there) i = true-false (flags_at s i e).1 there
Step-IsOrderly {s = s} (reset_pool e over) i =
    let (off, _, stops, valid, opened) = flags_at s i e in
    let free = loop_free s i (ap stop_holds e) in
    moved_stop s i closing s.running false false s.sockfd_valid s.fd_open (omega (arith, free))
      (off, refl, stops, valid, opened)
      (AtPlace-free s.running s.pool_there s.pool.shared.stopping (due s.pool) false
        s.pool.shared.stopping s.place free i.at_place)
      over
Step-IsOrderly {s = s} (close_socket e v) i =
    let (off, there, stops, valid, _) = flags_at s i e in
    moved_stop s i closed s.running s.locked s.pool_there s.sockfd_valid false
      (omega (arith, i.one_holder, ap stop_holds e)) (off, there, stops, valid, refl) i.at_place
      (at_known s i e)
Step-IsOrderly {s = s} (no_socket e v) i = true-false (flags_at s i e).3 v
Step-IsOrderly {s = s} (forget_socket e) i =
    let (off, there, stops, _, opened) = flags_at s i e in
    moved_stop s i joining s.running s.locked s.pool_there false s.fd_open
      (omega (arith, i.one_holder, ap stop_holds e)) (off, there, stops, refl, opened) i.at_place
      (at_known s i e)
Step-IsOrderly {s = s} (join_thread e at_end) i =
    moved_stop s i returned s.running s.locked s.pool_there s.sockfd_valid s.fd_open
      (omega (arith, i.one_holder, ap stop_holds e)) (flags_at s i e) i.at_place
      (at_known s i e, at_end)

-- In every state that Stop, ServerLoop and the pool can reach, whatever the order of their steps was: the
-- mutex has one holder at most; the flag, the pool, its flag, the member and the descriptor of the socket
-- are as the place of Stop says; Submit is called only on a pool that is there and is not stopping, and
-- outside of it no notification is due; the loop has ended only when the flag is cleared; the pool is
-- reset only behind its shutdown; and each datagram that was received is in the hand of the loop, dropped,
-- or given to the pool.
pub Reach-IsOrderly :
    {may_wake network : Bool} {n : ℕ} {s : State}
    → Reach may_wake network n s
    → IsOrderly may_wake n s
Reach-IsOrderly {n = n} begin = started-IsOrderly n
Reach-IsOrderly (later r st) = Step-IsOrderly st (Reach-IsOrderly r)
