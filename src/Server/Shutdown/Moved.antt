-- ===== src/Server/Shutdown/Moved.antt =====
-- src/internal/tftp_server_impl.cpp: the kinds of steps of ServerLoop and of Stop keep the order.
use tftpserver.Prelude.{ℕ, ◌+◌, ◌≡◌, ap, subst, ◌∙◌, Bool, false, length, arith}
use tftpserver.ThreadPool.Invariant.{submitters, holders}
use tftpserver.ThreadPool.Invariant.Preserved.{holders-le}
use tftpserver.Server.Shutdown.{Place, at_test, Stage, State}
use tftpserver.Server.Shutdown.Orderly.{
  running_at, pool_there_at, stopping_at, valid_at, open_at, stop_holds, loop_holds, carried,
  AtPlace, AtStage, due, IsOrderly,
}
use tftpserver.Server.Shutdown.Kept.{live, inside, nothing_due, AtStage-live}

-- The flags and the socket are as the stage says.
abbrev pub AtFlags : Stage → Bool → Bool → Bool → Bool → Bool → Type 0
AtFlags stage running there stopping valid fd_open =
    (running ≡ running_at stage)
    × (there ≡ pool_there_at stage)
    × (stopping ≡ stopping_at stage)
    × (valid ≡ valid_at stage)
    × (fd_open ≡ open_at stage)

module _ {may_wake : Bool} {n : ℕ} (s : State) (i : IsOrderly may_wake n s) where
  pub quiet : inside s.place ≡ 0 → due s.pool ≡ 0
  quiet out =
      nothing_due s.running s.pool_there s.pool.shared.stopping (due s.pool) s.place out i.at_place

  -- A loop that has not ended moves to this place.
  pub stage_kept : (place : Place) → live s.place ≡ 1 → AtStage s.stage s.pool.phase place
  stage_kept place alive = AtStage-live s.stage s.pool.phase s.place place alive i.at_stage

  -- ServerLoop moves to this place, and changes no more than the mutex and the counts.
  pub moved_loop :
      (place : Place) (locked : Bool) (received dropped misused : ℕ)
      → live s.place ≡ 1
      → loop_holds place + stop_holds s.stage ≡ holders locked
      → AtPlace place s.running s.pool_there s.pool.shared.stopping (due s.pool)
      → received
        ≡ length s.pool.shared.accepted
          + submitters s.pool.shared.admitted
          + dropped
          + carried place
      → IsOrderly may_wake n (record s {
        place = place;
        locked = locked;
        received = received;
        dropped = dropped;
        misused = misused;
      })
  moved_loop place locked received dropped misused alive one_holder h count = record {
    pool = i.pool;
    one_holder = one_holder;
    runs = i.runs;
    there = i.there;
    stops = i.stops;
    valid = i.valid;
    descriptor = i.descriptor;
    at_place = h;
    at_stage = stage_kept place alive;
    count = count;
  }

  -- Only the place and the count of misuses change, and the mutex is held by the same threads.
  pub stepped_loop :
      (place : Place) (misused : ℕ)
      → live s.place ≡ 1
      → loop_holds place ≡ loop_holds s.place
      → carried place ≡ carried s.place
      → AtPlace place s.running s.pool_there s.pool.shared.stopping (due s.pool)
      → IsOrderly may_wake n (record s { place = place; misused = misused })
  stepped_loop place misused alive same same' h =
      moved_loop place s.locked s.received s.dropped misused alive
        (omega (arith, i.one_holder, same)) h (omega (arith, i.count, same'))

  -- The loop gives the mutex back, with the datagram dropped.
  pub dropped_loop :
      carried s.place ≡ 1
      → loop_holds s.place ≡ 1
      → live s.place ≡ 1
      → inside s.place ≡ 0
      → IsOrderly may_wake n (record s { place = at_test; locked = false; dropped = s.dropped + 1 })
  dropped_loop one holds alive out =
      moved_loop at_test false s.received (s.dropped + 1) s.misused alive
        (omega (arith, i.one_holder, holds, holders-le s.locked)) (quiet out)
        (omega (arith, i.count, one))

  -- Stop has the mutex, and ServerLoop has not.
  pub loop_free : stop_holds s.stage ≡ 1 → loop_holds s.place ≡ 0
  loop_free one = omega (arith, i.one_holder, one, holders-le s.locked)

  pub at_known : {stage : Stage} → s.stage ≡ stage → AtStage stage s.pool.phase s.place
  at_known e = subst (λ stage. AtStage stage s.pool.phase s.place) e i.at_stage

  -- Stop moves to this stage.
  pub moved_stop :
      (stage : Stage) (running locked there valid fd_open : Bool)
      → loop_holds s.place + stop_holds stage ≡ holders locked
      → AtFlags stage running there s.pool.shared.stopping valid fd_open
      → AtPlace s.place running there s.pool.shared.stopping (due s.pool)
      → AtStage stage s.pool.phase s.place
      → IsOrderly may_wake n (record s {
        stage = stage;
        running = running;
        locked = locked;
        pool_there = there;
        sockfd_valid = valid;
        fd_open = fd_open;
      })
  moved_stop stage running locked there valid fd_open one_holder flags h h' = record {
    pool = i.pool;
    one_holder = one_holder;
    runs = flags.0;
    there = flags.1;
    stops = flags.2;
    valid = flags.3;
    descriptor = flags.4;
    at_place = h;
    at_stage = h';
    count = i.count;
  }

  -- The flags at the stage of Stop.
  pub flags_at :
      {stage : Stage}
      → s.stage ≡ stage
      → AtFlags stage s.running s.pool_there s.pool.shared.stopping s.sockfd_valid s.fd_open
  flags_at e = (
    i.runs ∙ ap running_at e,
    i.there ∙ ap pool_there_at e,
    i.stops ∙ ap stopping_at e,
    i.valid ∙ ap valid_at e,
    i.descriptor ∙ ap open_at e,
  )
