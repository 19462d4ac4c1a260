-- ===== src/Server/Shutdown/Kept.antt =====
-- src/internal/tftp_server_impl.cpp: what the places of ServerLoop and the stages of Stop allow to change.
use tftpserver.Prelude.{ℕ, ◌≤◌, ◌≡◌, refl, ap, Bool, true, false, arith}
use tftpserver.ThreadPool.{Task, Phase, Pool, shut_down, admit, stop}
use tftpserver.ThreadPool
use tftpserver.Server.Shutdown.{
  Place, at_test, calling, in_recvfrom, waiting, checking, submitting, in_submit, ended, Stage,
  not_called, flag_cleared, has_mutex, in_shutdown, closing, closed, joining, returned, started,
}
use tftpserver.Server.Shutdown.Orderly.{pool_there_at, loop_holds, AtPlace, AtStage, IsOrderly}

pub started-IsOrderly : {may_wake : Bool} (n : ℕ) → IsOrderly may_wake n (started n)
started-IsOrderly n = record {
  pool = ThreadPool.start;
  one_holder = refl;
  runs = refl;
  there = refl;
  stops = refl;
  valid = refl;
  descriptor = refl;
  at_place = refl;
  at_stage = tt;
  count = refl;
}

-- 1 unless the loop has ended.
abbrev pub live : Place → ℕ
live ended = 0
live _ = 1

-- 1 in the call of Submit.
abbrev pub inside : Place → ℕ
inside (in_submit t) = 1
inside _ = 0

module _ (running there stopping : Bool) (d : ℕ) where
  pub nothing_due :
      (place : Place) → inside place ≡ 0 → AtPlace place running there stopping d → d ≡ 0
  nothing_due (submitting t) out (available, going, quiet) = quiet
  nothing_due (in_submit t) out h = absurd (omega (arith, out))
  nothing_due ended out (off, quiet) = quiet
  nothing_due at_test out quiet = quiet
  nothing_due calling out quiet = quiet
  nothing_due in_recvfrom out quiet = quiet
  nothing_due (waiting t) out quiet = quiet
  nothing_due (checking t) out quiet = quiet

  pub AtPlace-off :
      (place : Place)
      → AtPlace place running there stopping d
      → AtPlace place false there stopping d
  AtPlace-off ended (off, quiet) = (refl, quiet)
  AtPlace-off (submitting t) h = h
  AtPlace-off (in_submit t) h = h
  AtPlace-off at_test h = h
  AtPlace-off calling h = h
  AtPlace-off in_recvfrom h = h
  AtPlace-off (waiting t) h = h
  AtPlace-off (checking t) h = h

  -- The pool changes while the loop has not the mutex.
  pub AtPlace-free :
      (there' stopping' : Bool) (place : Place)
      → loop_holds place ≡ 0
      → AtPlace place running there stopping d
      → AtPlace place running there' stopping' d
  AtPlace-free _ _ (submitting t) free h = absurd (omega (arith, free))
  AtPlace-free _ _ (in_submit t) free h = absurd (omega (arith, free))
  AtPlace-free _ _ (checking t) free h = h
  AtPlace-free _ _ ended free h = h
  AtPlace-free _ _ at_test free h = h
  AtPlace-free _ _ calling free h = h
  AtPlace-free _ _ in_recvfrom free h = h
  AtPlace-free _ _ (waiting t) free h = h

  pub AtPlace-less :
      (d' : ℕ) (place : Place)
      → d' ≤ d
      → AtPlace place running there stopping d
      → AtPlace place running there stopping d'
  AtPlace-less _ (submitting t) less (available, going, quiet) =
      (available, going, omega (arith, less, quiet))
  AtPlace-less _ (in_submit t) less h = h
  AtPlace-less _ ended less (off, quiet) = (off, omega (arith, less, quiet))
  AtPlace-less _ at_test less quiet = omega (arith, less, quiet)
  AtPlace-less _ calling less quiet = omega (arith, less, quiet)
  AtPlace-less _ in_recvfrom less quiet = omega (arith, less, quiet)
  AtPlace-less _ (waiting t) less quiet = omega (arith, less, quiet)
  AtPlace-less _ (checking t) less quiet = omega (arith, less, quiet)

pub AtStage-live :
    (stage : Stage) (phase : Phase) (place place' : Place)
    → live place ≡ 1
    → AtStage stage phase place
    → AtStage stage phase place'
AtStage-live returned _ _ place' alive (over, at_end) =
    absurd (omega (arith, alive, ap live at_end))
AtStage-live not_called _ _ place' alive h = h
AtStage-live flag_cleared _ _ place' alive h = h
AtStage-live has_mutex _ _ place' alive h = h
AtStage-live in_shutdown _ _ place' alive h = h
AtStage-live closing _ _ place' alive h = h
AtStage-live closed _ _ place' alive h = h
AtStage-live joining _ _ place' alive h = h

-- While the pool is there, nothing is said of its phase.
pub AtStage-there :
    (stage : Stage) (phase phase' : Phase) (place : Place)
    → pool_there_at stage ≡ true
    → AtStage stage phase place
    → AtStage stage phase' place
AtStage-there not_called _ _ _ e h = h
AtStage-there flag_cleared _ _ _ e h = h
AtStage-there has_mutex _ _ _ e h = h
AtStage-there in_shutdown _ _ _ e h = h
AtStage-there closing _ _ _ e h = cc
AtStage-there closed _ _ _ e h = cc
AtStage-there joining _ _ _ e h = cc
AtStage-there returned _ _ _ e h = cc
