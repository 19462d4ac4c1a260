-- ===== src/ThreadPool/Size.antt =====
-- The number of workers that the constructor of `TftpThreadPool` starts.
use tftpserver.Prelude.{ℕ, ◌≤◌, ◌<◌, ◌≡◌, ◌⊎◌, refl, arith}
use tftpserver.ThreadPool.{thread_count}

-- Whatever number is asked for, and whatever the hardware says: there are between 1 and 64 workers.
-- A number between 1 and 64 is taken as it is. At 0 the hardware decides, and where it does not say,
-- there are 4.
pub thread_count_range :
    (hardware num_threads : ℕ)
    → (1 ≤ thread_count hardware num_threads)
      × (thread_count hardware num_threads ≤ 64)
      × ((num_threads ≡ 0)
          ⊎ ((64 < num_threads) ⊎ (thread_count hardware num_threads ≡ num_threads)))
      × (thread_count 0 0 ≡ 4)
unfolding thread_count
thread_count_range hardware num_threads = (ground arith, ground arith, ground arith, refl)
