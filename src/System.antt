-- ===== src/System.antt =====
-- The calls of the operating system that the server and the socket wrapper log, for the balance of
-- descriptors, threads and thread pools: what `socket` returned, and the descriptor each other call
-- is made on.
use tftpserver.Prelude.{ℕ, ◌+◌, ◌≤◌, List, [], ◌∷◌, ◌==◌, if◌then◌else◌}
use tftpserver.Prelude.Int.{ℤ, pos, negsuc}

pub data Call : Type 0 where
  socket_call : ℤ → Call
  setsockopt_call : ℤ → Call
  bind_call : ℤ → Call
  sendto_call : ℤ → Call
  select_call : ℤ → Call
  recvfrom_call : ℤ → Call
  close_call : ℤ → Call
  pool_made : ℕ → Call
  pool_shut_down : Call
  thread_started : Call
  thread_joined : Call

-- 1 when this is the descriptor.
abbrev pub is_fd : ℕ → ℤ → ℕ
is_fd fd (pos n) = if n == fd then 1 else 0
is_fd fd (negsuc n) = 0

abbrev pub opens : ℕ → Call → ℕ
opens fd (socket_call result) = is_fd fd result
opens fd _ = 0

abbrev pub closes : ℕ → Call → ℕ
closes fd (close_call closed) = is_fd fd closed
closes fd _ = 0

abbrev pub starts_thread : Call → ℕ
starts_thread thread_started = 1
starts_thread _ = 0

abbrev pub joins_thread : Call → ℕ
joins_thread thread_joined = 1
joins_thread _ = 0

abbrev pub makes_pool : Call → ℕ
makes_pool (pool_made n) = 1
makes_pool _ = 0

abbrev pub shuts_pool : Call → ℕ
shuts_pool pool_shut_down = 1
shuts_pool _ = 0

-- How many calls of a log are of this kind. The log has the last call first.
abbrev pub calls : (Call → ℕ) → List Call → ℕ
calls kind [] = 0
calls kind (c ∷ log) = kind c + calls kind log

-- 1 when the call needs this descriptor to be open.
abbrev pub uses : ℕ → Call → ℕ
uses fd (setsockopt_call used) = is_fd fd used
uses fd (bind_call used) = is_fd fd used
uses fd (sendto_call used) = is_fd fd used
uses fd (select_call used) = is_fd fd used
uses fd (recvfrom_call used) = is_fd fd used
uses fd (close_call used) = is_fd fd used
uses fd _ = 0

-- Each call was made on a descriptor that had been opened more often than closed.
abbrev pub WellUsed : List Call → Type 0
WellUsed [] = Unit
WellUsed (c ∷ log) =
    ((fd : ℕ) → uses fd c + calls (closes fd) log ≤ calls (opens fd) log) × WellUsed log
