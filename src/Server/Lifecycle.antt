-- ===== src/Server/Lifecycle.antt =====
-- src/internal/tftp_server_impl.cpp: Start, Stop, IsRunning and ServerLoop, called one after the other
-- from one thread. The results of `socket`, `setsockopt` and `bind` are parameters, and `hardware` is
-- `std::thread::hardware_concurrency()`.
pub mod Sound
pub mod Loop
use tftpserver.Prelude.{
  ℕ, Bool, true, false, not, ◌&&◌, List, [], ◌∷◌, Option, none, some, Bytes, take, if◌then◌else◌,
}
use tftpserver.Prelude.Int.{ℤ, pos, negsuc, ltb_ℤ, pos_part}
use tftpserver.System.{
  Call, socket_call, setsockopt_call, bind_call, close_call, pool_made, pool_shut_down,
  thread_started, thread_joined,
}
use tftpserver.ThreadPool.{thread_count}
use tftpserver.Server.{Address}

-- The members that Start and Stop change: `joinable` is whether `server_thread_` is, and the pool is
-- given by its number of workers.
pub record Lifecycle : Type 0 where
  pub running : Bool
  pub sockfd : ℤ
  pub joinable : Bool
  pub thread_pool : Option ℕ
  pub log : List Call

-- The constructor.
abbrev pub initial_lifecycle : Lifecycle
initial_lifecycle = record {
  running = false;
  sockfd = negsuc 0;
  joinable = false;
  thread_pool = none;
  log = [];
}

-- What the operating system answers in a call of Start.
pub record Answers : Type 0 where
  pub socket : ℤ
  pub setsockopt : ℤ
  pub bind : ℤ

unfoldable pub started : ℕ → Lifecycle → Lifecycle
started workers s = record s {
  running = true;
  joinable = true;
  thread_pool = some workers;
  log = thread_started ∷ pool_made workers ∷ s.log;
}

-- The call and its result.
unfoldable pub start : ℕ → ℕ → Answers → Lifecycle → Bool × Lifecycle
start hardware thread_pool_size os s =
    let opened = record s { sockfd = os.socket; log = socket_call os.socket ∷ s.log } in
    let tuned = record opened { log = setsockopt_call os.socket ∷ opened.log } in
    let bound = record tuned { log = bind_call os.socket ∷ tuned.log } in
    if s.running
    then (true, s)
    else if ltb_ℤ os.socket (pos 0)
    then (false, opened)
    else if ltb_ℤ os.setsockopt (pos 0)
    then (false, record tuned { log = close_call os.socket ∷ tuned.log })
    else if ltb_ℤ os.bind (pos 0)
    then (false, record bound { log = close_call os.socket ∷ bound.log })
    else (true, started (thread_count hardware thread_pool_size) bound)

unfoldable pub shut_pool : Lifecycle → Lifecycle
shut_pool s = elim s.thread_pool [
  | none ↦ s
  | some workers ↦ record s { thread_pool = none; log = pool_shut_down ∷ s.log }
]

unfoldable pub close_socket : Lifecycle → Lifecycle
close_socket s =
    if not (ltb_ℤ s.sockfd (pos 0))
    then record s { sockfd = negsuc 0; log = close_call s.sockfd ∷ s.log }
    else s

unfoldable pub join_thread : Lifecycle → Lifecycle
join_thread s = if s.joinable then record s { joinable = false; log = thread_joined ∷ s.log } else s

-- `Shutdown` and `join` return.
unfoldable pub stop : Lifecycle → Lifecycle
stop s =
    if not s.running
    then s
    else join_thread (close_socket (shut_pool (record s { running = false })))

unfoldable pub is_running : Lifecycle → Bool
is_running s =
    if not s.running
    then false
    else if ltb_ℤ s.sockfd (pos 0)
    then false
    else if not s.joinable
    then false
    else true

-- A call of a member; the destructor calls Stop.
pub data LifecycleCall : Type 0 where
  start_call : ℕ → ℕ → Answers → LifecycleCall
  stop_call : LifecycleCall

unfoldable pub perform : LifecycleCall → Lifecycle → Lifecycle
perform (start_call hardware thread_pool_size os) s = (start hardware thread_pool_size os s).1
perform stop_call s = stop s

unfoldable pub perform_all : List LifecycleCall → Lifecycle → Lifecycle
perform_all [] s = s
perform_all (c ∷ cs) s = perform_all cs (perform c s)

-- What one round of ServerLoop finds: the flag, what `recvfrom` returns and leaves in the buffer, the
-- state of the pool, and whether `Submit` takes the task.
pub record Round : Type 0 where
  pub flag : Bool
  pub recvlen : ℤ
  pub buffer : Bytes
  pub client : Address
  pub pool_there : Bool
  pub shutting_down : Bool
  pub submits : Bool

-- The calls of HandleClient that are submitted.
unfoldable pub server_loop : List Round → List (Bytes × Address)
server_loop [] = []
server_loop (r ∷ rounds) =
    let rest = server_loop rounds in
    if not r.flag
    then []
    else if ltb_ℤ (pos 0) r.recvlen
    then (if r.pool_there && not r.shutting_down
        then (if r.submits then (take (pos_part r.recvlen) r.buffer, r.client) ∷ rest else rest)
        else rest)
    else rest
