-- ===== src/Server/Lifecycle/Sound.antt =====
-- What holds behind every sequence of calls of Start and Stop.
use tftpserver.Prelude.{
  ℕ, ◌+◌, ◌≡◌, ◌⊎◌, refl, ap, ◌∙◌, Bool, true, false, List, [], ◌∷◌, Option, none, some, Bool-cases,
  inl, inr, arith,
}
use tftpserver.Prelude.Int.{ℤ, pos, negsuc, ltb_ℤ}
use tftpserver.System.{
  Call, socket_call, setsockopt_call, bind_call, is_fd, opens, closes, starts_thread, joins_thread,
  makes_pool, shuts_pool, calls,
}
use tftpserver.ThreadPool.{thread_count}
use tftpserver.Server.Lifecycle.{
  Lifecycle, initial_lifecycle, Answers, started, start, shut_pool, close_socket, join_thread, stop,
  is_running, LifecycleCall, start_call, stop_call, perform, perform_all,
}

abbrev pub flag_value : Bool → ℕ
flag_value true = 1
flag_value false = 0

-- 1 when the server holds the descriptor.
abbrev pub holds : ℕ → Bool → ℤ → ℕ
holds fd true sockfd = is_fd fd sockfd
holds fd false sockfd = 0

abbrev pub has_pool : Option ℕ → ℕ
has_pool none = 0
has_pool (some n) = 1

-- A running server has a valid socket, a thread and a pool, and one that does not run has no thread
-- and no pool. Of each descriptor, of the threads and of the pools, as many were made as were given
-- back and are held.
pub record IsSound (s : Lifecycle) : Type 0 where
  pub valid : (s.running ≡ false) ⊎ (ltb_ℤ s.sockfd (pos 0) ≡ false)
  pub thread : s.joinable ≡ s.running
  pub pool : has_pool s.thread_pool ≡ flag_value s.running
  pub descriptors :
      (fd : ℕ) → calls (opens fd) s.log ≡ calls (closes fd) s.log + holds fd s.running s.sockfd
  pub threads : calls starts_thread s.log ≡ calls joins_thread s.log + flag_value s.running
  pub pools : calls makes_pool s.log ≡ calls shuts_pool s.log + flag_value s.running

initial-IsSound : IsSound initial_lifecycle
initial-IsSound = record {
  valid = inl refl;
  thread = refl;
  pool = refl;
  descriptors = λ fd. refl;
  threads = refl;
  pools = refl;
}

is_fd-negative : (fd : ℕ) (z : ℤ) → ltb_ℤ z (pos 0) ≡ true → is_fd fd z ≡ 0
is_fd-negative fd (pos n) e = absurd (ground (arith, e))
is_fd-negative fd (negsuc n) e = refl

-- A call of Start that fails leaves a balanced log.
module _ (s : Lifecycle) (i : IsSound s) (idle : s.running ≡ false) where
  idle-IsSound :
      (sockfd : ℤ) (log : List Call)
      → ((fd : ℕ)
          → calls (opens fd) log + calls (closes fd) s.log
            ≡ calls (closes fd) log + calls (opens fd) s.log)
      → calls starts_thread log + calls joins_thread s.log
        ≡ calls joins_thread log + calls starts_thread s.log
      → calls makes_pool log + calls shuts_pool s.log
        ≡ calls shuts_pool log + calls makes_pool s.log
      → IsSound (record {
        running = false;
        sockfd = sockfd;
        joinable = s.joinable;
        thread_pool = s.thread_pool;
        log = log;
      })
  idle-IsSound sockfd log fds threads pools = record {
    valid = inl refl;
    thread = i.thread ∙ idle;
    pool = i.pool ∙ ap flag_value idle;
    descriptors = λ fd. omega (arith, fds fd, i.descriptors fd, ap (λ r. holds fd r s.sockfd) idle);
    threads = omega (arith, threads, i.threads, ap flag_value idle);
    pools = omega (arith, pools, i.pools, ap flag_value idle);
  }

  started-IsSound :
      (workers : ℕ) (os : Answers)
      → ltb_ℤ os.socket (pos 0) ≡ false
      → IsSound (
          started workers (record s {
            sockfd = os.socket;
            log = bind_call os.socket ∷ setsockopt_call os.socket ∷ socket_call os.socket ∷ s.log;
          }))
  unfolding started
  started-IsSound workers os good = record {
    valid = inr good;
    thread = refl;
    pool = refl;
    descriptors = λ fd. omega (arith, i.descriptors fd, ap (λ r. holds fd r s.sockfd) idle);
    threads = omega (arith, i.threads, ap flag_value idle);
    pools = omega (arith, i.pools, ap flag_value idle);
  }

  -- The result says whether the server runs.
  start_idle :
      (hardware size : ℕ) (os : Answers)
      → IsSound (start hardware size os s).1
        × ((start hardware size os s).1.running ≡ (start hardware size os s).0)
  unfolding start started
  start_idle hardware size os = rw idle (elim (Bool-cases (ltb_ℤ os.socket (pos 0))) [
    | inl bad ↦ rw bad (
      idle-IsSound os.socket (socket_call os.socket ∷ s.log)
          (λ fd. omega (arith, is_fd-negative fd os.socket bad)) (omega arith) (omega arith),
      refl,
    )
    | inr good ↦ rw good (elim (Bool-cases (ltb_ℤ os.setsockopt (pos 0))) [
      | inl bad ↦
          rw bad (idle-IsSound os.socket _ (λ fd. omega arith) (omega arith) (omega arith), refl)
      | inr tuned ↦ rw tuned (elim (Bool-cases (ltb_ℤ os.bind (pos 0))) [
        | inl bad ↦
            rw bad (idle-IsSound os.socket _ (λ fd. omega arith) (omega arith) (omega arith), refl)
        | inr bound ↦ rw bound (started-IsSound (thread_count hardware size) os good, refl)
      ])
    ])
  ])

start_busy :
    (hardware size : ℕ) (os : Answers) (s : Lifecycle)
    → s.running ≡ true
    → start hardware size os s ≡ (true, s)
unfolding start
start_busy hardware size os s busy = simp busy

start-IsSound :
    (hardware size : ℕ) (os : Answers) (s : Lifecycle)
    → IsSound s
    → IsSound (start hardware size os s).1
      × ((start hardware size os s).1.running ≡ (start hardware size os s).0)
start-IsSound hardware size os s i = elim (Bool-cases s.running) [
  | inr idle ↦ start_idle s i idle hardware size os
  | inl busy ↦ rw (start_busy hardware size os s busy) (i, busy)
]

valid_socket : (s : Lifecycle) → IsSound s → s.running ≡ true → ltb_ℤ s.sockfd (pos 0) ≡ false
valid_socket s i busy = elim i.valid [ inr valid ↦ valid | inl idle ↦ cc ]

-- A pool that is there.
has_pool-some : (o : Option ℕ) → has_pool o ≡ 1 → (workers : ℕ) × (o ≡ some workers)
has_pool-some none e = absurd (omega (arith, e))
has_pool-some (some n) e = (n, refl)

stop_busy :
    (s : Lifecycle) → IsSound s → s.running ≡ true → IsSound (stop s) × ((stop s).running ≡ false)
unfolding stop shut_pool close_socket join_thread
stop_busy s i busy =
    let (workers, there) = has_pool-some s.thread_pool (i.pool ∙ ap flag_value busy) in
    let valid = valid_socket s i busy in
    let joins = i.thread ∙ busy in
    rw (busy, there, valid, joins)
      (
        record {
          valid = inl refl;
          thread = refl;
          pool = refl;
          descriptors = λ fd. omega (arith, i.descriptors fd, ap (λ r. holds fd r s.sockfd) busy);
          threads = omega (arith, i.threads, ap flag_value busy);
          pools = omega (arith, i.pools, ap flag_value busy);
        },
        refl,
      )

stop_idle : (s : Lifecycle) → s.running ≡ false → stop s ≡ s
unfolding stop
stop_idle s idle = simp idle

stop-IsSound : (s : Lifecycle) → IsSound s → IsSound (stop s) × ((stop s).running ≡ false)
stop-IsSound s i = elim (Bool-cases s.running) [
  | inl busy ↦ stop_busy s i busy
  | inr idle ↦ rw (stop_idle s idle) (i, idle)
]

perform-IsSound : (c : LifecycleCall) (s : Lifecycle) → IsSound s → IsSound (perform c s)
unfolding perform
perform-IsSound (start_call hardware size os) s i = (start-IsSound hardware size os s i).0
perform-IsSound stop_call s i = (stop-IsSound s i).0

performed-IsSound :
    (cs : List LifecycleCall) (s : Lifecycle) → IsSound s → IsSound (perform_all cs s)
unfolding perform_all
performed-IsSound [] s i = i
performed-IsSound (c ∷ cs) s i = performed-IsSound cs (perform c s) (perform-IsSound c s i)

-- Behind every sequence of calls of Start and Stop on a new server, whatever the operating system
-- answers: of each descriptor, of the threads and of the pools, as many were made as were given back
-- and are held, so none is lost and none is given back twice; a server that runs has a valid socket,
-- a thread and a pool, and one that does not has no thread and no pool.
pub perform_all-IsSound : (cs : List LifecycleCall) → IsSound (perform_all cs initial_lifecycle)
perform_all-IsSound cs = performed-IsSound cs initial_lifecycle initial-IsSound

is_running_flag : (s : Lifecycle) → IsSound s → is_running s ≡ s.running
unfolding is_running
is_running_flag s i = elim (Bool-cases s.running) [
  | inr idle ↦ simp idle
  | inl busy ↦ simp (busy, valid_socket s i busy, i.thread ∙ busy)
]

-- Behind every sequence of calls on a new server: the three tests of IsRunning agree with the flag
-- `running_` alone, Start returns true exactly when the server runs behind it, and behind Stop it does
-- not run.
pub is_running_lem :
    (cs : List LifecycleCall) (hardware size : ℕ) (os : Answers)
    → let s = perform_all cs initial_lifecycle in
      (is_running s ≡ s.running)
      × (is_running (start hardware size os s).1 ≡ (start hardware size os s).0)
      × (is_running (stop s) ≡ false)
is_running_lem cs hardware size os =
    let s = perform_all cs initial_lifecycle in
    let i = perform_all-IsSound cs in
    let (i', same) = start-IsSound hardware size os s i in
    let (i'', off) = stop-IsSound s i in
    (is_running_flag s i, is_running_flag _ i' ∙ same, is_running_flag _ i'' ∙ off)
