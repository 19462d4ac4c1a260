-- ===== src/Socket/Program.antt =====
-- The balance of the descriptors in a program with any number of sockets.
use tftpserver.Prelude.{ℕ, ◌+◌, ◌≡◌, refl, sym, ap, List, [], ◌∷◌, ◌++◌, none, some, arith}
use tftpserver.System.{Call}
use tftpserver.Socket.{SocketImpl, initial_socket}
use tftpserver.Socket.Forwarded.{
  UdpSocket, Member, create, bind, set_reuse_address, send_to, receive_from, receive_from_timeout,
  close, forward, release, Sockets, Step, construct, construct_moved, call, assign_forward,
  assign_back, destroy, Reach, begin, later,
}
use tftpserver.Socket.Balance.{
  Holds, Keeps, held_by, close-held_by, create-Keeps, bind-Keeps, set_reuse_address-Keeps,
  send_to-Keeps, receive_from-Keeps, receive_from_timeout-Keeps, close-Keeps,
}

abbrev pub held_at : UdpSocket → ℕ → ℕ
held_at none fd = 0
held_at (some s) fd = held_by s fd

-- How many of the objects hold the descriptor.
abbrev pub held : List UdpSocket → ℕ → ℕ
held [] fd = 0
held (o ∷ os) fd = held_at o fd + held os fd

held-append : (xs ys : List UdpSocket) (fd : ℕ) → held (xs ++ ys) fd ≡ held xs fd + held ys fd
held-append [] ys fd = omega arith
held-append (x ∷ xs) ys fd = omega (arith, held-append xs ys fd)

forward-Keeps :
    (m : Member) (s : SocketImpl) (log : List Call)
    → Keeps (held_by s) log (held_by (forward m s log).0) (forward m s log).1
unfolding forward
forward-Keeps (create result errno) s log = create-Keeps result errno s log
forward-Keeps (bind result errno) s log = bind-Keeps result errno s log
forward-Keeps (set_reuse_address result errno) s log = set_reuse_address-Keeps result errno s log
forward-Keeps (send_to sent errno there size) s log = send_to-Keeps sent errno there size s log
forward-Keeps (receive_from received errno there size) s log =
    receive_from-Keeps received errno there size s log
forward-Keeps (receive_from_timeout select received errno there size timeout_ms) s log =
    receive_from_timeout-Keeps select received errno there size timeout_ms s log
forward-Keeps close s log = close-Keeps s log

-- The destroyed object gives back what it holds.
release-Keeps : (o : UdpSocket) (log : List Call) → Keeps (held_at o) log (λ fd. 0) (release o log)
unfolding release
release-Keeps none log others h = h
release-Keeps (some s) log others h =
    let (balance, well) = close-Keeps s log others h in
    (λ fd. omega (arith, balance fd, close-held_by s log fd), well)

-- The same descriptors, counted otherwise.
recount : (f g : ℕ → ℕ) (log : List Call) → ((fd : ℕ) → f fd ≡ g fd) → Holds f log → Holds g log
recount f g log same (balance, well) = (λ fd. omega (arith, balance fd, same fd), well)

-- One object changes, and the others hold what they held.
change :
    (from to : ℕ → ℕ) (log log' : List Call) (os os' : List UdpSocket) (others : List UdpSocket)
    → Keeps from log to log'
    → ((fd : ℕ) → held os fd ≡ from fd + held others fd)
    → ((fd : ℕ) → held os' fd ≡ to fd + held others fd)
    → Holds (held os) log
    → Holds (held os') log'
change from to log log' os os' others keeps same same' h =
    recount (λ fd. to fd + held others fd) (held os') log' (λ fd. sym (same' fd))
      (keeps (held others) (recount (held os) (λ fd. from fd + held others fd) log same h))

pub Step-Holds :
    {p q : Sockets} → Step p q → Holds (held p.objects) p.log → Holds (held q.objects) q.log
Step-Holds {p} construct h =
    recount (held p.objects) (held (some initial_socket ∷ p.objects)) p.log (λ fd. omega arith) h
Step-Holds {p} (construct_moved before source after e) h =
    recount (held p.objects) (held (source ∷ (before ++ none ∷ after))) p.log
      (λ fd. omega (
        arith,
        ap (λ os. held os fd) e,
        held-append before (source ∷ after) fd,
        held-append before (none ∷ after) fd,
      ))
      h
Step-Holds {p} (call m before s after e) h =
    let new = some (forward m s p.log).0 in
    change (held_by s) (held_by (forward m s p.log).0) p.log (forward m s p.log).1 p.objects
      (before ++ new ∷ after) (before ++ after) (forward-Keeps m s p.log)
      (λ fd. omega (
        arith,
        ap (λ os. held os fd) e,
        held-append before (some s ∷ after) fd,
        held-append before after fd,
      ))
      (λ fd. omega (arith, held-append before (new ∷ after) fd, held-append before after fd)) h
Step-Holds {p} (assign_forward before between source target after e) h =
    change (held_at target) (λ fd. 0) p.log (release target p.log) p.objects
      (before ++ none ∷ (between ++ source ∷ after)) (before ++ source ∷ (between ++ after))
      (release-Keeps target p.log)
      (λ fd. omega (
        arith,
        ap (λ os. held os fd) e,
        held-append before (source ∷ (between ++ target ∷ after)) fd,
        held-append between (target ∷ after) fd,
        held-append before (source ∷ (between ++ after)) fd,
        held-append between after fd,
      ))
      (λ fd. omega (
        arith,
        held-append before (none ∷ (between ++ source ∷ after)) fd,
        held-append between (source ∷ after) fd,
        held-append before (source ∷ (between ++ after)) fd,
        held-append between after fd,
      ))
      h
Step-Holds {p} (assign_back before between source target after e) h =
    change (held_at target) (λ fd. 0) p.log (release target p.log) p.objects
      (before ++ source ∷ (between ++ none ∷ after)) (before ++ source ∷ (between ++ after))
      (release-Keeps target p.log)
      (λ fd. omega (
        arith,
        ap (λ os. held os fd) e,
        held-append before (target ∷ (between ++ source ∷ after)) fd,
        held-append between (source ∷ after) fd,
        held-append before (source ∷ (between ++ after)) fd,
        held-append between after fd,
      ))
      (λ fd. omega (
        arith,
        held-append before (source ∷ (between ++ none ∷ after)) fd,
        held-append between (none ∷ after) fd,
        held-append before (source ∷ (between ++ after)) fd,
        held-append between after fd,
      ))
      h
Step-Holds {p} (destroy before o after e) h =
    change (held_at o) (λ fd. 0) p.log (release o p.log) p.objects (before ++ after)
      (before ++ after) (release-Keeps o p.log)
      (λ fd. omega (
        arith,
        ap (λ os. held os fd) e,
        held-append before (o ∷ after) fd,
        held-append before after fd,
      ))
      (λ fd. omega arith) h

-- In every program over sockets, with any sequence of constructions, moves, assignments, calls of the
-- members and destructions, and whatever the operating system answers: of each descriptor, as many
-- were opened as were closed and are held by the objects; and each call was made on a descriptor that
-- had been opened more often than closed before. So none is lost, closed twice or used when closed.
pub Reach-Holds : {p : Sockets} → Reach p → Holds (held p.objects) p.log
Reach-Holds begin = (λ fd. refl, tt)
Reach-Holds (later r st) = Step-Holds st (Reach-Holds r)
