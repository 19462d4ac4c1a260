-- ===== src/Socket/Balance.antt =====
-- The operations of src/internal/tftp_socket_impl_unix.cpp and the balance of the descriptors.
use tftpserver.Prelude.{
  ℕ, ◌+◌, ◌≡◌, refl, Bool, true, not, ◌||◌, List, ◌∷◌, Bytes, Bool-cases, inl, inr, arith, ◌==◌,
}
use tftpserver.Prelude.Int.{ℤ, pos, negsuc, ltb_ℤ, eq_ℤ}
use tftpserver.System.{
  Call, socket_call, setsockopt_call, bind_call, sendto_call, select_call, recvfrom_call, is_fd,
  opens, closes, uses, calls, WellUsed,
}
use tftpserver.Socket.{
  SocketImpl, invalid_socket, close, create, bind, set_reuse_address, send_to, receive_from, tv_sec,
  tv_usec, receive_from_timeout, move_assign,
}

-- As many descriptors were opened as were closed and are held.
abbrev pub Holds : (ℕ → ℕ) → List Call → Type 0
Holds held log = ((fd : ℕ) → calls (opens fd) log ≡ calls (closes fd) log + held fd) × WellUsed log

-- What the other objects hold stays with them.
abbrev pub Keeps : (ℕ → ℕ) → List Call → (ℕ → ℕ) → List Call → Type 0
Keeps held log held' log' =
    (others : ℕ → ℕ)
    → Holds (λ fd. held fd + others fd) log
    → Holds (λ fd. held' fd + others fd) log'

abbrev pub held_by : SocketImpl → ℕ → ℕ
held_by s fd = is_fd fd s.socket

-- Not an operation on a descriptor the object does not hold.
use-Keeps :
    (c : Call) (s : SocketImpl) (log : List Call)
    → ((fd : ℕ) → (opens fd c ≡ 0) × (closes fd c ≡ 0) × (uses fd c ≡ held_by s fd))
    → Keeps (held_by s) log (held_by s) (c ∷ log)
use-Keeps c s log used others (balance, well) =
    (λ fd. omega (arith, balance fd, used fd), (λ fd. omega (arith, balance fd, used fd), well))

pub close-Keeps :
    (s : SocketImpl) (log : List Call)
    → Keeps (held_by s) log (held_by (close s log).0) (close s log).1
unfolding close
close-Keeps s log others (balance, well) = elim (Bool-cases (eq_ℤ s.socket invalid_socket)) [
  | inl invalid ↦ rw invalid (balance, well)
  | inr valid ↦ rw valid (λ fd. omega (arith, balance fd), (λ fd. omega (arith, balance fd), well))
]

invalid-held_by : (z : ℤ) → eq_ℤ z invalid_socket ≡ true → (fd : ℕ) → is_fd fd z ≡ 0
invalid-held_by (pos n) e fd = cc
invalid-held_by (negsuc n) e fd = refl

pub close-held_by : (s : SocketImpl) (log : List Call) (fd : ℕ) → held_by (close s log).0 fd ≡ 0
unfolding close
close-held_by s log fd = elim (Bool-cases (eq_ℤ s.socket invalid_socket)) [
  | inl invalid ↦ rw invalid (invalid-held_by s.socket invalid fd)
  | inr valid ↦ rw valid refl
]

pub create-Keeps :
    (result : ℤ) (errno : Bytes) (s : SocketImpl) (log : List Call)
    → let o = create result errno s log in Keeps (held_by s) log (held_by o.1) o.2
unfolding create
create-Keeps result errno s log others h = elim (Bool-cases (eq_ℤ result invalid_socket)) [
  | inl bad ↦ rw bad made
  | inr good ↦ rw good made
]
  where
    made : Holds (λ fd. is_fd fd result + others fd) (socket_call result ∷ (close s log).1)
    made =
        let (balance, well) = close-Keeps s log others h in
        (
          λ fd. omega (arith, balance fd, close-held_by s log fd),
          (λ fd. omega (arith, balance fd), well),
        )

pub bind-Keeps :
    (result : ℤ) (errno : Bytes) (s : SocketImpl) (log : List Call)
    → let o = bind result errno s log in Keeps (held_by s) log (held_by o.1) o.2
unfolding bind
bind-Keeps result errno s log others h = elim (Bool-cases (eq_ℤ s.socket invalid_socket)) [
  | inl invalid ↦ rw invalid h
  | inr valid ↦ elim (Bool-cases (eq_ℤ result (pos 0))) [
    | inl good ↦
        rw (valid, good) (use-Keeps (bind_call s.socket) s log (λ fd. (refl, refl, refl)) others h)
    | inr bad ↦
        rw (valid, bad) (use-Keeps (bind_call s.socket) s log (λ fd. (refl, refl, refl)) others h)
  ]
]

pub set_reuse_address-Keeps :
    (result : ℤ) (errno : Bytes) (s : SocketImpl) (log : List Call)
    → let o = set_reuse_address result errno s log in Keeps (held_by s) log (held_by o.1) o.2
unfolding set_reuse_address
set_reuse_address-Keeps result errno s log others h =
    elim (Bool-cases (eq_ℤ s.socket invalid_socket)) [
      | inl invalid ↦ rw invalid h
      | inr valid ↦ elim (Bool-cases (eq_ℤ result (pos 0))) [
        | inl good ↦
            rw (valid, good)
              (use-Keeps (setsockopt_call s.socket) s log (λ fd. (refl, refl, refl)) others h)
        | inr bad ↦
            rw (valid, bad)
              (use-Keeps (setsockopt_call s.socket) s log (λ fd. (refl, refl, refl)) others h)
      ]
    ]

pub send_to-Keeps :
    (sent : ℤ) (errno : Bytes) (there : Bool) (size : ℕ) (s : SocketImpl) (log : List Call)
    → let o = send_to sent errno there size s log in Keeps (held_by s) log (held_by o.1) o.2
unfolding send_to
send_to-Keeps sent errno there size s log others h =
    elim (Bool-cases (eq_ℤ s.socket invalid_socket)) [
      | inl invalid ↦ rw invalid h
      | inr valid ↦ elim (Bool-cases (not there || size == 0)) [
        | inl nothing ↦ rw (valid, nothing) h
        | inr some_data ↦ elim (Bool-cases (ltb_ℤ sent (pos 0))) [
          | inl bad ↦
              rw (valid, some_data, bad)
                (use-Keeps (sendto_call s.socket) s log (λ fd. (refl, refl, refl)) others h)
          | inr good ↦
              rw (valid, some_data, good)
                (use-Keeps (sendto_call s.socket) s log (λ fd. (refl, refl, refl)) others h)
        ]
      ]
    ]

pub receive_from-Keeps :
    (received : ℤ) (errno : Bytes) (there : Bool) (size : ℕ) (s : SocketImpl) (log : List Call)
    → let o = receive_from received errno there size s log in
      Keeps (held_by s) log (held_by o.1) o.2
unfolding receive_from
receive_from-Keeps received errno there size s log others h =
    elim (Bool-cases (eq_ℤ s.socket invalid_socket)) [
      | inl invalid ↦ rw invalid h
      | inr valid ↦ elim (Bool-cases (not there || size == 0)) [
        | inl nothing ↦ rw (valid, nothing) h
        | inr some_data ↦ elim (Bool-cases (ltb_ℤ received (pos 0))) [
          | inl bad ↦
              rw (valid, some_data, bad)
                (use-Keeps (recvfrom_call s.socket) s log (λ fd. (refl, refl, refl)) others h)
          | inr good ↦
              rw (valid, some_data, good)
                (use-Keeps (recvfrom_call s.socket) s log (λ fd. (refl, refl, refl)) others h)
        ]
      ]
    ]

pub receive_from_timeout-Keeps :
    (select : ℤ → ℤ → ℤ) (received : ℤ) (errno : Bytes) (there : Bool) (size : ℕ) (timeout_ms : ℤ)
    (s : SocketImpl) (log : List Call)
    → let o = receive_from_timeout select received errno there size timeout_ms s log in
      Keeps (held_by s) log (held_by o.1) o.2
unfolding receive_from_timeout
receive_from_timeout-Keeps select received errno there size timeout_ms s log others h =
    elim (Bool-cases (eq_ℤ s.socket invalid_socket)) [
      | inl invalid ↦ rw invalid h
      | inr valid ↦ rw valid (elim (Bool-cases (ltb_ℤ result (pos 0))) [
        | inl bad ↦ rw bad selected
        | inr good ↦ rw good (elim (Bool-cases (eq_ℤ result (pos 0))) [
          | inl late ↦ rw late selected
          | inr ready ↦ rw ready (
              receive_from-Keeps received errno there size s (select_call s.socket ∷ log) others
                selected)
        ])
      ])
    ]
  where
    result : ℤ
    result = select (tv_sec timeout_ms) (tv_usec timeout_ms)

    selected : Holds (λ fd. held_by s fd + others fd) (select_call s.socket ∷ log)
    selected = use-Keeps (select_call s.socket) s log (λ fd. (refl, refl, refl)) others h

-- The move assignment gives back what its target held, and the source holds nothing any more.
pub move_assign-Keeps :
    (left : Bytes) (this other : SocketImpl) (log : List Call)
    → let (this', other', log') = move_assign left this other log in
      Keeps
        (λ fd. held_by this fd + held_by other fd)
        log
        (λ fd. held_by this' fd + held_by other' fd)
        log'
unfolding move_assign
move_assign-Keeps left this other log others (balance, well) =
    let (balance', well') =
      close-Keeps this log (λ fd. held_by other fd + others fd)
        (λ fd. omega (arith, balance fd), well) in
    (λ fd. omega (arith, balance' fd, close-held_by this log fd), well')
