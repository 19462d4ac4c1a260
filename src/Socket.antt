-- ===== src/Socket.antt =====
-- src/internal/tftp_socket_impl_unix.cpp and src/tftp_socket.cpp: the socket wrapper. What a call of
-- the operating system returns, and the text of `errno`, are arguments of the operation that makes
-- the call. What `recvfrom` writes to the buffer and to the address of the sender is passed on as it
-- is and left out.
pub mod Forwarded
pub mod Balance
pub mod Address
pub mod Program
pub mod Windows
pub mod Library
use tftpserver.Prelude.{
  ℕ, zero, suc, ◌+◌, ◌-◌, ◌*◌, ◌/◌, ◌%◌, ◌^◌, Bool, true, false, not, ◌||◌, List, [], ◌∷◌, ◌++◌,
  Bytes, codes, ◌==◌, ltb, if◌then◌else◌,
}
use tftpserver.Prelude.Int.{ℤ, pos, negsuc, ltb_ℤ, eq_ℤ}
use tftpserver.System.{
  Call, socket_call, setsockopt_call, bind_call, sendto_call, select_call, recvfrom_call,
  close_call,
}

abbrev pub invalid_socket : ℤ
invalid_socket = negsuc 0

pub record SocketImpl : Type 0 where
  pub socket : ℤ
  pub last_error : Bytes

abbrev pub initial_socket : SocketImpl
initial_socket = record { socket = invalid_socket; last_error = [] }

-- The result of an operation, the object behind it, and the log of the calls.
abbrev pub Outcome : Type 0 → Type 0
Outcome A = A × SocketImpl × List Call

abbrev pub set_last_error : Bytes → SocketImpl → SocketImpl
set_last_error error s = record s { last_error = error }

unfoldable pub is_valid : SocketImpl → Bool
is_valid s = not (eq_ℤ s.socket invalid_socket)

unfoldable pub close : SocketImpl → List Call → SocketImpl × List Call
close s log =
    if not (eq_ℤ s.socket invalid_socket)
    then (record s { socket = invalid_socket }, close_call s.socket ∷ log)
    else (s, log)

unfoldable pub create : ℤ → Bytes → SocketImpl → List Call → Outcome Bool
create result errno s log =
    let closed = close s log in
    let made = record closed.0 { socket = result } in
    let log' = socket_call result ∷ closed.1 in
    if eq_ℤ result invalid_socket
    then (false, set_last_error (codes "Failed to create UDP socket: " ++ errno) made, log')
    else (true, made, log')

unfoldable pub bind : ℤ → Bytes → SocketImpl → List Call → Outcome Bool
bind result errno s log =
    if eq_ℤ s.socket invalid_socket
    then (false, set_last_error (codes "Cannot bind invalid socket") s, log)
    else if not (eq_ℤ result (pos 0))
    then (
      false,
      set_last_error (codes "Failed to bind socket: " ++ errno) s,
      bind_call s.socket ∷ log,
    )
    else (true, s, bind_call s.socket ∷ log)

unfoldable pub set_reuse_address : ℤ → Bytes → SocketImpl → List Call → Outcome Bool
set_reuse_address result errno s log =
    if eq_ℤ s.socket invalid_socket
    then (false, set_last_error (codes "Cannot set option on invalid socket") s, log)
    else if not (eq_ℤ result (pos 0))
    then (
      false,
      set_last_error (codes "Failed to set SO_REUSEADDR: " ++ errno) s,
      setsockopt_call s.socket ∷ log,
    )
    else (true, s, setsockopt_call s.socket ∷ log)

-- `static_cast<int>`
unfoldable pub to_int : ℤ → ℤ
to_int (pos n) =
    let low = n % 2 ^ 32 in if ltb low (2 ^ 31) then pos low else negsuc (2 ^ 32 - 1 - low)
to_int (negsuc n) =
    let low = n % 2 ^ 32 in if ltb low (2 ^ 31) then negsuc low else pos (2 ^ 32 - 1 - low)

-- `there` is whether the pointer to the data is not null.
unfoldable pub send_to : ℤ → Bytes → Bool → ℕ → SocketImpl → List Call → Outcome ℤ
send_to sent errno there size s log =
    if eq_ℤ s.socket invalid_socket
    then (negsuc 0, set_last_error (codes "Cannot send on invalid socket") s, log)
    else if not there || size == 0
    then (negsuc 0, set_last_error (codes "Invalid send parameters") s, log)
    else if ltb_ℤ sent (pos 0)
    then (
      negsuc 0,
      set_last_error (codes "Failed to send data: " ++ errno) s,
      sendto_call s.socket ∷ log,
    )
    else (to_int sent, s, sendto_call s.socket ∷ log)

unfoldable pub receive_from : ℤ → Bytes → Bool → ℕ → SocketImpl → List Call → Outcome ℤ
receive_from received errno there size s log =
    if eq_ℤ s.socket invalid_socket
    then (negsuc 0, set_last_error (codes "Cannot receive on invalid socket") s, log)
    else if not there || size == 0
    then (negsuc 0, set_last_error (codes "Invalid receive parameters") s, log)
    else if ltb_ℤ received (pos 0)
    then (
      negsuc 0,
      set_last_error (codes "Failed to receive data: " ++ errno) s,
      recvfrom_call s.socket ∷ log,
    )
    else (to_int received, s, recvfrom_call s.socket ∷ log)

-- Minus a natural number.
abbrev pub minus : ℕ → ℤ
minus zero = pos 0
minus (suc n) = negsuc n

-- `timeout_ms / 1000` and `(timeout_ms % 1000) * 1000`, which C++ rounds towards 0.
abbrev pub tv_sec : ℤ → ℤ
tv_sec (pos n) = pos (n / 1000)
tv_sec (negsuc n) = minus (suc n / 1000)

abbrev pub tv_usec : ℤ → ℤ
tv_usec (pos n) = pos (n % 1000 * 1000)
tv_usec (negsuc n) = minus (suc n % 1000 * 1000)

-- `select` is given the timeout.
unfoldable pub receive_from_timeout :
    (ℤ → ℤ → ℤ) → ℤ → Bytes → Bool → ℕ → ℤ → SocketImpl → List Call → Outcome ℤ
receive_from_timeout select received errno there size timeout_ms s log =
    let result = select (tv_sec timeout_ms) (tv_usec timeout_ms) in
    let log' = select_call s.socket ∷ log in
    if eq_ℤ s.socket invalid_socket
    then (negsuc 0, set_last_error (codes "Cannot receive on invalid socket") s, log)
    else if ltb_ℤ result (pos 0)
    then (negsuc 0, set_last_error (codes "Select failed: " ++ errno) s, log')
    else if eq_ℤ result (pos 0)
    then (pos 0, set_last_error (codes "Receive timeout") s, log')
    else receive_from received errno there size s log'

-- The move constructor: the new object, and the one that was moved from. `left` is what the move of
-- the text leaves there, which the language does not say.
unfoldable pub move_from : Bytes → SocketImpl → SocketImpl × SocketImpl
move_from left other = (other, record { socket = invalid_socket; last_error = left })

-- The move assignment between two objects.
unfoldable pub move_assign :
    Bytes → SocketImpl → SocketImpl → List Call → SocketImpl × SocketImpl × List Call
move_assign left this other log =
    let closed = close this log in
    (other, record { socket = invalid_socket; last_error = left }, closed.1)
