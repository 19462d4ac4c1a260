-- ===== src/Socket/Windows.antt =====
-- src/internal/tftp_socket_impl_win32.cpp: the implementation of the socket wrapper on Windows, where
-- a handle is an unsigned number of 64 bits. What WinSock answers is an argument of the operation that
-- makes the call; `sendto` and `recvfrom` are functions of the length that the code hands over. What
-- `recvfrom` writes is left out, as it is for Unix.
pub mod Equal
pub mod Message
pub mod Platforms
use tftpserver.Prelude.{
  ℕ, ◌-◌, ◌^◌, Bool, true, false, not, ◌&&◌, ◌||◌, List, [], ◌∷◌, ◌++◌, Bytes, codes, ◌==◌, ltb,
  if◌then◌else◌,
}
use tftpserver.Prelude.Int.{ℤ, pos, negsuc, ltb_ℤ, eq_ℤ}
use tftpserver.System.{
  Call, socket_call, setsockopt_call, bind_call, sendto_call, select_call, recvfrom_call,
  close_call,
}
use tftpserver.Socket.{to_int, tv_sec, tv_usec}

-- `INVALID_SOCKET`
abbrev pub invalid_handle : ℕ
invalid_handle = 2 ^ 64 - 1

pub record SocketImpl : Type 0 where
  pub socket : ℕ
  pub last_error : Bytes

abbrev pub initial_socket : SocketImpl
initial_socket = record { socket = invalid_handle; last_error = [] }

-- How the log names a handle: the invalid one is -1 there.
unfoldable pub descriptor : ℕ → ℤ
descriptor handle = if handle == invalid_handle then negsuc 0 else pos handle

abbrev pub Outcome : Type 0 → Type 0
Outcome A = A × SocketImpl × List Call

abbrev pub set_last_error : Bytes → SocketImpl → SocketImpl
set_last_error error s = record s { last_error = error }

unfoldable pub is_valid : SocketImpl → Bool
is_valid s = not (s.socket == invalid_handle)

-- `std::isspace` in the "C" locale.
abbrev pub isspace : ℕ → Bool
isspace ch = ch == 32 || not (ltb ch 9) && ltb ch 14

-- A byte before those that are kept.
abbrev pub keep : ℕ → Bytes → Bytes
keep ch [] = if isspace ch then [] else ch ∷ []
keep ch (kept ∷ rest) = ch ∷ kept ∷ rest

-- The bytes up to the last one that is no space.
unfoldable pub trimmed : Bytes → Bytes
trimmed [] = []
trimmed (ch ∷ chs) = keep ch (trimmed chs)

-- What `FormatMessageA` answers, of which no bytes is a failure, and the number of the error as
-- `std::to_string` prints it.
unfoldable pub get_system_error_message : Bytes → Bytes → Bytes
get_system_error_message [] error_code = codes "WSA Error code " ++ error_code
get_system_error_message (ch ∷ chs) error_code = trimmed (ch ∷ chs)

unfoldable pub close : SocketImpl → List Call → SocketImpl × List Call
close s log =
    if not (s.socket == invalid_handle)
    then (record s { socket = invalid_handle }, close_call (descriptor s.socket) ∷ log)
    else (s, log)

unfoldable pub create : ℕ → Bytes → SocketImpl → List Call → Outcome Bool
create result message s log =
    let closed = close s log in
    let made = record closed.0 { socket = result } in
    let log' = socket_call (descriptor result) ∷ closed.1 in
    if result == invalid_handle
    then (false, set_last_error (codes "Failed to create UDP socket: " ++ message) made, log')
    else (true, made, log')

unfoldable pub bind : ℤ → Bytes → SocketImpl → List Call → Outcome Bool
bind result message s log =
    if s.socket == invalid_handle
    then (false, set_last_error (codes "Cannot bind invalid socket") s, log)
    else if not (eq_ℤ result (pos 0))
    then (
      false,
      set_last_error (codes "Failed to bind socket: " ++ message) s,
      bind_call (descriptor s.socket) ∷ log,
    )
    else (true, s, bind_call (descriptor s.socket) ∷ log)

unfoldable pub set_reuse_address : ℤ → Bytes → SocketImpl → List Call → Outcome Bool
set_reuse_address result message s log =
    if s.socket == invalid_handle
    then (false, set_last_error (codes "Cannot set option on invalid socket") s, log)
    else if not (eq_ℤ result (pos 0))
    then (
      false,
      set_last_error (codes "Failed to set SO_REUSEADDR: " ++ message) s,
      setsockopt_call (descriptor s.socket) ∷ log,
    )
    else (true, s, setsockopt_call (descriptor s.socket) ∷ log)

-- `there` is whether the pointer to the data is not null.
unfoldable pub send_to : (ℤ → ℤ) → Bytes → Bool → ℕ → SocketImpl → List Call → Outcome ℤ
send_to sendto message there size s log =
    let sent = sendto (to_int (pos size)) in
    if s.socket == invalid_handle
    then (negsuc 0, set_last_error (codes "Cannot send on invalid socket") s, log)
    else if not there || size == 0
    then (negsuc 0, set_last_error (codes "Invalid send parameters") s, log)
    else if ltb_ℤ sent (pos 0)
    then (
      negsuc 0,
      set_last_error (codes "Failed to send data: " ++ message) s,
      sendto_call (descriptor s.socket) ∷ log,
    )
    else (sent, s, sendto_call (descriptor s.socket) ∷ log)

unfoldable pub receive_from : (ℤ → ℤ) → Bytes → Bool → ℕ → SocketImpl → List Call → Outcome ℤ
receive_from recvfrom message there size s log =
    let received = recvfrom (to_int (pos size)) in
    if s.socket == invalid_handle
    then (negsuc 0, set_last_error (codes "Cannot receive on invalid socket") s, log)
    else if not there || size == 0
    then (negsuc 0, set_last_error (codes "Invalid receive parameters") s, log)
    else if ltb_ℤ received (pos 0)
    then (
      negsuc 0,
      set_last_error (codes "Failed to receive data: " ++ message) s,
      recvfrom_call (descriptor s.socket) ∷ log,
    )
    else (received, s, recvfrom_call (descriptor s.socket) ∷ log)

-- `select` is given the timeout.
unfoldable pub receive_from_timeout :
    (ℤ → ℤ → ℤ) → (ℤ → ℤ) → Bytes → Bool → ℕ → ℤ → SocketImpl → List Call → Outcome ℤ
receive_from_timeout select recvfrom message there size timeout_ms s log =
    let result = select (tv_sec timeout_ms) (tv_usec timeout_ms) in
    let log' = select_call (descriptor s.socket) ∷ log in
    if s.socket == invalid_handle
    then (negsuc 0, set_last_error (codes "Cannot receive on invalid socket") s, log)
    else if ltb_ℤ result (pos 0)
    then (negsuc 0, set_last_error (codes "Select failed: " ++ message) s, log')
    else if eq_ℤ result (pos 0)
    then (pos 0, set_last_error (codes "Receive timeout") s, log')
    else receive_from recvfrom message there size s log'

-- The move constructor: the new object, and the one that was moved from, with what the move of the
-- text leaves there.
unfoldable pub move_from : Bytes → SocketImpl → SocketImpl × SocketImpl
move_from left other = (other, record { socket = invalid_handle; last_error = left })

-- The move assignment between two objects.
unfoldable pub move_assign :
    Bytes → SocketImpl → SocketImpl → List Call → SocketImpl × SocketImpl × List Call
move_assign left this other log =
    let closed = close this log in
    (other, record { socket = invalid_handle; last_error = left }, closed.1)
