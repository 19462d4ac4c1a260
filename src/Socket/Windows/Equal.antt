-- ===== src/Socket/Windows/Equal.antt =====
-- src/internal/tftp_socket_impl_win32.cpp and src/internal/tftp_socket_impl_unix.cpp: the two
-- implementations beside each other. A handle stands for the descriptor the log names.
use tftpserver.Prelude.{ℕ, ◌≡◌, ◌<◌, ◌^◌, Bool, List, ◌∷◌, Bytes, ◌==◌, arith}
use tftpserver.Prelude.Int.{ℤ, pos, negsuc, eq_ℤ}
use tftpserver.System.{Call, select_call}
use tftpserver.Socket.{to_int, invalid_socket}
use tftpserver.Socket
use tftpserver.Socket.Windows.{SocketImpl, Outcome, invalid_handle, descriptor}
use tftpserver.Socket.Windows

pub valid_descriptor : (h : ℕ) → eq_ℤ (descriptor h) invalid_socket ≡ (h == invalid_handle)
unfolding descriptor
valid_descriptor h = ground arith

pub to_int-pos : (n : ℕ) → n < 2 ^ 31 → to_int (pos n) ≡ pos n
unfolding to_int
to_int-pos n h = ground arith

abbrev pub shown : SocketImpl → Socket.SocketImpl
shown w = record { socket = descriptor w.socket; last_error = w.last_error }

abbrev pub seen : {A : Type 0} → Outcome A → Socket.Outcome A
seen o = (o.0, shown o.1, o.2)

abbrev pub seen_closed : SocketImpl × List Call → Socket.SocketImpl × List Call
seen_closed o = (shown o.0, o.1)

pub close_lem :
    (w : SocketImpl) (log : List Call)
    → seen_closed (Windows.close w log) ≡ Socket.close (shown w) log
unfolding Windows.close Socket.close descriptor
close_lem w log = ground arith

pub bind_lem :
    (result : ℤ) (message : Bytes) (w : SocketImpl) (log : List Call)
    → seen (Windows.bind result message w log) ≡ Socket.bind result message (shown w) log
unfolding Windows.bind Socket.bind
bind_lem result message w log = rw (valid_descriptor w.socket) (ground arith)

pub reuse_lem :
    (result : ℤ) (message : Bytes) (w : SocketImpl) (log : List Call)
    → seen (Windows.set_reuse_address result message w log)
      ≡ Socket.set_reuse_address result message (shown w) log
unfolding Windows.set_reuse_address Socket.set_reuse_address
reuse_lem result message w log = rw (valid_descriptor w.socket) (ground arith)

pub create_lem :
    (result : ℕ) (message : Bytes) (w : SocketImpl) (log : List Call)
    → seen (Windows.create result message w log)
      ≡ Socket.create (descriptor result) message (shown w) log
unfolding Windows.create Socket.create
create_lem result message w log = rw (← close_lem w log, valid_descriptor result) (ground arith)

-- The values of an `int`.
abbrev pub IsInt : ℤ → Type 0
IsInt (pos n) = n < 2 ^ 31
IsInt (negsuc n) = n < 2 ^ 31

pub to_int-IsInt : (r : ℤ) → IsInt r → to_int r ≡ r
unfolding to_int
to_int-IsInt (pos n) h = ground arith
to_int-IsInt (negsuc n) h = ground arith

pub send_lem :
    (sendto : ℤ → ℤ) (message : Bytes) (there : Bool) (size : ℕ) (w : SocketImpl) (log : List Call)
    → size < 2 ^ 31
    → IsInt (sendto (pos size))
    → seen (Windows.send_to sendto message there size w log)
      ≡ Socket.send_to (sendto (pos size)) message there size (shown w) log
unfolding Windows.send_to Socket.send_to
send_lem sendto message there size w log small int =
    rw (valid_descriptor w.socket, to_int-pos size small, to_int-IsInt (sendto (pos size)) int)
      (ground arith)

pub receive_lem :
    (recvfrom : ℤ → ℤ) (message : Bytes) (there : Bool) (size : ℕ) (w : SocketImpl)
    (log : List Call)
    → size < 2 ^ 31
    → IsInt (recvfrom (pos size))
    → seen (Windows.receive_from recvfrom message there size w log)
      ≡ Socket.receive_from (recvfrom (pos size)) message there size (shown w) log
unfolding Windows.receive_from Socket.receive_from
receive_lem recvfrom message there size w log small int =
    rw (valid_descriptor w.socket, to_int-pos size small, to_int-IsInt (recvfrom (pos size)) int)
      (ground arith)

pub timeout_lem :
    (select : ℤ → ℤ → ℤ) (recvfrom : ℤ → ℤ) (message : Bytes) (there : Bool) (size : ℕ)
    (timeout_ms : ℤ) (w : SocketImpl) (log : List Call)
    → size < 2 ^ 31
    → IsInt (recvfrom (pos size))
    → seen (Windows.receive_from_timeout select recvfrom message there size timeout_ms w log)
      ≡ Socket.receive_from_timeout select
          (recvfrom (pos size))
          message
          there
          size
          timeout_ms
          (shown w)
          log
unfolding Windows.receive_from_timeout Socket.receive_from_timeout
timeout_lem select recvfrom message there size timeout_ms w log small int =
    rw
      (
        ← receive_lem recvfrom message there size w (select_call (descriptor w.socket) ∷ log) small
            int,
        valid_descriptor w.socket,
      )
      (ground arith)
