-- ===== src/Socket/Forwarded.antt =====
-- src/tftp_socket.cpp: `UdpSocket` holds its implementation by a pointer and passes the calls on. A
-- program with several sockets is a list of them and the log of their calls.
use tftpserver.Prelude.{ℕ, ◌≡◌, Bool, List, [], ◌∷◌, ◌++◌, Option, none, some, Bytes}
use tftpserver.Prelude.Int.{ℤ}
use tftpserver.System.{Call}
use tftpserver.Socket.{SocketImpl, initial_socket, Outcome}
use tftpserver.Socket

-- `none` is the null pointer that a move leaves.
abbrev pub UdpSocket : Type 0
UdpSocket = Option SocketImpl

-- A call of a member that the implementation carries out, with what the operating system answers.
pub data Member : Type 0 where
  create : ℤ → Bytes → Member
  bind : ℤ → Bytes → Member
  set_reuse_address : ℤ → Bytes → Member
  send_to : ℤ → Bytes → Bool → ℕ → Member
  receive_from : ℤ → Bytes → Bool → ℕ → Member
  receive_from_timeout : (ℤ → ℤ → ℤ) → ℤ → Bytes → Bool → ℕ → ℤ → Member
  close : Member

abbrev pub behind : {A : Type 0} → Outcome A → SocketImpl × List Call
behind o = (o.1, o.2)

-- The object and the log behind the call.
unfoldable pub forward : Member → SocketImpl → List Call → SocketImpl × List Call
forward (create result errno) s log = behind (Socket.create result errno s log)
forward (bind result errno) s log = behind (Socket.bind result errno s log)
forward (set_reuse_address result errno) s log =
    behind (Socket.set_reuse_address result errno s log)
forward (send_to sent errno there size) s log = behind (Socket.send_to sent errno there size s log)
forward (receive_from received errno there size) s log =
    behind (Socket.receive_from received errno there size s log)
forward (receive_from_timeout select received errno there size timeout_ms) s log =
    behind (Socket.receive_from_timeout select received errno there size timeout_ms s log)
forward close s log = Socket.close s log

-- The destruction of the object behind the pointer, if there is one.
unfoldable pub release : UdpSocket → List Call → List Call
release none log = log
release (some s) log = (Socket.close s log).1

pub record Sockets : Type 0 where
  pub objects : List UdpSocket
  pub log : List Call

-- One step of a program. A call of a member through a null pointer is none of them. The source of a
-- move stands before or behind its target.
pub data Step (p : Sockets) : Sockets → Type 0 where
  construct : Step p (record p { objects = some initial_socket ∷ p.objects })
  construct_moved :
      (before : List UdpSocket) (source : UdpSocket) (after : List UdpSocket)
      → p.objects ≡ before ++ source ∷ after
      → Step p (record p { objects = source ∷ (before ++ none ∷ after) })
  call :
      (m : Member) (before : List UdpSocket) (s : SocketImpl) (after : List UdpSocket)
      → p.objects ≡ before ++ some s ∷ after
      → Step p (record {
        objects = before ++ some (forward m s p.log).0 ∷ after;
        log = (forward m s p.log).1;
      })
  assign_forward :
      (before between : List UdpSocket) (source target : UdpSocket) (after : List UdpSocket)
      → p.objects ≡ before ++ source ∷ (between ++ target ∷ after)
      → Step p (record {
        objects = before ++ none ∷ (between ++ source ∷ after);
        log = release target p.log;
      })
  assign_back :
      (before between : List UdpSocket) (source target : UdpSocket) (after : List UdpSocket)
      → p.objects ≡ before ++ target ∷ (between ++ source ∷ after)
      → Step p (record {
        objects = before ++ source ∷ (between ++ none ∷ after);
        log = release target p.log;
      })
  destroy :
      (before : List UdpSocket) (o : UdpSocket) (after : List UdpSocket)
      → p.objects ≡ before ++ o ∷ after
      → Step p (record { objects = before ++ after; log = release o p.log })

abbrev pub no_sockets : Sockets
no_sockets = record { objects = []; log = [] }

pub data Reach : Sockets → Type 0 where
  begin : Reach no_sockets
  later : {p q : Sockets} → Reach p → Step p q → Reach q
