-- ===== src/Socket/Windows/Platforms.antt =====
-- src/internal/tftp_socket_impl_win32.cpp and src/internal/tftp_socket_impl_unix.cpp: one call of a
-- member on either platform, with what the operating system answers. A call of `sendto` or of
-- `recvfrom` answers for the length it is handed.
use tftpserver.Prelude.{ℕ, ◌≡◌, ◌<◌, ◌^◌, refl, ap, Bool, List, [], ◌∷◌, Bytes}
use tftpserver.Prelude.Int.{ℤ, pos}
use tftpserver.System.{Call}
use tftpserver.Socket
use tftpserver.Socket.Windows
use tftpserver.Socket.Windows.{Outcome, descriptor}
use tftpserver.Socket.Windows.Equal.{
  shown, seen, IsInt, close_lem, bind_lem, reuse_lem, create_lem, send_lem, receive_lem,
  timeout_lem, valid_descriptor,
}

pub data Member : Type 0 where
  create : ℕ → Bytes → Member
  bind : ℤ → Bytes → Member
  set_reuse_address : ℤ → Bytes → Member
  send_to : (ℤ → ℤ) → Bytes → Bool → ℕ → Member
  receive_from : (ℤ → ℤ) → Bytes → Bool → ℕ → Member
  receive_from_timeout : (ℤ → ℤ → ℤ) → (ℤ → ℤ) → Bytes → Bool → ℕ → ℤ → Member
  is_valid : Member
  close : Member

-- What a member returns.
pub data Answer : Type 0 where
  nothing : Answer
  told : Bool → Answer
  counted : ℤ → Answer

abbrev pub returned : {A S : Type 0} → (A → Answer) → A × S × List Call → Answer × S × List Call
returned f o = (f o.0, o.1, o.2)

abbrev pub on_windows : Member → Windows.SocketImpl → List Call → Outcome Answer
on_windows (create handle message) s log = returned told (Windows.create handle message s log)
on_windows (bind result message) s log = returned told (Windows.bind result message s log)
on_windows (set_reuse_address result message) s log =
    returned told (Windows.set_reuse_address result message s log)
on_windows (send_to sendto message there size) s log =
    returned counted (Windows.send_to sendto message there size s log)
on_windows (receive_from recvfrom message there size) s log =
    returned counted (Windows.receive_from recvfrom message there size s log)
on_windows (receive_from_timeout select recvfrom message there size timeout_ms) s log =
    returned counted
      (Windows.receive_from_timeout select recvfrom message there size timeout_ms s log)
on_windows is_valid s log = (told (Windows.is_valid s), s, log)
on_windows close s log = let closed = Windows.close s log in (nothing, closed.0, closed.1)

abbrev pub on_unix : Member → Socket.SocketImpl → List Call → Socket.Outcome Answer
on_unix (create handle message) s log =
    returned told (Socket.create (descriptor handle) message s log)
on_unix (bind result message) s log = returned told (Socket.bind result message s log)
on_unix (set_reuse_address result message) s log =
    returned told (Socket.set_reuse_address result message s log)
on_unix (send_to sendto message there size) s log =
    returned counted (Socket.send_to (sendto (pos size)) message there size s log)
on_unix (receive_from recvfrom message there size) s log =
    returned counted (Socket.receive_from (recvfrom (pos size)) message there size s log)
on_unix (receive_from_timeout select recvfrom message there size timeout_ms) s log =
    returned counted
      (Socket.receive_from_timeout select (recvfrom (pos size)) message there size timeout_ms s log)
on_unix is_valid s log = (told (Socket.is_valid s), s, log)
on_unix close s log = let closed = Socket.close s log in (nothing, closed.0, closed.1)

-- The length fits into an `int`, and so does what the operating system answers for it.
abbrev pub FitsInt : (ℤ → ℤ) → ℕ → Type 0
FitsInt answer size = (size < 2 ^ 31) × IsInt (answer (pos size))

abbrev pub Fits : Member → Type 0
Fits (send_to sendto _ _ size) = FitsInt sendto size
Fits (receive_from recvfrom _ _ size) = FitsInt recvfrom size
Fits (receive_from_timeout _ recvfrom _ _ size _) = FitsInt recvfrom size
Fits _ = Unit

pub on_windows-on_unix :
    (m : Member)
    → Fits m
    → (w : Windows.SocketImpl) (log : List Call)
    → seen (on_windows m w log) ≡ on_unix m (shown w) log
unfolding Windows.is_valid Socket.is_valid
on_windows-on_unix (create handle message) _ w log =
    ap (returned told) (create_lem handle message w log)
on_windows-on_unix (bind result message) _ w log =
    ap (returned told) (bind_lem result message w log)
on_windows-on_unix (set_reuse_address result message) _ w log =
    ap (returned told) (reuse_lem result message w log)
on_windows-on_unix (send_to sendto message there size) (small, int) w log =
    ap (returned counted) (send_lem sendto message there size w log small int)
on_windows-on_unix (receive_from recvfrom message there size) (small, int) w log =
    ap (returned counted) (receive_lem recvfrom message there size w log small int)
on_windows-on_unix (receive_from_timeout select recvfrom message there size timeout) (small, int) w
      log =
    ap (returned counted) (timeout_lem select recvfrom message there size timeout w log small int)
on_windows-on_unix is_valid _ w log = rw (valid_descriptor w.socket) refl
on_windows-on_unix close _ w log = ap (λ o. (nothing, o.0, o.1)) (close_lem w log)

-- The calls of a program on one object, with all that they return.
abbrev pub all_on_windows : List Member → Windows.SocketImpl → List Call → Outcome (List Answer)
all_on_windows [] s log = ([], s, log)
all_on_windows (m ∷ ms) s log =
    let first = on_windows m s log in
    let rest = all_on_windows ms first.1 first.2 in (first.0 ∷ rest.0, rest.1, rest.2)

abbrev pub all_on_unix : List Member → Socket.SocketImpl → List Call → Socket.Outcome (List Answer)
all_on_unix [] s log = ([], s, log)
all_on_unix (m ∷ ms) s log =
    let first = on_unix m s log in
    let rest = all_on_unix ms first.1 first.2 in (first.0 ∷ rest.0, rest.1, rest.2)

abbrev pub AllFit : List Member → Type 0
AllFit [] = Unit
AllFit (m ∷ ms) = Fits m × AllFit ms

-- For every sequence of calls of the members on one object, whose sizes and whose answers of `sendto` and
-- `recvfrom` fit an `int`: when the operating system answers the same and gives the same text for an error,
-- the calls return on Windows what they return on the other systems, and leave the same object, up to the
-- form of the handle, and the same log.
pub all_on_windows-all_on_unix :
    (ms : List Member)
    → AllFit ms
    → (w : Windows.SocketImpl) (log : List Call)
    → seen (all_on_windows ms w log) ≡ all_on_unix ms (shown w) log
all_on_windows-all_on_unix [] _ w log = refl
all_on_windows-all_on_unix (m ∷ ms) (fits, all) w log =
    let first = on_windows m w log in
    rw (← on_windows-on_unix m fits w log) (
      ap (λ rest. (first.0 ∷ rest.0, rest.1, rest.2))
        (all_on_windows-all_on_unix ms all first.1 first.2))
