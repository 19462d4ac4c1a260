-- ===== src/Tests/Windows.antt =====
-- A program on one socket, on either platform.
use tftpserver.Prelude.{◌≡◌, true, [], ◌∷◌, List, arith}
use tftpserver.Prelude.Int.{pos}
use tftpserver.Socket.Windows.{initial_socket}
use tftpserver.Socket.Windows.Equal.{shown, seen}
use tftpserver.Socket.Windows.Platforms.{
  Member, create, bind, send_to, receive_from_timeout, is_valid, close, all_on_windows, all_on_unix,
  all_on_windows-all_on_unix,
}

-- Four bytes are sent, and the answer of two bytes comes in time.
abbrev session : List Member
session =
    send_to (λ n. n) [] true 4
    ∷ create 3 []
    ∷ bind (pos 0) []
    ∷ send_to (λ n. n) [] true 4
    ∷ receive_from_timeout (λ seconds micros. pos 1) (λ n. pos 2) [] true 516 (pos 1500)
    ∷ close
    ∷ is_valid
    ∷ []

all_on_windows-all_on_unix_example :
    seen (all_on_windows session initial_socket []) ≡ all_on_unix session (shown initial_socket) []
all_on_windows-all_on_unix_example =
    all_on_windows-all_on_unix session
      (
        (omega arith, omega arith),
        (tt, (tt, ((omega arith, omega arith), ((omega arith, omega arith), (tt, (tt, tt)))))),
      )
      initial_socket []
