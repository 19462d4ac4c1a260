-- ===== src/Tests/Sockets.antt =====
-- A program with two sockets, and an address.
use tftpserver.Prelude.{
  ℕ, ◌≡◌, ◌⊎◌, refl, [], ◌∷◌, Bytes, codes, Option, none, some, bytes_eq, if◌then◌else◌,
}
use tftpserver.Prelude.Int.{ℤ, pos}
use tftpserver.System.{socket_call, close_call}
use tftpserver.Socket.{
  SocketImpl, initial_socket, is_valid, bind, set_reuse_address, send_to, receive_from,
  receive_from_timeout, tv_sec, tv_usec,
}
use tftpserver.Socket
use tftpserver.Socket.Forwarded.{
  Sockets, Reach, begin, later, construct, call, assign_back, create, forward, release,
}
use tftpserver.Socket.Balance.{Holds}
use tftpserver.Socket.Program.{held, Reach-Holds}
use tftpserver.Socket.Address.{
  Platform, SocketAddress, get_port, get_ip, set_address, get-set_address, make_address,
  move_address, copy_assign_address, move_assign_address,
}

abbrev opened : ℤ → SocketImpl
opened fd = record initial_socket { socket = fd }

-- Two sockets are opened, and the second is moved to the first, which closes its own.
abbrev moved : Sockets
moved = record {
  objects = some (opened (pos 3)) ∷ none ∷ [];
  log = close_call (pos 4) ∷ socket_call (pos 4) ∷ socket_call (pos 3) ∷ [];
}

moved-Reach : Reach moved
unfolding forward release Socket.create Socket.close
moved-Reach =
    later
      (later
        (later (later (later begin construct) (call (create (pos 3) []) [] initial_socket [] refl))
          construct)
        (call (create (pos 4) []) [] initial_socket (some (opened (pos 3)) ∷ []) refl))
      (assign_back [] [] (some (opened (pos 3))) (some (opened (pos 4))) [] refl)

Reach-Holds_example : Holds (held moved.objects) moved.log
Reach-Holds_example = Reach-Holds moved-Reach

-- A platform that knows one address beside 0.0.0.0, with the order of the network.
abbrev big_endian : Platform
big_endian = record {
  htons = λ n. n;
  ntohs = λ n. n;
  htonl = λ n. n;
  inet_pton = λ ip. if bytes_eq ip (codes "10.0.0.1") then some 167772161 else none;
  inet_ntop = shown;
}
  where
    shown : ℕ → Option Bytes
    shown ℕ.zero = some (codes "0.0.0.0")
    shown (ℕ.suc n) = some (codes "10.0.0.1")

abbrev any_port : SocketAddress
any_port = record { sin_port = 0; sin_addr = 0 }

written_back :
    (address : ℕ)
    → big_endian.inet_pton (codes "10.0.0.1") ≡ some address
    → big_endian.inet_ntop address ≡ some (codes "10.0.0.1")
written_back ℕ.zero e = cc
written_back (ℕ.suc n) e = refl

get-set_address_example :
    (get_port big_endian (set_address big_endian (codes "10.0.0.1") 69 any_port) ≡ 69)
    × ((get_ip big_endian (set_address big_endian (codes "10.0.0.1") 69 any_port)
          ≡ codes "10.0.0.1")
        ⊎ ((get_ip big_endian (set_address big_endian (codes "10.0.0.1") 69 any_port)
              ≡ codes "0.0.0.0")
            × ((codes "10.0.0.1" ≡ []) ⊎ (big_endian.inet_pton (codes "10.0.0.1") ≡ none))))
get-set_address_example =
    get-set_address big_endian (codes "10.0.0.1") 69 refl refl written_back any_port

-- An object that was moved from can be moved to, and not copied to.
reassigned :
    (copy_assign_address
        (move_address (make_address big_endian (codes "10.0.0.1") 69)).1
        (make_address big_endian [] 0)
      ≡ none)
    × ((move_assign_address
          (move_address (make_address big_endian (codes "10.0.0.1") 69)).1
          (make_address big_endian [] 0)).0
        ≡ make_address big_endian [] 0)
reassigned = (refl, refl)
