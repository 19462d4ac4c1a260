-- ===== src/Server.antt =====
-- src/internal/tftp_server_impl.cpp: the sockets as they answer, and the packet I/O of the server.
-- The operating system is the parameter `Net`: what the n-th call of `sendto` returns for a
-- datagram of a size, and what
-- the n-th wait for a packet brings. What the server does is the trace.
pub mod Io
pub mod Numbers
pub mod Download
pub mod Upload
pub mod Client
pub mod Settings
pub mod Lifecycle
pub mod Shutdown
pub mod Files
pub mod Facade
pub mod Session
use tftpserver.Prelude.{ℕ, ◌+◌, ◌*◌, ◌-◌, Bool, true, false, List, [], ◌∷◌, ◌++◌, Bytes, ◌==◌}
use tftpserver.Prelude.Int.{ℤ, pos, negsuc}
use tftpserver.Packet.{TftpPacket}

-- A `sockaddr_in`: an address and a port.
pub record Address : Type 0 where
  pub host : ℕ
  pub port : ℕ

-- What `select` and `recvfrom` bring: a timeout or an error, or a datagram with its sender.
pub data Received : Type 0 where
  no_packet : Received
  datagram : Address → Bytes → Received

pub record Net : Type 0 where
  pub sendto : ℕ → ℕ → ℤ
  pub receive : ℕ → ℤ → Received

-- What was done: a datagram handed to `sendto` and whether all of it was taken, a pause in
-- milliseconds, a packet that was received and is well formed, a call of the write callback with
-- its result.
pub data Event : Type 0 where
  sent : Address → Bytes → Bool → Event
  paused : ℕ → Event
  got : Address → TftpPacket → Event
  stored : Bytes → Bytes → Bool → Event

pub record World : Type 0 where
  pub sends : ℕ
  pub receives : ℕ
  pub trace : List Event

-- The result of a call: a value, or a C++ exception that leaves it.
pub data Thrown {ℓ} (A : Type ℓ) : Type ℓ where
  returned : A → Thrown A
  thrown : Thrown A

abbrev pub M : Type 0 → Type 0
M A = World → Thrown A × World

abbrev pub pure : {A : Type 0} → A → M A
pure a w = (returned a, w)

abbrev pub throw : {A : Type 0} → M A
throw w = (thrown, w)

abbrev pub bind_result : {A B : Type 0} → Thrown A × World → (A → M B) → Thrown B × World
bind_result (returned a, w) f = f a w
bind_result (thrown, w) f = (thrown, w)

infixl 5 ◌>>=◌ ◌>>◌
abbrev pub ◌>>=◌ : {A B : Type 0} → M A → (A → M B) → M B
◌>>=◌ m f w = bind_result (m w) f

abbrev pub ◌>>◌ : {B : Type 0} → M (Unit {0}) → M B → M B
m >> k = m >>= λ _. k

abbrev pub emit : Event → World → World
emit e w = record w { trace = w.trace ++ e ∷ [] }

abbrev pub int_eq : ℤ → ℕ → Bool
int_eq (pos n) m = n == m
int_eq (negsuc _) m = false

-- `timeout_secs * 1000`
abbrev pub to_millis : ℤ → ℤ
to_millis (pos n) = pos (n * 1000)
to_millis (negsuc n) = negsuc (n * 1000 + 999)
