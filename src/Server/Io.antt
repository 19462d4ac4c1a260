-- ===== src/Server/Io.antt =====
-- `SendPacket`, `ReceivePacket` and `SendError` of src/internal/tftp_server_impl.cpp.
pub mod Runs
pub mod Attempts
pub mod Errors
use tftpserver.Prelude.{
  ℕ, zero, suc, ◌+◌, ◌/◌, Bool, true, false, [], Option, none, some, Bytes, length, take,
  if◌then◌else◌,
}
use tftpserver.Prelude.Int.{ℤ}
use tftpserver.Common.{ErrorCode, max_packet_size}
use tftpserver.Options.{HashOrder}
use tftpserver.Packet.{TftpPacket, initial_packet, create_error}
use tftpserver.Packet.Writer.{serialize}
use tftpserver.Packet.Reader.{deserialize}
use tftpserver.Server.{
  Address, Received, no_packet, datagram, Net, Event, sent, paused, got, World, Thrown, returned,
  thrown, M, pure, throw, ◌>>=◌, ◌>>◌, emit, int_eq,
}

abbrev pub max_retries : ℕ
max_retries = 5

abbrev pub retry_timeout_ms : ℕ
retry_timeout_ms = 1000

module _ (net : Net) where
  -- `none` is a return of false. The buffer holds `kMaxPacketSize` bytes, and `recvfrom` drops the
  -- rest of a longer datagram.
  unfoldable pub receive_packet : ℤ → M (Option (Address × TftpPacket))
  receive_packet timeout_ms w =
      let w' = record w { receives = w.receives + 1 } in
      elim (net.receive w.receives timeout_ms) [
        | no_packet ↦ (returned none, w')
        | datagram addr packet ↦
            let (p, good) = deserialize initial_packet (take max_packet_size packet) in
            if good then (returned (some (addr, p)), emit (got addr p) w') else (returned none, w')
      ]

module _ (net : Net) (h : HashOrder) where
  -- One `sendto`, and whether it took all of the data.
  abbrev pub send_once : Address → Bytes → World → Bool × World
  send_once addr packet w =
      let done = int_eq (net.sendto w.sends (length packet)) (length packet) in
      (done, emit (sent addr packet done) (record w { sends = w.sends + 1 }))

  -- The loop; the number is `kMaxRetries - retries`.
  unfoldable pub send_loop : ℕ → Address → Bytes → World → Bool × World
  send_loop zero addr packet w = (false, w)
  send_loop (suc left) addr packet w =
      let (done, w') = send_once addr packet w in
      elim done [
        | true ↦ (true, w')
        | false ↦ send_loop left addr packet (emit (paused retry_timeout_ms) w')
      ]

  unfoldable pub send_packet : Address → TftpPacket → M Bool
  send_packet addr p w = elim (serialize h p) [
    | none ↦ (thrown, w)
    | some packet ↦ let (done, w') = send_loop max_retries addr packet w in (returned done, w')
  ]

  -- The loop of `SendError`.
  unfoldable pub send_error_loop : ℕ → Address → TftpPacket → M (Unit {0})
  send_error_loop zero addr p = pure tt
  send_error_loop (suc left) addr p = do
    done ← send_packet addr p
    elim done [
      | true ↦ pure tt
      | false ↦ λ w. send_error_loop left addr p (emit (paused (retry_timeout_ms / 2)) w)
    ]

  unfoldable pub send_error : Address → ErrorCode → Bytes → M (Unit {0})
  unfolding send_error_loop
  send_error addr code message = send_error_loop max_retries addr (create_error code message)
