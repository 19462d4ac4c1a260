-- ===== src/Tests/Answers.antt =====
-- Answers to a datagram that is no request and to options, and the check of a host.
use tftpserver.Prelude.{◌≡◌, refl, true, [], ◌∷◌, some}
use tftpserver.Common.{acknowledge, op_value, op_of_value}
use tftpserver.Packet.{TftpPacket, initial_packet, reset_state, create_oack}
use tftpserver.Packet.Reader.{
  byte_at, get_u16, deserialize_ack, deserialize_as, deserialize_body, deserialize,
}
use tftpserver.Packet.Writer.{serialize}
use tftpserver.Server.Upload.{oack_data}
use tftpserver.Server.Upload.Negotiation.{negotiate_all, serialize-create_oack}
use tftpserver.Server.Client.{handle_client}
use tftpserver.Server.Client.Denied.{Denied, handle_client-Denied}
use tftpserver.Tests.{
  client, start, sending, same_order, plain_files, storing, read_nothing, config, request,
}

-- An acknowledgement as the first datagram.
abbrev ack_packet : TftpPacket
ack_packet = record initial_packet { op_code = acknowledge; block_number = 1 }

read_ack : deserialize initial_packet (0 ∷ 4 ∷ 0 ∷ 1 ∷ []) ≡ (ack_packet, true)
unfolding byte_at get_u16 deserialize_ack deserialize_as deserialize_body deserialize op_of_value
    op_value reset_state
read_ack = refl

handle_client-Denied_example : Denied client start (
    handle_client sending same_order plain_files config read_nothing storing client true true
      (0 ∷ 4 ∷ 0 ∷ 1 ∷ [])
      start)
handle_client-Denied_example =
    handle_client-Denied sending same_order plain_files config read_nothing storing client
      (0 ∷ 4 ∷ 0 ∷ 1 ∷ []) ack_packet start refl read_ack (λ e. cc) (λ e. cc)

serialize-create_oack_example :
    serialize same_order (create_oack (negotiate_all request.options))
    ≡ some (oack_data same_order request.options)
serialize-create_oack_example = serialize-create_oack same_order same_order request.options refl
