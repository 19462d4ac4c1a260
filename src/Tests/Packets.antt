-- ===== src/Tests/Packets.antt =====
-- Packets that are written and read.
use tftpserver.Prelude.{
  ◌≡◌, ◌<◌, ◌↔◌, ◌⊎◌, refl, true, false, [], ◌∷◌, ◌++◌, some, Bytes, codes, AreBytes, arith, length,
}
use tftpserver.Common.{write_request, oack, op_value, op_of_value}
use tftpserver.Options.{lookup, insert}
use tftpserver.Packet.{TftpPacket, initial_packet, reset_state}
use tftpserver.Packet.Strings.{
  scan_string, finish_string, read_string_validated, read_string, mode_to_string, to_lower,
  string_to_mode,
}
use tftpserver.Packet.Strings.Exact.{StringAt, read_string_validated_iff}
use tftpserver.Packet.Reader.{
  byte_at, get_u16, read_value, read_option, parse_options, check_count, read_options,
  read_request_fields, deserialize_request, deserialize_data, deserialize_ack, deserialize_error,
  deserialize_oack, deserialize_as, deserialize_body, deserialize,
}
use tftpserver.Packet.Limits.{IsSendable}
use tftpserver.Packet.RoundTrip.{RoundTrips, deserialize-serialize}
use tftpserver.Packet.Accepted.{deserialize-IsSendable, deserialize_failure}
use tftpserver.Tests.{same_order, request, request_datagram, request-IsSendable}

read_request_datagram : deserialize initial_packet request_datagram ≡ (request, true)
unfolding byte_at get_u16 read_value read_option parse_options check_count read_options
    read_request_fields deserialize_request deserialize_data deserialize_ack deserialize_error
    deserialize_oack deserialize_as deserialize_body deserialize scan_string finish_string
    read_string_validated read_string mode_to_string to_lower string_to_mode op_of_value insert
    lookup op_value reset_state
read_request_datagram = refl

deserialize-serialize_example : RoundTrips same_order request initial_packet
deserialize-serialize_example =
    deserialize-serialize same_order initial_packet request request-IsSendable

request_datagram-AreBytes : AreBytes request_datagram
request_datagram-AreBytes = omega arith

deserialize-IsSendable_example :
    IsSendable request ⊎ ((request.op_code ≡ oack) × (request.options ≡ []))
deserialize-IsSendable_example =
    deserialize-IsSendable initial_packet request request_datagram request_datagram-AreBytes
      read_request_datagram

-- A request without the terminator of its mode.
abbrev cut_datagram : Bytes
cut_datagram = 0 ∷ 2 ∷ (codes "a.txt" ++ 0 ∷ codes "octet")

abbrev cut_packet : TftpPacket
cut_packet = record initial_packet { op_code = write_request }

read_cut_datagram : deserialize request cut_datagram ≡ (cut_packet, false)
unfolding byte_at get_u16 read_value read_option parse_options check_count read_options
    read_request_fields deserialize_request deserialize_data deserialize_ack deserialize_error
    deserialize_oack deserialize_as deserialize_body deserialize scan_string finish_string
    read_string_validated read_string mode_to_string to_lower string_to_mode op_of_value insert
    lookup op_value reset_state
read_cut_datagram = refl

deserialize_failure_example :
    (cut_packet ≡ record initial_packet { op_code = write_request })
    × ((write_request ≡ op_of_value (get_u16 cut_datagram 0))
        ⊎ ((cut_packet ≡ initial_packet)
            × ((length cut_datagram < 4) ⊎ (516 < length cut_datagram))))
deserialize_failure_example = deserialize_failure request cut_packet cut_datagram read_cut_datagram

read_string_validated_iff_example :
    (read_string_validated request_datagram 2 255 ≡ some (codes "a.txt", 8))
    ↔ StringAt request_datagram 2 255 (codes "a.txt") 8
read_string_validated_iff_example =
    read_string_validated_iff request_datagram 2 255 (codes "a.txt") 8
