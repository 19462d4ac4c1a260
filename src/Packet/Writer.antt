-- ===== src/Packet/Writer.antt =====
-- `TftpPacket::Serialize` of src/tftp_packet.cpp.
use tftpserver.Prelude.{ℕ, ◌/◌, ◌%◌, [], ◌∷◌, ◌++◌, Option, none, some, Bytes}
use tftpserver.Common.{
  OpCode, read_request, write_request, data_block, acknowledge, error, oack, op_value, error_value,
}
use tftpserver.Options.{Options, HashOrder}
use tftpserver.Packet.{TftpPacket}
use tftpserver.Packet.Strings.{mode_to_string}

-- `htons` and `memcpy`: a 16-bit value in network byte order.
unfoldable pub put_u16 : ℕ → Bytes
put_u16 v = v / 256 % 256 ∷ v % 256 ∷ []

-- A string and its terminator.
unfoldable pub put_string : Bytes → Bytes
put_string s = s ++ 0 ∷ []

-- The loop over the options, in the order of the walk.
unfoldable pub put_options : Options → Bytes
unfolding put_string
put_options [] = []
put_options ((name, value) ∷ rest) = put_string name ++ (put_string value ++ put_options rest)

module _ (h : HashOrder) where
  unfoldable pub serialize_request : TftpPacket → Option Bytes
  unfolding put_u16 put_string put_options
  serialize_request p = elim (mode_to_string p.mode) [
    | none ↦ none
    | some mode_str ↦ some (
        put_u16 (op_value p.op_code)
        ++ (put_string p.filename ++ (put_string mode_str ++ put_options (h.walk p.options))))
  ]

  -- `none` is the TftpException of `mode_to_string`.
  unfoldable pub serialize_as : OpCode → TftpPacket → Option Bytes
  unfolding put_u16 put_string put_options serialize_request
  serialize_as read_request p = serialize_request p
  serialize_as write_request p = serialize_request p
  serialize_as data_block p =
      some (put_u16 (op_value p.op_code) ++ (put_u16 p.block_number ++ p.payload))
  serialize_as acknowledge p = some (put_u16 (op_value p.op_code) ++ put_u16 p.block_number)
  serialize_as error p = some (
      put_u16 (op_value p.op_code)
      ++ (put_u16 (error_value p.error_code) ++ put_string p.error_message))
  serialize_as oack p = some (put_u16 (op_value p.op_code) ++ put_options (h.walk p.options))
  serialize_as (OpCode.unnamed _) p = some []

  unfoldable pub serialize : TftpPacket → Option Bytes
  unfolding serialize_as op_value error_value
  serialize p = serialize_as p.op_code p
