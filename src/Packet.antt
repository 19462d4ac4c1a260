-- ===== src/Packet.antt =====
-- include/tftp/tftp_packet.h and the factories and accessors of src/tftp_packet.cpp.
pub mod Strings
pub mod Writer
pub mod Reader
pub mod Header
pub mod Limits
pub mod ReadBack
pub mod RoundTrip
pub mod Accepted
use tftpserver.Prelude.{
  ℕ, Bool, true, false, [], Option, none, some, Bytes, if◌then◌else◌, ltb, length,
}
use tftpserver.Common.{
  OpCode, read_request, write_request, data_block, acknowledge, error, oack, ErrorCode, not_defined,
  TransferMode, octet, max_data_size,
}
use tftpserver.Options.{Options, lookup, insert}

pub record TftpPacket : Type 0 where
  pub op_code : OpCode
  pub block_number : ℕ
  pub error_code : ErrorCode
  pub filename : Bytes
  pub mode : TransferMode
  pub payload : Bytes
  pub error_message : Bytes
  pub options : Options

-- The member initialisers, `TftpPacket packet;`.
abbrev pub initial_packet : TftpPacket
initial_packet = record {
  op_code = read_request;
  block_number = 0;
  error_code = not_defined;
  filename = [];
  mode = octet;
  payload = [];
  error_message = [];
  options = [];
}

unfoldable pub create_read_request : Bytes → TransferMode → TftpPacket
create_read_request filename mode = record initial_packet {
  op_code = read_request;
  filename = filename;
  mode = mode;
}

unfoldable pub create_write_request : Bytes → TransferMode → TftpPacket
create_write_request filename mode = record initial_packet {
  op_code = write_request;
  filename = filename;
  mode = mode;
}

-- `none` is the TftpException.
unfoldable pub create_data : ℕ → Bytes → Option TftpPacket
create_data block_number payload =
    if ltb max_data_size (length payload)
    then none
    else some (record initial_packet {
      op_code = data_block;
      block_number = block_number;
      payload = payload;
    })

unfoldable pub create_ack : ℕ → TftpPacket
create_ack block_number = record initial_packet {
  op_code = acknowledge;
  block_number = block_number;
}

unfoldable pub create_error : ErrorCode → Bytes → TftpPacket
create_error code message = record initial_packet {
  op_code = error;
  error_code = code;
  error_message = message;
}

unfoldable pub create_oack : Options → TftpPacket
create_oack options = record initial_packet { op_code = oack; options = options }

unfoldable pub has_option : TftpPacket → Bytes → Bool
has_option p name = elim (lookup name p.options) [ none ↦ false | some _ ↦ true ]

unfoldable pub get_option : TftpPacket → Bytes → Bytes
get_option p name = elim (lookup name p.options) [ none ↦ [] | some value ↦ value ]

unfoldable pub set_option : TftpPacket → Bytes → Bytes → TftpPacket
set_option p name value = record p { options = insert name value p.options }

unfoldable pub reset_state : TftpPacket → TftpPacket
reset_state p = record p {
  op_code = read_request;
  block_number = 0;
  error_code = not_defined;
  filename = [];
  mode = octet;
  payload = [];
  error_message = [];
  options = [];
}
