-- ===== src/Common.antt =====
-- include/tftp/tftp_common.h: the limits of the protocol, and its enumerations. A C++ `enum class`
-- can hold each value of its underlying type, so each has a constructor for the unnamed values.
use tftpserver.Prelude.{ℕ, ◌==◌, if◌then◌else◌}
use tftpserver.Prelude.Int.{ℤ}

abbrev pub default_tftp_port : ℕ
default_tftp_port = 69

abbrev pub max_packet_size : ℕ
max_packet_size = 516

abbrev pub max_data_size : ℕ
max_data_size = 512

abbrev pub default_timeout : ℕ
default_timeout = 5

abbrev pub max_filename_length : ℕ
max_filename_length = 255

abbrev pub max_option_name_length : ℕ
max_option_name_length = 64

abbrev pub max_option_value_length : ℕ
max_option_value_length = 64

abbrev pub max_error_message_length : ℕ
max_error_message_length = 255

abbrev pub max_string_length : ℕ
max_string_length = 255

abbrev pub max_options_count : ℕ
max_options_count = 16

abbrev pub min_packet_size : ℕ
min_packet_size = 4

pub data OpCode : Type 0 where
  read_request write_request data_block acknowledge error oack : OpCode
  unnamed : ℕ → OpCode

pub data ErrorCode : Type 0 where
  not_defined file_not_found access_violation disk_full illegal_operation : ErrorCode
  unknown_transfer_id file_exists no_such_user : ErrorCode
  unnamed : ℕ → ErrorCode

pub data TransferMode : Type 0 where
  net_ascii octet mail : TransferMode
  unnamed : ℤ → TransferMode

-- `static_cast<uint16_t>(op_code)`
unfoldable pub op_value : OpCode → ℕ
op_value read_request = 1
op_value write_request = 2
op_value data_block = 3
op_value acknowledge = 4
op_value error = 5
op_value oack = 6
op_value (OpCode.unnamed n) = n

-- `static_cast<OpCode>(value)`
unfoldable pub op_of_value : ℕ → OpCode
op_of_value n =
    if n == 1
    then read_request
    else if n == 2
    then write_request
    else if n == 3
    then data_block
    else if n == 4
    then acknowledge
    else if n == 5
    then error
    else if n == 6
    then oack
    else OpCode.unnamed n

unfoldable pub error_value : ErrorCode → ℕ
error_value not_defined = 0
error_value file_not_found = 1
error_value access_violation = 2
error_value disk_full = 3
error_value illegal_operation = 4
error_value unknown_transfer_id = 5
error_value file_exists = 6
error_value no_such_user = 7
error_value (ErrorCode.unnamed n) = n

unfoldable pub error_of_value : ℕ → ErrorCode
error_of_value n =
    if n == 0
    then not_defined
    else if n == 1
    then file_not_found
    else if n == 2
    then access_violation
    else if n == 3
    then disk_full
    else if n == 4
    then illegal_operation
    else if n == 5
    then unknown_transfer_id
    else if n == 6
    then file_exists
    else if n == 7
    then no_such_user
    else ErrorCode.unnamed n
