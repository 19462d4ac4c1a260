-- ===== src/Packet/Reader.antt =====
-- `TftpPacket::Deserialize` of src/tftp_packet.cpp. A failed read is `none`; the packet that a
-- failure leaves behind is part of the result.
pub mod Entries
pub mod Found
pub mod Fields
use tftpserver.Prelude.{
  ℕ, zero, suc, ◌+◌, ◌-◌, ◌*◌, Bool, true, false, not, ◌&&◌, ◌||◌, [], Option, none, some, Bytes,
  is_empty, if◌then◌else◌, ltb, leb, ◌==◌, length, get_elem?, drop, guard, ◌>>=◌, ◌>>◌,
}
use tftpserver.Common.{
  OpCode, read_request, write_request, data_block, acknowledge, error, oack, op_of_value, op_value,
  error_of_value, TransferMode, min_packet_size, max_packet_size, max_data_size,
  max_filename_length, max_string_length, max_option_name_length, max_option_value_length,
  max_error_message_length, max_options_count,
}
use tftpserver.Options.{Options, insert}
use tftpserver.Packet.{TftpPacket, reset_state}
use tftpserver.Packet.Strings.{read_string_validated, string_to_mode}

-- `data[i]`, read below the size only.
unfoldable pub byte_at : Bytes → ℕ → ℕ
byte_at packet i = elim (get_elem? packet i) [ none ↦ 0 | some c ↦ c ]

-- `memcpy` and `ntohs`: a 16-bit value in network byte order.
unfoldable pub get_u16 : Bytes → ℕ → ℕ
unfolding byte_at
get_u16 packet i = byte_at packet i * 256 + byte_at packet (i + 1)

-- One round of the loop over the options: it fails, ends at an empty name, or reads an option.
pub data OptionStep : Type 0 where
  bad_option : OptionStep
  no_more : ℕ → OptionStep
  next_option : Bytes → Bytes → ℕ → OptionStep

unfoldable pub read_value : Bytes → Bytes → ℕ → OptionStep
read_value packet name offset =
    if leb (length packet) offset
    then bad_option
    else elim (read_string_validated packet offset max_option_value_length) [
      | none ↦ bad_option
      | some (value, after) ↦ if is_empty value then bad_option else next_option name value after
    ]

unfoldable pub read_option : Bytes → ℕ → OptionStep
read_option packet offset = elim (read_string_validated packet offset max_option_name_length) [
  | none ↦ bad_option
  | some (name, after) ↦ if is_empty name then no_more after else read_value packet name after
]

-- The loop; `left` is `kMaxOptionsCount - options_count`. The result has the options, the offset
-- and what is left of the count.
unfoldable pub parse_options : Bytes → ℕ → ℕ → Options → Option (Options × ℕ × ℕ)
parse_options packet offset zero found = some (found, offset, 0)
parse_options packet offset (suc left) found = elim (ltb offset (length packet)) [
  | false ↦ some (found, offset, suc left)
  | true ↦ elim (read_option packet offset) [
    | bad_option ↦ none
    | no_more after ↦ some (found, after, suc left)
    | next_option name value after ↦ parse_options packet after left (insert name value found)
  ]
]

-- The test behind the loop.
unfoldable pub check_count : Bytes → Options × ℕ × ℕ → Option Options
check_count packet (found, offset, left) =
    if left == 0 && ltb offset (length packet) then none else some found

unfoldable pub read_options : Bytes → ℕ → Option Options
read_options packet offset = parse_options packet offset max_options_count [] >>= check_count packet

pub record RequestFields : Type 0 where
  pub filename : Bytes
  pub mode : TransferMode
  pub options : Options

-- The temporaries of a request, before any member is assigned.
unfoldable pub read_request_fields : Bytes → Option RequestFields
read_request_fields packet = do
  (filename, after_filename) ← read_string_validated packet 2 max_filename_length
  guard (not (is_empty filename))
  guard (ltb after_filename (length packet))
  (mode_str, after_mode) ← read_string_validated packet after_filename max_string_length
  guard (not (is_empty mode_str))
  mode ← string_to_mode mode_str
  options ← read_options packet after_mode
  some (record { filename = filename; mode = mode; options = options })

unfoldable pub deserialize_request : TftpPacket → Bytes → TftpPacket × Bool
deserialize_request p packet = elim (read_request_fields packet) [
  | none ↦ (p, false)
  | some f ↦ (record p { filename = f.filename; mode = f.mode; options = f.options }, true)
]

unfoldable pub deserialize_data : TftpPacket → Bytes → TftpPacket × Bool
deserialize_data p packet =
    if ltb (length packet) 4
    then (p, false)
    else let q = record p { block_number = get_u16 packet 2 } in
      if ltb max_data_size (length packet - 4)
      then (q, false)
      else (record q { payload = drop 4 packet }, true)

unfoldable pub deserialize_ack : TftpPacket → Bytes → TftpPacket × Bool
deserialize_ack p packet =
    if not (length packet == 4)
    then (p, false)
    else (record p { block_number = get_u16 packet 2 }, true)

unfoldable pub deserialize_error : TftpPacket → Bytes → TftpPacket × Bool
deserialize_error p packet =
    if ltb (length packet) 5
    then (p, false)
    else let error_code_value = get_u16 packet 2 in
      if ltb 7 error_code_value
      then (p, false)
      else elim (read_string_validated packet 4 max_error_message_length) [
        | none ↦ (p, false)
        | some (message, _) ↦ (
          record p { error_code = error_of_value error_code_value; error_message = message },
          true,
        )
      ]

unfoldable pub deserialize_oack : TftpPacket → Bytes → TftpPacket × Bool
deserialize_oack p packet = elim (read_options packet 2) [
  | none ↦ (p, false)
  | some options ↦ (record p { options = options }, true)
]

unfoldable pub deserialize_as : OpCode → TftpPacket → Bytes → TftpPacket × Bool
deserialize_as read_request p packet = deserialize_request p packet
deserialize_as write_request p packet = deserialize_request p packet
deserialize_as data_block p packet = deserialize_data p packet
deserialize_as acknowledge p packet = deserialize_ack p packet
deserialize_as error p packet = deserialize_error p packet
deserialize_as oack p packet = deserialize_oack p packet
deserialize_as (OpCode.unnamed _) p packet = (p, false)

-- The switch, behind the test that the value of the opcode lies in 1 to 6.
unfoldable pub deserialize_body : TftpPacket → Bytes → TftpPacket × Bool
deserialize_body p packet =
    let q = record p { op_code = op_of_value (get_u16 packet 0) } in
    if ltb (op_value q.op_code) 1 || ltb 6 (op_value q.op_code)
    then (q, false)
    else deserialize_as q.op_code q packet

-- The packet is reset first, and the size tests come before any read.
unfoldable pub deserialize : TftpPacket → Bytes → TftpPacket × Bool
deserialize p packet =
    let fresh = reset_state p in
    if is_empty packet
    then (fresh, false)
    else if ltb (length packet) min_packet_size || ltb max_packet_size (length packet)
    then (fresh, false)
    else deserialize_body fresh packet
