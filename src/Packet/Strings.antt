-- ===== src/Packet/Strings.antt =====
-- The helpers at the top of src/tftp_packet.cpp: terminated strings and transfer modes.
-- An offset of SIZE_MAX, the sign of a failed read, is `none`.
pub mod Exact
use tftpserver.Prelude.{
  ℕ, zero, suc, ◌+◌, ◌-◌, true, false, not, ◌&&◌, [], ◌∷◌, ◌++◌, Option, none, some, Bytes,
  bytes_eq, codes, if◌then◌else◌, leb, ◌==◌, length, get_elem?, map,
}
use tftpserver.Common.{TransferMode, net_ascii, octet, mail}

-- The loop. Its tests are `offset < data.size()`, `data[offset] != 0` and
-- `chars_read < max_length`; `left` is `max_length - chars_read`.
unfoldable pub scan_string : Bytes → ℕ → ℕ → Bytes → Bytes × ℕ
scan_string data_bytes offset zero result = (result, offset)
scan_string data_bytes offset (suc left) result = elim (get_elem? data_bytes offset) [
  | none ↦ (result, offset)
  | some c ↦ elim (c == 0) [
    | true ↦ (result, offset)
    | false ↦ scan_string data_bytes (offset + 1) left (result ++ c ∷ [])
  ]
]

-- What follows the loop. `chars_read` is the length of the result.
unfoldable pub finish_string : Bytes → ℕ → Bytes × ℕ → Option (Bytes × ℕ)
finish_string data_bytes max_length (result, offset) = elim (get_elem? data_bytes offset) [
  | none ↦ none
  | some c ↦
      if leb max_length (length result) && not (c == 0)
      then none
      else if c == 0
      then some (result, offset + 1)
      else some (result, offset)
]

unfoldable pub read_string_validated : Bytes → ℕ → ℕ → Option (Bytes × ℕ)
unfolding scan_string finish_string
read_string_validated data_bytes offset max_length =
    if leb (length data_bytes) offset
    then none
    else finish_string data_bytes max_length (scan_string data_bytes offset max_length [])

-- The wrapper that restores the offset on a failure.
unfoldable pub read_string : Bytes → ℕ → ℕ → Bytes × ℕ
read_string data_bytes offset max_length =
    elim (read_string_validated data_bytes offset max_length) [ none ↦ ([], offset) | some r ↦ r ]

-- `none` is the TftpException of an unnamed mode.
unfoldable pub mode_to_string : TransferMode → Option Bytes
mode_to_string net_ascii = some (codes "netascii")
mode_to_string octet = some (codes "octet")
mode_to_string mail = some (codes "mail")
mode_to_string (TransferMode.unnamed _) = none

-- `std::tolower` in the "C" locale.
unfoldable pub to_lower : ℕ → ℕ
to_lower c = if leb b'A' c && leb c b'Z' then c + 32 else c

unfoldable pub string_to_mode : Bytes → Option TransferMode
unfolding to_lower
string_to_mode mode_str =
    let lower_mode = map to_lower mode_str in
    if bytes_eq lower_mode (codes "netascii")
    then some net_ascii
    else if bytes_eq lower_mode (codes "octet")
    then some octet
    else if bytes_eq lower_mode (codes "mail")
    then some mail
    else none
