-- ===== src/Server/Upload.antt =====
-- `HandleWriteRequest` of src/internal/tftp_server_impl.cpp. The write callback is the user's: a
-- parameter that answers for a path and the data.
pub mod SmallBlocks
pub mod Negotiation
pub mod Announced
pub mod Rounds
pub mod Reception
pub mod Payloads
pub mod Storing
pub mod Once
use tftpserver.Prelude.{
  ℕ, zero, suc, ◌+◌, ◌-◌, ◌/◌, ◌%◌, ◌^◌, Bool, true, false, not, ◌&&◌, [], ◌∷◌, ◌++◌, Option, none,
  some, Bytes, bytes_eq, length, ltb, leb, ◌==◌, if◌then◌else◌, codes,
}
use tftpserver.Prelude.Int.{ℤ, pos, negsuc}
use tftpserver.Common.{op_value, max_data_size, disk_full, illegal_operation, access_violation}
use tftpserver.Options.{Options, HashOrder}
use tftpserver.Packet.{TftpPacket, create_ack, has_option, get_option}
use tftpserver.Packet.Writer.{put_u16}
use tftpserver.Server.{Address, Net, stored, returned, M, pure, ◌>>=◌, ◌>>◌, emit, to_millis}
use tftpserver.Server.Io.{send_once, send_packet, receive_packet, send_error}
use tftpserver.Server.Numbers.{stoi, stoull}

-- `low <= value && value <= high`
abbrev pub within : ℕ → ℕ → ℤ → Bool
within low high (pos n) = leb low n && leb n high
within low high (negsuc _) = false

-- The value if it reads as a number in the range, and the default otherwise.
unfoldable pub in_range_or : ℕ → ℕ → Bytes → Bytes → Bytes
in_range_or low high default value = elim (stoi value) [
  | none ↦ default
  | some n ↦ if within low high n then value else default
]

-- The value that the acknowledgement has for an option.
unfoldable pub negotiate : Bytes → Bytes → Bytes
unfolding in_range_or
negotiate name value =
    if bytes_eq name (codes "tsize")
    then value
    else if bytes_eq name (codes "blksize")
    then in_range_or 8 65464 (codes "512") value
    else if bytes_eq name (codes "timeout")
    then in_range_or 1 255 (codes "6") value
    else value

-- The loop that writes the options by hand.
unfoldable pub oack_options : Options → Bytes
unfolding negotiate
oack_options [] = []
oack_options ((name, value) ∷ rest) =
    name ++ (0 ∷ (negotiate name value ++ (0 ∷ oack_options rest)))

unfoldable pub oack_data : HashOrder → Options → Bytes
oack_data h options = put_u16 6 ++ oack_options (h.walk options)

-- How the handler ends; the bytes are those of the file. `out_of_fuel` has no counterpart.
pub data WriteEnd : Type 0 where
  completed : Bytes → WriteEnd
  not_stored : Bytes → WriteEnd
  reply_failed : WriteEnd
  receive_failed : WriteEnd
  not_data : WriteEnd
  wrong_block : WriteEnd
  ack_failed : WriteEnd
  too_large : WriteEnd
  exceeds_tsize : WriteEnd
  out_of_fuel : WriteEnd

-- One round of the loop: it ends, or goes on with the file so far.
pub data WriteRound : Type 0 where
  stop : WriteEnd → WriteRound
  more : Bytes → WriteRound

-- `has_expected_size && file_data.size() > expected_file_size + kMaxDataSize`, in a `size_t`.
unfoldable pub exceeds_expected : Option ℕ → ℕ → Bool
exceeds_expected none size = false
exceeds_expected (some expected) size = ltb ((expected + max_data_size) % 2 ^ 64) size

-- The size that the request announces. A value that is no number is ignored.
unfoldable pub expected_size : TftpPacket → Option ℕ
expected_size packet =
    if has_option packet (codes "tsize") then stoull (get_option packet (codes "tsize")) else none

module _ (net : Net) (h : HashOrder) (client : Address) (timeout_secs : ℤ) (max_size : ℕ)
    (expected : Option ℕ) where
  -- What follows the acknowledgement of a block: the tests of the size, and of the last block.
  unfoldable pub check_sizes : Bytes → Bytes → Bool → M WriteRound
  check_sizes file payload false = pure (stop ack_failed)
  check_sizes file payload true =
      if ltb max_size (length (file ++ payload))
      then (send_error net h client disk_full (codes "File size too large")
          >> pure (stop too_large))
      else if exceeds_expected expected (length (file ++ payload))
      then (send_error net h client disk_full (codes "File size exceeds tsize")
          >> pure (stop exceeds_tsize))
      else if ltb (length payload) max_data_size
      then pure (stop (completed (file ++ payload)))
      else pure (more (file ++ payload))

  -- What follows the wait for a block.
  unfoldable pub take_block : ℕ → Bytes → Option (Address × TftpPacket) → M WriteRound
  take_block block file none = pure (stop receive_failed)
  take_block block file (some (data_addr, p)) =
      if not (op_value p.op_code == 3)
      then (send_error net h client illegal_operation (codes "Illegal operation")
          >> pure (stop not_data))
      else if not (p.block_number == block)
      then pure (stop wrong_block)
      else (send_packet net h data_addr (create_ack block) >>= check_sizes file p.payload)

  unfoldable pub write_round : ℕ → Bytes → M WriteRound
  write_round block file = receive_packet net (to_millis timeout_secs) >>= take_block block file

  -- The loop. The block number is a `uint16_t`.
  unfoldable pub write_loop : ℕ → ℕ → Bytes → M WriteEnd
  write_loop zero block file = pure out_of_fuel
  write_loop (suc fuel) block file = do
    round ← write_round block file
    elim round [
      | stop end ↦ pure end
      | more file' ↦ λ w. write_loop fuel ((block + 1) % 65536) file' w
    ]

-- A round for each full block that the limit has room for, and one more.
abbrev pub write_fuel : ℕ → ℕ
write_fuel max_size = max_size / 512 + 1

module _ (net : Net) (h : HashOrder) (client : Address) (timeout_secs : ℤ) (max_size : ℕ)
    (write_callback : Bytes → Bytes → Bool) where
  -- What follows the loop: only a complete file is handed to the callback.
  unfoldable pub store_file : Bytes → WriteEnd → M WriteEnd
  store_file filepath (completed file) =
      let success = write_callback filepath file in
      λ w.
        if success
        then pure (completed file) (emit (stored filepath file true) w)
        else (send_error net h client access_violation (codes "File write failed")
              >> pure (not_stored file))
            (emit (stored filepath file false) w)
  store_file filepath end = pure end

  -- What follows the reply to the request.
  unfoldable pub receive_file : Bytes → TftpPacket → Bool → M WriteEnd
  receive_file filepath packet false = pure reply_failed
  receive_file filepath packet true =
      write_loop net h client timeout_secs max_size (expected_size packet) (write_fuel max_size) 1
        []
      >>= store_file filepath

  -- An OACK, by one call of `sendto`, if the request has options, and an ACK of block 0 if not.
  unfoldable pub reply_to : Options → M Bool
  reply_to [] = send_packet net h client (create_ack 0)
  reply_to (o ∷ options) = λ w.
      let (done, w') = send_once net h client (oack_data h (o ∷ options)) w in (returned done, w')

  unfoldable pub handle_write_request : Bytes → TftpPacket → M WriteEnd
  handle_write_request filepath packet = reply_to packet.options >>= receive_file filepath packet
