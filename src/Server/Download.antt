-- ===== src/Server/Download.antt =====
-- `HandleReadRequest` of src/internal/tftp_server_impl.cpp. The callback is the user's, and its
-- result a parameter: `none` where it returns false.
pub mod Rounds
pub mod Lockstep
pub mod Delivery
pub mod Cooperation
use tftpserver.Prelude.{
  ℕ, zero, suc, ◌+◌, ◌-◌, ◌/◌, ◌%◌, Bool, true, false, not, ◌||◌, Option, none, some, Bytes, length,
  take, drop, ltb, ◌==◌, if◌then◌else◌, codes,
}
use tftpserver.Prelude.Int.{ℤ}
use tftpserver.Common.{op_value, max_data_size, file_not_found, disk_full}
use tftpserver.Options.{HashOrder}
use tftpserver.Packet.{TftpPacket, create_data}
use tftpserver.Server.{Address, Net, M, pure, throw, ◌>>=◌, ◌>>◌, to_millis}
use tftpserver.Server.Io.{send_packet, receive_packet, send_error}

-- How the handler ends. `out_of_fuel` has no counterpart in the program.
pub data ReadEnd : Type 0 where
  completed : ReadEnd
  not_found : ReadEnd
  too_large : ReadEnd
  send_failed : ReadEnd
  ack_timeout : ReadEnd
  invalid_ack : ReadEnd
  out_of_fuel : ReadEnd

-- `ack_packet.GetOpCode() == kAcknowledge && ack_packet.GetBlockNumber() == block_number`
unfoldable pub is_ack_of : ℕ → TftpPacket → Bool
is_ack_of block p = not (not (op_value p.op_code == 4) || not (p.block_number == block))

-- The size of the next block.
unfoldable pub block_size_at : Bytes → ℕ → ℕ
block_size_at file offset =
    let remaining = length file - offset in
    if ltb max_data_size remaining then max_data_size else remaining

unfoldable pub or_throw : {A : Type 0} → Option A → M A
or_throw none = throw
or_throw (some a) = pure a

-- One round for each full block, and one for the rest.
abbrev pub read_fuel : Bytes → ℕ
read_fuel file = length file / 512 + 1

-- The round was acknowledged, and its block was a full one.
unfoldable pub goes_on : ReadEnd → ℕ → Bool
goes_on completed size = not (ltb size max_data_size)
goes_on _ size = false

-- What follows the wait: `completed` is the way on.
unfoldable pub judge_answer : ℕ → Option (Address × TftpPacket) → M ReadEnd
judge_answer block none = pure ack_timeout
judge_answer block (some (_, p)) = pure (if is_ack_of block p then completed else invalid_ack)

module _ (net : Net) (h : HashOrder) (client : Address) (timeout_secs : ℤ) where
  -- What follows the send.
  unfoldable pub await_ack : ℕ → Bool → M ReadEnd
  await_ack block false = pure send_failed
  await_ack block true = receive_packet net (to_millis timeout_secs) >>= judge_answer block

  -- The body of the loop up to the test of the acknowledgement.
  unfoldable pub read_round : Bytes → ℕ → ℕ → M ReadEnd
  unfolding or_throw
  read_round file block offset = do
    data_packet ← or_throw (create_data block (take (block_size_at file offset) (drop offset file)))
    done ← send_packet net h client data_packet
    await_ack block done

  -- The loop. The block number is a `uint16_t`.
  unfoldable pub read_loop : ℕ → Bytes → ℕ → ℕ → M ReadEnd
  read_loop zero file block offset = pure out_of_fuel
  read_loop (suc fuel) file block offset = do
    end ← read_round file block offset
    if goes_on end (block_size_at file offset)
        then read_loop fuel file ((block + 1) % 65536) (offset + block_size_at file offset)
        else pure end

  unfoldable pub handle_read_request : ℕ → Option Bytes → M ReadEnd
  handle_read_request max_size none = do
    send_error net h client file_not_found (codes "File not found")
    pure not_found
  handle_read_request max_size (some file) =
      if ltb max_size (length file)
      then (do send_error net h client disk_full (codes "File size too large"); pure too_large)
      else read_loop (read_fuel file) file 1 0
