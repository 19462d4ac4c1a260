-- ===== src/Server/Client.antt =====
-- `HandleClient` of src/internal/tftp_server_impl.cpp: a first datagram, and its handler. Whether
-- the socket of the client can be made and bound is a parameter.
pub mod Quiet
pub mod Confined
pub mod Denied
use tftpserver.Prelude.{
  Bool, true, false, not, ◌&&◌, ◌||◌, [], ◌∷◌, ◌++◌, Option, none, some, Bytes, codes, is_empty,
  if◌then◌else◌, ℕ,
}
use tftpserver.Prelude.Int.{ℤ}
use tftpserver.Common.{OpCode, read_request, write_request, access_violation, illegal_operation}
use tftpserver.Options.{HashOrder}
use tftpserver.Path.{FileSystem, ends_with, is_path_secure, normalize_path}
use tftpserver.Packet.{TftpPacket, initial_packet}
use tftpserver.Packet.Reader.{deserialize}
use tftpserver.Server.{Address, Net, World, Thrown, returned, thrown, M, pure, ◌>>=◌, ◌>>◌}
use tftpserver.Server.Io.{send_error}
use tftpserver.Server.Download.{ReadEnd, handle_read_request}
use tftpserver.Server.Upload.{WriteEnd, handle_write_request}

-- The configuration that the handlers read.
pub record Config : Type 0 where
  pub root_dir : Bytes
  pub secure_mode : Bool
  pub max_transfer_size : ℕ
  pub timeout_seconds : ℤ

-- The directory that the constructor keeps.
unfoldable pub initial_root_dir : Bytes → Bytes
initial_root_dir root_dir =
    if not (is_empty root_dir) && (not (ends_with b'/' root_dir) && not (ends_with b'\\' root_dir))
    then root_dir ++ (b'/' ∷ [])
    else root_dir

-- How the handler ends; `caught` is an exception.
pub data ClientEnd : Type 0 where
  invalid_packet : ClientEnd
  no_socket : ClientEnd
  not_bound : ClientEnd
  access_denied : ClientEnd
  read_ended : ReadEnd → ClientEnd
  write_ended : WriteEnd → ClientEnd
  unknown_operation : ClientEnd
  caught : ClientEnd

-- The handlers of exceptions.
unfoldable pub catch_all : Thrown ClientEnd × World → ClientEnd × World
catch_all (returned end, w) = (end, w)
catch_all (thrown, w) = (caught, w)

module _ (net : Net) (h : HashOrder) (fs : FileSystem) (config : Config)
    (read_callback : Bytes → Option Bytes) (write_callback : Bytes → Bytes → Bool)
    (client : Address) where
  -- The switch over the opcode.
  unfoldable pub dispatch : OpCode → Bytes → TftpPacket → M ClientEnd
  dispatch read_request filepath packet =
      handle_read_request net h client config.timeout_seconds config.max_transfer_size
        (read_callback filepath)
      >>= λ end. pure (read_ended end)
  dispatch write_request filepath packet =
      handle_write_request net h client config.timeout_seconds config.max_transfer_size
        write_callback filepath packet
      >>= λ end. pure (write_ended end)
  dispatch _ filepath packet =
      send_error net h client illegal_operation (codes "Illegal operation")
      >> pure unknown_operation

  -- The test of the secure mode, and what follows it.
  unfoldable pub serve : TftpPacket → M ClientEnd
  serve packet =
      if config.secure_mode && not (is_path_secure fs packet.filename config.root_dir)
      then (send_error net h client access_violation (codes "Access denied") >> pure access_denied)
      else dispatch packet.op_code (normalize_path fs (config.root_dir ++ packet.filename)) packet

  -- `opens` and `binds` are the results of `socket` and `bind`.
  unfoldable pub handle_client : Bool → Bool → Bytes → World → ClientEnd × World
  handle_client opens binds first w =
      let (packet, good) = deserialize initial_packet first in
      catch_all (
        if not good
        then pure invalid_packet w
        else if not opens
        then pure no_socket w
        else if not binds
        then pure not_bound w
        else serve packet w)
