-- ===== src/Server/Facade.antt =====
-- src/tftp_server.cpp: TftpServer, its constructor and its setters, in front of the implementation.
pub mod Guarded
use tftpserver.Prelude.{ℕ, Bool, not, List, [], ◌∷◌, Option, none, some, Bytes, if◌then◌else◌}
use tftpserver.Validation.{validate_root_directory, validate_port}
use tftpserver.Options.{HashOrder}
use tftpserver.Path.{FileSystem}
use tftpserver.Server.{Address, Net, World}
use tftpserver.Server.Client.{Config, ClientEnd, handle_client}
use tftpserver.Server.Settings.{Setting, set, initial_config}

abbrev pub ReadCallback : Type 0
ReadCallback = Bytes → Option Bytes

abbrev pub WriteCallback : Type 0
WriteCallback = Bytes → Bytes → Bool

pub record TftpServer : Type 0 where
  pub config : Config
  pub read_callback : ReadCallback
  pub write_callback : WriteCallback

-- The constructor, with the default callbacks; `none` is its TftpException.
unfoldable pub make_server :
    (Bytes → Option Bytes) → ReadCallback → WriteCallback → Bytes → ℕ → Option TftpServer
make_server lexically_normal default_read default_write root_dir port =
    if not (validate_root_directory lexically_normal root_dir)
    then none
    else if not (validate_port port)
    then none
    else some (record {
      config = initial_config root_dir;
      read_callback = default_read;
      write_callback = default_write;
    })

-- A call of a setter; an empty `std::function`, which ValidateCallback refuses, is `none`.
pub data ServerCall : Type 0 where
  setting : Setting → ServerCall
  read_callback : Option ReadCallback → ServerCall
  write_callback : Option WriteCallback → ServerCall

abbrev pub with_config : TftpServer → Option Config → Option TftpServer
with_config s none = none
with_config s (some changed) = some (record s { config = changed })

-- `none` is a TftpException.
unfoldable pub call_server : ServerCall → TftpServer → Option TftpServer
call_server (setting changed) s = with_config s (set changed s.config)
call_server (read_callback none) s = none
call_server (read_callback (some callback)) s = some (record s { read_callback = callback })
call_server (write_callback none) s = none
call_server (write_callback (some callback)) s = some (record s { write_callback = callback })

-- A call that throws leaves the server as it is.
abbrev pub kept_server : TftpServer → Option TftpServer → TftpServer
kept_server s none = s
kept_server s (some changed) = changed

unfoldable pub call_all : List ServerCall → TftpServer → TftpServer
call_all [] s = s
call_all (c ∷ cs) s = call_all cs (kept_server s (call_server c s))

-- A first datagram, with the configuration and the callbacks of the server.
unfoldable pub handle_first :
    Net
    → HashOrder
    → FileSystem
    → TftpServer
    → Address
    → Bool
    → Bool
    → Bytes
    → World
    → ClientEnd × World
handle_first net h fs s client opens binds first w =
    handle_client net h fs s.config s.read_callback s.write_callback client opens binds first w
