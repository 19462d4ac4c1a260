-- ===== src/Server/Session.antt =====
-- src/internal/tftp_server_impl.cpp: an upload and a later download of the same file, both with the
-- default callbacks.
use tftpserver.Prelude.{◌≡◌, Bool, List, ◌++◌, Bytes}
use tftpserver.Server.{Event, World}
use tftpserver.Server.Files.{Files, default_write_handler}
use tftpserver.Server.Download
use tftpserver.Server.Upload.Payloads.{payloads}

-- The world behind a run is the one before it with events in which the packets that were received brought
-- this data, all of it, in order.
pub record Uploaded (file : Bytes) (before after : World) : Type 0 where
  pub events : List Event
  pub trace_is : after.trace ≡ before.trace ++ events
  pub data_are : file ≡ payloads events

module _ {D : Type 0} (files : Files D) where
  -- What DefaultWriteHandler answers in this state of the file system.
  abbrev pub answer_in : D → Bytes → Bytes → Bool
  answer_in d path file = (default_write_handler files path file d).0

  abbrev pub state_behind : D → Bytes → Bytes → D
  state_behind d path file = (default_write_handler files path file d).1
