-- ===== src/Tests.antt =====
-- Runs of the definitions at concrete inputs, and applications of the theorems.
mod Packets
mod Transfers
mod Pool
mod Lifecycle
mod Sockets
mod Facade
mod Answers
mod Logger
mod Windows
mod Stopping
mod Sessions
use mathlib.Core.List.Permᴰ
use tftpserver.Prelude.{
  [], Option, none, ◌+◌, ◌%◌, ◌≡◌, ◌≢◌, ◌==◌, if◌then◌else◌, ◌↔◌, refl, Bool, true, false, ◌∷◌,
  ◌++◌, some, Bytes, codes, is_empty, arith, length, drop,
}
use tftpserver.Prelude.Int.{pos}
use tftpserver.Prelude.Search.{contains, contains_char, has_prefix}
use tftpserver.Common.{write_request, octet}
use tftpserver.Options.{lookup, HashOrder}
use tftpserver.Packet.{TftpPacket, initial_packet}
use tftpserver.Packet.Strings.{mode_to_string}
use tftpserver.Packet.Writer.{put_string, put_options}
use tftpserver.Packet.Limits.{IsSendable}
use tftpserver.Server.{Address, no_packet, datagram, Net, World}
use tftpserver.Server.Download.Cooperation.{ack_datagram}
use tftpserver.Server.Client.{Config, handle_client}
use tftpserver.Server.Client.Confined.{Confined, handle_client-Confined}
use tftpserver.Server.Settings.{
  max_size, timeout, IsConfig, configure, initial_config, initial_config-IsConfig,
}
use tftpserver.Path.{FileSystem, is_path_secure, is_dangerous, check_target, join, with_separator}
use tftpserver.Path.Described.{IsHarmless, LiesBelow, is_path_secure_described}
use tftpserver.Validation.{validate_filename, has_control}
use tftpserver.Validation.Accepted.{IsFilename, validate_filename_iff}

abbrev same_order : HashOrder
same_order = record { walk = λ m. m; walk_perm = λ m. Permᴰ.refl m }

-- A write request with one option, and its bytes.
abbrev request : TftpPacket
request = record initial_packet {
  op_code = write_request;
  filename = codes "a.txt";
  mode = octet;
  options = (codes "tsize", codes "5") ∷ [];
}

abbrev request_datagram : Bytes
request_datagram =
    0 ∷ 2 ∷ (codes "a.txt" ++ 0 ∷ codes "octet" ++ 0 ∷ codes "tsize" ++ 0 ∷ codes "5" ++ 0 ∷ [])

request-IsSendable : IsSendable request
request-IsSendable = record {
  mode_name = codes "octet";
  mode_named = unfold mode_to_string in refl;
  filename_field = record { filled = refl; no_nul = omega arith; fits = omega arith };
  options_fit = record {
    entries = (
      (
        record { filled = refl; no_nul = omega arith; fits = omega arith },
        record { filled = refl; no_nul = omega arith; fits = omega arith },
      ),
      tt,
    );
    distinct = (unfold lookup in refl, tt);
    count = omega arith;
    size = unfold put_options put_string in omega arith;
  };
  others = refl;
}

abbrev client : Address
client = record { host = 2130706433; port = 4000 }

abbrev start : World
start = record { sends = 0; receives = 0; trace = [] }

-- A client that acknowledges each block.
abbrev acknowledging : Net
acknowledging = record {
  sendto = λ n size. pos size;
  receive = λ n timeout_ms. datagram client (ack_datagram ((1 + n) % 65536));
}

-- A client that sends one short block.
abbrev sending : Net
sending = record {
  sendto = λ n size. pos size;
  receive =
      λ n timeout_ms. if n == 0 then datagram client (0 ∷ 3 ∷ 0 ∷ 1 ∷ codes "hello") else no_packet;
}

-- A callback that stores each file.
abbrev storing : Bytes → Bytes → Bool
storing path file = true

-- A file system without links, whose paths are canonical.
abbrev plain_files : FileSystem
plain_files = record {
  absolute = λ p. some p;
  weakly_canonical = λ p. some p;
  relative = λ p base. some (drop (length base + 1) p);
}

is_path_secure_described_example :
    (is_path_secure plain_files (codes "a.txt") (codes "/srv") ≡ true) ↔ (
      (codes "/srv" ≢ [])
      × IsHarmless (codes "a.txt")
      × LiesBelow plain_files (codes "a.txt") (codes "/srv"))
is_path_secure_described_example =
    is_path_secure_described plain_files (codes "a.txt") (codes "/srv")

secure_path : is_path_secure plain_files (codes "a.txt") (codes "/srv") ≡ true
unfolding is_path_secure is_dangerous check_target join with_separator contains contains_char
    has_prefix
secure_path = refl

filenames : (validate_filename (codes "a.txt") ≡ true) × (validate_filename (codes "../a") ≡ false)
unfolding validate_filename contains contains_char has_control
filenames = (refl, refl)

-- The directory /srv/, in secure mode.
abbrev config : Config
config = record {
  root_dir = codes "/srv/";
  secure_mode = true;
  max_transfer_size = 1000;
  timeout_seconds = pos 5;
}

abbrev read_nothing : Bytes → Option Bytes
read_nothing path = none

initial_config-IsConfig_example :
    IsConfig (configure (initial_config (codes "/srv")) (max_size 2048 ∷ timeout (pos 0) ∷ []))
initial_config-IsConfig_example =
    initial_config-IsConfig (codes "/srv") (max_size 2048 ∷ timeout (pos 0) ∷ [])
