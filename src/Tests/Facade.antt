-- ===== src/Tests/Facade.antt =====
-- A server and a client as a program makes them, and the default callbacks.
use tftpserver.Prelude.{
  ℕ, ◌≡◌, ◌≢◌, ◌⊎◌, refl, true, false, [], ◌∷◌, List, Bytes, codes, length, some, take,
}
use tftpserver.Prelude.Int.{pos, negsuc}
use tftpserver.Prelude.Search.{contains, contains_char}
use tftpserver.Common.{mail}
use tftpserver.Validation.{
  validate_root_directory, validate_port, validate_transfer_size, validate_host,
}
use tftpserver.Validation.Accepted.{IsFilename}
use tftpserver.Server.Client.{initial_root_dir}
use tftpserver.Server.Client.Confined.{Confined}
use tftpserver.Server.Settings.{max_size, initial_config, set, set_max_transfer_size}
use tftpserver.Server.Facade.{
  TftpServer, make_server, ServerCall, setting, call_server, call_all, handle_first,
}
use tftpserver.Server.Facade.Guarded.{make_server-Confined}
use tftpserver.Server.Files.{Files}
use tftpserver.Client.{
  initial_client, download_file, upload_file, ClientCall, download, timeout, mode,
}
use tftpserver.Client.Refusing.{HasFailed, transfers_fail}
use tftpserver.Tests.{
  client, start, sending, same_order, plain_files, storing, read_nothing, request_datagram,
}

abbrev new_server : TftpServer
new_server = record {
  config = initial_config (codes "/srv");
  read_callback = read_nothing;
  write_callback = storing;
}

made_new_server : make_server (λ p. some p) read_nothing storing (codes "/srv") 69 ≡ some new_server
unfolding make_server validate_root_directory validate_port contains contains_char
made_new_server = refl

abbrev server_calls : List ServerCall
server_calls = setting (max_size 2048) ∷ []

still_secure : (call_all server_calls new_server).config.secure_mode ≡ true
unfolding call_all call_server set set_max_transfer_size initial_config validate_transfer_size
still_secure = refl

same_absolute :
    plain_files.absolute (initial_root_dir (codes "/srv")) ≡ some (initial_root_dir (codes "/srv"))
same_absolute = refl

make_server-Confined_example :
    Confined plain_files
      (call_all server_calls new_server).config
      start
      (handle_first sending same_order plain_files
        (call_all server_calls new_server)
        client
        true
        true
        request_datagram
        start).1
make_server-Confined_example =
    make_server-Confined (λ p. some p) read_nothing storing (codes "/srv") 69 sending same_order
      plain_files client new_server server_calls true true request_datagram start made_new_server
      still_secure refl same_absolute

-- A file system of one file.
abbrev pub one_file : Files Bytes
one_file = record {
  parent_path = λ p. [];
  exists = λ p d. true;
  create_directories = λ p d. some d;
  open_read = λ p d. true;
  tellg = λ p d. pos (length d);
  read = λ p n d. some (take n d);
  open_write = λ p d. some [];
  write = λ p file d. true;
  flush_close = λ p file d. file;
}

abbrev any_number : ℕ → Bytes
any_number n = codes "0"

transfers_fail_example :
    let (downloaded, buffer', c') =
      download_file any_number (codes "host") (codes "a") [] 69 initial_client in
    let (uploaded, c'') = upload_file any_number (codes "host") (codes "a") [] 69 initial_client in
    (downloaded ≡ false)
    × (uploaded ≡ false)
    × HasFailed initial_client c'
    × HasFailed initial_client c''
    × ((buffer' ≡ [])
        ⊎ ((buffer' ≡ [])
            × (validate_host (codes "host") ≡ true)
            × IsFilename (codes "a")
            × (◌≢◌ {A = ℕ} 69 0)))
transfers_fail_example = transfers_fail any_number (codes "host") (codes "a") [] 69 initial_client

abbrev client_calls : List ClientCall
client_calls = timeout (negsuc 3) ∷ mode mail ∷ download (codes "host") (codes "a") [] 69 ∷ []
