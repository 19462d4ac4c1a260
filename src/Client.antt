-- ===== src/Client.antt =====
-- src/tftp_client.cpp: TftpClient, which checks its parameters and transfers nothing. `to_string` is
-- `std::to_string` on a number that is not negative.
pub mod Refusing
use tftpserver.Prelude.{
  ℕ, Bool, false, not, List, [], ◌∷◌, ◌++◌, Option, none, some, Bytes, codes, length, if◌then◌else◌,
}
use tftpserver.Prelude.Int.{ℤ, pos}
use tftpserver.Common.{TransferMode, octet, default_timeout}
use tftpserver.Validation.{
  validate_host, validate_filename, validate_port, validate_data_buffer, validate_timeout,
  validate_transfer_mode, max_transfer_size,
}

pub record TftpClient : Type 0 where
  pub timeout_seconds : ℤ
  pub transfer_mode : TransferMode
  pub last_error : Bytes

unfoldable pub initial_client : TftpClient
initial_client = record {
  timeout_seconds = pos default_timeout;
  transfer_mode = octet;
  last_error = codes "No error";
}

module _ (to_string : ℕ → Bytes) where
  -- The result, the buffer and the client behind the call.
  unfoldable pub download_file : Bytes → Bytes → Bytes → ℕ → TftpClient → Bool × Bytes × TftpClient
  download_file host filename buffer port c =
      if not (validate_host host)
      then (false, buffer, record c { last_error = codes "Invalid host: " ++ host })
      else if not (validate_filename filename)
      then (false, buffer, record c { last_error = codes "Invalid filename: " ++ filename })
      else if not (validate_port port)
      then (false, buffer, record c { last_error = codes "Invalid port: " ++ to_string port })
      else (false, [], record c { last_error = codes "DownloadFile not yet implemented" })

  unfoldable pub upload_file : Bytes → Bytes → Bytes → ℕ → TftpClient → Bool × TftpClient
  upload_file host filename buffer port c =
      if not (validate_host host)
      then (false, record c { last_error = codes "Invalid host: " ++ host })
      else if not (validate_filename filename)
      then (false, record c { last_error = codes "Invalid filename: " ++ filename })
      else if not (validate_port port)
      then (false, record c { last_error = codes "Invalid port: " ++ to_string port })
      else if not (validate_data_buffer buffer max_transfer_size)
      then (
        false,
        record c {
          last_error = codes "Invalid data buffer (too large): " ++ to_string (length buffer);
        },
      )
      else (false, record c { last_error = codes "UploadFile not yet implemented" })

-- `none` is the TftpException of the validation.
unfoldable pub set_timeout : ℤ → TftpClient → Option TftpClient
set_timeout seconds c =
    if not (validate_timeout seconds) then none else some (record c { timeout_seconds = seconds })

unfoldable pub set_transfer_mode : TransferMode → TftpClient → Option TftpClient
set_transfer_mode mode c =
    if not (validate_transfer_mode mode) then none else some (record c { transfer_mode = mode })

-- A call of a member, and the client behind it; one that throws leaves the client as it is.
pub data ClientCall : Type 0 where
  download : Bytes → Bytes → Bytes → ℕ → ClientCall
  upload : Bytes → Bytes → Bytes → ℕ → ClientCall
  timeout : ℤ → ClientCall
  mode : TransferMode → ClientCall

abbrev pub kept : TftpClient → Option TftpClient → TftpClient
kept c none = c
kept c (some changed) = changed

unfoldable pub perform : (ℕ → Bytes) → ClientCall → TftpClient → TftpClient
perform to_string (download host filename buffer port) c =
    (download_file to_string host filename buffer port c).2
perform to_string (upload host filename buffer port) c =
    (upload_file to_string host filename buffer port c).1
perform to_string (timeout seconds) c = kept c (set_timeout seconds c)
perform to_string (mode m) c = kept c (set_transfer_mode m c)

unfoldable pub perform_all : (ℕ → Bytes) → List ClientCall → TftpClient → TftpClient
perform_all to_string [] c = c
perform_all to_string (call ∷ calls) c = perform_all to_string calls (perform to_string call c)
