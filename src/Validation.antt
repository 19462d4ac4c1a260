-- ===== src/Validation.antt =====
-- src/tftp_validation.cpp and include/tftp/tftp_validation.h: the checks of parameters.
pub mod Accepted
pub mod Hosts
use tftpserver.Prelude.{
  ℕ, Bool, true, false, not, ◌&&◌, ◌||◌, List, [], ◌∷◌, Option, none, some, Bytes, is_empty, length,
  codes, if◌then◌else◌, ◌==◌, ltb, leb,
}
use tftpserver.Prelude.Int.{ℤ, pos, ltb_ℤ}
use tftpserver.Prelude.Search.{contains, contains_char}
use tftpserver.Common.{TransferMode, net_ascii, octet, mail, max_filename_length}
use tftpserver.Server.Numbers.{is_digit, stoi}

abbrev pub min_timeout : ℤ
min_timeout = pos 1

abbrev pub max_timeout : ℤ
max_timeout = pos 3600

abbrev pub min_transfer_size : ℕ
min_transfer_size = 512

abbrev pub max_transfer_size : ℕ
max_transfer_size = 1073741824

abbrev pub max_hostname_length : ℕ
max_hostname_length = 253

abbrev pub max_path_length : ℕ
max_path_length = 4096

abbrev pub no_traversal : Option Bytes → Bool
no_traversal none = false
no_traversal (some normalized) = if contains (codes "..") normalized then false else true

-- `lexically_normal` is that of `std::filesystem::path`, with `none` for an exception of the path.
unfoldable pub validate_root_directory : (Bytes → Option Bytes) → Bytes → Bool
validate_root_directory lexically_normal root_dir =
    if is_empty root_dir
    then false
    else if ltb max_path_length (length root_dir)
    then false
    else if contains_char 0 root_dir
    then false
    else no_traversal (lexically_normal root_dir)

unfoldable pub validate_port : ℕ → Bool
validate_port port = if port == 0 then false else true

unfoldable pub validate_timeout : ℤ → Bool
validate_timeout timeout_seconds =
    if ltb_ℤ timeout_seconds min_timeout
    then false
    else if ltb_ℤ max_timeout timeout_seconds
    then false
    else true

unfoldable pub validate_transfer_size : ℕ → Bool
validate_transfer_size size =
    if ltb size min_transfer_size then false else if ltb max_transfer_size size then false else true

-- The pieces between the dots.
unfoldable pub split_dots : Bytes → List Bytes
split_dots [] = [] ∷ []
split_dots (c ∷ s) = elim (split_dots s) [
  | [] ↦ (c ∷ []) ∷ []
  | piece ∷ pieces ↦ if c == b'.' then [] ∷ (piece ∷ pieces) else (c ∷ piece) ∷ pieces
]

abbrev pub all_digits : Bytes → Bool
all_digits [] = true
all_digits (c ∷ s) = is_digit c && all_digits s

-- `\d{1,3}`
abbrev pub is_octet_text : Bytes → Bool
is_octet_text s = all_digits s && (leb 1 (length s) && leb (length s) 3)

-- `^(\d{1,3}\.){3}\d{1,3}$`
unfoldable pub is_dotted_quad : List Bytes → Bool
is_dotted_quad (a ∷ b ∷ c ∷ d ∷ []) =
    is_octet_text a && (is_octet_text b && (is_octet_text c && is_octet_text d))
is_dotted_quad _ = false

-- The loop over the octets. An exception of `stoi` is a return of false, by the handler.
unfoldable pub octets_in_range : List Bytes → Bool
octets_in_range [] = true
octets_in_range (text ∷ rest) =
    let others = octets_in_range rest in
    elim (stoi text) [
      | none ↦ false
      | some val ↦ if ltb_ℤ val (pos 0) || ltb_ℤ (pos 255) val then false else others
    ]

-- What matches the hostname pattern and what does not are both accepted.
unfoldable pub validate_host : Bytes → Bool
validate_host host =
    if is_empty host
    then false
    else if ltb max_hostname_length (length host)
    then false
    else if contains_char 0 host
    then false
    else if is_dotted_quad (split_dots host)
    then octets_in_range (split_dots host)
    else true

abbrev pub is_absolute : Bytes → Bool
is_absolute [] = false
is_absolute (c ∷ _) = c == b'/' || c == b'\\'

abbrev pub has_drive : Bytes → Bool
has_drive (_ ∷ c ∷ _) = c == b':'
has_drive _ = false

-- `iscntrl` of the C locale.
abbrev pub is_control : ℕ → Bool
is_control c = ltb c 32 || c == 127

unfoldable pub has_control : Bytes → Bool
has_control [] = false
has_control (c ∷ s) = let rest = has_control s in if is_control c then true else rest

unfoldable pub validate_filename : Bytes → Bool
validate_filename filename =
    if is_empty filename
    then false
    else if ltb max_filename_length (length filename)
    then false
    else if contains_char 0 filename
    then false
    else if contains (codes "..") filename
    then false
    else if is_absolute filename
    then false
    else if has_drive filename
    then false
    else if has_control filename
    then false
    else true

unfoldable pub validate_transfer_mode : TransferMode → Bool
validate_transfer_mode net_ascii = true
validate_transfer_mode octet = true
validate_transfer_mode mail = true
validate_transfer_mode (TransferMode.unnamed _) = false

unfoldable pub validate_string : Bytes → ℕ → Bool
validate_string str max_length =
    if ltb max_length (length str) then false else if contains_char 0 str then false else true

unfoldable pub validate_data_buffer : Bytes → ℕ → Bool
validate_data_buffer file max_size = if ltb max_size (length file) then false else true
