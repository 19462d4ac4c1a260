-- ===== src/Validation/Accepted.antt =====
-- What the checks of parameters accept.
use tftpserver.Prelude.{
  ◌≡◌, ◌≢◌, ◌↔◌, ◌≤◌, refl, true, false, [], ◌∷◌, Bytes, length, All, NoNul, codes, arith, ltb,
}
use tftpserver.Prelude.Search.{contains, contains_char_iff}
use tftpserver.Common.{max_filename_length}
use tftpserver.Validation.{is_absolute, has_drive, has_control, validate_filename}

-- A name of printable characters, within the limit, for a file below the current directory.
pub record IsFilename (s : Bytes) : Type 0 where
  pub filled : 1 ≤ length s
  pub fits : length s ≤ max_filename_length
  pub printable : All (λ c. (32 ≤ c) × (c ≢ 127)) s
  pub no_parent : contains (codes "..") s ≡ false
  pub is_relative : is_absolute s ≡ false
  pub no_drive : has_drive s ≡ false

has_control_iff : (s : Bytes) → (has_control s ≡ false) ↔ All (λ c. (32 ≤ c) × (c ≢ 127)) s
unfolding has_control
has_control_iff [] = (λ _. tt, λ _. refl)
has_control_iff (c ∷ s) = ground (arith, has_control_iff s)

printable-NoNul : (s : Bytes) → All (λ c. (32 ≤ c) × (c ≢ 127)) s → NoNul s
printable-NoNul [] _ = tt
printable-NoNul (c ∷ s) h = (ground (arith, h), printable-NoNul s h.1)

-- `ValidateFilename` accepts just the names of 1 to 255 characters that are no control characters,
-- without `..`, without a leading separator and without a drive letter.
pub validate_filename_iff : (s : Bytes) → (validate_filename s ≡ true) ↔ IsFilename s
unfolding validate_filename
validate_filename_iff s = (accepted s, refused s)
  where
    accepted : (s : Bytes) → validate_filename s ≡ true → IsFilename s
    accepted [] h = cc
    accepted (c ∷ s) h = record {
      filled = ground (arith);
      fits = ground (arith, h);
      printable = (has_control_iff (c ∷ s)).0 (ground (arith, h));
      no_parent = ground (arith, h);
      is_relative = ground (arith, h);
      no_drive = ground (arith, h);
    }

    refused : (s : Bytes) → IsFilename s → validate_filename s ≡ true
    refused [] i = absurd (omega (arith, i.filled))
    refused (c ∷ s) i =
        let short : ltb max_filename_length (length (c ∷ s)) ≡ false = ground (arith, i.fits) in
        rw
          (
            short,
            (contains_char_iff (c ∷ s)).1 (printable-NoNul (c ∷ s) i.printable),
            i.no_parent,
            i.is_relative,
            i.no_drive,
            (has_control_iff (c ∷ s)).1 i.printable,
          )
          refl
