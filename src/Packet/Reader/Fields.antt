-- ===== src/Packet/Reader/Fields.antt =====
-- The fields of a packet that `Deserialize` accepts are within the limits.
use tftpserver.Prelude.{
  ℕ, zero, suc, ◌+◌, ◌-◌, ◌≤◌, ◌<◌, ◌≡◌, refl, subst, ◌⊎◌, inl, inr, true, false, not, [], ◌∷◌,
  some, Bytes, AreBytes, is_empty, ltb, length, arith, guard, >>=-eq-some, map, bytes_eq,
  bytes_eq_iff, codes, ap,
}
use tftpserver.Common.{
  error_of_value, TransferMode, net_ascii, octet, mail, max_filename_length, max_string_length,
}
use tftpserver.Options.{Options}
use tftpserver.Packet.Strings.{mode_to_string, string_to_mode, to_lower, read_string_validated}
use tftpserver.Packet.Reader.{byte_at, get_u16, RequestFields, read_request_fields, read_options}
use tftpserver.Packet.Reader.Entries.{IsField}
use tftpserver.Packet.Reader.Found.{read_string_validated-IsRead, read_options-IsOptions}
use tftpserver.Packet.Header.{IsNamedError}
use tftpserver.Packet.Limits.{IsOptions}

-- A mode that is read has a text of the same length: the case of letters is all that may differ.
length-map : (f : ℕ → ℕ) (xs : Bytes) → length (map f xs) ≡ length xs
length-map f [] = refl
length-map f (x ∷ xs) = omega (arith, length-map f xs)

abbrev IsNameOf : Bytes → TransferMode → Bytes → Type 0
IsNameOf s mode text = (mode_to_string mode ≡ some text) × (length text ≡ length s)

named :
    (s text : Bytes) (mode : TransferMode)
    → mode_to_string mode ≡ some text
    → bytes_eq (map to_lower s) text ≡ true
    → IsNameOf s mode text
named s text mode w e =
    (w, omega (arith, length-map to_lower s, ap length ((bytes_eq_iff (map to_lower s) text).0 e)))

modes_read :
    (s : Bytes) (mode : TransferMode)
    → string_to_mode s ≡ some mode
    → ((bytes_eq (map to_lower s) (codes "netascii") ≡ true) × (mode ≡ net_ascii))
      ⊎ ((bytes_eq (map to_lower s) (codes "octet") ≡ true) × (mode ≡ octet))
      ⊎ ((bytes_eq (map to_lower s) (codes "mail") ≡ true) × (mode ≡ mail))
unfolding string_to_mode
modes_read s mode h = ground arith

mode-IsNameOf :
    (s : Bytes) {mode : TransferMode}
    → string_to_mode s ≡ some mode
    → (text : Bytes) × IsNameOf s mode text
unfolding mode_to_string
mode-IsNameOf s {mode} h = elim (modes_read s mode h) [
  | inl (e, m) ↦ (codes "netascii", rw m (named s _ net_ascii refl e))
  | inr (inl (e, m)) ↦ (codes "octet", rw m (named s _ octet refl e))
  | inr (inr (e, m)) ↦ (codes "mail", rw m (named s _ mail refl e))
]

pub IsOptions-mono : {a b : ℕ} {m : Options} → a ≤ b → IsOptions a m → IsOptions b m
IsOptions-mono h o = record {
  entries = o.entries;
  distinct = o.distinct;
  count = o.count;
  size = omega (arith, o.size);
}

filled_of_guard :
    (s : Bytes) {u : Unit {0}} → guard (not (is_empty s)) ≡ some u → is_empty s ≡ false
filled_of_guard [] h = cc
filled_of_guard (c ∷ s) h = refl

-- The fields of an accepted request, from a packet of at most 516 bytes.
pub record AreRequestFields (f : RequestFields) : Type 0 where
  pub mode_name : Bytes
  pub mode_named : mode_to_string f.mode ≡ some mode_name
  pub filename_field : IsField max_filename_length f.filename
  pub options_fit : IsOptions (516 - (4 + length f.filename + length mode_name)) f.options

pub read_request_fields-lem :
    (d : Bytes) (f : RequestFields)
    → length d ≤ 516
    → read_request_fields d ≡ some f
    → AreRequestFields f
unfolding read_request_fields
read_request_fields-lem d f l h =
    let ((filename, next), e, h₁) =
      >>=-eq-some (read_string_validated d 2 max_filename_length) _ h in
    let (_, g, h₂) = >>=-eq-some (guard (not (is_empty filename))) _ h₁ in
    let (_, _, h₃) = >>=-eq-some (guard (ltb next (length d))) _ h₂ in
    let ((mode_str, after_mode), e', h₄) =
      >>=-eq-some (read_string_validated d next max_string_length) _ h₃ in
    let (_, g', h₅) = >>=-eq-some (guard (not (is_empty mode_str))) _ h₄ in
    let (mode, m, h₆) = >>=-eq-some (string_to_mode mode_str) _ h₅ in
    let (options, o, h₇) = >>=-eq-some (read_options d after_mode) _ h₆ in
    let (text, (written, same_length)) = mode-IsNameOf mode_str m in
    let name_read =
      read_string_validated-IsRead d 2 max_filename_length filename next e
        (filled_of_guard filename g) in
    let mode_read =
      read_string_validated-IsRead d next max_string_length mode_str after_mode e'
        (filled_of_guard mode_str g') in
    let room : length d - after_mode ≤ 516 - (4 + length filename + length text) =
      omega (arith, name_read.next_is, mode_read.next_is, mode_read.within, same_length) in
    subst AreRequestFields (some_eq h₇) (record {
      mode_name = text;
      mode_named = written;
      filename_field = name_read.is_field;
      options_fit = IsOptions-mono room (read_options-IsOptions d after_mode o);
    })
  where
    some_eq : {g : RequestFields} → some g ≡ some f → g ≡ f
    some_eq e = cc

pub u16_range : (d : Bytes) (i : ℕ) → AreBytes d → get_u16 d i < 65536
unfolding get_u16 byte_at
u16_range d i b = omega (arith, byte_range d i b, byte_range d (i + 1) b)
  where
    byte_range : (xs : Bytes) (j : ℕ) → AreBytes xs → byte_at xs j < 256
    byte_range [] j a = omega arith
    byte_range (x ∷ xs) zero a = a.0
    byte_range (x ∷ xs) (suc j) a = byte_range xs j a.1

pub error_named : (v : ℕ) → v ≤ 7 → IsNamedError (error_of_value v)
unfolding error_of_value
error_named zero h = tt
error_named (suc zero) h = tt
error_named (suc (suc zero)) h = tt
error_named (suc (suc (suc zero))) h = tt
error_named (suc (suc (suc (suc zero)))) h = tt
error_named (suc (suc (suc (suc (suc zero))))) h = tt
error_named (suc (suc (suc (suc (suc (suc zero)))))) h = tt
error_named (suc (suc (suc (suc (suc (suc (suc zero))))))) h = tt
error_named (suc (suc (suc (suc (suc (suc (suc (suc v)))))))) h = absurd (omega arith)
