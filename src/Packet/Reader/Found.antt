-- ===== src/Packet/Reader/Found.antt =====
-- Whatever the loop over the options returns is within the limits.
use tftpserver.Prelude.{
  ℕ, zero, suc, ◌+◌, ◌-◌, bytes_eq, ◌≤◌, ◌≡◌, refl, subst, inl, inr, true, false, [], ◌∷◌, some,
  Bytes, is_empty, ltb, leb, length, arith, All, Bool-cases, Option-cases, >>=-eq-some,
}
use tftpserver.Common.{max_option_name_length, max_option_value_length, max_options_count}
use tftpserver.Options.{Options, insert, Distinct}
use tftpserver.Options.Laws.{length-insert, insert-Distinct, insert-All}
use tftpserver.Packet.Reader.{
  OptionStep, bad_option, no_more, next_option, read_value, read_option, parse_options,
  read_options, check_count,
}
use tftpserver.Packet.Reader.Entries.{IsField, IsEntry}
use tftpserver.Packet.Limits.{IsOptions, length-put_options}
use tftpserver.Packet.Writer.{put_options}
use tftpserver.Packet.Strings.{read_string_validated}
use tftpserver.Packet.Strings.Exact.{StringAt-next-le, read_string_validated-StringAt}

-- A string that was read and is not empty is a field, and the next offset is behind it.
pub record IsRead (d : Bytes) (offset max_length : ℕ) (s : Bytes) (next : ℕ) : Type 0 where
  pub is_field : IsField max_length s
  pub next_is : next ≡ offset + length s + 1
  pub within : next ≤ length d

pub read_string_validated-IsRead :
    (d : Bytes) (offset max_length : ℕ) (s : Bytes) (next : ℕ)
    → read_string_validated d offset max_length ≡ some (s, next)
    → is_empty s ≡ false
    → IsRead d offset max_length s next
read_string_validated-IsRead d offset max_length s next h e =
    let stands = read_string_validated-StringAt d offset max_length h in
    record {
      is_field = record { filled = e; no_nul = stands.no_nul; fits = stands.fits };
      next_is = stands.next_is;
      within = StringAt-next-le stands;
    }

-- An option that was read, and how much of the input it took.
record IsTaken (d : Bytes) (offset : ℕ) (name value : Bytes) (next : ℕ) : Type 0 where
  entry : IsEntry (name, value)
  taken : next ≡ offset + length name + length value + 2
  within : next ≤ length d

abbrev IsStep : Bytes → ℕ → OptionStep → Type 0
IsStep d offset (next_option name value next) = IsTaken d offset name value next
IsStep d offset _ = Unit

read_value-IsStep :
    (d name : Bytes) (offset behind_name : ℕ)
    → IsRead d offset max_option_name_length name behind_name
    → IsStep d offset (read_value d name behind_name)
unfolding read_value
read_value-IsStep d name offset at_value n = elim (Bool-cases (leb (length d) at_value)) [
  | inl past ↦ rw past tt
  | inr below ↦
      rw below (elim (Option-cases (read_string_validated d at_value max_option_value_length)) [
        | inl e ↦ rw e tt
        | inr ((value, next), e) ↦ elim (Bool-cases (is_empty value)) [
          | inl empty ↦ rw e (rw empty tt)
          | inr filled ↦
              let v =
                read_string_validated-IsRead d at_value max_option_value_length value next e
                  filled in
              rw e (
                rw filled (record {
                  entry = (n.is_field, v.is_field);
                  taken = omega (arith, n.next_is, v.next_is);
                  within = v.within;
                }))
        ]
      ])
]

read_option-IsStep : (d : Bytes) (offset : ℕ) → IsStep d offset (read_option d offset)
unfolding read_option
read_option-IsStep d offset =
    elim (Option-cases (read_string_validated d offset max_option_name_length)) [
      | inl e ↦ rw (e, read_option) tt
      | inr ((name, next), e) ↦ elim (Bool-cases (is_empty name)) [
        | inl empty ↦ rw (e, read_option) (rw empty tt)
        | inr filled ↦
            rw (e, read_option)
              (rw filled (
                read_value-IsStep d name offset next (
                  read_string_validated-IsRead d offset max_option_name_length name next e filled)))
      ]
    ]

length-put_options-insert :
    (k v : Bytes) (m : Options)
    → length (put_options (insert k v m)) ≤ length (put_options m) + length k + length v + 2
unfolding insert
length-put_options-insert k v [] = omega (arith, length-put_options (k, v) [])
length-put_options-insert k v ((j, w) ∷ m) = elim (Bool-cases (bytes_eq j k)) [
  | inl same ↦ rw same (omega (arith, length-put_options (j, v) m, length-put_options (j, w) m))
  | inr other ↦ rw other (
      omega (
        arith,
        length-put_options (j, w) m,
        length-put_options (j, w) (insert k v m),
        length-put_options-insert k v m,
      ))
]

-- The options found so far: within the limits, and no longer than the input that they took.
record Accumulated (room : ℕ) (d : Bytes) (offset left : ℕ) (found : Options) : Type 0 where
  entries : All IsEntry found
  distinct : Distinct found
  count : length found + left ≤ max_options_count
  size : length (put_options found) + (length d - offset) ≤ room

Accumulated-done :
    (room : ℕ) (d : Bytes) (offset left : ℕ) (found m : Options)
    → Accumulated room d offset left found
    → found ≡ m
    → IsOptions room m
Accumulated-done room d offset left found m a same = subst (IsOptions room) same (record {
  entries = a.entries;
  distinct = a.distinct;
  count = omega (arith, a.count);
  size = omega (arith, a.size);
})

Accumulated-next :
    (room : ℕ) (d : Bytes) (offset left : ℕ) (found : Options) (name value : Bytes) (next : ℕ)
    → Accumulated room d offset (suc left) found
    → IsTaken d offset name value next
    → Accumulated room d next left (insert name value found)
Accumulated-next room d offset left found name value next a t = record {
  entries = insert-All IsEntry name value found t.entry a.entries;
  distinct = insert-Distinct name value found a.distinct;
  count = omega (arith, length-insert name value found, a.count);
  size = omega (arith, length-put_options-insert name value found, a.size, t.taken, t.within);
}

parse_options-IsOptions :
    (room : ℕ) (d : Bytes) (offset left : ℕ) (found : Options) {m : Options} {next rest_left : ℕ}
    → Accumulated room d offset left found
    → parse_options d offset left found ≡ some (m, next, rest_left)
    → IsOptions room m
unfolding parse_options
parse_options-IsOptions room d offset zero found {m} a h =
    Accumulated-done room d offset 0 found m a cc
parse_options-IsOptions room d offset (suc left) found {m} {next} {rest_left} a h =
    elim (Bool-cases (ltb offset (length d))) [
      | inl below ↦
          at_step (read_option d offset) refl below (λ name value after.
            parse_options-IsOptions room d after left (insert name value found))
      | inr past ↦ Accumulated-done room d offset (suc left) found m a (ground arith)
    ]
  where
    at_step :
        (step : OptionStep)
        → read_option d offset ≡ step
        → ltb offset (length d) ≡ true
        → ((name value : Bytes) (after : ℕ)
            → Accumulated room d after left (insert name value found)
            → parse_options d after left (insert name value found) ≡ some (m, next, rest_left)
            → IsOptions room m)
        → IsOptions room m
    at_step bad_option e below go_on = absurd (ground arith)
    at_step (no_more after) e below go_on =
        Accumulated-done room d offset (suc left) found m a (ground arith)
    at_step (next_option name value after) e below go_on =
        go_on name value after
          (Accumulated-next room d offset left found name value after a
            (rw e at (read_option-IsStep d offset)))
          (ground arith)

-- The options of an accepted packet.
pub read_options-IsOptions :
    (d : Bytes) (offset : ℕ) {m : Options}
    → read_options d offset ≡ some m
    → IsOptions (length d - offset) m
unfolding read_options
read_options-IsOptions d offset {m} h =
    let ((found, next, left), e, kept) =
      >>=-eq-some (parse_options d offset max_options_count []) (check_count d) h in
    let same : found ≡ m = unfold check_count in ground (arith, kept) in
    let room = length d - offset in
    let start : Accumulated room d offset 16 [] = record {
      entries = tt;
      distinct = tt;
      count = omega arith;
      size = unfold put_options in omega arith;
    } in
    subst (IsOptions room) same (parse_options-IsOptions room d offset 16 [] start e)
