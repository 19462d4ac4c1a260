-- ===== src/Packet/Reader/Entries.antt =====
-- The loop over the options reads back what the writer puts out, entry by entry.
use tftpserver.Prelude.{
  ℕ, zero, suc, ◌+◌, ◌≤◌, ◌<◌, ◌≡◌, refl, ap, false, [], ◌∷◌, ◌++◌, none, some, Bytes, NoNul,
  is_empty, length, drop, arith, append-nil, append_snoc, drop-add, length_of_drop, length-drop,
  All, bytes_eq, bytes_eq_iff,
}
use tftpserver.Common.{max_option_name_length, max_option_value_length}
use tftpserver.Options.{Options, lookup, Distinct}
use tftpserver.Options.Laws.{insert_fresh}
use tftpserver.Packet.Writer.{put_string, put_options}
use tftpserver.Packet.Reader.{
  next_option, read_value, read_option, parse_options, read_options, check_count,
}
use tftpserver.Packet.Strings.{read_string_validated}
use tftpserver.Packet.Strings.Exact.{read_string_validated-run}

-- A string that can be sent in a field of this limit and is not empty.
pub record IsField (max_length : ℕ) (s : Bytes) : Type 0 where
  pub filled : is_empty s ≡ false
  pub no_nul : NoNul s
  pub fits : length s ≤ max_length

abbrev pub IsEntry : Bytes × Bytes → Type 0
IsEntry (name, value) = IsField max_option_name_length name × IsField max_option_value_length value

-- A field at an offset is read, and what follows it stands at the next offset.
pub read_field :
    (d s : Bytes) (offset max_length : ℕ) (rest : Bytes)
    → IsField max_length s
    → drop offset d ≡ put_string s ++ rest
    → (read_string_validated d offset max_length ≡ some (s, offset + length s + 1))
      × (drop (offset + length s + 1) d ≡ rest)
unfolding put_string
read_field d s offset max_length rest f h =
    let at_start : drop offset d ≡ s ++ 0 ∷ rest = rw append_snoc at h in
    (
      read_string_validated-run d s offset max_length rest f.no_nul f.fits at_start,
      drop-add d (0 ∷ []) rest (offset + length s) (drop-add d s (0 ∷ rest) offset at_start),
    )

pub put_string-ne-nil : (s rest : Bytes) → is_empty (put_string s ++ rest) ≡ false
unfolding put_string
put_string-ne-nil [] rest = refl
put_string-ne-nil (c ∷ s) rest = refl

-- Something stands at the offset, so it is below the size.
pub below_of_drop :
    (d rest : Bytes) (offset : ℕ) → drop offset d ≡ rest → is_empty rest ≡ false → offset < length d
below_of_drop d [] offset h e = cc
below_of_drop d (c ∷ rest) offset h e = omega (arith, length_of_drop d rest offset h)

pub past_of_drop : (d : Bytes) (offset : ℕ) → drop offset d ≡ [] → length d ≤ offset
past_of_drop d offset h = omega (arith, length-drop offset d, ap length h)

abbrev entry_end : Bytes → Bytes → ℕ → ℕ
entry_end name value offset = offset + length name + 1 + length value + 1

read_option-run :
    (d name value : Bytes) (offset : ℕ) (rest : Bytes)
    → IsEntry (name, value)
    → drop offset d ≡ put_string name ++ (put_string value ++ rest)
    → (read_option d offset ≡ next_option name value (entry_end name value offset))
      × (drop (entry_end name value offset) d ≡ rest)
unfolding read_option read_value
read_option-run d name value offset rest (n, v) h =
    let (name_read, behind_name) = read_field d name offset max_option_name_length _ n h in
    let next = offset + length name + 1 in
    let (value_read, behind_value) =
      read_field d value next max_option_value_length rest v behind_name in
    let below = below_of_drop d _ next behind_name (put_string-ne-nil value rest) in
    (ground (arith, name_read, value_read, n.filled, v.filled, below), behind_value)

Distinct-lookup :
    (xs : Options) (k v : Bytes) (m : Options) → Distinct (xs ++ (k, v) ∷ m) → lookup k xs ≡ none
unfolding lookup
Distinct-lookup [] k v m d = refl
Distinct-lookup ((j, w) ∷ xs) k v m d =
    ground (arith, Distinct-lookup xs k v m d.1, lookup_other xs d.0)
  where
    lookup_other : (ys : Options) → lookup j (ys ++ (k, v) ∷ m) ≡ none → bytes_eq j k ≡ false
    lookup_other [] e = ground (arith, bytes_eq_iff j k, bytes_eq_iff k j)
    lookup_other ((i, u) ∷ ys) e = ground (arith, lookup_other ys)

-- The entries behind `offset` join those found, and the whole input is used up.
parse_options-run :
    (d : Bytes) (offset left : ℕ) (found m : Options)
    → All IsEntry m
    → Distinct (found ++ m)
    → length m ≤ left
    → drop offset d ≡ put_options m
    → (next rest_left : ℕ) × (parse_options d offset left found
        ≡ some (found ++ m, next, rest_left))
      × (length d ≤ next)
unfolding parse_options put_options
parse_options-run d offset zero found [] a u l h =
    (offset, 0, ground (arith, append-nil found), past_of_drop d offset h)
parse_options-run d offset (suc left) found [] a u l h = (
  offset,
  suc left,
  ground (arith, append-nil found, past_of_drop d offset h),
  past_of_drop d offset h,
)
parse_options-run d offset zero found (e ∷ m) a u l h = absurd (omega arith)
parse_options-run d offset (suc left) found ((name, value) ∷ m) a u l h =
    let (stepped, behind) = read_option-run d name value offset (put_options m) a.0 h in
    let below = below_of_drop d _ offset h (put_string-ne-nil name _) in
    let fresh = insert_fresh name value found (Distinct-lookup found name value m u) in
    let (next, rest_left, e, past) =
      parse_options-run d (entry_end name value offset) left (found ++ (name, value) ∷ []) m a.1
        (rw append_snoc u) (omega arith) behind in
    (
      next,
      rest_left,
      ground (arith, stepped, below, fresh, append_snoc found (name, value) m, e),
      past,
    )

check_count_past :
    (d : Bytes) (m : Options) (next rest_left : ℕ)
    → length d ≤ next
    → check_count d (m, next, rest_left) ≡ some m
unfolding check_count
check_count_past d m next rest_left h = ground arith

-- All the options are read back, in the order in which they were put.
pub read_options-put_options :
    (d : Bytes) (offset : ℕ) (m : Options)
    → All IsEntry m
    → Distinct m
    → length m ≤ 16
    → drop offset d ≡ put_options m
    → read_options d offset ≡ some m
unfolding read_options
read_options-put_options d offset m a u l h =
    let (next, rest_left, e, past) = parse_options-run d offset 16 [] m a u l h in
    rw e (check_count_past d m next rest_left past)
