-- ===== src/Validation/Hosts.antt =====
-- Hosts in the dotted form of an address.
use tftpserver.Prelude.{
  ℕ, ◌≤◌, ◌≡◌, ◌↔◌, refl, ap, ◌∙◌, true, false, ◌&&◌, ◌||◌, List, [], ◌∷◌, ◌++◌, some, Bytes, NoNul,
  All-append, is_empty, length, length-append, arith, ltb, leb, ◌==◌, ◌^◌, Bool-cases, inl, inr,
}
use tftpserver.Prelude.Int.{pos}
use tftpserver.Prelude.Search.{contains_char_iff}
use tftpserver.Server.Numbers.{
  is_digit, skip_spaces, take_sign, digits_value, parse_integer, stoi_of, stoi,
}
use tftpserver.Validation.{
  split_dots, all_digits, is_octet_text, is_dotted_quad, octets_in_range, validate_host,
}

-- One to three digits.
abbrev pub IsOctetText : Bytes → Type 0
IsOctetText s = is_octet_text s ≡ true

split_dots-last : (s : Bytes) → all_digits s ≡ true → split_dots s ≡ s ∷ []
unfolding split_dots
split_dots-last [] h = refl
split_dots-last (c ∷ s) h =
    let ih = split_dots-last s (ground (arith, h)) in rw ih (ground (arith, h))

-- The pieces are never none.
split_dots-filled :
    (s : Bytes) → (piece : Bytes) × (pieces : List Bytes) × (split_dots s ≡ piece ∷ pieces)
unfolding split_dots
split_dots-filled [] = ([], [], refl)
split_dots-filled (c ∷ s) =
    let (piece, pieces, e) = split_dots-filled s in
    elim (Bool-cases (c == b'.')) [
      | inl dot ↦ ([], piece ∷ pieces, rw (e, dot) refl)
      | inr other ↦ (c ∷ piece, pieces, rw (e, other) refl)
    ]

split_dots-piece :
    (s rest : Bytes) → all_digits s ≡ true → split_dots (s ++ b'.' ∷ rest) ≡ s ∷ split_dots rest
unfolding split_dots
split_dots-piece [] rest h = let (piece, pieces, e) = split_dots-filled rest in rw e refl
split_dots-piece (c ∷ s) rest h =
    let ih = split_dots-piece s rest (ground (arith, h)) in rw ih (ground (arith, h))

parse_integer-digit :
    (a : ℕ) (s : Bytes)
    → is_digit a ≡ true
    → parse_integer (a ∷ s) ≡ some (false, digits_value 0 (a ∷ s))
unfolding parse_integer skip_spaces take_sign
parse_integer-digit a s h =
    let no_space : (a == 32 || (leb 9 a && leb a 13)) ≡ false = ground (arith, h) in
    let no_minus : (a == b'-') ≡ false = ground (arith, h) in
    let no_plus : (a == b'+') ≡ false = ground (arith, h) in
    rw (no_space, no_minus, no_plus, h) refl

digits_value-small : (s : Bytes) → IsOctetText s → digits_value 0 s ≤ 999
unfolding digits_value
digits_value-small [] h = omega arith
digits_value-small (a ∷ []) h = ground (arith, h)
digits_value-small (a ∷ b ∷ []) h = ground (arith, h)
digits_value-small (a ∷ b ∷ c ∷ []) h = ground (arith, h)
digits_value-small (a ∷ b ∷ c ∷ d ∷ s) h = absurd (too_long h)
  where
    too_long : IsOctetText (a ∷ b ∷ c ∷ d ∷ s) → ⊥
    too_long h = ground (arith, h)

stoi-octet : (s : Bytes) → IsOctetText s → stoi s ≡ some (pos (digits_value 0 s))
unfolding stoi stoi_of
stoi-octet [] h = cc
stoi-octet (a ∷ s) h =
    let digit : is_digit a ≡ true = ground (arith, h) in
    let small : ltb (digits_value 0 (a ∷ s)) (2 ^ 31) ≡ true =
      ground (arith, digits_value-small (a ∷ s) h) in
    rw (stoi, parse_integer-digit a s digit, stoi_of, small) refl

-- A text in the form of an octet, and its value.
octets_in_range-octet :
    (s : Bytes) (rest : List Bytes)
    → IsOctetText s
    → (octets_in_range (s ∷ rest) ≡ true)
      ↔ ((digits_value 0 s ≤ 255) × (octets_in_range rest ≡ true))
unfolding octets_in_range
octets_in_range-octet s rest o = rw (octets_in_range, stoi-octet s o) (ground arith)

octet-digits : (s : Bytes) → IsOctetText s → all_digits s ≡ true
octet-digits s o = ground (arith, o)

digits-NoNul : (s : Bytes) → all_digits s ≡ true → NoNul s
digits-NoNul [] h = tt
digits-NoNul (c ∷ s) h = (ground (arith, h), digits-NoNul s (ground (arith, h)))

length-octet : (s : Bytes) → IsOctetText s → (1 ≤ length s) × (length s ≤ 3)
length-octet s o = (ground (arith, o), ground (arith, o))

piece-NoNul : (s rest : Bytes) → NoNul s → NoNul rest → NoNul (s ++ b'.' ∷ rest)
piece-NoNul s rest h h' = All-append _ s (b'.' ∷ rest) h (λ e. cc, h')

piece-filled : (s rest : Bytes) → is_empty (s ++ b'.' ∷ rest) ≡ false
piece-filled [] rest = refl
piece-filled (c ∷ s) rest = refl

abbrev pub dotted : Bytes → Bytes → Bytes → Bytes → Bytes
dotted a b c d = a ++ b'.' ∷ (b ++ b'.' ∷ (c ++ b'.' ∷ d))

module _ (a b c d : Bytes) (oa : IsOctetText a) (ob : IsOctetText b) (oc : IsOctetText c)
    (od : IsOctetText d) where
  split_dots-dotted : split_dots (dotted a b c d) ≡ a ∷ b ∷ c ∷ d ∷ []
  split_dots-dotted =
      split_dots-piece a _ (octet-digits a oa)
      ∙ ap (λ r. a ∷ r)
          (split_dots-piece b _ (octet-digits b ob)
            ∙ ap (λ r. b ∷ r)
                (split_dots-piece c d (octet-digits c oc)
                  ∙ ap (λ r. c ∷ r) (split_dots-last d (octet-digits d od))))

  dotted-NoNul : NoNul (dotted a b c d)
  dotted-NoNul = piece-NoNul a _ (digits-NoNul a (octet-digits a oa)) (
      piece-NoNul b _ (digits-NoNul b (octet-digits b ob))
        (piece-NoNul c d (digits-NoNul c (octet-digits c oc)) (digits-NoNul d (octet-digits d od))))

  length-dotted : length (dotted a b c d) ≤ 15
  length-dotted = omega (
    arith,
    length-append a (b'.' ∷ (b ++ b'.' ∷ (c ++ b'.' ∷ d))),
    length-append b (b'.' ∷ (c ++ b'.' ∷ d)),
    length-append c (b'.' ∷ d),
    length-octet a oa,
    length-octet b ob,
    length-octet c oc,
    length-octet d od,
  )

  octets-dotted : (octets_in_range (a ∷ b ∷ c ∷ d ∷ []) ≡ true) ↔ (
      (digits_value 0 a ≤ 255)
      × (digits_value 0 b ≤ 255)
      × (digits_value 0 c ≤ 255)
      × (digits_value 0 d ≤ 255))
  unfolding octets_in_range
  octets-dotted = ground (
    arith,
    octets_in_range-octet a (b ∷ c ∷ d ∷ []) oa,
    octets_in_range-octet b (c ∷ d ∷ []) ob,
    octets_in_range-octet c (d ∷ []) oc,
    octets_in_range-octet d [] od,
  )

  -- A host of four texts of one to three digits, with dots between them, is accepted just if none of the
  -- four numbers is above 255.
  pub validate_host-dotted : (validate_host (dotted a b c d) ≡ true) ↔ (
      (digits_value 0 a ≤ 255)
      × (digits_value 0 b ≤ 255)
      × (digits_value 0 c ≤ 255)
      × (digits_value 0 d ≤ 255))
  unfolding validate_host is_dotted_quad
  validate_host-dotted =
      let filled = piece-filled a (b ++ b'.' ∷ (c ++ b'.' ∷ d)) in
      let short : ltb 253 (length (dotted a b c d)) ≡ false = ground (arith, length-dotted) in
      let clean = (contains_char_iff (dotted a b c d)).1 dotted-NoNul in
      rw (filled, short, clean, split_dots-dotted, oa, ob, oc, od) octets-dotted
