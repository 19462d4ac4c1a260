-- ===== src/Server/Numbers.antt =====
-- `std::stoi` and `std::stoull` as src/internal/tftp_server_impl.cpp uses them, in base 10: leading
-- blanks and a sign are skipped, what follows the digits is ignored, and no digits or a value out
-- of range is an exception, `none`. `size_t` and `unsigned long long` have 64 bits, `int` has 32.
use tftpserver.Prelude.{
  ℕ, ◌+◌, ◌-◌, ◌*◌, ◌%◌, ◌^◌, Bool, true, false, ◌&&◌, ◌||◌, [], ◌∷◌, Option, none, some, Bytes,
  ltb, leb, ◌==◌, if◌then◌else◌,
}
use tftpserver.Prelude.Int.{ℤ, pos, negsuc}

abbrev pub is_digit : ℕ → Bool
is_digit c = leb b'0' c && leb c b'9'

abbrev is_space : ℕ → Bool
is_space c = c == 32 || (leb 9 c && leb c 13)

unfoldable pub skip_spaces : Bytes → Bytes
skip_spaces [] = []
skip_spaces (c ∷ cs) = let rest = skip_spaces cs in if is_space c then rest else c ∷ cs

-- The sign, `true` for a minus, and what follows it.
unfoldable pub take_sign : Bytes → Bool × Bytes
take_sign [] = (false, [])
take_sign (c ∷ cs) =
    if c == b'-' then (true, cs) else if c == b'+' then (false, cs) else (false, c ∷ cs)

unfoldable pub digits_value : ℕ → Bytes → ℕ
digits_value acc [] = acc
digits_value acc (c ∷ cs) =
    let rest = digits_value (acc * 10 + (c - 48)) cs in if is_digit c then rest else acc

abbrev starts_with_digit : Bytes → Bool
starts_with_digit [] = false
starts_with_digit (c ∷ cs) = is_digit c

-- The sign and the magnitude, if there is a digit.
unfoldable pub parse_integer : Bytes → Option (Bool × ℕ)
unfolding skip_spaces take_sign digits_value
parse_integer s =
    let (negative, rest) = take_sign (skip_spaces s) in
    if starts_with_digit rest then some (negative, digits_value 0 rest) else none

unfoldable pub stoi_of : Bool × ℕ → Option ℤ
stoi_of (false, n) = if ltb n (2 ^ 31) then some (pos n) else none
stoi_of (true, n) =
    if n == 0 then some (pos 0) else if leb n (2 ^ 31) then some (negsuc (n - 1)) else none

unfoldable pub stoi : Bytes → Option ℤ
unfolding parse_integer stoi_of
stoi s = elim (parse_integer s) [ none ↦ none | some n ↦ stoi_of n ]

-- A minus negates in the unsigned type.
unfoldable pub stoull_of : Bool × ℕ → Option ℕ
stoull_of (negative, n) =
    if ltb n (2 ^ 64) then some (if negative then (2 ^ 64 - n) % 2 ^ 64 else n) else none

unfoldable pub stoull : Bytes → Option ℕ
unfolding parse_integer stoull_of
stoull s = elim (parse_integer s) [ none ↦ none | some n ↦ stoull_of n ]
