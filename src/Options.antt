-- ===== src/Options.antt =====
-- `options_` of include/tftp/tftp_packet.h, a `std::unordered_map<std::string, std::string>`: the
-- entries, each key once. The order in which a map is walked is not the program's: it is a
-- parameter that rearranges the entries.
pub mod Laws
pub mod Order
use mathlib.Core.List.{Permᴰ}
use tftpserver.Prelude.{
  ◌≡◌, Bool, true, false, List, [], ◌∷◌, Option, none, some, Bytes, bytes_eq, if◌then◌else◌,
}

abbrev pub Options : Type 0
Options = List (Bytes × Bytes)

-- `find(name)`
unfoldable pub lookup : Bytes → Options → Option Bytes
lookup k [] = none
lookup k ((j, v) ∷ m) = if bytes_eq j k then some v else lookup k m

-- `options[name] = value`
unfoldable pub insert : Bytes → Bytes → Options → Options
insert k v [] = (k, v) ∷ []
insert k v ((j, w) ∷ m) = if bytes_eq j k then (j, v) ∷ m else (j, w) ∷ insert k v m

-- No key occurs twice.
abbrev pub Distinct : Options → Type 0
Distinct [] = Unit
Distinct ((k, v) ∷ m) = (lookup k m ≡ none) × Distinct m

-- The walk `for (const auto& option : options_)`: each entry once, in some order.
pub record HashOrder : Type 0 where
  pub walk : Options → Options
  pub walk_perm : (m : Options) → Permᴰ (walk m) m
