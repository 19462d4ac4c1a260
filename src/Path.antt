-- ===== src/Path.antt =====
-- src/tftp_util.cpp, in the build for other systems than Windows. `std::filesystem` asks the
-- operating system: `absolute`, `weakly_canonical` and `relative` are parameters, and `none` is an
-- exception of theirs.
pub mod Secure
pub mod Contained
pub mod Places
pub mod Described
use tftpserver.Prelude.{
  ℕ, Bool, true, false, not, ◌&&◌, ◌||◌, List, [], ◌∷◌, ◌++◌, Option, none, some, Bytes, is_empty,
  codes, if◌then◌else◌, ◌==◌,
}
use tftpserver.Prelude.Maybe.{◌>>=◌, ◌>>◌, guard, >>=-eq-some}
use tftpserver.Prelude.Search.{contains, contains_char, has_prefix}

pub record FileSystem : Type 0 where
  pub absolute : Bytes → Option Bytes
  pub weakly_canonical : Bytes → Option Bytes
  pub relative : Bytes → Bytes → Option Bytes

abbrev pub begins_with : ℕ → Bytes → Bool
begins_with c [] = false
begins_with c (d ∷ s) = d == c

abbrev pub ends_with : ℕ → Bytes → Bool
ends_with c [] = false
ends_with c (d ∷ []) = d == c
ends_with c (d ∷ e ∷ s) = ends_with c (e ∷ s)

-- `root / path` of two paths.
unfoldable pub join : Bytes → Bytes → Bytes
join root path =
    if begins_with b'/' path
    then path
    else if is_empty root || ends_with b'/' root
    then root ++ path
    else root ++ (b'/' ∷ path)

abbrev pub dangerous_patterns : List Bytes
dangerous_patterns =
    codes ".."
    ∷ codes "..\\"
    ∷ codes "../"
    ∷ codes "\\..\\"
    ∷ codes "/.."
    ∷ codes ".\\"
    ∷ codes "./"
    ∷ codes "\\.\\"
    ∷ codes "/./"
    ∷ codes "~"
    ∷ codes "$"
    ∷ codes "%"
    ∷ codes "<"
    ∷ codes ">"
    ∷ codes "|"
    ∷ codes "?"
    ∷ codes "*"
    ∷ []

-- The loop over the patterns.
unfoldable pub is_dangerous : List Bytes → Bytes → Bool
is_dangerous [] path = false
is_dangerous (pattern ∷ patterns) path =
    let rest = is_dangerous patterns path in if contains pattern path then true else rest

-- The separator that the root ends with for the comparison.
unfoldable pub with_separator : Bytes → Bytes
with_separator root =
    if not (is_empty root) && not (ends_with b'/' root) then root ++ (b'/' ∷ []) else root

-- The part that asks the file system; `none` is a return of false, from the tests or the handlers.
unfoldable pub check_target : FileSystem → Bytes → Bytes → Option (Unit {0})
check_target fs path root_dir = do
  root_path ← fs.absolute root_dir
  canonical_root ← fs.weakly_canonical root_path
  canonical_target ← fs.weakly_canonical (join root_path path)
  guard (has_prefix (with_separator canonical_root) canonical_target)
  relative_path ← fs.relative canonical_target canonical_root
  guard (not (contains (codes "..") relative_path))

unfoldable pub is_path_secure : FileSystem → Bytes → Bytes → Bool
is_path_secure fs path root_dir =
    if is_empty path || is_empty root_dir
    then false
    else if contains_char 0 path
    then false
    else if begins_with b'/' path
    then false
    else if is_dangerous dangerous_patterns path
    then false
    else elim (check_target fs path root_dir) [ none ↦ false | some _ ↦ true ]

unfoldable pub normalize_path : FileSystem → Bytes → Bytes
normalize_path fs path =
    if is_empty path
    then path
    else if contains_char 0 path
    then []
    else elim (fs.weakly_canonical path) [ none ↦ [] | some normalized ↦ normalized ]
